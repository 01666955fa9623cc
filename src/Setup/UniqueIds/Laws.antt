-- ===== src/Setup/UniqueIds/Laws.antt =====
-- What the migration of unique ids leaves, in any registry that removes and renames entities.
use ha_sophos_fw.Prelude.{
  String, ◌≡◌, refl, inl, inr, true, not, List, [], ◌∷◌, ◌++◌, map, arith, ◌==◌, Bool-cases,
  is_some, keep_if, any_of, all_of,
}
use ha_sophos_fw.Text.{drop_prefix}
use ha_sophos_fw.Setup.UniqueIds.{
  RegEntry, Registry, Decision, leave, rename_to, drop, decide, Planned, plan_of, current_first,
  plan_all, dropped, apply_one, apply_all, migrate,
}
use ha_sophos_fw.Setup.UniqueIds.Pending.{
  is_new, with_uid, same, Pending, Pending-self, Pending-leave, Pending-remove, Pending-rename,
  decide_leave, leave_new, entries_of, AllNew, any-append, Pending-mono, swap, join, AllNew-of,
  any-current_first, AllNew-current_first, none-Pending,
}

-- What is documented of the entity registry: removing an entity takes it from the list of the entry's
-- entities, and changing its unique id changes nothing else.
pub record RegistryLaws {R : Type 0} (registry : Registry R) : Type 0 where
  pub entries-remove :
      (id : String) (r : R)
      → registry.entries (registry.remove id r)
        ≡ keep_if (λ e. not (e.entity_id == id)) (registry.entries r)
  pub entries-rename :
      (id uid : String) (r : R)
      → registry.entries (registry.rename id uid r) ≡ map (with_uid id uid) (registry.entries r)

module _ {R : Type 0} (registry : Registry R) (laws : RegistryLaws registry) (prefix : String) where
  IsPending : List RegEntry → R → Type 0
  IsPending todo r = Pending prefix todo (registry.entries r)

  dropped_step :
      (d : Decision) (current : String) (e : RegEntry) (todo : List RegEntry) (r : R)
      → decide prefix current e.unique_id ≡ d
      → IsPending (e ∷ todo) r
      → IsPending (entries_of (plan_of d e) ++ todo) (dropped registry d e r)
  unfolding IsPending entries_of plan_of dropped
  dropped_step leave current e todo r is h =
      Pending-leave prefix e todo (registry.entries r)
        (unfold is_new in decide_leave prefix current e.unique_id is) h
  dropped_step (rename_to b new) current e todo r is h = h
  dropped_step drop current e todo r is h =
      rw (laws.entries-remove e.entity_id r) (Pending-remove prefix e todo (registry.entries r) h)

  IsPending-mono :
      (todo more : List RegEntry) (r : R)
      → ((x : RegEntry) → any_of (same x) todo ≡ true → any_of (same x) more ≡ true)
      → IsPending todo r
      → IsPending more r
  unfolding IsPending
  IsPending-mono todo more r sub h = Pending-mono prefix todo more (registry.entries r) sub h

  plan_all-IsPending :
      (current : String) (es acc : List RegEntry) (r : R)
      → IsPending (es ++ acc) r
      → let (plan, r') = plan_all registry prefix current es r in
        IsPending (entries_of plan ++ acc) r'
  unfolding plan_all entries_of
  plan_all-IsPending current [] acc r h = h
  plan_all-IsPending current (e ∷ es) acc r h =
      let d = decide prefix current e.unique_id in
      let now = entries_of (plan_of d e) in
      let r1 = dropped registry d e r in
      let (plan, r') = plan_all registry prefix current es r1 in
      let stepped =
        IsPending-mono (now ++ (es ++ acc)) (es ++ (now ++ acc)) r1 (λ x m. swap x now es acc m)
          (dropped_step d current e (es ++ acc) r refl h) in
      IsPending-mono (entries_of plan ++ (now ++ acc)) (entries_of (plan_of d e ++ plan) ++ acc) r'
        (λ x m. join x (plan_of d e) plan acc m)
        (plan_all-IsPending current es (now ++ acc) r1 stepped)

  -- A planned step leaves one entity less to look at.
  apply_one-IsPending :
      (p : Planned) (todo : List RegEntry) (r : R)
      → is_some (drop_prefix prefix p.new_uid) ≡ true
      → IsPending (p.entry ∷ todo) r
      → IsPending todo (apply_one registry p r)
  unfolding apply_one IsPending
  apply_one-IsPending p todo r new h =
      elim (Bool-cases (registry.find r p.entry.domain p.new_uid)) [
        | inl taken ↦
            rw (taken, laws.entries-remove p.entry.entity_id r)
              (Pending-remove prefix p.entry todo (registry.entries r) h)
        | inr free ↦
            rw (free, laws.entries-rename p.entry.entity_id p.new_uid r)
              (Pending-rename prefix p.new_uid p.entry todo (registry.entries r) new h)
      ]

  apply_all-IsPending :
      (ps : List Planned) (r : R)
      → AllNew prefix ps
      → IsPending (entries_of ps) r
      → IsPending [] (apply_all registry ps r)
  unfolding apply_all entries_of AllNew
  apply_all-IsPending [] r new h = h
  apply_all-IsPending (p ∷ ps) r new h =
      apply_all-IsPending ps (apply_one registry p r) new.1
        (apply_one-IsPending p (entries_of ps) r new.0 h)

  plan_all-AllNew :
      (current : String) (es : List RegEntry) (r : R)
      → AllNew prefix (plan_all registry prefix current es r).0
  unfolding plan_all
  plan_all-AllNew current [] r = unfold AllNew in tt
  plan_all-AllNew current (e ∷ es) r =
      let d = decide prefix current e.unique_id in
      AllNew-of prefix d current e (plan_all registry prefix current es (dropped registry d e r)).0
        refl (plan_all-AllNew current es (dropped registry d e r))

  -- After the migration every entity of the config entry has a unique id of the new form: the others
  -- were renamed or removed.
  pub all_new-migrate :
      (current : String) (r : R)
      → all_of (is_new prefix) (registry.entries (migrate registry prefix current r)) ≡ true
  unfolding migrate
  all_new-migrate current r =
      let es = registry.entries r in
      let (plan, r1) = plan_all registry prefix current es r in
      let start : IsPending (es ++ []) r =
        unfold IsPending in
        Pending-self prefix (es ++ []) es (λ x m. ground (arith, m, any-append (same x) es [])) in
      let planned = plan_all-IsPending current es [] r start in
      let sorted =
        IsPending-mono (entries_of plan ++ []) (entries_of (current_first plan)) r1
          (λ x m.
            ground (arith, m, any-append (same x) (entries_of plan) [], any-current_first x plan))
          planned in
      none-Pending prefix _ (
        unfold IsPending in
        apply_all-IsPending (current_first plan) r1
          (AllNew-current_first prefix plan (plan_all-AllNew current es r)) sorted)

  nothing_planned :
      (current : String) (es : List RegEntry) (r : R)
      → all_of (is_new prefix) es ≡ true
      → plan_all registry prefix current es r ≡ ([], r)
  unfolding plan_all is_new
  nothing_planned current [] r h = refl
  nothing_planned current (e ∷ es) r h =
      let new : is_some (drop_prefix prefix e.unique_id) ≡ true = ground arith in
      let rest : all_of (is_new prefix) es ≡ true = ground arith in
      rw (leave_new prefix current e.unique_id new) (nothing_planned current es r rest)

  -- Migrating a second time changes nothing, whatever the address then is.
  pub migrate_idem :
      (current other : String) (r : R)
      → migrate registry prefix other (migrate registry prefix current r)
        ≡ migrate registry prefix current r
  migrate_idem current other r =
      let r' = migrate registry prefix current r in
      unfold migrate apply_all in
      rw (nothing_planned other (registry.entries r') r' (all_new-migrate current r)) refl

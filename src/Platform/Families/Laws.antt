-- ===== src/Platform/Families/Laws.antt =====
-- Families of a call do not disturb each other, nor entities that are none of theirs.
use ha_sophos_fw.Prelude.{
  ℕ, String, ◌≡◌, refl, ◌∙◌, inl, inr, Bool, true, false, not, ◌&&◌, ◌||◌, Option, none, some, List,
  [], ◌∷◌, ◌++◌, arith, ◌==◌, leb, Bool-cases, Option-cases, all_of, contains,
}
use ha_sophos_fw.Text.{starts_with}
use ha_sophos_fw.Setup.UniqueIds.{RegEntry}
use ha_sophos_fw.Entity.{Family, Tracker, new_items, count_empty, confirm}
use ha_sophos_fw.Entity.Removal.{contains-confirm, not_nil}
use ha_sophos_fw.Platform.{build_unique_id, registered_suffixes, holds}
use ha_sophos_fw.Platform.Laws.{holds-remove_stale_entities}
use ha_sophos_fw.Platform.Families.{
  Member, Coordinator, Shared, Turn, done, key_error, Run, tracker_of, put_tracker, clean,
  clean_empty, turn, sync_member, sync_all, registry_of, after_turn,
}

left : Turn → List RegEntry → List RegEntry
left (done t registry added) before = registry
left (key_error t) before = before

-- Whether a family that gives these items leaves the suffix alone.
abbrev pub spares_items : Option (List String) → String → Bool
spares_items none s = true
spares_items (some items) s = contains items s

-- Whether a family's turn leaves the suffix alone: it is not of the family, the family's endpoint is not
-- available or was never fetched, or the family reports it.
unfoldable pub spares :
    {D : Type 0} → String → Coordinator D → D → String → String → Member D → Bool
spares domain c contents d s m =
    not (d == domain && starts_with s m.prefix)
    || not (c.available m.endpoint)
    || spares_items (m.items contents) s

module _ (entry_id domain : String) where
  module _ (prefix : String) (family : Family) (fetched : Option ℕ) (items : List String)
      (d s : String) where
    kept-clean :
        (remove_all : Bool) (added : List String) (registry : List RegEntry) (t : Tracker)
        → (not (d == domain && starts_with s prefix) || (contains items s && not remove_all)) ≡ true
        → holds d (build_unique_id entry_id s) (
            left
              (clean entry_id domain prefix family fetched items remove_all added registry t)
              registry)
          ≡ holds d (build_unique_id entry_id s) registry
    unfolding clean left
    kept-clean remove_all added registry t h =
        let registered = registered_suffixes entry_id domain prefix registry in
        let current = (confirm family registered items fetched t).1 in
        ground (
          arith,
          h,
          holds-remove_stale_entities entry_id domain prefix current remove_all registry d s,
          contains-confirm family registered items fetched t s,
          not_nil current s,
        )

    kept-clean_empty :
        (streak : Option ℕ) (added : List String) (registry : List RegEntry) (t : Tracker)
        → (d == domain && starts_with s prefix) ≡ false
        → holds d (build_unique_id entry_id s) (
            left
              (clean_empty entry_id domain prefix family fetched items streak added registry t)
              registry)
          ≡ holds d (build_unique_id entry_id s) registry
    unfolding clean_empty left
    kept-clean_empty none added registry t h = refl
    kept-clean_empty (some n) added registry t h =
        unfold left in kept-clean (leb 3 n) added registry t (ground (arith, h))

    kept-turn :
        (registry : List RegEntry) (t : Tracker)
        → (not (d == domain && starts_with s prefix) || contains items s) ≡ true
        → holds d
            (build_unique_id entry_id s)
            (left (turn entry_id domain prefix family fetched items registry t) registry)
          ≡ holds d (build_unique_id entry_id s) registry
    unfolding turn left
    kept-turn registry t h =
        let added = new_items t.known items in
        let t' = record t { known = t.known ++ added } in
        let counted = count_empty fetched t' in
        ground (
          arith,
          h,
          not_nil items s,
          kept-clean_empty counted.empty_streak added registry counted,
          kept-clean false added registry (record t' { empty_streak = none }),
        )

  module _ {D : Type 0} (c : Coordinator D) (contents : D) (d s : String) where
    kept-sync_member :
        (m : Member D) (registry : List RegEntry) (t : Tracker)
        → spares domain c contents d s m ≡ true
        → holds d
            (build_unique_id entry_id s)
            (left (sync_member entry_id domain c contents m registry t) registry)
          ≡ holds d (build_unique_id entry_id s) registry
    unfolding sync_member spares left
    kept-sync_member m registry t h = elim (Bool-cases (c.available m.endpoint)) [
      | inr off ↦ rw off refl
      | inl on ↦ elim (Option-cases (m.items contents)) [
        | inl p ↦ rw (on, p) refl
        | inr (items, p) ↦
            rw (on, p)
              (unfold left in
                kept-turn m.prefix m.family (c.fetched_at m.endpoint) items d s registry t
                  (ground (arith, h, on, p)))
      ]
    ]

    kept-after_turn :
        (prefix : String) (go : Shared → List RegEntry → List String → Run) (sh : Shared)
        (registry : List RegEntry) (new : List String)
        → ((sh' : Shared) (registry' : List RegEntry) (new' : List String)
            → holds d (build_unique_id entry_id s) (registry_of (go sh' registry' new'))
              ≡ holds d (build_unique_id entry_id s) registry')
        → (result : Turn)
        → holds d (build_unique_id entry_id s) (left result registry)
          ≡ holds d (build_unique_id entry_id s) registry
        → holds d
            (build_unique_id entry_id s)
            (registry_of (after_turn entry_id domain c prefix go sh registry new result))
          ≡ holds d (build_unique_id entry_id s) registry
    unfolding after_turn registry_of left
    kept-after_turn prefix go sh registry new rec (done t registry' added) h =
        rec (put_tracker prefix t sh) registry' (new ++ added) ∙ h
    kept-after_turn prefix go sh registry new rec (key_error t) h = refl

    -- Families whose turns leave a suffix alone leave its entity registered.
    pub holds-sync_all :
        (ms : List (Member D)) (sh : Shared) (registry : List RegEntry) (new : List String)
        → all_of (spares domain c contents d s) ms ≡ true
        → holds d
            (build_unique_id entry_id s)
            (registry_of (sync_all entry_id domain c contents ms sh registry new))
          ≡ holds d (build_unique_id entry_id s) registry
    unfolding sync_all registry_of
    holds-sync_all [] sh registry new h = refl
    holds-sync_all (m ∷ ms) sh registry new h =
        let rest : all_of (spares domain c contents d s) ms ≡ true = ground (arith, h) in
        kept-after_turn m.prefix (sync_all entry_id domain c contents ms) sh registry new
          (λ sh' registry' new'. holds-sync_all ms sh' registry' new' rest)
          (sync_member entry_id domain c contents m registry (tracker_of m.prefix sh))
          (kept-sync_member m registry (tracker_of m.prefix sh) (ground (arith, h)))

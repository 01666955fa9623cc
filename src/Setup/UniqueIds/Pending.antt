-- ===== src/Setup/UniqueIds/Pending.antt =====
-- The entities that the migration of unique ids still has to look at.
use mathlib.Core.List.{append-nil}
use ha_sophos_fw.Prelude.{
  String, ◌≡◌, refl, ap, inl, inr, Bool, true, not, ◌&&◌, ◌||◌, List, [], ◌∷◌, ◌++◌, map, arith,
  ◌==◌, eq_iff, eq_refl, if◌then◌else◌, Bool-cases, Option-cases, is_some, keep_if, any_of, all_of,
  All,
}
use ha_sophos_fw.Text.{drop_prefix}
use ha_sophos_fw.Text.Laws.{drop_prefix-append}
use ha_sophos_fw.Setup.Pattern.{v1_suffix}
use ha_sophos_fw.Setup.UniqueIds.{
  RegEntry, Decision, leave, rename_to, drop, decide, Planned, plan_of, current_first,
}

unfoldable pub is_new : String → RegEntry → Bool
is_new prefix e = is_some (drop_prefix prefix e.unique_id)

unfoldable pub with_uid : String → String → RegEntry → RegEntry
with_uid id uid e = if e.entity_id == id then record e { unique_id = uid } else e

unfoldable pub same : RegEntry → RegEntry → Bool
same x e = x.entity_id == e.entity_id && x.unique_id == e.unique_id

-- Every entity has a new unique id or is one of those still to be looked at.
unfoldable pub Pending : String → List RegEntry → List RegEntry → Type 0
Pending prefix todo l = all_of (λ x. is_new prefix x || any_of (same x) todo) l ≡ true

pub Pending-self :
    (prefix : String) (todo l : List RegEntry)
    → ((x : RegEntry) → any_of (same x) l ≡ true → any_of (same x) todo ≡ true)
    → Pending prefix todo l
unfolding Pending same
Pending-self prefix todo [] h = refl
Pending-self prefix todo (e ∷ l) h = ground (
  arith,
  eq_refl e.entity_id,
  eq_refl e.unique_id,
  h e,
  Pending-self prefix todo l (λ x m. h x (ground (arith, m))),
)

pub Pending-leave :
    (prefix : String) (e : RegEntry) (todo l : List RegEntry)
    → is_new prefix e ≡ true
    → Pending prefix (e ∷ todo) l
    → Pending prefix todo l
unfolding Pending same is_new
Pending-leave prefix e todo [] new h = refl
Pending-leave prefix e todo (x ∷ l) new h = ground (
  arith,
  eq_iff x.unique_id e.unique_id,
  ap (drop_prefix prefix),
  Pending-leave prefix e todo l new,
)

pub Pending-remove :
    (prefix : String) (e : RegEntry) (todo l : List RegEntry)
    → Pending prefix (e ∷ todo) l
    → Pending prefix todo (keep_if (λ x. not (x.entity_id == e.entity_id)) l)
unfolding Pending same
Pending-remove prefix e todo [] h = refl
Pending-remove prefix e todo (x ∷ l) h = ground (arith, Pending-remove prefix e todo l)

pub Pending-rename :
    (prefix uid : String) (e : RegEntry) (todo l : List RegEntry)
    → is_some (drop_prefix prefix uid) ≡ true
    → Pending prefix (e ∷ todo) l
    → Pending prefix todo (map (with_uid e.entity_id uid) l)
unfolding Pending same is_new with_uid
Pending-rename prefix uid e todo [] new h = refl
Pending-rename prefix uid e todo (x ∷ l) new h =
    ground (arith, Pending-rename prefix uid e todo l new)

pub decide_leave :
    (prefix current uid : String)
    → decide prefix current uid ≡ leave
    → is_some (drop_prefix prefix uid) ≡ true
unfolding decide
decide_leave prefix current uid h = ground arith

pub leave_new :
    (prefix current uid : String)
    → is_some (drop_prefix prefix uid) ≡ true
    → decide prefix current uid ≡ leave
unfolding decide
leave_new prefix current uid h = ground arith

pub decide_rename :
    (prefix current uid : String) (b : Bool) (new : String)
    → decide prefix current uid ≡ rename_to b new
    → is_some (drop_prefix prefix new) ≡ true
unfolding decide
decide_rename prefix current uid b new h = elim (Option-cases (drop_prefix current uid)) [
  | inr (s, p) ↦ ground (arith, p, drop_prefix-append prefix s)
  | inl p ↦ elim (Option-cases (v1_suffix uid)) [
    | inr (s, q) ↦ ground (arith, p, q, drop_prefix-append prefix s)
    | inl q ↦ ground (arith, p, q)
  ]
]

unfoldable pub entries_of : List Planned → List RegEntry
entries_of = map (λ p. p.entry)

-- Every planned unique id is a new one.
unfoldable pub AllNew : String → List Planned → Type 0
AllNew prefix = All (λ p. is_some (drop_prefix prefix p.new_uid) ≡ true)

pub any-append :
    (p : RegEntry → Bool) (l m : List RegEntry) → any_of p (l ++ m) ≡ (any_of p l || any_of p m)
any-append p [] m = refl
any-append p (x ∷ l) m = ground (arith, any-append p l m)

-- What is pending among one list is pending among another with the same members.
pub Pending-mono :
    (prefix : String) (todo more l : List RegEntry)
    → ((x : RegEntry) → any_of (same x) todo ≡ true → any_of (same x) more ≡ true)
    → Pending prefix todo l
    → Pending prefix more l
unfolding Pending
Pending-mono prefix todo more [] sub h = refl
Pending-mono prefix todo more (x ∷ l) sub h =
    ground (arith, sub x, Pending-mono prefix todo more l sub)

pub entries-append : (ps qs : List Planned) → entries_of (ps ++ qs) ≡ entries_of ps ++ entries_of qs
unfolding entries_of
entries-append [] qs = refl
entries-append (p ∷ ps) qs = ap (◌∷◌ p.entry) (entries-append ps qs)

pub swap :
    (x : RegEntry) (a b c : List RegEntry)
    → any_of (same x) (a ++ (b ++ c)) ≡ true
    → any_of (same x) (b ++ (a ++ c)) ≡ true
swap x a b c m = ground (
  arith,
  any-append (same x) a (b ++ c),
  any-append (same x) b c,
  any-append (same x) b (a ++ c),
  any-append (same x) a c,
)

pub join :
    (x : RegEntry) (ps qs : List Planned) (acc : List RegEntry)
    → any_of (same x) (entries_of qs ++ (entries_of ps ++ acc)) ≡ true
    → any_of (same x) (entries_of (ps ++ qs) ++ acc) ≡ true
join x ps qs acc m = rw (entries-append ps qs) (
    ground (
      arith,
      any-append (same x) (entries_of qs) (entries_of ps ++ acc),
      any-append (same x) (entries_of ps) acc,
      any-append (same x) (entries_of ps ++ entries_of qs) acc,
      any-append (same x) (entries_of ps) (entries_of qs),
    ))

pub AllNew-of :
    (prefix : String) (d : Decision) (current : String) (e : RegEntry) (ps : List Planned)
    → decide prefix current e.unique_id ≡ d
    → AllNew prefix ps
    → AllNew prefix (plan_of d e ++ ps)
unfolding plan_of AllNew
AllNew-of prefix leave current e ps is h = h
AllNew-of prefix drop current e ps is h = h
AllNew-of prefix (rename_to b new) current e ps is h =
    (decide_rename prefix current e.unique_id b new is, h)

pub any-split :
    (q : RegEntry → Bool) (p : Planned → Bool) (ps : List Planned)
    → (any_of q (entries_of (keep_if p ps)) || any_of q (entries_of (keep_if (λ x. not (p x)) ps)))
      ≡ any_of q (entries_of ps)
unfolding entries_of
any-split q p [] = refl
any-split q p (x ∷ ps) = ground (arith, any-split q p ps)

pub any-current_first :
    (x : RegEntry) (ps : List Planned)
    → any_of (same x) (entries_of (current_first ps)) ≡ any_of (same x) (entries_of ps)
unfolding current_first
any-current_first x ps =
    let early = keep_if (λ (p : Planned). p.is_current) ps in
    let late = keep_if (λ (p : Planned). not p.is_current) ps in
    rw (entries-append early late, any-append (same x) (entries_of early) (entries_of late))
      (any-split (same x) (λ p. p.is_current) ps)

pub AllNew-keep_if :
    (prefix : String) (p : Planned → Bool) (ps rest : List Planned)
    → AllNew prefix ps
    → AllNew prefix rest
    → AllNew prefix (keep_if p ps ++ rest)
unfolding AllNew
AllNew-keep_if prefix p [] rest h k = k
AllNew-keep_if prefix p (x ∷ ps) rest h k = elim (Bool-cases (p x)) [
  | inl e ↦ rw e (h.0, AllNew-keep_if prefix p ps rest h.1 k)
  | inr e ↦ rw e (AllNew-keep_if prefix p ps rest h.1 k)
]

pub AllNew-current_first :
    (prefix : String) (ps : List Planned) → AllNew prefix ps → AllNew prefix (current_first ps)
unfolding current_first
AllNew-current_first prefix ps h =
    let late = keep_if (λ (p : Planned). not p.is_current) ps in
    AllNew-keep_if prefix (λ p. p.is_current) ps late h
      (rw (← append-nil late)
        (AllNew-keep_if prefix (λ p. not p.is_current) ps [] h (unfold AllNew in tt)))

pub none-Pending :
    (prefix : String) (l : List RegEntry) → Pending prefix [] l → all_of (is_new prefix) l ≡ true
unfolding Pending
none-Pending prefix [] h = refl
none-Pending prefix (x ∷ l) h = ground (arith, none-Pending prefix l)

-- ===== src/Platform/Families/Reported.antt =====
-- The families of one call have prefixes of which none begins another, so a run keeps the entity of
-- every object that is reported, whatever the other families report.
use ha_sophos_fw.Prelude.{
  String, ◌≡◌, refl, ◌∙◌, inl, inr, Bool, true, false, not, ◌&&◌, Option, none, some, List, [], ◌∷◌,
  map, arith, ◌==◌, Bool-cases, Option-cases, any_of, all_of, contains,
}
use ha_sophos_fw.Text.{starts_with}
use ha_sophos_fw.Text.Laws.{starts_with_both}
use ha_sophos_fw.Setup.UniqueIds.{RegEntry}
use ha_sophos_fw.Platform.{build_unique_id, remove_families, holds}
use ha_sophos_fw.Platform.Laws.{holds-remove_families}
use ha_sophos_fw.Platform.Families.{
  Member, Coordinator, Shared, nothing_known, sync, active, inactive_prefixes, setup_dynamic,
  registry_of,
}
use ha_sophos_fw.Platform.Families.Laws.{spares, spares_items, holds-sync_all}

-- No prefix begins another one.
abbrev pub apart : String → String → Bool
apart p q = not (starts_with p q) && not (starts_with q p)

abbrev pub separate : List String → Bool
separate [] = true
separate (p ∷ ps) = all_of (apart p) ps && separate ps

abbrev pub prefixes : {D : Type 0} → List (Member D) → List String
prefixes = map (λ m. m.prefix)

abbrev pub among : Option (List String) → String → Bool
among none s = false
among (some items) s = contains items s

-- Whether the family is polled and has the suffix among its items.
abbrev pub reports : {D : Type 0} → Coordinator D → D → String → Member D → Bool
reports c contents s m =
    c.configured m.endpoint && starts_with s m.prefix && among (m.items contents) s

not_both : (s p q : String) → apart p q ≡ true → starts_with s p ≡ true → starts_with s q ≡ false
not_both s p q h k = elim (Bool-cases (starts_with s q)) [
  | inr e ↦ e
  | inl e ↦ ground (arith, h, starts_with_both s p q k e)
]

module _ {D : Type 0} (c : Coordinator D) (s domain d : String) where
  -- A prefix that begins the suffix, with those apart from it.
  only_one :
      (p : String) (ms : List (Member D))
      → all_of (apart p) (prefixes ms) ≡ true
      → starts_with s p ≡ true
      → any_of (λ m. starts_with s m.prefix) ms ≡ false
  only_one p [] h k = refl
  only_one p (m ∷ ms) h k = ground (arith, h, not_both s p m.prefix, only_one p ms)

  none_before :
      (p : String) (contents : D) (ms : List (Member D))
      → all_of (apart p) (prefixes ms) ≡ true
      → any_of (reports c contents s) ms ≡ true
      → starts_with s p ≡ false
  none_before p contents ms h k = elim (Bool-cases (starts_with s p)) [
    | inr e ↦ e
    | inl e ↦ ground (arith, only_one p ms h e, reporter contents ms k)
  ]
    where
      reporter :
          (contents : D) (ms : List (Member D))
          → any_of (reports c contents s) ms ≡ true
          → any_of (λ m. starts_with s m.prefix) ms ≡ true
      reporter contents [] k = k
      reporter contents (m ∷ ms) k = ground (arith, k, reporter contents ms)

  -- Families that do not have the suffix.
  others_spare :
      (contents : D) (ms : List (Member D))
      → any_of (λ m. starts_with s m.prefix) ms ≡ false
      → (all_of (spares domain c contents d s) (active c ms) ≡ true)
        × (any_of (starts_with s) (inactive_prefixes c ms) ≡ false)
  unfolding active inactive_prefixes spares
  others_spare contents [] h = (refl, refl)
  others_spare contents (m ∷ ms) h =
      let (a, b) = others_spare contents ms (ground (arith, h)) in
      (ground (arith, h, a), ground (arith, h, b))

  foreign_inactive :
      (ms : List (Member D))
      → (d == domain && any_of (starts_with s) (prefixes ms)) ≡ false
      → ((d == domain && any_of (starts_with s) (inactive_prefixes c ms)) ≡ false)
        × ((contents : D) → all_of (spares domain c contents d s) (active c ms) ≡ true)
  unfolding active inactive_prefixes spares
  foreign_inactive [] h = (h, λ contents. refl)
  foreign_inactive (m ∷ ms) h =
      let (a, b) = foreign_inactive ms (ground (arith, h)) in
      (ground (arith, h, a), λ contents. ground (arith, h, b contents))

  among-spares : (o : Option (List String)) → among o s ≡ true → spares_items o s ≡ true
  among-spares none h = ground (arith, h)
  among-spares (some items) h = h

  -- Every family leaves a suffix alone that one of them reports.
  all_spare :
      (contents : D) (ms : List (Member D))
      → separate (prefixes ms) ≡ true
      → any_of (reports c contents s) ms ≡ true
      → (all_of (spares domain c contents d s) (active c ms) ≡ true)
        × (any_of (starts_with s) (inactive_prefixes c ms) ≡ false)
  unfolding active inactive_prefixes spares
  all_spare contents [] h k = absurd (ground (arith, k))
  all_spare contents (m ∷ ms) h k = elim (Bool-cases (reports c contents s m)) [
    | inl this ↦
        let (a, b) =
          others_spare contents ms
            (only_one m.prefix ms (ground (arith, h)) (ground (arith, this))) in
        (ground (arith, this, a, among-spares (m.items contents)), ground (arith, this, b))
    | inr other ↦
        let later : any_of (reports c contents s) ms ≡ true = ground (arith, other, k) in
        let (a, b) = all_spare contents ms (ground (arith, h)) later in
        let out = none_before m.prefix contents ms (ground (arith, h)) later in
        (ground (arith, out, a), ground (arith, out, b))
  ]

  module _ (entry_id : String) where
    -- The first run, which also removes the families that are switched off, and every later one keep
    -- the entity of an object that some family reports, if none of the families' prefixes begins
    -- another one.
    pub reported-setup_dynamic :
        (contents : D) (ms : List (Member D)) (sh : Shared) (registry : List RegEntry)
        → separate (prefixes ms) ≡ true
        → c.contents ≡ some contents
        → any_of (reports c contents s) ms ≡ true
        → (holds d
              (build_unique_id entry_id s)
              (registry_of (setup_dynamic entry_id domain c ms registry))
            ≡ holds d (build_unique_id entry_id s) registry)
          × (holds d
                (build_unique_id entry_id s)
                (registry_of (sync entry_id domain c (active c ms) sh registry))
              ≡ holds d (build_unique_id entry_id s) registry)
    unfolding setup_dynamic sync
    reported-setup_dynamic contents ms sh registry h fetched k =
        let (a, b) = all_spare contents ms h k in
        let cleared = remove_families entry_id domain (inactive_prefixes c ms) registry in
        (
          rw fetched (
              holds-sync_all entry_id domain c contents d s (active c ms) nothing_known cleared [] a
              ∙ ground (
                arith,
                b,
                holds-remove_families entry_id domain (inactive_prefixes c ms) registry d s,
              )),
          rw fetched (holds-sync_all entry_id domain c contents d s (active c ms) sh registry [] a),
        )

    -- Entities of other domains, and those that are none of the families', stay as they are.
    pub foreign-setup_dynamic :
        (ms : List (Member D)) (registry : List RegEntry)
        → (d == domain && any_of (starts_with s) (prefixes ms)) ≡ false
        → holds d
            (build_unique_id entry_id s)
            (registry_of (setup_dynamic entry_id domain c ms registry))
          ≡ holds d (build_unique_id entry_id s) registry
    unfolding setup_dynamic sync registry_of
    foreign-setup_dynamic ms registry h =
        let cleared = remove_families entry_id domain (inactive_prefixes c ms) registry in
        let removed = holds-remove_families entry_id domain (inactive_prefixes c ms) registry d s in
        let (a, b) = foreign_inactive ms h in
        elim (Option-cases c.contents) [
          | inl p ↦ rw p (ground (arith, a, removed))
          | inr (contents, p) ↦ rw p (
              holds-sync_all entry_id domain c contents d s (active c ms) nothing_known cleared []
                (b contents)
              ∙ ground (arith, a, removed))
        ]

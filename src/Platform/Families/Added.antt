-- ===== src/Platform/Families/Added.antt =====
-- What a run adds, and that a run of families that do not trust empty answers never fails.
use ha_sophos_fw.Prelude.{
  ℕ, String, ◌≡◌, refl, inl, inr, Bool, true, false, not, Option, List, [], ◌∷◌, ◌++◌, arith,
  Bool-cases, Option-cases, any_of, all_of, contains,
}
use ha_sophos_fw.Setup.UniqueIds.{RegEntry}
use ha_sophos_fw.Entity.{Family, Tracker, new_items}
use ha_sophos_fw.Entity.Removal.{contains-append}
use ha_sophos_fw.Platform.Families.{
  Member, Coordinator, Shared, Turn, done, key_error, Run, ran, failed, tracker_of, put_tracker,
  nothing_known, clean, clean_empty, turn, sync_member, after_turn, sync_all, sync, active,
  setup_dynamic, added_of,
}
use ha_sophos_fw.Platform.Families.Reported.{among}

added_by : Turn → List String
added_by (done t registry added) = added
added_by (key_error t) = []

contains-new_items :
    (known items : List String) (s : String)
    → contains items s ≡ false
    → contains (new_items known items) s ≡ false
unfolding new_items
contains-new_items known [] s h = refl
contains-new_items known (x ∷ items) s h =
    ground (arith, h, contains-new_items known items s, contains-new_items (x ∷ known) items s)

module _ (entry_id domain : String) {D : Type 0} (c : Coordinator D) (contents : D)
    (s : String) where
  added_turn :
      (prefix : String) (family : Family) (fetched : Option ℕ) (items : List String)
      (registry : List RegEntry) (t : Tracker)
      → contains items s ≡ false
      → contains (added_by (turn entry_id domain prefix family fetched items registry t)) s ≡ false
  unfolding turn clean clean_empty added_by
  added_turn prefix family fetched items registry t h =
      ground (arith, h, contains-new_items t.known items s)

  added_sync_member :
      (m : Member D) (registry : List RegEntry) (t : Tracker)
      → among (m.items contents) s ≡ false
      → contains (added_by (sync_member entry_id domain c contents m registry t)) s ≡ false
  unfolding sync_member added_by
  added_sync_member m registry t h = elim (Bool-cases (c.available m.endpoint)) [
    | inr off ↦ rw off refl
    | inl on ↦ elim (Option-cases (m.items contents)) [
      | inl p ↦ rw (on, p) refl
      | inr (items, p) ↦
          rw (on, p)
            (unfold added_by in
              added_turn m.prefix m.family (c.fetched_at m.endpoint) items registry t
                (ground (arith, h, p)))
    ]
  ]

  added_after_turn :
      (prefix : String) (go : Shared → List RegEntry → List String → Run) (sh : Shared)
      (registry : List RegEntry) (new : List String)
      → ((sh' : Shared) (registry' : List RegEntry) (new' : List String)
          → contains new' s ≡ false
          → contains (added_of (go sh' registry' new')) s ≡ false)
      → (result : Turn) → contains new s ≡ false
      → contains (added_by result) s ≡ false
      → contains (added_of (after_turn entry_id domain c prefix go sh registry new result)) s
        ≡ false
  unfolding after_turn added_of added_by
  added_after_turn prefix go sh registry new rec (done t registry' added) h k =
      rec (put_tracker prefix t sh) registry' (new ++ added)
        (ground (arith, h, k, contains-append new added s))
  added_after_turn prefix go sh registry new rec (key_error t) h k = refl

  -- A suffix that no family has among its items is not added.
  pub added-sync_all :
      (ms : List (Member D)) (sh : Shared) (registry : List RegEntry) (new : List String)
      → any_of (λ m. among (m.items contents) s) ms ≡ false
      → contains new s ≡ false
      → contains (added_of (sync_all entry_id domain c contents ms sh registry new)) s ≡ false
  unfolding sync_all added_of
  added-sync_all [] sh registry new h k = k
  added-sync_all (m ∷ ms) sh registry new h k =
      let rest : any_of (λ m. among (m.items contents) s) ms ≡ false = ground (arith, h) in
      added_after_turn m.prefix (sync_all entry_id domain c contents ms) sh registry new
        (λ sh' registry' new'. added-sync_all ms sh' registry' new' rest)
        (sync_member entry_id domain c contents m registry (tracker_of m.prefix sh)) k
        (added_sync_member m registry (tracker_of m.prefix sh) (ground (arith, h)))

  among-active :
      (ms : List (Member D))
      → any_of (λ m. among (m.items contents) s) ms ≡ false
      → any_of (λ m. among (m.items contents) s) (active c ms) ≡ false
  unfolding active
  among-active [] h = refl
  among-active (m ∷ ms) h = ground (arith, h, among-active ms)

module _ (entry_id domain : String) {D : Type 0} (c : Coordinator D) (s : String) where
  pub added-setup_dynamic :
      (ms : List (Member D)) (registry : List RegEntry)
      → ((contents : D) → any_of (λ m. among (m.items contents) s) ms ≡ false)
      → contains (added_of (setup_dynamic entry_id domain c ms registry)) s ≡ false
  unfolding setup_dynamic sync added_of
  added-setup_dynamic ms registry h = elim (Option-cases c.contents) [
    | inl p ↦ rw p refl
    | inr (contents, p) ↦ rw p (
        unfold added_of in
        added-sync_all entry_id domain c contents s (active c ms) nothing_known _ []
          (among-active entry_id domain c contents s ms (h contents)) refl)
  ]

unfoldable pub is_failed : Run → Bool
is_failed (ran sh registry new) = false
is_failed (failed sh registry) = true

stops : Turn → Bool
stops (done t registry added) = false
stops (key_error t) = true

abbrev pub distrusts : {D : Type 0} → Member D → Bool
distrusts m = not m.family.trust_empty

module _ (entry_id domain : String) {D : Type 0} (c : Coordinator D) where
  turn_done :
      (prefix : String) (family : Family) (fetched : Option ℕ) (items : List String)
      (registry : List RegEntry) (t : Tracker)
      → not family.trust_empty ≡ true
      → stops (turn entry_id domain prefix family fetched items registry t) ≡ false
  unfolding turn clean stops
  turn_done prefix family fetched items registry t h = ground (arith, h)

  sync_member_done :
      (contents : D) (m : Member D) (registry : List RegEntry) (t : Tracker)
      → distrusts m ≡ true
      → stops (sync_member entry_id domain c contents m registry t) ≡ false
  unfolding sync_member stops
  sync_member_done contents m registry t h = elim (Bool-cases (c.available m.endpoint)) [
    | inr off ↦ rw off refl
    | inl on ↦ elim (Option-cases (m.items contents)) [
      | inl p ↦ rw (on, p) refl
      | inr (items, p) ↦
          rw (on, p)
            (unfold stops in
              turn_done m.prefix m.family (c.fetched_at m.endpoint) items registry t h)
    ]
  ]

  goes_on :
      (prefix : String) (go : Shared → List RegEntry → List String → Run) (sh : Shared)
      (registry : List RegEntry) (new : List String)
      → ((sh' : Shared) (registry' : List RegEntry) (new' : List String)
          → is_failed (go sh' registry' new') ≡ false)
      → (result : Turn) → stops result ≡ false
      → is_failed (after_turn entry_id domain c prefix go sh registry new result) ≡ false
  unfolding after_turn stops is_failed
  goes_on prefix go sh registry new rec (done t registry' added) h =
      rec (put_tracker prefix t sh) registry' (new ++ added)
  goes_on prefix go sh registry new rec (key_error t) h = absurd (ground (arith, h))

  sync_all_ran :
      (contents : D) (ms : List (Member D)) (sh : Shared) (registry : List RegEntry)
      (new : List String)
      → all_of distrusts ms ≡ true
      → is_failed (sync_all entry_id domain c contents ms sh registry new) ≡ false
  unfolding sync_all is_failed
  sync_all_ran contents [] sh registry new h = refl
  sync_all_ran contents (m ∷ ms) sh registry new h =
      let rest : all_of distrusts ms ≡ true = ground (arith, h) in
      goes_on m.prefix (sync_all entry_id domain c contents ms) sh registry new
        (λ sh' registry' new'. sync_all_ran contents ms sh' registry' new' rest)
        (sync_member entry_id domain c contents m registry (tracker_of m.prefix sh))
        (sync_member_done contents m registry (tracker_of m.prefix sh) (ground (arith, h)))

  active-distrusts :
      (ms : List (Member D)) → all_of distrusts ms ≡ true → all_of distrusts (active c ms) ≡ true
  unfolding active
  active-distrusts [] h = refl
  active-distrusts (m ∷ ms) h = ground (arith, h, active-distrusts ms)

  pub setup_dynamic_ran :
      (ms : List (Member D)) (registry : List RegEntry)
      → all_of distrusts ms ≡ true
      → is_failed (setup_dynamic entry_id domain c ms registry) ≡ false
  unfolding setup_dynamic sync is_failed
  setup_dynamic_ran ms registry h = elim (Option-cases c.contents) [
    | inl p ↦ rw p refl
    | inr (contents, p) ↦ rw p (
        unfold is_failed in
        sync_all_ran contents (active c ms) nothing_known _ [] (active-distrusts ms h))
  ]

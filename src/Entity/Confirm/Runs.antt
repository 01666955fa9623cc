-- ===== src/Entity/Confirm/Runs.antt =====
-- When a run removes the entity of a missing object.
use ha_sophos_fw.Prelude.{
  ℕ, String, ◌≡◌, refl, ap, ◌∙◌, inl, inr, Bool, true, false, not, ◌&&◌, ◌||◌, Option, none, some,
  List, [], ◌∷◌, ◌++◌, arith, ltb, leb, Bool-cases, Option-cases, is_nil, contains, Distinct, All,
}
use ha_sophos_fw.Prelude.Dict
use ha_sophos_fw.Entity.{
  Family, Tracker, remove_stale, still_confirming, new_items, confirm, remove, sync_items, sync,
  count_empty, remove_empty,
}
use ha_sophos_fw.Entity.Removal.{kept, is_key_error, contains-keep_if, contains-append}
use ha_sophos_fw.Entity.Confirm.{
  Seen, Absence, note_items, note, note_all, tracker_after, run_all, absence_of,
  still_confirming_lem,
}

-- A family that confirms missing objects, such as those of the processor's cores, the interfaces' traffic,
-- and the access points; the last ones also trust an empty answer.
abbrev pub confirms : Bool → Family
confirms trust = record { remove_stale = true; trust_empty = trust; confirm_missing = true }

module _ (trust : Bool) (s : String) where
  absence-count_empty :
      (fetched : Option ℕ) (t : Tracker) → absence_of s (count_empty fetched t) ≡ absence_of s t
  unfolding count_empty
  absence-count_empty fetched t = ground arith

  absence-remove :
      (registered items added : List String) (fetched : Option ℕ) (remove_all : Bool)
      (t before : Tracker)
      → Distinct registered
      → absence_of s (
          tracker_after
            (remove (confirms trust) registered items added fetched remove_all t)
            before)
        ≡ note_items s registered fetched (some items) (absence_of s t)
  unfolding remove confirm tracker_after
  absence-remove registered items added fetched remove_all t before once =
      (still_confirming_lem registered items fetched t s once).0

  absence-remove_empty :
      (registered added : List String) (fetched : Option ℕ) (t before : Tracker) (streak : Option ℕ)
      → Distinct registered
      → is_key_error (remove_empty (confirms trust) registered added fetched t streak) ≡ false
      → absence_of s
          (tracker_after (remove_empty (confirms trust) registered added fetched t streak) before)
        ≡ note_items s registered fetched (some []) (absence_of s t)
  unfolding remove_empty is_key_error
  absence-remove_empty registered added fetched t before none once fine = ground (arith, fine)
  absence-remove_empty registered added fetched t before (some n) once fine =
      absence-remove registered [] added fetched (leb 3 n) t before once

  kept-remove :
      (registered items added : List String) (fetched : Option ℕ) (t : Tracker)
      → Distinct registered
      → is_nil items ≡ false
      → contains
          (kept (remove (confirms trust) registered items added fetched false t) registered)
          s
        ≡ (contains registered s
            && (contains items s
                || ltb (note_items s registered fetched (some items) (absence_of s t)).count 3))
  unfolding remove confirm remove_stale kept
  kept-remove registered items added fetched t once h =
      let keep = (still_confirming registered items fetched t).1 in
      ground (
        arith,
        h,
        (still_confirming_lem registered items fetched t s once).1,
        contains-append items keep s,
        contains-keep_if (contains (items ++ keep)) registered s,
      )

and_false : (b : Bool) → (b && false) ≡ false
and_false true = refl
and_false false = refl

module _ (s : String) where
  absence-sync_items :
      (trust : Bool) (registered items : List String) (fetched : Option ℕ) (t : Tracker)
      → Distinct registered
      → is_key_error (sync_items (confirms trust) registered items fetched t) ≡ false
      → absence_of s (tracker_after (sync_items (confirms trust) registered items fetched t) t)
        ≡ note_items s registered fetched (some items) (absence_of s t)
  unfolding sync_items
  absence-sync_items true registered [] fetched t once fine =
      let t' : Tracker = record t { known = t.known ++ new_items t.known [] } in
      let counted = count_empty fetched t' in
      absence-remove_empty true s registered (new_items t.known []) fetched counted t
        counted.empty_streak once fine
      ∙ ap (note_items s registered fetched (some [])) (absence-count_empty true s fetched t')
  absence-sync_items false registered [] fetched t once fine =
      let added = new_items t.known [] in
      absence-remove false s registered [] added fetched false
        (record t { known = t.known ++ added; empty_streak = none }) t once
  absence-sync_items true registered (x ∷ items) fetched t once fine =
      let added = new_items t.known (x ∷ items) in
      absence-remove true s registered (x ∷ items) added fetched false
        (record t { known = t.known ++ added; empty_streak = none }) t once
  absence-sync_items false registered (x ∷ items) fetched t once fine =
      let added = new_items t.known (x ∷ items) in
      absence-remove false s registered (x ∷ items) added fetched false
        (record t { known = t.known ++ added; empty_streak = none }) t once

  kept-sync_items :
      (trust : Bool) (registered items : List String) (fetched : Option ℕ) (t : Tracker)
      → Distinct registered
      → is_nil items ≡ false
      → contains (kept (sync_items (confirms trust) registered items fetched t) registered) s ≡ (
          contains registered s
          && (contains items s
              || ltb (note_items s registered fetched (some items) (absence_of s t)).count 3))
  unfolding sync_items
  kept-sync_items trust registered items fetched t once h =
      let added = new_items t.known items in
      let t' : Tracker = record t { known = t.known ++ added; empty_streak = none } in
      rw (h, and_false trust) (kept-remove trust s registered items added fetched t' once h)

absence-sync :
    (trust : Bool) (r : Seen) (t : Tracker) (s : String)
    → Distinct r.registered
    → is_key_error (sync (confirms trust) r.registered r.view t) ≡ false
    → absence_of s (tracker_after (sync (confirms trust) r.registered r.view t) t)
      ≡ note s r (absence_of s t)
unfolding sync note tracker_after note_items
absence-sync trust r t s once fine = elim (Option-cases r.view.items) [
  | inl p ↦ rw p (ground arith)
  | inr (items, p) ↦ elim (Bool-cases r.view.available) [
    | inr off ↦ rw (p, off) refl
    | inl on ↦
        rw (p, on)
          (unfold note_items tracker_after in
            absence-sync_items s trust r.registered items r.view.fetched t once
              (rw (p, on) at fine))
  ]
]

-- No run ends in the KeyError of a streak of empty answers that was not started.
unfoldable pub runs_through : Family → List Seen → Tracker → Bool
runs_through family [] t = true
runs_through family (r ∷ runs) t =
    let rest = runs_through family runs (tracker_after (sync family r.registered r.view t) t) in
    not (is_key_error (sync family r.registered r.view t)) && rest

absence-run_all :
    (trust : Bool) (runs : List Seen) (t : Tracker) (s : String)
    → All (λ r. Distinct r.registered) runs
    → runs_through (confirms trust) runs t ≡ true
    → absence_of s (run_all (confirms trust) runs t) ≡ note_all s runs (absence_of s t)
unfolding run_all note_all runs_through
absence-run_all trust [] t s once fine = refl
absence-run_all trust (r ∷ runs) t s once fine =
    absence-run_all trust runs (tracker_after (sync (confirms trust) r.registered r.view t) t) s
      once.1 (ground (arith, fine))
    ∙ ap (note_all s runs) (absence-sync trust r t s once.0 (ground (arith, fine)))

abbrev pub unseen : Absence
unseen = record { count = 0; last = none }

abbrev pub fresh : Tracker
fresh = record {
  known = [];
  empty_streak = none;
  last_fetch = none;
  missing_streak = [];
  last_missing_fetch = none;
}

-- After any sequence of runs for a family that confirms missing objects, whether or not it trusts empty
-- answers, and as long as no run ended in a KeyError, a run that reports some object keeps an entity
-- exactly if it is registered and its object is reported, or was absent from fewer than three fetches since
-- it was last reported: each fetch counts once, however often the runs come, and runs of a failed fetch
-- count nothing.
pub kept-run_all :
    (trust : Bool) (runs : List Seen) (r : Seen) (items : List String) (s : String)
    → All (λ q. Distinct q.registered) (r ∷ runs)
    → runs_through (confirms trust) runs fresh ≡ true
    → r.view.available ≡ true
    → r.view.items ≡ some items
    → is_nil items ≡ false
    → contains
        (kept
          (sync (confirms trust) r.registered r.view (run_all (confirms trust) runs fresh))
          r.registered)
        s
      ≡ (contains r.registered s
          && (contains items s || ltb (note s r (note_all s runs unseen)).count 3))
unfolding sync note note_items kept Dict.get
kept-run_all trust runs r items s once fine on seen some_item =
    let t = run_all (confirms trust) runs fresh in
    rw (on, seen)
      (unfold note_items kept in
        (kept-sync_items s trust r.registered items r.view.fetched t once.0 some_item
          ∙ ap
              (λ a.
                contains r.registered s
                && (contains items s
                    || ltb (note_items s r.registered r.view.fetched (some items) a).count 3))
              (absence-run_all trust runs fresh s once.1 fine)))

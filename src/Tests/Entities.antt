-- ===== src/Tests/Entities.antt =====
-- Entities of a family over several runs.
use ha_sophos_fw.Prelude.{
  if◌then◌else◌, leb, ℕ, String, ◌≡◌, refl, true, false, not, ◌&&◌, ◌||◌, ltb, Option, none, some,
  List, [], ◌∷◌, is_some, contains, Distinct,
}
use ha_sophos_fw.Entity.{Family, View, Tracker, same, sync}
use ha_sophos_fw.Entity.Confirm.{tracker_after, Seen, note, note_all, run_all}
use ha_sophos_fw.Entity.Confirm.Empties.{
  trusts, count_run, count_runs, none_counted, kept-empty_run,
}
use ha_sophos_fw.Entity.Confirm.Runs.{confirms, runs_through, fresh, kept-run_all}
use ha_sophos_fw.Entity.Confirm.Runs.{unseen as never}
use ha_sophos_fw.Entity.Removal.{kept, is_key_error, none_of, key_error-sync}

abbrev tunnels : Family
tunnels = record { remove_stale = true; trust_empty = true; confirm_missing = false }

abbrev rules : Family
rules = record { remove_stale = true; trust_empty = false; confirm_missing = false }

abbrev unseen : Tracker
unseen = record {
  known = [];
  empty_streak = none;
  last_fetch = none;
  missing_streak = [];
  last_missing_fetch = none;
}

abbrev view_of : List String → Option ℕ → View
view_of items fetched = record { available = true; items = some items; fetched = fetched }

-- A first read of no object that an invalidation overtook has no time of a fetch.
key_error-sync_example : is_key_error (sync tunnels [] (view_of [] none) unseen) ≡ (
    true
    && none_of (some [])
    && true
    && true
    && not (is_some unseen.empty_streak)
    && same none unseen.last_fetch)
key_error-sync_example = key_error-sync tunnels [] (view_of [] none) unseen

abbrev absent_at : ℕ → Seen
absent_at n = record { registered = "a" ∷ "b" ∷ []; view = view_of ("a" ∷ []) (some n) }

once : Distinct ("a" ∷ "b" ∷ [])
once = (refl, (refl, tt))

-- An empty fetch, which the family trusts.
abbrev empty_at : ℕ → Seen
empty_at n = record { registered = "a" ∷ "b" ∷ []; view = view_of [] (some n) }

fine : runs_through (confirms true) (absent_at 5 ∷ empty_at 9 ∷ []) fresh ≡ true
unfolding runs_through is_key_error sync tracker_after
fine = refl

-- Two new fetches without "b", the second one empty and seen twice: "b" stays.
kept-run_all_example :
    contains
      (kept
        (sync
          (confirms true)
          ("a" ∷ "b" ∷ [])
          (view_of ("a" ∷ []) (some 9))
          (run_all (confirms true) (absent_at 5 ∷ empty_at 9 ∷ []) fresh))
        ("a" ∷ "b" ∷ []))
      "b"
    ≡ (true
        && (false
            || ltb
                (note "b" (absent_at 9) (note_all "b" (absent_at 5 ∷ empty_at 9 ∷ []) never)).count
                3))
kept-run_all_example =
    kept-run_all true (absent_at 5 ∷ empty_at 9 ∷ []) (absent_at 9) ("a" ∷ []) "b"
      (once, (once, (once, tt))) fine refl refl refl

fine_empty : runs_through trusts (empty_at 5 ∷ empty_at 5 ∷ empty_at 7 ∷ []) fresh ≡ true
unfolding runs_through is_key_error sync tracker_after
fine_empty = refl

fine_now :
    is_key_error (
      sync trusts
        (empty_at 9).registered
        (empty_at 9).view
        (run_all trusts (empty_at 5 ∷ empty_at 5 ∷ empty_at 7 ∷ []) fresh))
    ≡ false
unfolding is_key_error sync tracker_after run_all
fine_now = refl

-- The third fetch with no object, one of them seen twice.
kept-empty_run_example :
    kept
      (sync trusts
        (empty_at 9).registered
        (empty_at 9).view
        (run_all trusts (empty_at 5 ∷ empty_at 5 ∷ empty_at 7 ∷ []) fresh))
      (empty_at 9).registered
    ≡ (if leb 3
          (count_run
            (empty_at 9)
            (count_runs (empty_at 5 ∷ empty_at 5 ∷ empty_at 7 ∷ []) none_counted)).count
        then []
        else (empty_at 9).registered)
kept-empty_run_example =
    kept-empty_run (empty_at 5 ∷ empty_at 5 ∷ empty_at 7 ∷ []) (empty_at 9) fine_empty refl refl
      fine_now

-- ===== src/Entity/Confirm.antt =====
-- Families that confirm that an object is missing, over sequences of runs.
pub mod Runs
pub mod Empties
use ha_sophos_fw.Prelude.{
  ℕ, suc, ◌+◌, String, ◌≡◌, refl, sym, ap, ◌∙◌, inl, inr, Bool, true, false, not, ◌&&◌, ◌||◌,
  Option, none, some, List, [], ◌∷◌, ◌++◌, arith, ◌==◌, eq_iff, ltb, if◌then◌else◌, Bool-cases,
  Option-cases, is_some, get_or, is_nil, keep_if, contains, Distinct, All,
}
use ha_sophos_fw.Prelude.Dict
use ha_sophos_fw.Prelude.Dict.{Dict, get-put, get-pop}
use ha_sophos_fw.Entity.{
  Family, View, Tracker, Synced, synced, key_error, same, without, pop_all, remove_stale,
  count_missing, still_confirming, new_items, confirm, remove, sync_items, sync,
}
use ha_sophos_fw.Entity.Removal.{kept, contains-keep_if, contains-append}

-- The entities of the family that are registered before a run, and what the run sees.
pub record Seen : Type 0 where
  pub registered : List String
  pub view : View

abbrev pub counted : Bool → ℕ
counted true = 1
counted false = 0

-- The counted absences of a suffix since it was last present, with the fetch that was counted last.
pub record Absence : Type 0 where
  pub count : ℕ
  pub last : Option ℕ

unfoldable pub note_items :
    String → List String → Option ℕ → Option (List String) → Absence → Absence
note_items s registered fetched none a = a
note_items s registered fetched (some items) a = record {
  count =
      if contains items s
      then 0
      else a.count + counted (not (same fetched a.last) && contains registered s);
  last = fetched;
}

-- What a run tells of a suffix: it is present, or it is registered and absent from a fetch that was not
-- counted yet.
unfoldable pub note : String → Seen → Absence → Absence
unfolding note_items
note s r a = if r.view.available then note_items s r.registered r.view.fetched r.view.items a else a

unfoldable pub note_all : String → List Seen → Absence → Absence
note_all s [] a = a
note_all s (r ∷ rs) a = note_all s rs (note s r a)

unfoldable pub tracker_after : Synced → Tracker → Tracker
tracker_after (synced t registered added) before = t
tracker_after key_error before = before

-- The runs of `_sync`, one after the other.
unfoldable pub run_all : Family → List Seen → Tracker → Tracker
unfolding tracker_after
run_all family [] t = t
run_all family (r ∷ rs) t = run_all family rs (tracker_after (sync family r.registered r.view t) t)

abbrev pub streak : String → Tracker → ℕ
streak s t = get_or (Dict.get s t.missing_streak) 0

get-count_missing :
    (new_fetch : Bool) (missing : List String) (d : Dict ℕ) (s : String)
    → Distinct missing
    → get_or (Dict.get s (count_missing new_fetch missing d)) 0
      ≡ get_or (Dict.get s d) 0 + counted (new_fetch && contains missing s)
unfolding count_missing
get-count_missing new_fetch [] d s h = ground arith
get-count_missing new_fetch (x ∷ missing) d s h =
    let n = get_or (Dict.get x d) 0 + 1 in
    let same_key : (x == s) ≡ true → contains missing x ≡ contains missing s =
      λ e. ap (contains missing) ((eq_iff x s).0 e) in
    let same_value : (x == s) ≡ true → Dict.get x d ≡ Dict.get s d =
      λ e. ap (λ k. Dict.get k d) ((eq_iff x s).0 e) in
    ground (
      arith,
      h,
      same_key,
      same_value,
      get-put x s n d,
      get-count_missing new_fetch missing (Dict.put x n d) s h.1,
      get-count_missing new_fetch missing d s h.1,
    )

get-pop_all :
    (present : List String) (d : Dict ℕ) (s : String)
    → Dict.get s (pop_all present d) ≡ (if contains present s then none else Dict.get s d)
get-pop_all [] d s = ground arith
get-pop_all (x ∷ present) d s = ground (arith, get-pop_all present (Dict.pop x d) s, get-pop x s d)

keep_if-Distinct : (p : String → Bool) (l : List String) → Distinct l → Distinct (keep_if p l)
keep_if-Distinct p [] h = h
keep_if-Distinct p (x ∷ l) h = ground (arith, h, contains-keep_if p l x, keep_if-Distinct p l h.1)

contains-without :
    (present l : List String) (s : String)
    → contains (without present l) s ≡ (contains l s && not (contains present s))
contains-without present l s = contains-keep_if (λ x. not (contains present x)) l s

-- What the bookkeeping says of a suffix before a run.
abbrev pub absence_of : String → Tracker → Absence
absence_of s t = record { count = streak s t; last = t.last_missing_fetch }

module _ (registered items : List String) (fetched : Option ℕ) (t : Tracker) (s : String)
    (once : Distinct registered) where
  missing : List String
  missing = without items registered

  new_fetch : Bool
  new_fetch = not (same fetched t.last_missing_fetch)

  counts :
      get_or (Dict.get s (count_missing new_fetch missing t.missing_streak)) 0
      ≡ streak s t + counted (new_fetch && (contains registered s && not (contains items s)))
  unfolding missing
  counts =
      get-count_missing new_fetch missing t.missing_streak s
        (keep_if-Distinct (λ x. not (contains items x)) registered once)
      ∙ ap (λ b. streak s t + counted (new_fetch && b)) (contains-without items registered s)

  -- The bookkeeping after the run, and the suffixes that it keeps besides the present ones.
  pub still_confirming_lem :
      let (t', keep) = still_confirming registered items fetched t in
      (absence_of s t' ≡ note_items s registered fetched (some items) (absence_of s t))
      × (contains keep s ≡ (
          contains registered s
          && not (contains items s)
          && ltb (note_items s registered fetched (some items) (absence_of s t)).count 3))
  unfolding still_confirming note_items missing new_fetch
  still_confirming_lem =
      let d = count_missing new_fetch missing t.missing_streak in
      (
        ground (arith, counts, get-pop_all items d s),
        ground (
          arith,
          counts,
          contains-keep_if (λ x. ltb (get_or (Dict.get x d) 0) 3) missing s,
          contains-without items registered s,
        ),
      )

-- ===== src/Entity/Removal.antt =====
-- Which entities a run removes.
use ha_sophos_fw.Prelude.{
  ℕ, suc, ◌+◌, String, ◌≡◌, refl, Bool, true, false, not, ◌&&◌, ◌||◌, Option, none, some, List, [],
  ◌∷◌, ◌++◌, arith, eq_iff, leb, if◌then◌else◌, is_some, get_or, is_nil, keep_if, contains,
}
use ha_sophos_fw.Entity.{
  Family, View, Tracker, Synced, synced, key_error, same, remove_stale, still_confirming, new_items,
  count_empty, confirm, remove, remove_empty, sync_items, sync,
}

-- The suffixes that stay registered.
unfoldable pub kept : Synced → List String → List String
kept (synced t registered added) before = registered
kept key_error before = before

unfoldable pub is_key_error : Synced → Bool
is_key_error key_error = true
is_key_error r = false

abbrev pub none_of : Option (List String) → Bool
none_of (some items) = is_nil items
none_of none = false

pub contains-keep_if :
    (p : String → Bool) (l : List String) (s : String)
    → contains (keep_if p l) s ≡ (contains l s && p s)
contains-keep_if p [] s = refl
contains-keep_if p (x ∷ l) s = ground (arith, eq_iff x s, contains-keep_if p l s)

pub contains-append :
    (l m : List String) (s : String) → contains (l ++ m) s ≡ (contains l s || contains m s)
contains-append [] m s = refl
contains-append (x ∷ l) m s = ground (arith, contains-append l m s)

pub contains-confirm :
    (family : Family) (registered items : List String) (fetched : Option ℕ) (t : Tracker)
    (s : String)
    → contains items s ≡ true
    → contains (confirm family registered items fetched t).1 s ≡ true
unfolding confirm
contains-confirm family registered items fetched t s h =
    ground (arith, contains-append items (still_confirming registered items fetched t).1 s)

kept-remove :
    (family : Family) (registered items added : List String) (fetched : Option ℕ) (t : Tracker)
    (s : String)
    → contains items s ≡ true
    → contains (kept (remove family registered items added fetched false t) registered) s
      ≡ contains registered s
unfolding kept remove remove_stale
kept-remove family registered items added fetched t s h =
    let current = (confirm family registered items fetched t).1 in
    ground (
      arith,
      contains-confirm family registered items fetched t s,
      contains-keep_if (contains current) registered s,
    )

pub not_nil : (l : List String) (s : String) → contains l s ≡ true → is_nil l ≡ false
not_nil [] s h = ground arith
not_nil (x ∷ l) s h = refl

kept-sync_items :
    (family : Family) (registered items : List String) (fetched : Option ℕ) (t : Tracker)
    (s : String)
    → contains items s ≡ true
    → contains (kept (sync_items family registered items fetched t) registered) s
      ≡ contains registered s
unfolding sync_items kept
kept-sync_items family registered items fetched t s h =
    let added = new_items t.known items in
    let t' = record t { known = t.known ++ added; empty_streak = none } in
    ground (arith, not_nil items s h, kept-remove family registered items added fetched t' s h)

-- A run never removes the entity of an object that the firewall reports.
pub kept-sync :
    (family : Family) (registered items : List String) (view : View) (t : Tracker) (s : String)
    → view.items ≡ some items
    → contains items s ≡ true
    → contains (kept (sync family registered view t) registered) s ≡ contains registered s
unfolding sync kept
kept-sync family registered items view t s reported h =
    rw (reported) ground (arith, kept-sync_items family registered items view.fetched t s h)

-- A run that sees no object of the family removes nothing, unless the family trusts an empty answer
-- and has now counted at least three fetches with one.
pub empty-sync :
    (family : Family) (registered : List String) (view : View) (t : Tracker) (s : String)
    → view.items ≡ some []
    → family.confirm_missing ≡ false
    → (family.trust_empty && leb 3 (get_or (count_empty view.fetched t).empty_streak 0)) ≡ false
    → contains (kept (sync family registered view t) registered) s ≡ contains registered s
unfolding sync sync_items remove_empty remove remove_stale confirm count_empty kept
empty-sync family registered view t s none_seen plain few =
    rw (none_seen) ground (arith, plain, few)

-- Runs that see no object of the family, at the times of their last fetches.
unfoldable pub count_all : List (Option ℕ) → Tracker → Tracker
count_all [] t = t
count_all (f ∷ fs) t = count_all fs (count_empty f t)

-- How often the time of the last fetch changes, from a first one on.
unfoldable pub changes : Option ℕ → List (Option ℕ) → ℕ
changes last [] = 0
changes last (f ∷ fs) = let rest = changes f fs in if same f last then rest else suc rest

-- Over runs that see no object, the streak grows by one for each new fetch, however often the runs
-- come.
pub streak-count_all :
    (fs : List (Option ℕ)) (t : Tracker)
    → get_or (count_all fs t).empty_streak 0 ≡ get_or t.empty_streak 0 + changes t.last_fetch fs
unfolding count_all count_empty changes
streak-count_all [] t = ground arith
streak-count_all (f ∷ fs) t =
    let counted = record t { last_fetch = f; empty_streak = some (get_or t.empty_streak 0 + 1) } in
    ground (arith, streak-count_all fs counted, streak-count_all fs t)

-- A run fails with a KeyError exactly if a family that trusts empty answers sees none of its objects,
-- no streak is running, and the time of the last fetch is the one that was counted last.
pub key_error-sync :
    (family : Family) (registered : List String) (view : View) (t : Tracker)
    → is_key_error (sync family registered view t) ≡ (
        view.available
        && none_of view.items
        && family.remove_stale
        && family.trust_empty
        && not (is_some t.empty_streak)
        && same view.fetched t.last_fetch)
unfolding sync sync_items remove_empty remove is_key_error count_empty
key_error-sync family registered view t = ground arith

-- ===== src/Platform/Families/Refines.antt =====
-- A family's turn over the whole registry is that of Entity on the family's own suffixes.
use ha_sophos_fw.Prelude.{
  ℕ, String, ◌≡◌, refl, ap, Bool, false, not, Option, none, some, List, [], ◌∷◌, ◌++◌, map, arith,
  leb, if◌then◌else◌, keep_if, contains,
}
use ha_sophos_fw.Setup.UniqueIds.{RegEntry}
use ha_sophos_fw.Entity
use ha_sophos_fw.Entity.{
  Family, View, Tracker, Synced, synced, without, new_items, count_empty, confirm, remove,
  remove_empty, sync_items,
}
use ha_sophos_fw.Platform.{suffix_of, is_stale, registered_suffixes, remove_stale_entities}
use ha_sophos_fw.Platform.Families.{Turn, done, key_error, clean, clean_empty, turn}

module _ (entry_id domain prefix : String) where
  unfoldable pub slice : Turn → Synced
  slice (done t registry added) =
      synced t (registered_suffixes entry_id domain prefix registry) added
  slice (key_error t) = Entity.key_error

  module _ (current : List String) (remove_all : Bool) where
    stale : RegEntry → Bool
    stale e = is_stale entry_id domain prefix current remove_all e.domain e.unique_id

    suffixes-keep_if :
        (registry : List RegEntry)
        → (registered_suffixes entry_id domain prefix (keep_if (λ e. not (stale e)) registry) ≡ (
            if remove_all
            then []
            else keep_if (contains current) (registered_suffixes entry_id domain prefix registry)))
          × (map (λ e. suffix_of entry_id e.unique_id) (keep_if stale registry) ≡ (
              if remove_all
              then registered_suffixes entry_id domain prefix registry
              else without current (registered_suffixes entry_id domain prefix registry)))
    unfolding registered_suffixes stale is_stale
    suffixes-keep_if [] = ground arith
    suffixes-keep_if (e ∷ registry) =
        let (a, b) = suffixes-keep_if registry in (ground (arith, a, b), ground (arith, a, b))

    remove_stale_entities_lem :
        (registry : List RegEntry)
        → let (registry', removed) =
            remove_stale_entities entry_id domain prefix current remove_all registry in
          (registered_suffixes entry_id domain prefix registry', removed)
          ≡ Entity.remove_stale
              (registered_suffixes entry_id domain prefix registry)
              current
              remove_all
    unfolding remove_stale_entities Entity.remove_stale stale
    remove_stale_entities_lem registry =
        let (a, b) = suffixes-keep_if registry in ground (arith, a, b)

  module _ (family : Family) (fetched : Option ℕ) (items added : List String)
      (registry : List RegEntry) where
    clean-refines :
        (remove_all : Bool) (t : Tracker)
        → slice (clean entry_id domain prefix family fetched items remove_all added registry t)
          ≡ remove family
              (registered_suffixes entry_id domain prefix registry)
              items
              added
              fetched
              remove_all
              t
    unfolding clean remove slice
    clean-refines remove_all t =
        let registered = registered_suffixes entry_id domain prefix registry in
        let result = confirm family registered items fetched t in
        ap
          (λ (p : List String × List String).
            synced (record result.0 { known = without p.1 result.0.known }) p.0 added)
          (remove_stale_entities_lem result.1 remove_all registry)

  clean_empty-refines :
      (family : Family) (fetched : Option ℕ) (added : List String) (registry : List RegEntry)
      (streak : Option ℕ) (t : Tracker)
      → slice (clean_empty entry_id domain prefix family fetched [] streak added registry t)
        ≡ remove_empty family
            (registered_suffixes entry_id domain prefix registry)
            added
            fetched
            t
            streak
  unfolding clean_empty remove_empty slice
  clean_empty-refines family fetched added registry none t = refl
  clean_empty-refines family fetched added registry (some n) t =
      unfold slice in clean-refines family fetched [] added registry (leb 3 n) t

  -- What a family's turn does to the registry is what a run for that family alone does to the family's
  -- own suffixes: the same bookkeeping, the same entities kept and added, the same failure.
  pub turn-refines :
      (family : Family) (fetched : Option ℕ) (items : List String) (registry : List RegEntry)
      (t : Tracker)
      → slice (turn entry_id domain prefix family fetched items registry t)
        ≡ sync_items family (registered_suffixes entry_id domain prefix registry) items fetched t
  unfolding turn sync_items slice
  turn-refines family fetched [] registry t =
      let added = new_items t.known [] in
      let t' : Tracker = record t { known = t.known ++ added } in
      let counted = count_empty fetched t' in
      ground (
        arith,
        clean_empty-refines family fetched added registry counted.empty_streak counted,
        clean-refines family fetched [] added registry false (record t' { empty_streak = none }),
      )
  turn-refines family fetched (item ∷ items) registry t =
      let added = new_items t.known (item ∷ items) in
      let t' : Tracker = record t { known = t.known ++ added; empty_streak = none } in
      ground (arith, clean-refines family fetched (item ∷ items) added registry false t')

-- ===== src/Platform/Families.antt =====
-- Entities created per firewall object, for all families of a call (entity.py: DynamicFamily,
-- async_setup_dynamic_entities).
pub mod Laws
pub mod Reported
pub mod Added
pub mod Refines
use ha_sophos_fw.Prelude.{
  ℕ, String, Bool, true, false, not, ◌&&◌, Option, none, some, List, [], ◌∷◌, ◌++◌, map, leb,
  if◌then◌else◌, get_or, is_nil, keep_if,
}
use ha_sophos_fw.Prelude.Dict
use ha_sophos_fw.Prelude.Dict.{Dict}
use ha_sophos_fw.Setup.UniqueIds.{RegEntry}
use ha_sophos_fw.Entity.{Family, Tracker, without, new_items, count_empty, confirm}
use ha_sophos_fw.Platform.{registered_suffixes, remove_stale_entities, remove_families}

-- A family of a coordinator with data D; `items` are the suffixes of the callback's dict.
pub record Member (D : Type 0) : Type 0 where
  pub prefix : String
  pub endpoint : String
  pub items : D → Option (List String)
  pub family : Family

-- What the call sees of the coordinator.
pub record Coordinator (D : Type 0) : Type 0 where
  pub contents : Option D
  pub configured : String → Bool
  pub available : String → Bool
  pub fetched_at : String → Option ℕ

-- The variables that the families of a call share; the first two are by suffix, the others by prefix.
pub record Shared : Type 0 where
  pub known : List String
  pub missing_streak : Dict ℕ
  pub empty_streak : Dict ℕ
  pub last_fetch : Dict (Option ℕ)
  pub last_missing_fetch : Dict (Option ℕ)

abbrev pub nothing_known : Shared
nothing_known = record {
  known = [];
  missing_streak = [];
  empty_streak = [];
  last_fetch = [];
  last_missing_fetch = [];
}

-- What a family sees of them, and what it leaves.
unfoldable pub tracker_of : String → Shared → Tracker
tracker_of prefix s = record {
  known = s.known;
  empty_streak = Dict.get prefix s.empty_streak;
  last_fetch = get_or (Dict.get prefix s.last_fetch) none;
  missing_streak = s.missing_streak;
  last_missing_fetch = get_or (Dict.get prefix s.last_missing_fetch) none;
}

put_streak : String → Option ℕ → Dict ℕ → Dict ℕ
put_streak prefix none d = Dict.pop prefix d
put_streak prefix (some n) d = Dict.put prefix n d

unfoldable pub put_tracker : String → Tracker → Shared → Shared
unfolding put_streak
put_tracker prefix t s = record {
  known = t.known;
  missing_streak = t.missing_streak;
  empty_streak = put_streak prefix t.empty_streak s.empty_streak;
  last_fetch = Dict.put prefix t.last_fetch s.last_fetch;
  last_missing_fetch = Dict.put prefix t.last_missing_fetch s.last_missing_fetch;
}

-- How the turn of a family in `_sync` ends: with the registry and the suffixes of new entities, or with
-- the KeyError of a streak that was not started.
pub data Turn : Type 0 where
  done : Tracker → List RegEntry → List String → Turn
  key_error : Tracker → Turn

-- How `_sync` ends; what a failed one already removed stays removed, and it adds nothing.
pub data Run : Type 0 where
  ran : Shared → List RegEntry → List String → Run
  failed : Shared → List RegEntry → Run

module _ {D : Type 0} (c : Coordinator D) where
  -- The families whose endpoint is configured.
  unfoldable pub active : List (Member D) → List (Member D)
  active ms = keep_if (λ m. c.configured m.endpoint) ms

  unfoldable pub inactive_prefixes : List (Member D) → List String
  inactive_prefixes ms = map (λ m. m.prefix) (keep_if (λ m. not (c.configured m.endpoint)) ms)

module _ (entry_id domain : String) where
  module _ (prefix : String) (family : Family) (fetched : Option ℕ) (items : List String) where
    unfoldable pub clean : Bool → List String → List RegEntry → Tracker → Turn
    clean remove_all added registry t =
        let registered = registered_suffixes entry_id domain prefix registry in
        let (t', current) = confirm family registered items fetched t in
        let (registry', removed) =
          remove_stale_entities entry_id domain prefix current remove_all registry in
        done (record t' { known = without removed t'.known }) registry' added

    -- `remove_all = empty_streak[family.prefix] >= EMPTY_CONFIRMATIONS`
    unfoldable pub clean_empty : Option ℕ → List String → List RegEntry → Tracker → Turn
    unfolding clean
    clean_empty none added registry t = key_error t
    clean_empty (some n) added registry t = clean (leb 3 n) added registry t

    unfoldable pub turn : List RegEntry → Tracker → Turn
    unfolding clean_empty clean
    turn registry t =
        let added = new_items t.known items in
        let t' = record t { known = t.known ++ added } in
        let counted = count_empty fetched t' in
        if not family.remove_stale
        then done t' registry added
        else if family.trust_empty && is_nil items
        then clean_empty counted.empty_streak added registry counted
        else clean false added registry (record t' { empty_streak = none })

  module _ {D : Type 0} (c : Coordinator D) where
    reported : Member D → Option (List String) → List RegEntry → Tracker → Turn
    unfolding turn
    reported m none registry t = done t registry []
    reported m (some items) registry t =
        turn m.prefix m.family (c.fetched_at m.endpoint) items registry t

    -- One family's turn in `_sync`.
    unfoldable pub sync_member : D → Member D → List RegEntry → Tracker → Turn
    unfolding reported
    sync_member contents m registry t =
        if c.available m.endpoint
        then reported m (m.items contents) registry t
        else done t registry []

    unfoldable pub after_turn :
        String
        → (Shared → List RegEntry → List String → Run)
        → Shared
        → List RegEntry
        → List String
        → Turn
        → Run
    after_turn prefix go s registry new (done t registry' added) =
        go (put_tracker prefix t s) registry' (new ++ added)
    after_turn prefix go s registry new (key_error t) = failed (put_tracker prefix t s) registry

    unfoldable pub sync_all : D → List (Member D) → Shared → List RegEntry → List String → Run
    unfolding sync_member after_turn
    sync_all contents [] s registry new = ran s registry new
    sync_all contents (m ∷ ms) s registry new =
        after_turn m.prefix (sync_all contents ms) s registry new
          (sync_member contents m registry (tracker_of m.prefix s))

    sync_data : Option D → List (Member D) → Shared → List RegEntry → Run
    unfolding sync_all
    sync_data none ms s registry = ran s registry []
    sync_data (some contents) ms s registry = sync_all contents ms s registry []

    -- `_sync`
    unfoldable pub sync : List (Member D) → Shared → List RegEntry → Run
    unfolding sync_data
    sync ms s registry = sync_data c.contents ms s registry

    -- `async_setup_dynamic_entities`: the first run of `_sync`, which then runs after every update.
    unfoldable pub setup_dynamic : List (Member D) → List RegEntry → Run
    unfolding active inactive_prefixes sync
    setup_dynamic ms registry =
        sync (active c ms) nothing_known
          (remove_families entry_id domain (inactive_prefixes c ms) registry)

-- The registry that a run leaves, and the suffixes of the entities that it adds.
unfoldable pub registry_of : Run → List RegEntry
registry_of (ran s registry new) = registry
registry_of (failed s registry) = registry

unfoldable pub added_of : Run → List String
added_of (ran s registry new) = new
added_of (failed s registry) = []

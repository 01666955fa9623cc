-- ===== src/Coordinator/State.antt =====
-- The state of a SophosCoordinator and the operations on one endpoint (coordinator.py).
pub mod Log
use ha_sophos_fw.Prelude.{
  ℕ, zero, suc, ◌+◌, ◌-◌, ◌*◌, ◌/◌, ◌%◌, ◌≤◌, ◌<◌, String, ◌≡◌, refl, sym, ap, ◌∙◌, ◌≢◌, ◌↔◌, ◌⊎◌,
  inl, inr, Bool, true, false, not, ◌&&◌, ◌||◌, Option, none, some, List, [], ◌∷◌, ◌++◌, map, arith,
  ◌==◌, eq_iff, eq_refl, ltb, leb, eqb, if◌then◌else◌, leb→le, ltb→lt, eqb_iff, Bool-cases,
  Option-cases, or_else, is_some, get_or, ne→false, length, is_nil, keep_if, any_of, all_of,
  first_where, All, contains, Distinct,
}
use ha_sophos_fw.Prelude.Dict
use ha_sophos_fw.Prelude.Dict.{Dict}
use ha_sophos_fw.Coordinator.Scheduler
use ha_sophos_fw.Coordinator.Scheduler.{Tier, Scheduler}

-- What a fetch does is decided by the source; `toggle` is the option that enables polling.
pub record Endpoint : Type 0 where
  pub key : String
  pub tier : Tier
  pub toggle : Option String
  pub toggle_default : Bool

-- V are the values of an endpoint, H is what a source keeps for itself.
pub record State (V H : Type 0) : Type 0 where
  pub last_data : Option (Dict V)
  pub scheduler : Scheduler
  pub ok_by_key : Dict Bool
  pub failure_logged : List String
  pub last_fetched : Dict ℕ
  pub generation : Dict ℕ
  pub runtime_disabled : List String
  pub restrict_to : Option (List String)
  pub own : H

-- The message that `_set_endpoint_state` logs, if any.
pub data LogEntry : Type 0 where
  available_again : String → LogEntry
  fetch_failed : String → LogEntry

-- `set.discard`
abbrev pub discard : String → List String → List String
discard k l = keep_if (λ j. not (j == k)) l

module _ (options : String → Option Bool) where
  toggled : Option String → Bool → Bool
  toggled none default = true
  toggled (some t) default = get_or (options t) default

  unfoldable pub endpoint_configured : List Endpoint → String → Bool
  unfolding toggled
  endpoint_configured [] key = false
  endpoint_configured (ep ∷ eps) key =
      let rest = endpoint_configured eps key in
      if ep.key == key then toggled ep.toggle ep.toggle_default else rest

  unfoldable pub endpoint_enabled : {V H : Type 0} → List Endpoint → State V H → String → Bool
  endpoint_enabled eps s key = not (contains s.runtime_disabled key) && endpoint_configured eps key

module _ {V H : Type 0} where
  unfoldable pub endpoint_available : State V H → String → Bool
  endpoint_available s key = get_or (Dict.get key s.ok_by_key) false

  unfoldable pub fetched_at : State V H → String → Option ℕ
  fetched_at s key = Dict.get key s.last_fetched

  unfoldable pub invalidate_one : String → State V H → State V H
  invalidate_one key s = record s {
    scheduler = Scheduler.invalidate key s.scheduler;
    generation = Dict.put key (get_or (Dict.get key s.generation) 0 + 1) s.generation;
  }

  -- `invalidate(*keys)`
  unfoldable pub invalidate : List String → State V H → State V H
  unfolding invalidate_one
  invalidate [] s = s
  invalidate (k ∷ ks) s = invalidate ks (invalidate_one k s)

  unfoldable pub disable_endpoint : String → State V H → State V H
  disable_endpoint key s = record s { runtime_disabled = key ∷ s.runtime_disabled }

  -- `_set_endpoint_state` after a success.
  unfoldable pub record_success : String → State V H → State V H × List LogEntry
  record_success key s =
      let s' = record s { ok_by_key = Dict.put key true s.ok_by_key } in
      if contains s.failure_logged key
      then (record s' { failure_logged = discard key s.failure_logged }, available_again key ∷ [])
      else (s', [])

  -- `_set_endpoint_state` after a failure; `log` is false while the whole source is down.
  unfoldable pub record_failure : String → Bool → State V H → State V H × List LogEntry
  record_failure key log s =
      let s' = record s { ok_by_key = Dict.put key false s.ok_by_key } in
      if not log || contains s.failure_logged key
      then (s', [])
      else (record s' { failure_logged = key ∷ s.failure_logged }, fetch_failed key ∷ [])

-- ===== src/Switch.antt =====
-- The state of a switch (custom_components/sophos_firewall/switch.py: _SophosWriteSwitch) and how it
-- meets the update cycles.
pub mod Laws
pub mod Kinds
pub mod Presses
use ha_sophos_fw.Prelude.{
  ℕ, zero, suc, ◌+◌, ◌-◌, ◌*◌, ◌/◌, ◌%◌, ◌≤◌, ◌<◌, String, ◌≡◌, refl, sym, ap, ◌∙◌, ◌≢◌, ◌↔◌, ◌⊎◌,
  inl, inr, Bool, true, false, not, ◌&&◌, ◌||◌, Option, none, some, List, [], ◌∷◌, ◌++◌, map, arith,
  ◌==◌, eq_iff, eq_refl, ltb, leb, eqb, if◌then◌else◌, leb→le, ltb→lt, eqb_iff, Bool-cases,
  Option-cases, or_else, is_some, get_or, ne→false, length, is_nil, keep_if, any_of, all_of,
  first_where, All, contains, Distinct,
}
use ha_sophos_fw.Client.Errors.{Result, ok, err}
use ha_sophos_fw.Coordinator.State.{State, fetched_at, invalidate}

pub record Switch : Type 0 where
  pub endpoint : String
  pub optimistic : Option Bool
  pub written_at : Option ℕ

-- What `_actual` gives is read from the coordinator's data.
unfoldable pub is_on : Option Bool → Switch → Option Bool
is_on actual s = if is_some s.optimistic then s.optimistic else actual

abbrev pub later : Option ℕ → Option ℕ → Bool
later (some fetched) (some written) = ltb written fetched
later o p = false

-- `_handle_coordinator_update`
unfoldable pub handle_update : {V H : Type 0} → State V H → Switch → Switch
handle_update c s =
    if later (fetched_at c s.endpoint) s.written_at
    then record s { optimistic = none; written_at = none }
    else s

-- `_set`: how the write ended, and when. Either way the endpoint is read again; a write that failed is
-- reported.
unfoldable pub set :
    {V H : Type 0}
    → Bool
    → Result (Unit {0})
    → ℕ
    → State V H
    → Switch
    → (State V H × Switch) × Result (Unit {0})
set on (ok u) now c s = (
  (invalidate (s.endpoint ∷ []) c, record s { optimistic = some on; written_at = some now }),
  ok u,
)
set on (err e) now c s = ((invalidate (s.endpoint ∷ []) c, s), err e)

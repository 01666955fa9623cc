-- ===== src/Coordinator/Fetch.antt =====
-- Fetching a list of endpoints (coordinator.py: `_fetch`), and what a fetch and a cycle end in.
pub mod Laws
use ha_sophos_fw.Prelude.{
  ℕ, zero, suc, ◌+◌, ◌-◌, ◌*◌, ◌/◌, ◌%◌, ◌≤◌, ◌<◌, String, ◌≡◌, refl, sym, ap, ◌∙◌, ◌≢◌, ◌↔◌, ◌⊎◌,
  inl, inr, Bool, true, false, not, ◌&&◌, ◌||◌, Option, none, some, List, [], ◌∷◌, ◌++◌, map, arith,
  ◌==◌, eq_iff, eq_refl, ltb, leb, eqb, if◌then◌else◌, leb→le, ltb→lt, eqb_iff, Bool-cases,
  Option-cases, or_else, is_some, get_or, ne→false, length, is_nil, keep_if, any_of, all_of,
  first_where, All, contains, Distinct,
}
use ha_sophos_fw.Prelude.Dict
use ha_sophos_fw.Prelude.Dict.{Dict}
use ha_sophos_fw.Coordinator.State.{Endpoint}

-- What one fetch gives: a value, an `Exception`, or another `BaseException` such as a cancellation.
pub data FetchResult (V E : Type 0) : Type 0 where
  fetched : V → FetchResult V E
  failed : E → FetchResult V E
  interrupted : FetchResult V E

-- What a cycle raises.
pub data Raised : Type 0 where
  unreachable no_data auth_failed cancelled : Raised
  access_denied : String → Raised

abbrev pub Attempt : Type 0 → Type 0 → Type 0
Attempt V E = String → FetchResult V E

pub record Fetches (V E : Type 0) : Type 0 where
  pub updates : Dict V
  pub failures : Dict E

pub data Outcome (A : Type 0) : Type 0 where
  ok : A → Outcome A
  raised : Raised → Outcome A

infixl 5 ◌>>=◌
abbrev pub ◌>>=◌ : {A B : Type 0} → Outcome A → (A → Outcome B) → Outcome B
ok a >>= f = f a
raised r >>= f = raised r

module _ {V E : Type 0} where
  unfoldable pub add_result : Endpoint → FetchResult V E → Fetches V E → Outcome (Fetches V E)
  add_result ep (fetched v) f = ok (record f { updates = Dict.put ep.key v f.updates })
  add_result ep (failed e) f = ok (record f { failures = Dict.put ep.key e f.failures })
  add_result ep interrupted f = raised cancelled

  unfoldable pub fetch_into : Attempt V E → List Endpoint → Fetches V E → Outcome (Fetches V E)
  unfolding add_result
  fetch_into attempt [] f = ok f
  fetch_into attempt (ep ∷ eps) f = add_result ep (attempt ep.key) f >>= fetch_into attempt eps

  -- `_fetch`
  unfoldable pub fetch : Attempt V E → List Endpoint → Outcome (Fetches V E)
  unfolding fetch_into
  fetch attempt eps = fetch_into attempt eps (record { updates = []; failures = [] })

  -- `updates.update(more_updates)` and the same for the failures.
  abbrev pub join : Fetches V E → Fetches V E → Fetches V E
  join f g = record {
    updates = Dict.update f.updates g.updates;
    failures = Dict.update f.failures g.failures;
  }

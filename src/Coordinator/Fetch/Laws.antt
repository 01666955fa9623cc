-- ===== src/Coordinator/Fetch/Laws.antt =====
-- What one fetch of a list of endpoints gives for each of them.
use ha_sophos_fw.Prelude.{
  String, ◌≡◌, refl, Option, none, some, List, [], ◌∷◌, map, arith, eq_iff, if◌then◌else◌, or_else,
  contains,
}
use ha_sophos_fw.Prelude.Dict
use ha_sophos_fw.Prelude.Dict.{Dict, get-put}
use ha_sophos_fw.Coordinator.State.{Endpoint}
use ha_sophos_fw.Coordinator.Fetch.{
  FetchResult, fetched, failed, interrupted, Attempt, Fetches, ok, add_result, fetch_into, fetch,
}

abbrev pub endpoint_keys : List Endpoint → List String
endpoint_keys = map (λ ep. ep.key)

module _ {V E : Type 0} where
  abbrev pub value_of : FetchResult V E → Option V
  value_of (fetched v) = some v
  value_of r = none

  abbrev pub error_of : FetchResult V E → Option E
  error_of (failed e) = some e
  error_of r = none

  IsOutput : Attempt V E → List Endpoint → Fetches V E → Fetches V E → String → Type 0
  IsOutput attempt eps f g k =
      (Dict.get k g.updates ≡ (
        if contains (endpoint_keys eps) k
        then or_else (value_of (attempt k)) (Dict.get k f.updates)
        else Dict.get k f.updates))
      × (Dict.get k g.failures ≡ (
          if contains (endpoint_keys eps) k
          then or_else (error_of (attempt k)) (Dict.get k f.failures)
          else Dict.get k f.failures))

  fetch_into_step :
      (attempt : Attempt V E) (eps : List Endpoint) (ep : Endpoint) (f g : Fetches V E) (k : String)
      → (r : FetchResult V E) → attempt ep.key ≡ r
      → ((h : Fetches V E) → fetch_into attempt eps h ≡ ok g → IsOutput attempt eps h g k)
      → fetch_into attempt (ep ∷ eps) f ≡ ok g
      → IsOutput attempt (ep ∷ eps) f g k
  unfolding fetch_into add_result IsOutput
  fetch_into_step attempt eps ep f g k (fetched v) e ih h =
      let f' = record f { updates = Dict.put ep.key v f.updates } in
      ground (arith, ih f', eq_iff ep.key k, get-put ep.key k v f.updates)
  fetch_into_step attempt eps ep f g k (failed v) e ih h =
      let f' = record f { failures = Dict.put ep.key v f.failures } in
      ground (arith, ih f', eq_iff ep.key k, get-put ep.key k v f.failures)
  fetch_into_step attempt eps ep f g k interrupted e ih h = ground arith

  fetch_into_lem :
      (attempt : Attempt V E) (eps : List Endpoint) (f g : Fetches V E) (k : String)
      → fetch_into attempt eps f ≡ ok g
      → IsOutput attempt eps f g k
  unfolding fetch_into IsOutput
  fetch_into_lem attempt [] f g k h = ground arith
  fetch_into_lem attempt (ep ∷ eps) f g k h =
      fetch_into_step attempt eps ep f g k (attempt ep.key) refl
        (λ f' h'. fetch_into_lem attempt eps f' g k h') h

  -- A fetch that is not interrupted keeps, for every endpoint asked, the value it gave or the error it
  -- raised, and has nothing for other keys.
  pub fetch_lem :
      (attempt : Attempt V E) (eps : List Endpoint) (g : Fetches V E) (k : String)
      → fetch attempt eps ≡ ok g
      → (Dict.get k g.updates
          ≡ (if contains (endpoint_keys eps) k then value_of (attempt k) else none))
        × (Dict.get k g.failures
            ≡ (if contains (endpoint_keys eps) k then error_of (attempt k) else none))
  unfolding fetch IsOutput Dict.get
  fetch_lem attempt eps g k h =
      ground (arith, fetch_into_lem attempt eps (record { updates = []; failures = [] }) g k h)

-- ===== src/Coordinator/Xml/Laws.antt =====
-- When the XML coordinator reports rejected credentials or denied access.
use ha_sophos_fw.Prelude.{
  String, ◌≡◌, refl, inl, inr, Bool, true, false, not, ◌&&◌, ◌||◌, List, [], ◌∷◌, arith, eq_iff,
  eq_refl, Bool-cases, keep_if, any_of, All, contains, Distinct,
}
use ha_sophos_fw.Prelude.Dict
use ha_sophos_fw.Prelude.Dict.{Dict, contains-put}
use ha_sophos_fw.Coordinator.State.{Endpoint}
use ha_sophos_fw.Coordinator.Fetch.{
  FetchResult, fetched, failed, interrupted, Attempt, Fetches, ok, add_result, fetch_into, fetch,
}
use ha_sophos_fw.Coordinator.Fetch.Laws.{endpoint_keys}
use ha_sophos_fw.Coordinator.Xml.{Failure, is_auth, auth_keys, pop_all, any_auth}

module _ {V : Type 0} where
  any-put :
      (p : V → Bool) (k : String) (v : V) (d : Dict V)
      → contains (Dict.keys d) k ≡ false
      → any_of (λ e. p e.1) (Dict.put k v d) ≡ (any_of (λ e. p e.1) d || p v)
  unfolding Dict.put
  any-put p k v [] h = ground arith
  any-put p k v ((j, w) ∷ d) h = ground (arith, any-put p k v d)

  -- What a test does not find in two dictionaries, it does not find after the one updated the other.
  any-put_none :
      (p : V → Bool) (k : String) (v : V) (d : Dict V)
      → any_of (λ e. p e.1) d ≡ false
      → p v ≡ false
      → any_of (λ e. p e.1) (Dict.put k v d) ≡ false
  unfolding Dict.put
  any-put_none p k v [] h hv = ground arith
  any-put_none p k v ((j, w) ∷ d) h hv = ground (arith, any-put_none p k v d)

  any-update :
      (p : V → Bool) (d e : Dict V)
      → any_of (λ x. p x.1) d ≡ false
      → any_of (λ x. p x.1) e ≡ false
      → any_of (λ x. p x.1) (Dict.update d e) ≡ false
  unfolding Dict.update
  any-update p d [] h he = h
  any-update p d ((k, v) ∷ e) h he =
      ground (arith, any-put_none p k v d, any-update p (Dict.put k v d) e)

-- The endpoint's credentials are rejected.
abbrev pub rejects : {V : Type 0} → FetchResult V Failure → Bool
rejects (failed e) = is_auth e
rejects r = false

IsFresh : {V : Type 0} → List Endpoint → Dict V → Type 0
IsFresh eps d = All (λ ep. contains (Dict.keys d) ep.key ≡ false) eps

IsFresh-put :
    {V : Type 0} (eps : List Endpoint) (k : String) (v : V) (d : Dict V)
    → contains (endpoint_keys eps) k ≡ false
    → IsFresh eps d
    → IsFresh eps (Dict.put k v d)
unfolding IsFresh
IsFresh-put [] k v d h fresh = ground arith
IsFresh-put (ep ∷ eps) k v d h fresh =
    ground
      (arith, contains-put k ep.key v d, eq_iff k ep.key, eq_iff ep.key k, IsFresh-put eps k v d)

nil-IsFresh : (eps : List Endpoint) → IsFresh {V = Failure} eps []
unfolding IsFresh
nil-IsFresh [] = ground arith
nil-IsFresh (ep ∷ eps) = (refl, nil-IsFresh eps)

absent_kept :
    (p : Endpoint → Bool) (eps : List Endpoint) (k : String)
    → contains (endpoint_keys eps) k ≡ false
    → contains (endpoint_keys (keep_if p eps)) k ≡ false
absent_kept p [] k h = refl
absent_kept p (ep ∷ eps) k h = ground (arith, absent_kept p eps k)

pub keep_if-Distinct :
    (p : Endpoint → Bool) (eps : List Endpoint)
    → Distinct (endpoint_keys eps)
    → Distinct (endpoint_keys (keep_if p eps))
keep_if-Distinct p [] h = h
keep_if-Distinct p (ep ∷ eps) h = ground (arith, keep_if-Distinct p eps, absent_kept p eps ep.key)

pub any_kept :
    (p q : Endpoint → Bool) (eps : List Endpoint)
    → any_of q (keep_if p eps) ≡ any_of (λ ep. p ep && q ep) eps
any_kept p q [] = refl
any_kept p q (ep ∷ eps) = ground (arith, any_kept p q eps)

-- No authentication failure outside the keys.
unfoldable pub IsCovered : List String → Dict Failure → Type 0
IsCovered ks d = any_of (λ e. is_auth e.1 && not (contains ks e.0)) d ≡ false

IsCovered-pop :
    (k : String) (ks : List String) (d : Dict Failure)
    → IsCovered (k ∷ ks) d
    → IsCovered ks (Dict.pop k d)
unfolding IsCovered Dict.pop
IsCovered-pop k ks [] h = h
IsCovered-pop k ks ((j, e) ∷ d) h = ground (arith, eq_iff j k, eq_iff k j, IsCovered-pop k ks d)

any_auth-pop_all :
    (ks : List String) (d : Dict Failure) → IsCovered ks d → any_auth (pop_all ks d) ≡ false
unfolding IsCovered pop_all any_auth
any_auth-pop_all [] [] h = refl
any_auth-pop_all [] ((j, e) ∷ d) h = ground (arith, any_auth-pop_all [] d)
any_auth-pop_all (k ∷ ks) d h = any_auth-pop_all ks (Dict.pop k d) (IsCovered-pop k ks d h)

pub auth_keys-IsCovered :
    (ks : List String) (d : Dict Failure)
    → ((k : String) → contains (auth_keys d) k ≡ true → contains ks k ≡ true)
    → IsCovered ks d
unfolding IsCovered auth_keys
auth_keys-IsCovered ks [] h = refl
auth_keys-IsCovered ks ((j, e) ∷ d) h = elim (Bool-cases (is_auth e)) [
  | inl auth ↦ ground (arith, eq_refl j, h j, auth_keys-IsCovered ks d (λ k c. h k (ground arith)))
  | inr other ↦ ground (arith, auth_keys-IsCovered ks d (λ k c. h k (ground arith)))
]

module _ {V : Type 0} where
  any_step :
      (attempt : Attempt V Failure) (ep : Endpoint) (eps : List Endpoint) (f g : Fetches V Failure)
      → (r : FetchResult V Failure) → attempt ep.key ≡ r
      → ((h : Fetches V Failure)
          → IsFresh eps h.failures
          → fetch_into attempt eps h ≡ ok g
          → any_auth g.failures
            ≡ (any_auth h.failures || any_of (λ ep. rejects (attempt ep.key)) eps))
      → Distinct (endpoint_keys (ep ∷ eps))
      → IsFresh (ep ∷ eps) f.failures
      → fetch_into attempt (ep ∷ eps) f ≡ ok g
      → any_auth g.failures
        ≡ (any_auth f.failures || (rejects r || any_of (λ ep. rejects (attempt ep.key)) eps))
  unfolding fetch_into add_result any_auth IsFresh
  any_step attempt ep eps f g (fetched v) e ih distinct fresh h =
      ground (arith, ih (record f { updates = Dict.put ep.key v f.updates }))
  any_step attempt ep eps f g (failed v) e ih distinct fresh h = ground (
    arith,
    any-put is_auth ep.key v f.failures,
    IsFresh-put eps ep.key v f.failures,
    ih (record f { failures = Dict.put ep.key v f.failures }),
  )
  any_step attempt ep eps f g interrupted e ih distinct fresh h = ground arith

  any-fetch_into :
      (attempt : Attempt V Failure) (eps : List Endpoint) (f g : Fetches V Failure)
      → Distinct (endpoint_keys eps)
      → IsFresh eps f.failures
      → fetch_into attempt eps f ≡ ok g
      → any_auth g.failures ≡ (any_auth f.failures || any_of (λ ep. rejects (attempt ep.key)) eps)
  unfolding fetch_into
  any-fetch_into attempt [] f g distinct fresh h = ground arith
  any-fetch_into attempt (ep ∷ eps) f g distinct fresh h =
      any_step attempt ep eps f g (attempt ep.key) refl
        (λ f' fresh' h'. any-fetch_into attempt eps f' g distinct.1 fresh' h') distinct fresh h

  -- A fetch of endpoints with distinct keys has an authentication failure exactly if the firewall
  -- rejects the credentials for one of them.
  pub any_auth-fetch :
      (attempt : Attempt V Failure) (eps : List Endpoint) (g : Fetches V Failure)
      → Distinct (endpoint_keys eps)
      → fetch attempt eps ≡ ok g
      → any_auth g.failures ≡ any_of (λ ep. rejects (attempt ep.key)) eps
  unfolding fetch any_auth
  any_auth-fetch attempt eps g distinct h =
      any-fetch_into attempt eps (record { updates = []; failures = [] }) g distinct
        (nil-IsFresh eps) h

  pub cleared :
      (ks : List String) (f again : Fetches V Failure)
      → IsCovered ks f.failures
      → any_auth again.failures ≡ false
      → any_auth (Dict.update (pop_all ks f.failures) again.failures) ≡ false
  unfolding any_auth
  cleared ks f again covered h =
      any-update is_auth (pop_all ks f.failures) again.failures
        (any_auth-pop_all ks f.failures covered) h

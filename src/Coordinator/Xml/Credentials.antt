-- ===== src/Coordinator/Xml/Credentials.antt =====
-- What `_handle_failures` makes of rejected credentials and denied access.
use ha_sophos_fw.Prelude.{
  String, ◌≡◌, refl, sym, ◌∙◌, inl, inr, Bool, true, false, ◌&&◌, none, List, [], ◌∷◌, arith,
  Bool-cases, is_nil, keep_if, any_of, contains, Distinct,
}
use ha_sophos_fw.Prelude.Dict.{Dict}
use ha_sophos_fw.Coordinator.State.{Endpoint}
use ha_sophos_fw.Coordinator.Fetch.{Attempt, Fetches, Outcome, ok, raised, auth_failed, fetch}
use ha_sophos_fw.Coordinator.Fetch.Laws.{endpoint_keys}
use ha_sophos_fw.Coordinator.Xml.{
  Failure, auth_keys, any_auth, after_retry, retry_auth, first_access, check_access,
  handle_failures,
}
use ha_sophos_fw.Coordinator.Xml.Laws.{
  rejects, any_auth-fetch, any_kept, keep_if-Distinct, IsCovered, auth_keys-IsCovered, cleared,
}

no_keys : (d : Dict Failure) → is_nil (auth_keys d) ≡ true → any_auth d ≡ false
unfolding auth_keys any_auth
no_keys [] h = refl
no_keys ((j, e) ∷ d) h = ground (arith, no_keys d)

no_kept :
    (d : Dict Failure) (q : Endpoint → Bool) (eps : List Endpoint)
    → is_nil (auth_keys d) ≡ true
    → any_of (λ ep. contains (auth_keys d) ep.key && q ep) eps ≡ false
no_kept d q [] h = refl
no_kept d q (ep ∷ eps) h = ground (arith, no_kept d q eps)

module _ {V : Type 0} where
  -- `retry_auth` with the results of its fetch.
  retried :
      (endpoints : List Endpoint) (retry : Attempt V Failure) (f again : Fetches V Failure)
      → is_nil (auth_keys f.failures) ≡ false
      → fetch retry (keep_if (λ ep. contains (auth_keys f.failures) ep.key) endpoints) ≡ ok again
      → retry_auth endpoints retry f ≡ after_retry (auth_keys f.failures) f again
  unfolding retry_auth
  retried endpoints retry f again some_keys h = rw (some_keys, h) refl

  untouched :
      (endpoints : List Endpoint) (retry : Attempt V Failure) (f : Fetches V Failure)
      → is_nil (auth_keys f.failures) ≡ true
      → retry_auth endpoints retry f ≡ ok f
  unfolding retry_auth
  untouched endpoints retry f none_failed = rw none_failed refl

  unfoldable pub is_auth_failed : Outcome (Fetches V Failure) → Bool
  is_auth_failed (raised auth_failed) = true
  is_auth_failed r = false

  auth_failed-check_access :
      (r : Outcome (Fetches V Failure)) → is_auth_failed (check_access r).0 ≡ is_auth_failed r
  unfolding check_access is_auth_failed
  auth_failed-check_access (ok f) = ground arith
  auth_failed-check_access (raised r) = refl

  -- If the endpoints' keys are distinct and the retry is not interrupted, the credentials are reported as
  -- wrong exactly if the firewall rejects them for one of the endpoints in the fetch and again for the
  -- same endpoint in the retry; a single rejection is forgiven.
  pub auth_failed-handle_failures :
      (endpoints : List Endpoint) (retry : Attempt V Failure) (f again : Fetches V Failure)
      → Distinct (endpoint_keys endpoints)
      → fetch retry (keep_if (λ ep. contains (auth_keys f.failures) ep.key) endpoints) ≡ ok again
      → is_auth_failed (handle_failures endpoints retry f).0
        ≡ any_of (λ ep. contains (auth_keys f.failures) ep.key && rejects (retry ep.key)) endpoints
  unfolding handle_failures after_retry is_auth_failed
  auth_failed-handle_failures endpoints retry f again distinct h =
      let p = λ (ep : Endpoint). contains (auth_keys f.failures) ep.key in
      auth_failed-check_access (retry_auth endpoints retry f)
      ∙ elim (Bool-cases (is_nil (auth_keys f.failures))) [
        | inl nothing ↦
            rw
              (
                untouched endpoints retry f nothing,
                no_kept f.failures (λ ep. rejects (retry ep.key)) endpoints nothing,
              )
              refl
        | inr something ↦ rw (retried endpoints retry f again something h) ground (
          arith,
          any_auth-fetch retry (keep_if p endpoints) again (keep_if-Distinct p endpoints distinct)
              h,
          any_kept p (λ ep. rejects (retry ep.key)) endpoints,
        )
      ]

  check_access_ok :
      (r : Outcome (Fetches V Failure)) (g : Fetches V Failure)
      → (check_access r).0 ≡ ok g
      → (r ≡ ok g) × (first_access g.failures ≡ none)
  unfolding check_access
  check_access_ok (ok f) g h = ground arith
  check_access_ok (raised r) g h = ground arith

  after_retry_ok :
      (ks : List String) (f again g : Fetches V Failure)
      → IsCovered ks f.failures
      → after_retry ks f again ≡ ok g
      → any_auth g.failures ≡ false
  unfolding after_retry
  after_retry_ok ks f again g covered h = ground (arith, cleared ks f again covered)

  retry_auth_ok :
      (endpoints : List Endpoint) (retry : Attempt V Failure) (f again g : Fetches V Failure)
      → fetch retry (keep_if (λ ep. contains (auth_keys f.failures) ep.key) endpoints) ≡ ok again
      → retry_auth endpoints retry f ≡ ok g
      → any_auth g.failures ≡ false
  retry_auth_ok endpoints retry f again g h done =
      let ks = auth_keys f.failures in
      elim (Bool-cases (is_nil ks)) [
        | inl nothing ↦
            ground (arith, untouched endpoints retry f nothing, no_keys f.failures nothing)
        | inr something ↦
            after_retry_ok ks f again g (auth_keys-IsCovered ks f.failures (λ k c. c))
              (sym (retried endpoints retry f again something h) ∙ done)
      ]

  -- When the error handling lets a cycle go on, none of the failures it leaves is a rejection of the
  -- credentials or a denial of access.
  pub handle_failures_ok :
      (endpoints : List Endpoint) (retry : Attempt V Failure) (f again g : Fetches V Failure)
      → fetch retry (keep_if (λ ep. contains (auth_keys f.failures) ep.key) endpoints) ≡ ok again
      → (handle_failures endpoints retry f).0 ≡ ok g
      → (any_auth g.failures ≡ false) × (first_access g.failures ≡ none)
  unfolding handle_failures check_access retry_auth after_retry
  handle_failures_ok endpoints retry f again g h done =
      let (success, access) = check_access_ok (retry_auth endpoints retry f) g done in
      (retry_auth_ok endpoints retry f again g h success, access)

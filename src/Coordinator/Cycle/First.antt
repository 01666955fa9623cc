-- ===== src/Coordinator/Cycle/First.antt =====
-- The first refresh, which setup limits to the endpoints that it needs.
use ha_sophos_fw.Prelude.{
  ℕ, String, ◌≡◌, refl, ◌∙◌, Bool, true, false, Option, none, some, List, [], ◌∷◌, arith, eq_iff,
  is_nil, keep_if, contains,
}
use ha_sophos_fw.Prelude.Dict
use ha_sophos_fw.Prelude.Dict.{Dict}
use ha_sophos_fw.Coordinator.Scheduler
use ha_sophos_fw.Coordinator.State.{Endpoint, State, endpoint_enabled}
use ha_sophos_fw.Coordinator.Fetch.{Fetches, ok, fetch}
use ha_sophos_fw.Coordinator.Fetch.Laws.{endpoint_keys, fetch_lem}
use ha_sophos_fw.Coordinator.Cycle.{
  Source, Surroundings, IssueEvent, due_endpoints, limit, gather, update, refresh, first_refresh_of,
}
use ha_sophos_fw.Coordinator.Cycle.Fresh.{last-finish}

absent_of_none :
    {V : Type 0}
    → (k : String) (d : Dict V) → Dict.get k d ≡ none
    → contains (Dict.keys d) k ≡ false
unfolding Dict.get
absent_of_none k [] h = refl
absent_of_none k ((j, v) ∷ d) h = ground (arith, absent_of_none k d)

not_limited :
    (only : List String) (eps : List Endpoint) (k : String)
    → contains only k ≡ false
    → contains (endpoint_keys (keep_if (λ ep. contains only ep.key) eps)) k ≡ false
not_limited only [] k h = refl
not_limited only (ep ∷ eps) k h = ground (arith, eq_iff ep.key k, not_limited only eps k)

some_due :
    (p : Endpoint → Bool) (eps : List Endpoint)
    → is_nil (keep_if p eps) ≡ false
    → is_nil eps ≡ false
some_due p [] h = h
some_due p (ep ∷ eps) h = refl

module _ {V E H : Type 0} (src : Source V E H) where
  abbrev pub limited :
      (String → Option Bool) → List String → Surroundings V E → State V H → List Endpoint
  limited options only around s =
      keep_if (λ ep. contains only ep.key) (due_endpoints src options s around.now)

  gather_limited :
      (only : List String) (around : Surroundings V E) (due : List Endpoint)
      → (f : Fetches V E) (issues : List IssueEvent)
      → let now = keep_if (λ ep. contains only ep.key) due in
        is_nil now ≡ false
        → fetch around.first now ≡ ok f
        → src.handle around.first_retry f ≡ (ok f, issues)
        → is_nil f.updates ≡ false
        → gather src around (limit src (some only) due) ≡ (ok f, issues)
  unfolding gather limit
  gather_limited only around due f issues some_now h handled some_read =
      rw (some_now, h, handled, some_read) ground arith

  -- When the first refresh reads one of the keys it is limited to, and its error handling accepts what
  -- was fetched, every other endpoint that was never fetched is still due.
  pub is_due-first_refresh_of :
      (options : String → Option Bool) (only : List String) (around : Surroundings V E)
      → (s : State V H) (f : Fetches V E) (issues : List IssueEvent) (k : String)
        (tier : Scheduler.Tier) (later : ℕ)
      → is_nil (limited options only around s) ≡ false
      → fetch around.first (limited options only around s) ≡ ok f
      → src.handle around.first_retry f ≡ (ok f, issues)
      → is_nil f.updates ≡ false
      → contains only k ≡ false
      → Dict.get k s.scheduler.last ≡ none
      → Scheduler.is_due (first_refresh_of src options only around s).0.scheduler k tier later
        ≡ true
  unfolding first_refresh_of refresh update Scheduler.is_due due_endpoints endpoint_enabled
  is_due-first_refresh_of options only around s f issues k tier later some_now h handled some_read
        outside never =
      let s1 = record s { restrict_to = some only } in
      let due = due_endpoints src options s around.now in
      let unread : contains (Dict.keys f.updates) k ≡ false = absent_of_none k f.updates (
        (fetch_lem around.first (limited options only around s) f k h).0
        ∙ rw (not_limited only due k outside) refl) in
      rw
        (
          some_due (λ ep. contains only ep.key) due some_now,
          gather_limited only around due f issues some_now h handled some_read,
        )
        ground (arith, last-finish src around f issues s1 k, unread)

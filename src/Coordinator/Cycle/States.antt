-- ===== src/Coordinator/Cycle/States.antt =====
-- Which endpoints are available after a cycle, and its data.
use ha_sophos_fw.Prelude.{
  String, ◌≡◌, refl, inl, inr, Bool, true, false, not, ◌&&◌, ◌||◌, Option, some, List, [], ◌∷◌,
  arith, ◌==◌, if◌then◌else◌, Bool-cases, or_else, is_some, is_nil, contains, Distinct,
}
use ha_sophos_fw.Prelude.Dict
use ha_sophos_fw.Prelude.Dict.{Dict, get-put, get-update}
use ha_sophos_fw.Coordinator.State.{
  State, LogEntry, invalidate, record_success, record_failure, endpoint_available,
}
use ha_sophos_fw.Coordinator.Fetch.{Fetches, Outcome, ok, raised, unreachable, no_data}
use ha_sophos_fw.Coordinator.Cycle.{
  Source, Surroundings, IssueEvent, mark_updates, is_outage, record_all, merge, record_states,
  conclude, settle, finish, update, previous, keep, due_endpoints, limit, gather, refresh,
}
use ha_sophos_fw.Coordinator.Cycle.Keeps.{
  Keeps, invalidate-Keeps, mark_updates-Keeps, record_states-Keeps,
}

module _ {V E H : Type 0} (src : Source V E H) where
  Sets : Bool → (String → State V H → State V H × List LogEntry) → Type 0
  Sets b op =
      (j k : String) (s : State V H)
      → Dict.get k (op j s).0.ok_by_key ≡ (if j == k then some b else Dict.get k s.ok_by_key)

  record_success-Sets : Sets true record_success
  unfolding Sets record_success
  record_success-Sets j k s = ground (arith, get-put j k true s.ok_by_key)

  record_failure-Sets : (log : Bool) → Sets false (λ k. record_failure k log)
  unfolding Sets record_failure
  record_failure-Sets log j k s = ground (arith, get-put j k false s.ok_by_key)

  ok-record_all :
      (b : Bool) (op : String → State V H → State V H × List LogEntry)
      → Sets b op
      → (ks : List String) (s : State V H) (k : String)
      → Dict.get k (record_all src op ks s).0.ok_by_key
        ≡ (if contains ks k then some b else Dict.get k s.ok_by_key)
  unfolding record_all Sets
  ok-record_all b op sets [] s k = refl
  ok-record_all b op sets (j ∷ ks) s k =
      ground (arith, sets j k s, ok-record_all b op sets ks (op j s).0 k)

  -- After the fetches an endpoint is available if it gave an update, unavailable if it failed, and as
  -- it was before if it was not fetched.
  pub available-record_states :
      (f : Fetches V E) (s : State V H) (k : String)
      → endpoint_available (record_states src f s).0 k ≡ (
          if contains (Dict.keys f.failures) k
          then false
          else if contains (Dict.keys f.updates) k
          then true
          else endpoint_available s k)
  unfolding endpoint_available record_states
  available-record_states f s k =
      let after = (record_all src record_success (Dict.keys f.updates) s).0 in
      ground (
        arith,
        ok-record_all true record_success record_success-Sets (Dict.keys f.updates) s k,
        ok-record_all false (λ j. record_failure j (not (is_outage src f)))
            (record_failure-Sets (not (is_outage src f))) (Dict.keys f.failures) after k,
      )

  -- A cycle whose fetches gave `f` raises when every fetch failed with a connection error, and on the
  -- first refresh when nothing was read.
  unfoldable pub is_failed : Fetches V E → State V H → Bool
  is_failed f s = is_outage src f || (not (is_some s.last_data) && is_nil f.updates)

  conclude_failed :
      (f : Fetches V E) (log : List LogEntry) (issues : List IssueEvent) (s : State V H)
      → is_failed f s ≡ true
      → conclude src f log issues s ≡ (
        s,
        record {
          outcome = raised (if is_outage src f then unreachable else no_data);
          log = log;
          issues = issues;
        },
      )
  unfolding conclude is_failed
  conclude_failed f log issues s h = ground arith

  conclude-merged :
      (f : Fetches V E) (log : List LogEntry) (issues : List IssueEvent) (s : State V H)
      → is_failed f s ≡ false
      → conclude src f log issues s ≡ (
          let (s', merged) = merge src f.updates s in
          (s', record { outcome = ok merged; log = log; issues = issues }))
  unfolding conclude is_failed
  conclude-merged f log issues s h = ground arith

  after_fetch : Surroundings V E → Fetches V E → State V H → State V H × List LogEntry
  after_fetch around f s = record_states src f (
      mark_updates src around.done s.generation (Dict.keys f.updates)
        (invalidate around.invalidated s))

  after_fetch-Keeps :
      (around : Surroundings V E) (f : Fetches V E) → Keeps src (λ s. (after_fetch around f s).0)
  unfolding after_fetch
  after_fetch-Keeps around f s =
      let s1 = invalidate around.invalidated s in
      ground (
        arith,
        invalidate-Keeps src around.invalidated s,
        mark_updates-Keeps src around.done s.generation (Dict.keys f.updates) s1,
        record_states-Keeps src f
            (mark_updates src around.done s.generation (Dict.keys f.updates) s1),
      )

  refresh-after_fetch :
      (options : String → Option Bool) (around : Surroundings V E) (s : State V H)
      → (f : Fetches V E) (issues : List IssueEvent)
      → let due = due_endpoints src options s around.now in
        is_nil due ≡ false
        → gather src around (limit src s.restrict_to due) ≡ (ok f, issues)
        → let (t, log) = after_fetch around f s in
          refresh src options around s
          ≡ (let (s', report) = conclude src f log issues t in (keep src report.outcome s', report))
  unfolding after_fetch refresh update finish settle
  refresh-after_fetch options around s f issues fetching h = rw (fetching, h) refl

  abbrev pub succeeded : Outcome (Dict V) → Bool
  succeeded (ok merged) = true
  succeeded (raised r) = false

  merged_lem :
      (updates : Dict V) (s t : State V H)
      → (t.last_data ≡ s.last_data) × (t.own ≡ s.own)
      → (merge src updates t).1 ≡ Dict.update (previous src s) (src.prepare s.own updates).0
  unfolding merge previous
  merged_lem updates s t (same_data, same_own) = rw (same_data, same_own) refl

  data_cases :
      (f : Fetches V E) (issues : List IssueEvent) (k : String) (log : List LogEntry)
      (s t : State V H)
      → let prepared = (src.prepare s.own f.updates).0 in
        (t.last_data ≡ s.last_data) × (t.own ≡ s.own)
        → Distinct (Dict.keys prepared)
        → let (t', report) = conclude src f log issues t in
          let s' = keep src report.outcome t' in
          (succeeded report.outcome ≡ not (is_failed f s))
          × (Dict.get k (previous src s') ≡ (
              if is_failed f s
              then Dict.get k (previous src s)
              else or_else (Dict.get k prepared) (Dict.get k (previous src s))))
  unfolding previous keep is_failed
  data_cases f issues k log s t keeps distinct = elim (Bool-cases (is_failed f t)) [
    | inl failing ↦ rw (conclude_failed f log issues t failing) ground (arith, keeps)
    | inr fine ↦
        rw (conclude-merged f log issues t fine, merged_lem f.updates s t keeps) ground
          (arith, keeps, get-update (previous src s) (src.prepare s.own f.updates).0 k distinct)
  ]

  -- A cycle whose fetches gave `f` succeeds unless every fetch failed with a connection error, or
  -- nothing was read on the first refresh. Then the data of an updated endpoint is what `_prepare`
  -- makes of its update, and every other field keeps its value; else all data stay as they were.
  pub data-refresh :
      (options : String → Option Bool) (around : Surroundings V E) (s : State V H)
      → (f : Fetches V E) (issues : List IssueEvent) (k : String)
      → let due = due_endpoints src options s around.now in
        let prepared = (src.prepare s.own f.updates).0 in
        is_nil due ≡ false
        → gather src around (limit src s.restrict_to due) ≡ (ok f, issues)
        → Distinct (Dict.keys prepared)
        → let (s', report) = refresh src options around s in
          (succeeded report.outcome ≡ not (is_failed f s))
          × (Dict.get k (previous src s') ≡ (
              if is_failed f s
              then Dict.get k (previous src s)
              else or_else (Dict.get k prepared) (Dict.get k (previous src s))))
  unfolding previous
  data-refresh options around s f issues k fetching h distinct =
      let (t, log) = after_fetch around f s in
      let prepared = (src.prepare s.own f.updates).0 in
      rw (refresh-after_fetch options around s f issues fetching h)
        (data_cases f issues k log s t (after_fetch-Keeps around f s) distinct)

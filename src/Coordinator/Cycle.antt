-- ===== src/Coordinator/Cycle.antt =====
-- One update cycle of a SophosCoordinator (coordinator.py: `_update` and its hooks).
pub mod Marks
pub mod Fresh
pub mod Times
pub mod Keeps
pub mod First
pub mod States
use ha_sophos_fw.Prelude.{
  ℕ, zero, suc, ◌+◌, ◌-◌, ◌*◌, ◌/◌, ◌%◌, ◌≤◌, ◌<◌, String, ◌≡◌, refl, sym, ap, ◌∙◌, ◌≢◌, ◌↔◌, ◌⊎◌,
  inl, inr, Bool, true, false, not, ◌&&◌, ◌||◌, Option, none, some, List, [], ◌∷◌, ◌++◌, map, arith,
  ◌==◌, eq_iff, eq_refl, ltb, leb, eqb, if◌then◌else◌, leb→le, ltb→lt, eqb_iff, Bool-cases,
  Option-cases, or_else, is_some, get_or, ne→false, length, is_nil, keep_if, any_of, all_of,
  first_where, All, contains, Distinct,
}
use ha_sophos_fw.Prelude.Dict
use ha_sophos_fw.Prelude.Dict.{Dict}
use ha_sophos_fw.Coordinator.Scheduler
use ha_sophos_fw.Coordinator.State.{
  Endpoint, State, LogEntry, endpoint_enabled, invalidate, record_success, record_failure,
  disable_endpoint,
}
use ha_sophos_fw.Coordinator.Fetch.{
  Attempt, Fetches, Outcome, ok, raised, ◌>>=◌, Raised, unreachable, no_data, fetch, join,
}

-- Repair issues that a cycle raises and clears (issues.py).
pub data IssueEvent : Type 0 where
  raise_access_denied : String → IssueEvent
  clear_access_denied : IssueEvent

-- What a subclass of SophosCoordinator adds: its endpoints and `connection_errors`, the hook
-- `_handle_failures`, which may fetch once more, and the hooks `_prepare` and `_after_update`; the
-- latter names endpoints to disable. `empty` is the data before the first refresh.
pub record Source (V E H : Type 0) : Type 0 where
  pub endpoints : List Endpoint
  pub is_connection : E → Bool
  pub handle : Attempt V E → Fetches V E → Outcome (Fetches V E) × List IssueEvent
  pub prepare : H → Dict V → Dict V × H
  pub after_update : H → Dict V → H × List String
  pub empty : Dict V

-- What happens around one cycle: when it starts and ends, what each fetch gives (of the due
-- endpoints, of those left for later, and of the tries after them), and the endpoints that others
-- invalidate while it fetches.
pub record Surroundings (V E : Type 0) : Type 0 where
  pub now : ℕ
  pub done : ℕ
  pub first : Attempt V E
  pub first_retry : Attempt V E
  pub second : Attempt V E
  pub second_retry : Attempt V E
  pub invalidated : List String

-- What a cycle leaves besides its state: its data or what it raised, the log and the issues.
pub record Report (V : Type 0) : Type 0 where
  pub outcome : Outcome (Dict V)
  pub log : List LogEntry
  pub issues : List IssueEvent

-- Equality of two values of `_generation.get(key)`.
abbrev pub same : Option ℕ → Option ℕ → Bool
same (some m) (some n) = eqb m n
same none none = true
same o p = false

module _ {V E H : Type 0} (src : Source V E H) where
  all_connection : Dict E → Bool
  all_connection failures = all_of (λ e. src.is_connection e.1) failures

  -- `bool(failures) and not updates and all(...)`
  unfoldable pub is_outage : Fetches V E → Bool
  unfolding all_connection
  is_outage f = not (is_nil f.failures) && is_nil f.updates && all_connection f.failures

  unfoldable pub due_endpoints : (String → Option Bool) → State V H → ℕ → List Endpoint
  due_endpoints options s now =
      keep_if
        (λ ep.
          endpoint_enabled options src.endpoints s ep.key
          && Scheduler.is_due s.scheduler ep.key ep.tier now)
        src.endpoints

  -- The endpoints to fetch now and those left for later, under `_restrict_to`.
  unfoldable pub limit : Option (List String) → List Endpoint → List Endpoint × List Endpoint
  limit none due = (due, [])
  limit (some only) due =
      let limited = keep_if (λ ep. contains only ep.key) due in
      if is_nil limited
      then (due, [])
      else (limited, keep_if (λ ep. not (contains only ep.key)) due)

  handled : Attempt V E → Outcome (Fetches V E) → Outcome (Fetches V E) × List IssueEvent
  handled retry (ok f) = src.handle retry f
  handled retry (raised r) = (raised r, [])

  joined : Fetches V E → Outcome (Fetches V E) → Outcome (Fetches V E)
  joined f (ok g) = ok (join f g)
  joined f (raised r) = raised r

  fetch_later :
      Surroundings V E
      → List Endpoint
      → Outcome (Fetches V E) × List IssueEvent
      → Outcome (Fetches V E) × List IssueEvent
  unfolding all_connection handled joined
  fetch_later around later (raised r, events) = (raised r, events)
  fetch_later around later (ok f, events) =
      let (more, more_events) = handled around.second_retry (fetch around.second later) in
      if not (is_nil later) && is_nil f.updates && not (all_connection f.failures)
      then (joined f more, events ++ more_events)
      else (ok f, events)

  -- Both fetches of a cycle, with their error handling.
  unfoldable pub gather :
      Surroundings V E → List Endpoint × List Endpoint → Outcome (Fetches V E) × List IssueEvent
  unfolding handled fetch_later
  gather around (now, later) =
      fetch_later around later (handled around.first_retry (fetch around.first now))

  -- The updates that no invalidation overtook count as fetched; `before` is `_generation` at the start.
  unfoldable pub mark_updates : ℕ → Dict ℕ → List String → State V H → State V H
  mark_updates done before [] s = s
  mark_updates done before (k ∷ ks) s = mark_updates done before ks (
      if same (Dict.get k s.generation) (Dict.get k before)
      then record s {
        scheduler = Scheduler.mark_fetched k done s.scheduler;
        last_fetched = Dict.put k done s.last_fetched;
      }
      else s)

  unfoldable pub record_all :
      (String → State V H → State V H × List LogEntry)
      → List String
      → State V H
      → State V H × List LogEntry
  record_all op [] s = (s, [])
  record_all op (k ∷ ks) s =
      let (s', log) = op k s in let (s'', more) = record_all op ks s' in (s'', log ++ more)

  unfoldable pub disable_all : List String → State V H → State V H
  disable_all [] s = s
  disable_all (k ∷ ks) s = disable_all ks (disable_endpoint k s)

  -- `self.data if self.data is not None else self._empty`
  unfoldable pub previous : State V H → Dict V
  previous s = get_or s.last_data src.empty

  -- The merged data, and the hooks' effects on the state.
  unfoldable pub merge : Dict V → State V H → State V H × Dict V
  unfolding previous disable_all
  merge updates s =
      let (prepared, own) = src.prepare s.own updates in
      let (own', disabled) = src.after_update own updates in
      (disable_all disabled (record s { own = own' }), Dict.update (previous s) prepared)

  -- The endpoints' states after the fetches, and what was logged.
  unfoldable pub record_states : Fetches V E → State V H → State V H × List LogEntry
  unfolding is_outage record_all
  record_states f s =
      let (s', log) = record_all record_success (Dict.keys f.updates) s in
      let (s'', more) =
        record_all (λ k. record_failure k (not (is_outage f))) (Dict.keys f.failures) s' in
      (s'', log ++ more)

  unfoldable pub conclude :
      Fetches V E → List LogEntry → List IssueEvent → State V H → State V H × Report V
  unfolding is_outage merge
  conclude f log issues s =
      let (s', merged) = merge f.updates s in
      if is_outage f
      then (s, record { outcome = raised unreachable; log = log; issues = issues })
      else if not (is_some s.last_data) && is_nil f.updates
      then (s, record { outcome = raised no_data; log = log; issues = issues })
      else (s', record { outcome = ok merged; log = log; issues = issues })

  -- What follows the fetches; the state is the one they end in.
  unfoldable pub settle :
      ℕ → Dict ℕ → Fetches V E → List IssueEvent → State V H → State V H × Report V
  unfolding mark_updates record_states conclude
  settle done before f issues s =
      let (s', log) = record_states f (mark_updates done before (Dict.keys f.updates) s) in
      conclude f log issues s'

  unfoldable pub finish :
      Surroundings V E
      → Dict ℕ
      → Outcome (Fetches V E) × List IssueEvent
      → State V H
      → State V H × Report V
  unfolding settle
  finish around before (ok f, issues) s = settle around.done before f issues s
  finish around before (raised r, issues) s =
      (s, record { outcome = raised r; log = []; issues = issues })

  -- `_update`
  unfoldable pub update :
      (String → Option Bool) → Surroundings V E → State V H → State V H × Report V
  unfolding previous due_endpoints limit gather finish
  update options around s =
      let due = due_endpoints options s around.now in
      if is_nil due
      then (s, record { outcome = ok (previous s); log = []; issues = [] })
      else finish around s.generation (gather around (limit s.restrict_to due))
          (invalidate around.invalidated s)

  unfoldable pub keep : Outcome (Dict V) → State V H → State V H
  keep (ok merged) s = record s { last_data = some merged }
  keep (raised r) s = s

  -- A refresh: the coordinator of Home Assistant keeps what the cycle returns as its `data`.
  unfoldable pub refresh :
      (String → Option Bool) → Surroundings V E → State V H → State V H × Report V
  unfolding update keep
  refresh options around s =
      let (s', report) = update options around s in (keep report.outcome s', report)

  -- `async_first_refresh_of`: a refresh that is limited to the keys while it runs.
  unfoldable pub first_refresh_of :
      (String → Option Bool) → List String → Surroundings V E → State V H → State V H × Report V
  unfolding refresh
  first_refresh_of options only around s =
      let (s', report) = refresh options around (record s { restrict_to = some only }) in
      (record s' { restrict_to = none }, report)

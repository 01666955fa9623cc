-- ===== src/Coordinator/Cycle/Fresh.antt =====
-- Which endpoints count as fetched after a cycle.
use ha_sophos_fw.Prelude.{
  ℕ, String, ◌≡◌, ap, ◌∙◌, Bool, true, false, Option, none, some, List, [], ◌∷◌, ◌||◌, arith,
  if◌then◌else◌, is_nil, contains,
}
use ha_sophos_fw.Prelude.Dict
use ha_sophos_fw.Prelude.Dict.{Dict, get-put, get-pop}
use ha_sophos_fw.Coordinator.Scheduler
use ha_sophos_fw.Coordinator.State.{State, invalidate}
use ha_sophos_fw.Coordinator.Fetch.{Fetches, Outcome, Raised, ok, raised}
use ha_sophos_fw.Coordinator.Cycle.{
  Source, Surroundings, IssueEvent, due_endpoints, limit, gather, mark_updates, record_states,
  settle, finish, update, refresh,
}
use ha_sophos_fw.Coordinator.Cycle.Marks.{
  last-invalidate, same-invalidate, last-mark_updates, scheduler-record_states, scheduler-conclude,
}

module _ {V E H : Type 0} (src : Source V E H) where
  -- After a cycle whose fetches gave `f`, every updated endpoint counts as fetched at the cycle's end,
  -- unless it was invalidated meanwhile; one that was invalidated counts as never fetched, and every
  -- other one keeps the time of its last fetch.
  pub last-finish :
      (around : Surroundings V E) (f : Fetches V E) (issues : List IssueEvent) (s : State V H)
      (k : String)
      → Dict.get k
          (finish src around s.generation
            (ok f, issues)
            (invalidate around.invalidated s)).0.scheduler.last
        ≡ (if contains around.invalidated k
            then none
            else if contains (Dict.keys f.updates) k
            then some around.done
            else Dict.get k s.scheduler.last)
  unfolding finish settle
  last-finish around f issues s k =
      let s1 = invalidate around.invalidated s in
      let s2 = mark_updates src around.done s.generation (Dict.keys f.updates) s1 in
      let (s3, log) = record_states src f s2 in
      ap (λ t. Dict.get k t.last)
        ((scheduler-conclude src f log issues s3).0 ∙ (scheduler-record_states src f s2).0)
      ∙ ground (
        arith,
        last-mark_updates src around.done s.generation (Dict.keys f.updates) s1 k,
        same-invalidate around.invalidated s k,
        last-invalidate around.invalidated s k,
      )

  last-finish_raised :
      (around : Surroundings V E) (r : Raised) (issues : List IssueEvent) (s : State V H)
      (k : String)
      → Dict.get k
          (finish src around s.generation
            (raised r, issues)
            (invalidate around.invalidated s)).0.scheduler.last
        ≡ (if contains around.invalidated k then none else Dict.get k s.scheduler.last)
  unfolding finish
  last-finish_raised around r issues s k = last-invalidate around.invalidated s k

  stale-finish :
      (around : Surroundings V E) (result : Outcome (Fetches V E)) (issues : List IssueEvent)
      (s : State V H) (k : String)
      → contains around.invalidated k ≡ true
      → Dict.get k
          (finish src around s.generation
            (result, issues)
            (invalidate around.invalidated s)).0.scheduler.last
        ≡ none
  stale-finish around (ok f) issues s k h = ground (arith, last-finish around f issues s k)
  stale-finish around (raised r) issues s k h =
      ground (arith, last-finish_raised around r issues s k)

  -- Whether the fetches of a cycle gave the endpoint a value.
  unfoldable pub gave : String → Outcome (Fetches V E) → Bool
  gave k (ok f) = contains (Dict.keys f.updates) k
  gave k (raised r) = false

  unfoldable pub reads : (String → Option Bool) → Surroundings V E → String → State V H → Bool
  unfolding gave
  reads options around k s =
      let due = due_endpoints src options s around.now in
      if is_nil due then false else gave k (gather src around (limit src s.restrict_to due)).0

  -- The state after cycles, one after the other, and whether one of them read the endpoint.
  unfoldable pub cycles : (String → Option Bool) → List (Surroundings V E) → State V H → State V H
  cycles options [] s = s
  cycles options (around ∷ rounds) s = cycles options rounds (refresh src options around s).0

  unfoldable pub some_reads :
      (String → Option Bool) → List (Surroundings V E) → String → State V H → Bool
  unfolding reads
  some_reads options [] k s = false
  some_reads options (around ∷ rounds) k s =
      let later = some_reads options rounds k (refresh src options around s).0 in
      reads options around k s || later

  unread-finish :
      (around : Surroundings V E) (result : Outcome (Fetches V E)) (issues : List IssueEvent)
      (s : State V H) (k : String)
      → gave k result ≡ false
      → Dict.get k s.scheduler.last ≡ none
      → Dict.get k
          (finish src around s.generation
            (result, issues)
            (invalidate around.invalidated s)).0.scheduler.last
        ≡ none
  unfolding gave
  unread-finish around (ok f) issues s k h never = ground (arith, last-finish around f issues s k)
  unread-finish around (raised r) issues s k h never =
      ground (arith, last-finish_raised around r issues s k)

  -- A cycle that does not read an endpoint leaves one that counts as never fetched as it is.
  unread-refresh :
      (options : String → Option Bool) (around : Surroundings V E) (s : State V H) (k : String)
      → reads options around k s ≡ false
      → Dict.get k s.scheduler.last ≡ none
      → Dict.get k (refresh src options around s).0.scheduler.last ≡ none
  unfolding refresh update reads
  unread-refresh options around s k h never =
      let due = due_endpoints src options s around.now in
      let (result, issues) = gather src around (limit src s.restrict_to due) in
      ground (arith, unread-finish around result issues s k)

  unread-cycles :
      (options : String → Option Bool) (rounds : List (Surroundings V E)) (s : State V H)
      (k : String)
      → some_reads options rounds k s ≡ false
      → Dict.get k s.scheduler.last ≡ none
      → Dict.get k (cycles options rounds s).scheduler.last ≡ none
  unfolding some_reads cycles
  unread-cycles options [] s k h never = never
  unread-cycles options (around ∷ rounds) s k h never =
      unread-cycles options rounds (refresh src options around s).0 k (ground (arith, h))
        (unread-refresh options around s k (ground (arith, h)) never)

  stale-refresh :
      (options : String → Option Bool) (around : Surroundings V E) (s : State V H) (k : String)
      → is_nil (due_endpoints src options s around.now) ≡ false
      → contains around.invalidated k ≡ true
      → Dict.get k (refresh src options around s).0.scheduler.last ≡ none
  unfolding refresh update
  stale-refresh options around s k fetching h =
      let due = due_endpoints src options s around.now in
      let (result, issues) = gather src around (limit src s.restrict_to due) in
      ground (arith, stale-finish around result issues s k)

  -- An endpoint that is invalidated while a cycle fetches is due at any time after that cycle, and after
  -- any further cycles as long as their fetches give no value for it, whatever else they give or raise.
  pub is_due-refresh :
      (options : String → Option Bool) (around : Surroundings V E) (s : State V H)
      (rounds : List (Surroundings V E)) (k : String) (tier : Scheduler.Tier) (later : ℕ)
      → is_nil (due_endpoints src options s around.now) ≡ false
      → contains around.invalidated k ≡ true
      → some_reads options rounds k (refresh src options around s).0 ≡ false
      → Scheduler.is_due
          (cycles options rounds (refresh src options around s).0).scheduler
          k
          tier
          later
        ≡ true
  unfolding Scheduler.is_due
  is_due-refresh options around s rounds k tier later fetching h unread = ground (
    arith,
    unread-cycles options rounds (refresh src options around s).0 k unread
        (stale-refresh options around s k fetching h),
  )

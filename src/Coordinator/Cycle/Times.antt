-- ===== src/Coordinator/Cycle/Times.antt =====
-- The times of the last fetches after a cycle.
use ha_sophos_fw.Prelude.{
  String, ◌≡◌, refl, ap, ◌∙◌, Bool, true, false, not, ◌&&◌, Option, some, List, arith,
  if◌then◌else◌, is_nil, contains,
}
use ha_sophos_fw.Prelude.Dict
use ha_sophos_fw.Prelude.Dict.{Dict, get-put, get-pop}
use ha_sophos_fw.Coordinator.State.{State, invalidate, fetched_at}
use ha_sophos_fw.Coordinator.Fetch.{Fetches, Outcome, ok, raised}
use ha_sophos_fw.Coordinator.Cycle.{
  Source, Surroundings, IssueEvent, due_endpoints, limit, gather, mark_updates, record_states,
  settle, finish, update, keep, refresh,
}
use ha_sophos_fw.Coordinator.Cycle.Marks.{
  fetched_at-invalidate, same-invalidate, fetched_at-mark_updates, scheduler-record_states,
  scheduler-conclude,
}

module _ {V E H : Type 0} (src : Source V E H) where
  fetched_at-finish_ok :
      (around : Surroundings V E) (f : Fetches V E) (issues : List IssueEvent) (s : State V H)
      (k : String)
      → fetched_at
          (finish src around s.generation (ok f, issues) (invalidate around.invalidated s)).0
          k
        ≡ (if contains (Dict.keys f.updates) k && not (contains around.invalidated k)
            then some around.done
            else fetched_at s k)
  unfolding finish settle fetched_at
  fetched_at-finish_ok around f issues s k =
      let s1 = invalidate around.invalidated s in
      let s2 = mark_updates src around.done s.generation (Dict.keys f.updates) s1 in
      let (s3, log) = record_states src f s2 in
      ap (λ t. Dict.get k t)
        ((scheduler-conclude src f log issues s3).1 ∙ (scheduler-record_states src f s2).1)
      ∙ ground (
        arith,
        fetched_at-mark_updates src around.done s.generation (Dict.keys f.updates) s1 k,
        same-invalidate around.invalidated s k,
        fetched_at-invalidate around.invalidated s k,
      )

  overtaken-finish :
      (around : Surroundings V E) (result : Outcome (Fetches V E)) (issues : List IssueEvent)
      (s : State V H) (k : String)
      → contains around.invalidated k ≡ true
      → fetched_at
          (finish src around s.generation (result, issues) (invalidate around.invalidated s)).0
          k
        ≡ fetched_at s k
  unfolding finish
  overtaken-finish around (ok f) issues s k h =
      ground (arith, fetched_at-finish_ok around f issues s k)
  overtaken-finish around (raised r) issues s k h = fetched_at-invalidate around.invalidated s k

  fetched_at-keep :
      (r : Outcome (Dict V)) (s : State V H) (k : String)
      → fetched_at (keep src r s) k ≡ fetched_at s k
  unfolding keep fetched_at
  fetched_at-keep (ok merged) s k = refl
  fetched_at-keep (raised r) s k = refl

  -- The time of an endpoint's last fetch stays as it was in a cycle that an invalidation overtook.
  pub fetched_at-refresh :
      (options : String → Option Bool) (around : Surroundings V E) (s : State V H) (k : String)
      → is_nil (due_endpoints src options s around.now) ≡ false
      → contains around.invalidated k ≡ true
      → fetched_at (refresh src options around s).0 k ≡ fetched_at s k
  unfolding refresh update
  fetched_at-refresh options around s k fetching h =
      let due = due_endpoints src options s around.now in
      let (result, issues) = gather src around (limit src s.restrict_to due) in
      let (t, report) =
        finish src around s.generation (result, issues) (invalidate around.invalidated s) in
      rw (fetching)
        (fetched_at-keep report.outcome t k ∙ overtaken-finish around result issues s k h)

  pub fetched_at-refresh_ok :
      (options : String → Option Bool) (around : Surroundings V E) (s : State V H)
      → (f : Fetches V E) (issues : List IssueEvent) (k : String)
      → let due = due_endpoints src options s around.now in
        is_nil due ≡ false
        → gather src around (limit src s.restrict_to due) ≡ (ok f, issues)
        → fetched_at (refresh src options around s).0 k ≡ (
            if contains (Dict.keys f.updates) k && not (contains around.invalidated k)
            then some around.done
            else fetched_at s k)
  unfolding refresh update
  fetched_at-refresh_ok options around s f issues k fetching h =
      let (t, report) =
        finish src around s.generation (ok f, issues) (invalidate around.invalidated s) in
      rw (fetching, h)
        (fetched_at-keep report.outcome t k ∙ fetched_at-finish_ok around f issues s k)

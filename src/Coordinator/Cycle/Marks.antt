-- ===== src/Coordinator/Cycle/Marks.antt =====
-- What the parts of a cycle do to the times of the last fetches.
use ha_sophos_fw.Prelude.{
  ℕ, ◌+◌, ◌≤◌, ◌<◌, String, ◌≡◌, refl, Bool, true, false, not, ◌&&◌, Option, none, some, List, [],
  ◌∷◌, arith, ◌==◌, eq_iff, if◌then◌else◌, get_or, contains,
}
use ha_sophos_fw.Prelude.Dict
use ha_sophos_fw.Prelude.Dict.{Dict, get-put, get-pop}
use ha_sophos_fw.Coordinator.Scheduler
use ha_sophos_fw.Coordinator.State.{
  State, LogEntry, invalidate_one, invalidate, record_success, record_failure, disable_endpoint,
  fetched_at,
}
use ha_sophos_fw.Coordinator.Fetch.{Fetches}
use ha_sophos_fw.Coordinator.Cycle.{
  Source, IssueEvent, same, mark_updates, record_all, disable_all, merge, is_outage, record_states,
  conclude,
}

IsLater : List String → Option ℕ → Option ℕ → String → Type 0
IsLater ks before after k =
    (contains ks k ≡ true → get_or before 0 < get_or after 0)
    × (contains ks k ≡ false → after ≡ before)

module _ {V H : Type 0} where
  pub last-invalidate :
      (ks : List String) (s : State V H) (k : String)
      → Dict.get k (invalidate ks s).scheduler.last
        ≡ (if contains ks k then none else Dict.get k s.scheduler.last)
  unfolding invalidate invalidate_one Scheduler.invalidate
  last-invalidate [] s k = refl
  last-invalidate (j ∷ ks) s k =
      ground
        (arith, eq_iff j k, get-pop j k s.scheduler.last, last-invalidate ks (invalidate_one j s) k)

  pub fetched_at-invalidate :
      (ks : List String) (s : State V H) (k : String)
      → fetched_at (invalidate ks s) k ≡ fetched_at s k
  unfolding invalidate invalidate_one fetched_at
  fetched_at-invalidate [] s k = refl
  fetched_at-invalidate (j ∷ ks) s k = fetched_at-invalidate ks (invalidate_one j s) k

  generation-invalidate_one :
      (j : String) (s : State V H) (k : String)
      → Dict.get k (invalidate_one j s).generation ≡ (
          if j == k then some (get_or (Dict.get k s.generation) 0 + 1) else Dict.get k s.generation)
  unfolding invalidate_one
  generation-invalidate_one j s k =
      ground (arith, eq_iff j k, get-put j k (get_or (Dict.get j s.generation) 0 + 1) s.generation)

  generation-invalidate :
      (ks : List String) (s : State V H) (k : String)
      → (get_or (Dict.get k s.generation) 0 ≤ get_or (Dict.get k (invalidate ks s).generation) 0)
        × IsLater ks (Dict.get k s.generation) (Dict.get k (invalidate ks s).generation) k
  unfolding invalidate IsLater
  generation-invalidate [] s k = ground arith
  generation-invalidate (j ∷ ks) s k = ground (
    arith,
    eq_iff j k,
    generation-invalidate_one j s k,
    generation-invalidate ks (invalidate_one j s) k,
  )

  pub same-invalidate :
      (ks : List String) (s : State V H) (k : String)
      → same (Dict.get k (invalidate ks s).generation) (Dict.get k s.generation)
        ≡ not (contains ks k)
  unfolding IsLater
  same-invalidate ks s k = ground (arith, (generation-invalidate ks s k))

module _ {V E H : Type 0} (src : Source V E H) where
  pub last-mark_updates :
      (done : ℕ) (before : Dict ℕ) (ks : List String) (s : State V H) (k : String)
      → Dict.get k (mark_updates src done before ks s).scheduler.last ≡ (
          if contains ks k && same (Dict.get k s.generation) (Dict.get k before)
          then some done
          else Dict.get k s.scheduler.last)
  unfolding mark_updates Scheduler.mark_fetched
  last-mark_updates done before [] s k = refl
  last-mark_updates done before (j ∷ ks) s k =
      let s' = record s {
        scheduler = Scheduler.mark_fetched j done s.scheduler;
        last_fetched = Dict.put j done s.last_fetched;
      } in
      ground (
        arith,
        eq_iff j k,
        get-put j k done s.scheduler.last,
        last-mark_updates done before ks s k,
        last-mark_updates done before ks s' k,
      )

  pub fetched_at-mark_updates :
      (done : ℕ) (before : Dict ℕ) (ks : List String) (s : State V H) (k : String)
      → fetched_at (mark_updates src done before ks s) k ≡ (
          if contains ks k && same (Dict.get k s.generation) (Dict.get k before)
          then some done
          else fetched_at s k)
  unfolding mark_updates fetched_at
  fetched_at-mark_updates done before [] s k = refl
  fetched_at-mark_updates done before (j ∷ ks) s k =
      let s' = record s {
        scheduler = Scheduler.mark_fetched j done s.scheduler;
        last_fetched = Dict.put j done s.last_fetched;
      } in
      ground (
        arith,
        eq_iff j k,
        get-put j k done s.last_fetched,
        fetched_at-mark_updates done before ks s k,
        fetched_at-mark_updates done before ks s' k,
      )

  abbrev pub KeepsScheduler : {B : Type 0} → (State V H → State V H × B) → Type 0
  KeepsScheduler op =
      (s : State V H)
      → ((op s).0.scheduler ≡ s.scheduler) × ((op s).0.last_fetched ≡ s.last_fetched)

  scheduler-record_all :
      (op : String → State V H → State V H × List LogEntry)
      → ((k : String) → KeepsScheduler (op k))
      → (ks : List String) → KeepsScheduler (record_all src op ks)
  unfolding record_all
  scheduler-record_all op keeps [] s = (refl, refl)
  scheduler-record_all op keeps (k ∷ ks) s =
      ground (arith, scheduler-record_all op keeps ks (op k s).0, keeps k s)

  scheduler-record_success : (k : String) → KeepsScheduler (record_success k)
  unfolding record_success
  scheduler-record_success k s = ground arith

  scheduler-record_failure : (log : Bool) (k : String) → KeepsScheduler (record_failure k log)
  unfolding record_failure
  scheduler-record_failure log k s = ground arith

  pub scheduler-record_states : (f : Fetches V E) → KeepsScheduler (record_states src f)
  unfolding record_states
  scheduler-record_states f s =
      let after = (record_all src record_success (Dict.keys f.updates) s).0 in
      ground (
        arith,
        scheduler-record_all record_success scheduler-record_success (Dict.keys f.updates) s,
        scheduler-record_all (λ k. record_failure k (not (is_outage src f)))
            (scheduler-record_failure (not (is_outage src f))) (Dict.keys f.failures) after,
      )

  scheduler-disable_all :
      (ks : List String) (s : State V H)
      → ((disable_all src ks s).scheduler ≡ s.scheduler)
        × ((disable_all src ks s).last_fetched ≡ s.last_fetched)
  unfolding disable_all disable_endpoint
  scheduler-disable_all [] s = (refl, refl)
  scheduler-disable_all (k ∷ ks) s = scheduler-disable_all ks (disable_endpoint k s)

  scheduler-merge : (updates : Dict V) → KeepsScheduler (merge src updates)
  unfolding merge
  scheduler-merge updates s =
      let (prepared, own) = src.prepare s.own updates in
      let (own', disabled) = src.after_update own updates in
      scheduler-disable_all disabled (record s { own = own' })

  pub scheduler-conclude :
      (f : Fetches V E) (log : List LogEntry) (issues : List IssueEvent)
      → KeepsScheduler (conclude src f log issues)
  unfolding conclude
  scheduler-conclude f log issues s = ground (arith, scheduler-merge f.updates s)

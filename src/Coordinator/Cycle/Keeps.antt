-- ===== src/Coordinator/Cycle/Keeps.antt =====
-- What leaves the data and a source's own state alone.
use ha_sophos_fw.Prelude.{ℕ, String, ◌≡◌, Bool, not, List, [], ◌∷◌, arith}
use ha_sophos_fw.Prelude.Dict
use ha_sophos_fw.Prelude.Dict.{Dict, get-put}
use ha_sophos_fw.Coordinator.Scheduler
use ha_sophos_fw.Coordinator.State.{
  State, LogEntry, invalidate_one, invalidate, record_success, record_failure, disable_endpoint,
}
use ha_sophos_fw.Coordinator.Fetch.{Fetches}
use ha_sophos_fw.Coordinator.Cycle.{
  Source, mark_updates, is_outage, record_all, disable_all, record_states,
}

module _ {V E H : Type 0} (src : Source V E H) where
  -- Operations that leave the data and the source's own state alone.
  abbrev pub Keeps : (State V H → State V H) → Type 0
  Keeps op = (s : State V H) → ((op s).last_data ≡ s.last_data) × ((op s).own ≡ s.own)

  pub invalidate-Keeps : (ks : List String) → Keeps (invalidate ks)
  unfolding invalidate invalidate_one
  invalidate-Keeps [] s = ground arith
  invalidate-Keeps (k ∷ ks) s = ground (arith, invalidate-Keeps ks (invalidate_one k s))

  pub mark_updates-Keeps :
      (done : ℕ) (before : Dict ℕ) (ks : List String) → Keeps (mark_updates src done before ks)
  unfolding mark_updates
  mark_updates-Keeps done before [] s = ground arith
  mark_updates-Keeps done before (k ∷ ks) s =
      let marked = record s {
        scheduler = Scheduler.mark_fetched k done s.scheduler;
        last_fetched = Dict.put k done s.last_fetched;
      } in
      ground (arith, mark_updates-Keeps done before ks marked, mark_updates-Keeps done before ks s)

  record_all-Keeps :
      (op : String → State V H → State V H × List LogEntry)
      → ((k : String) → Keeps (λ s. (op k s).0))
      → (ks : List String) → Keeps (λ s. (record_all src op ks s).0)
  unfolding record_all
  record_all-Keeps op keeps [] s = ground arith
  record_all-Keeps op keeps (k ∷ ks) s =
      ground (arith, keeps k s, record_all-Keeps op keeps ks (op k s).0)

  record_success-Keeps : (k : String) → Keeps (λ s. (record_success k s).0)
  unfolding record_success
  record_success-Keeps k s = ground arith

  record_failure-Keeps : (log : Bool) (k : String) → Keeps (λ s. (record_failure k log s).0)
  unfolding record_failure
  record_failure-Keeps log k s = ground arith

  pub record_states-Keeps : (f : Fetches V E) → Keeps (λ s. (record_states src f s).0)
  unfolding record_states
  record_states-Keeps f s =
      let after = (record_all src record_success (Dict.keys f.updates) s).0 in
      ground (
        arith,
        record_all-Keeps record_success record_success-Keeps (Dict.keys f.updates) s,
        record_all-Keeps (λ j. record_failure j (not (is_outage src f)))
            (record_failure-Keeps (not (is_outage src f))) (Dict.keys f.failures) after,
      )

  data-disable_all : (ks : List String) → Keeps (disable_all src ks)
  unfolding disable_all disable_endpoint
  data-disable_all [] s = ground arith
  data-disable_all (k ∷ ks) s = ground (arith, data-disable_all ks (disable_endpoint k s))

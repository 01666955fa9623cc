-- ===== src/Coordinator/State/Log.antt =====
-- What `_set_endpoint_state` logs over time.
use ha_sophos_fw.Prelude.{
  String, ◌≡◌, refl, ◌∙◌, Bool, true, false, not, ◌&&◌, Option, none, some, List, [], ◌∷◌, ◌++◌,
  arith, ◌==◌, eq_iff, if◌then◌else◌, contains,
}
use ha_sophos_fw.Coordinator.State.{
  State, LogEntry, available_again, fetch_failed, discard, record_success, record_failure,
}

-- One call of `_set_endpoint_state`: a success, or a failure with its flag `log`.
pub data Change : Type 0 where
  success : String → Change
  failure : String → Bool → Change

-- Reads the messages on one endpoint in order: a failure may be logged only while the endpoint is not
-- reported as failed, a recovery only while it is. Gives whether it is reported as failed at the end.
unfoldable pub track : String → Bool → List LogEntry → Option Bool
track key down [] = some down
track key down (available_again j ∷ log) =
    let rest = track key (if j == key then false else down) log in
    if j == key && not down then none else rest
track key down (fetch_failed j ∷ log) =
    let rest = track key (if j == key then true else down) log in
    if j == key && down then none else rest

contains-discard :
    (j key : String) (l : List String)
    → contains (discard j l) key ≡ (if j == key then false else contains l key)
contains-discard j key [] = ground arith
contains-discard j key (i ∷ l) =
    ground (arith, eq_iff i j, eq_iff j key, eq_iff i key, contains-discard j key l)

module _ {V H : Type 0} where
  apply : Change → State V H → State V H × List LogEntry
  apply (success key) s = record_success key s
  apply (failure key log) s = record_failure key log s

  unfoldable pub run : List Change → State V H → State V H × List LogEntry
  unfolding apply
  run [] s = (s, [])
  run (c ∷ cs) s = let (s', log) = apply c s in let (s'', more) = run cs s' in (s'', log ++ more)

  track-apply :
      (key : String) (c : Change) (s : State V H) (more : List LogEntry)
      → track key (contains s.failure_logged key) ((apply c s).1 ++ more)
        ≡ track key (contains (apply c s).0.failure_logged key) more
  unfolding apply record_success record_failure track
  track-apply key (success j) s more =
      ground (arith, eq_iff j key, contains-discard j key s.failure_logged)
  track-apply key (failure j log) s more = ground (arith, eq_iff j key)

  -- Over any sequence of successes and failures, the messages on an endpoint alternate: no failure is
  -- logged again before a recovery, no recovery without a failure before, and what the log says last is
  -- what the coordinator remembers.
  pub track-run :
      (key : String) (cs : List Change) (s : State V H)
      → track key (contains s.failure_logged key) (run cs s).1
        ≡ some (contains (run cs s).0.failure_logged key)
  unfolding run track
  track-run key [] s = refl
  track-run key (c ∷ cs) s =
      let (s', log) = apply c s in track-apply key c s (run cs s').1 ∙ track-run key cs s'

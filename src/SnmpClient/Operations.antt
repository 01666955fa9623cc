-- ===== src/SnmpClient/Operations.antt =====
-- The operations on the agent that the reads of an endpoint use (snmp_client.py: _all_or_nothing,
-- _multiget, _walk_columns, _get_client). How puresnmp's calls end is a parameter. A budget that runs out is
-- the failure `timed_out`.
pub mod Tasks
pub mod Walks
use Prim.Native.String
use ha_sophos_fw.Prelude.{
  ℕ, zero, suc, String, ◌≡◌, Bool, true, false, Option, none, some, List, [], ◌∷◌, map,
  if◌then◌else◌,
}
use ha_sophos_fw.Prelude.Dict
use ha_sophos_fw.Prelude.Dict.{Dict}
use ha_sophos_fw.SnmpClient.Udp.{Failure, timed_out, is_transport_error}

-- A task of `_all_or_nothing`.
pub data Task (A : Type 0) : Type 0 where
  running : Task A
  done : A → Task A
  failed : Failure → Task A
  was_cancelled : Task A

-- How a task ends by itself.
pub data End (A : Type 0) : Type 0 where
  returns : A → End A
  raises : Failure → End A

-- What an operation raises: SophosSNMPError, the exception itself, or RuntimeError without a client.
pub data Error : Type 0 where
  snmp_error : Failure → Error
  unchanged : Failure → Error
  not_preloaded lengths_differ : Error

pub data Result (A : Type 0) : Type 0 where
  ok : A → Result A
  error : Error → Result A

module _ {A : Type 0} where
  unfoldable pub ended : End A → Task A
  ended (returns a) = done a
  ended (raises f) = failed f

  -- `task.cancel()`, with the wait for the task's end.
  unfoldable pub cancel : Task A → Task A
  cancel running = was_cancelled
  cancel task = task

  -- The task at a position ends; a task that has ended stays as it is.
  unfoldable pub finish : ℕ → End A → List (Task A) → List (Task A)
  unfolding ended
  finish i end [] = []
  finish zero end (running ∷ tasks) = ended end ∷ tasks
  finish zero end (task ∷ tasks) = task ∷ tasks
  finish (suc i) end (task ∷ tasks) = task ∷ finish i end tasks

  -- `gather`: the results in the order of the tasks once all have returned.
  unfoldable pub results : List (Task A) → Option (List A)
  results [] = some []
  results (done a ∷ tasks) = elim (results tasks) [ none ↦ none | some rest ↦ some (a ∷ rest) ]
  results (task ∷ tasks) = none

  unfoldable pub first_failure : List (Task A) → Option Failure
  first_failure [] = none
  first_failure (failed f ∷ tasks) = some f
  first_failure (task ∷ tasks) = first_failure tasks

  -- What `gather` ends in, if it has ended.
  unfoldable pub conclude : List (Task A) → Option (End (List A))
  unfolding first_failure results
  conclude tasks = elim (first_failure tasks) [
    | some f ↦ some (raises f)
    | none ↦ elim (results tasks) [ none ↦ none | some answers ↦ some (returns answers) ]
  ]

  unfoldable pub stop_at :
      Option (End (List A))
      → List (Task A)
      → Option (End (List A)) × List (Task A)
      → Option (End (List A)) × List (Task A)
  unfolding cancel
  stop_at none tasks later = later
  stop_at (some (returns answers)) tasks later = (some (returns answers), tasks)
  stop_at (some (raises f)) tasks later = (some (raises f), map cancel tasks)

-- What happens while the tasks run: one ends, or the caller is interrupted, by the budget or a cancellation.
pub data Happening (A : Type 0) : Type 0 where
  ends : ℕ → End A → Happening A
  interrupt : Failure → Happening A

module _ {A : Type 0} where
  -- `gather` with the `except` clause, from given tasks; none as long as it waits.
  unfoldable pub run : List (Happening A) → List (Task A) → Option (End (List A)) × List (Task A)
  unfolding conclude stop_at finish cancel
  run [] tasks = stop_at (conclude tasks) tasks (none, tasks)
  run (interrupt f ∷ later) tasks =
      stop_at (conclude tasks) tasks (some (raises f), map cancel tasks)
  run (ends i end ∷ later) tasks = stop_at (conclude tasks) tasks (run later (finish i end tasks))

  unfoldable pub all_running : ℕ → List (Task A)
  all_running zero = []
  all_running (suc count) = running ∷ all_running count

  -- `_all_or_nothing` of so many awaitables.
  unfoldable pub all_or_nothing : ℕ → List (Happening A) → Option (End (List A)) × List (Task A)
  unfolding run all_running
  all_or_nothing count happenings = run happenings (all_running count)

-- The `except` clause of both operations.
unfoldable pub mapped : Failure → Error
unfolding is_transport_error
mapped f = if is_transport_error f then snmp_error f else unchanged f

module _ {V : Type 0} where
  -- The dict of the walked objects of all columns.
  unfoldable pub merged : List (Dict V) → Dict V → Dict V
  unfolding Dict.update
  merged [] objects = objects
  merged (column ∷ columns) objects = merged columns (Dict.update objects column)

  unfoldable pub walked : End (List (Dict V)) → Result (Dict V)
  unfolding merged mapped
  walked (returns columns) = ok (merged columns [])
  walked (raises f) = error (mapped f)

  -- `_walk_columns`, with whether `preload` has run.
  unfoldable pub walk_columns : Bool → ℕ → List (Happening (Dict V)) → Option (Result (Dict V))
  unfolding all_or_nothing walked
  walk_columns false count happenings = some (error not_preloaded)
  walk_columns true count happenings = elim (all_or_nothing count happenings).0 [
    | none ↦ none
    | some end ↦ some (walked end)
  ]

-- `py` is `_py`.
module _ {V R : Type 0} (py : V → R) where
  -- The pairs of `zip(…, strict=True)`, unless the lengths differ.
  zip_strict : List String → List V → Option (Dict R)
  zip_strict [] [] = some []
  zip_strict (oid ∷ oids) (value ∷ values) =
      let rest = zip_strict oids values in
      elim rest [ none ↦ none | some pairs ↦ some ((oid, py value) ∷ pairs) ]
  zip_strict oids values = none

  unfoldable pub answered : Option (Dict R) → Result (Dict R)
  unfolding Dict.update
  answered none = error lengths_differ
  answered (some pairs) = ok (Dict.update [] pairs)

  -- `_multiget`
  unfoldable pub multiget : Bool → List String → End (List V) → Result (Dict R)
  unfolding zip_strict answered mapped
  multiget false oids end = error not_preloaded
  multiget true oids (raises f) = error (mapped f)
  multiget true oids (returns values) = answered (zip_strict oids values)

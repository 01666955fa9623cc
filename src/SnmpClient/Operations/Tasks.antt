-- ===== src/SnmpClient/Operations/Tasks.antt =====
-- The tasks of a call of _all_or_nothing: when it ends and what then runs, and what it answers.
use ha_sophos_fw.Prelude.{
  ℕ, zero, suc, ◌≡◌, refl, ◌∙◌, ap, Bool, true, false, not, Option, none, some, List, [], ◌∷◌, map,
  length, any_of, all_of, is_some, arith, Option-cases, inl, inr,
}
use ha_sophos_fw.SnmpClient.Operations.{
  Task, running, done, failed, was_cancelled, End, returns, raises, ended, cancel, finish, results,
  first_failure, conclude, stop_at, Happening, ends, interrupt, run, all_running, all_or_nothing,
}

module _ {A : Type 0} where
  abbrev pub is_running : Task A → Bool
  is_running running = true
  is_running task = false

  -- A task that runs or has ended by itself.
  abbrev is_own : Task A → Bool
  is_own was_cancelled = false
  is_own task = true

  cancel-stops : (tasks : List (Task A)) → any_of is_running (map cancel tasks) ≡ false
  unfolding cancel
  cancel-stops [] = refl
  cancel-stops (running ∷ tasks) = cancel-stops tasks
  cancel-stops (done a ∷ tasks) = cancel-stops tasks
  cancel-stops (failed f ∷ tasks) = cancel-stops tasks
  cancel-stops (was_cancelled ∷ tasks) = cancel-stops tasks

  results-done :
      (tasks : List (Task A)) (answers : List A)
      → results tasks ≡ some answers
      → tasks ≡ map done answers
  unfolding results
  results-done [] [] h = refl
  results-done [] (a ∷ answers) h = ground arith
  results-done (running ∷ tasks) answers h = ground arith
  results-done (failed f ∷ tasks) answers h = ground arith
  results-done (was_cancelled ∷ tasks) answers h = ground arith
  results-done (done a ∷ tasks) answers h = elim (Option-cases (results tasks)) [
    | inl e ↦ ground (arith, e)
    | inr e ↦
        let rest = results-done tasks e.0 e.1 in
        let same : a ∷ e.0 ≡ answers = ground (arith, h, e.1) in
        ap (λ ts. done a ∷ ts) rest ∙ ap (map done) same
  ]

  done-stops : (answers : List A) → any_of is_running (map done answers) ≡ false
  done-stops [] = refl
  done-stops (a ∷ answers) = done-stops answers

  open-running :
      (tasks : List (Task A))
      → all_of is_own tasks ≡ true
      → first_failure tasks ≡ none
      → results tasks ≡ none
      → any_of is_running tasks ≡ true
  unfolding first_failure results
  open-running [] own f r = ground arith
  open-running (running ∷ tasks) own f r = refl
  open-running (failed e ∷ tasks) own f r = ground arith
  open-running (was_cancelled ∷ tasks) own f r = ground arith
  open-running (done a ∷ tasks) own f r = elim (Option-cases (results tasks)) [
    | inl e ↦ open-running tasks own f e
    | inr e ↦ ground (arith, e.1)
  ]

  -- Without an end, a task still runs.
  waits-running :
      (tasks : List (Task A))
      → all_of is_own tasks ≡ true
      → conclude tasks ≡ none
      → any_of is_running tasks ≡ true
  unfolding conclude
  waits-running tasks own h = elim (Option-cases (first_failure tasks)) [
    | inl e ↦ elim (Option-cases (results tasks)) [
      | inl r ↦ open-running tasks own e r
      | inr r ↦ ground (arith, e, r.1)
    ]
    | inr e ↦ ground (arith, e.1)
  ]

  finish-own :
      (i : ℕ) (end : End A) (tasks : List (Task A))
      → all_of is_own tasks ≡ true
      → all_of is_own (finish i end tasks) ≡ true
  unfolding finish ended
  finish-own i end [] h = refl
  finish-own zero (returns a) (running ∷ tasks) h = h
  finish-own zero (raises f) (running ∷ tasks) h = h
  finish-own zero end (done a ∷ tasks) h = h
  finish-own zero end (failed f ∷ tasks) h = h
  finish-own zero end (was_cancelled ∷ tasks) h = h
  finish-own (suc i) end (running ∷ tasks) h = finish-own i end tasks h
  finish-own (suc i) end (done a ∷ tasks) h = finish-own i end tasks h
  finish-own (suc i) end (failed f ∷ tasks) h = finish-own i end tasks h
  finish-own (suc i) end (was_cancelled ∷ tasks) h = ground arith

  finish-length :
      (i : ℕ) (end : End A) (tasks : List (Task A)) → length (finish i end tasks) ≡ length tasks
  unfolding finish ended
  finish-length i end [] = refl
  finish-length zero end (running ∷ tasks) = refl
  finish-length zero end (done a ∷ tasks) = refl
  finish-length zero end (failed f ∷ tasks) = refl
  finish-length zero end (was_cancelled ∷ tasks) = refl
  finish-length (suc i) end (task ∷ tasks) = ap suc (finish-length i end tasks)

  concluded_results :
      (tasks : List (Task A)) (answers : List A)
      → conclude tasks ≡ some (returns answers)
      → results tasks ≡ some answers
  unfolding conclude
  concluded_results tasks answers h = elim (Option-cases (first_failure tasks)) [
    | inl e ↦ elim (Option-cases (results tasks)) [
      | inl r ↦ ground (arith, e, r)
      | inr r ↦ ground (arith, e, r.1)
    ]
    | inr e ↦ ground (arith, e.1)
  ]

  concluded_done :
      (tasks : List (Task A)) (answers : List A)
      → conclude tasks ≡ some (returns answers)
      → tasks ≡ map done answers
  concluded_done tasks answers h = results-done tasks answers (concluded_results tasks answers h)

  -- An end that agrees with whether a task runs.
  unfoldable pub IsSettled : Option (End (List A)) × List (Task A) → Type 0
  IsSettled r = is_some r.0 ≡ not (any_of is_running r.1)

  stop_at-IsSettled :
      (end : End (List A)) (tasks : List (Task A)) (later : Option (End (List A)) × List (Task A))
      → conclude tasks ≡ some end
      → IsSettled (stop_at (some end) tasks later)
  unfolding IsSettled stop_at
  stop_at-IsSettled (returns answers) tasks later h =
      rw (concluded_done tasks answers h, done-stops answers) refl
  stop_at-IsSettled (raises f) tasks later h = rw (cancel-stops tasks) refl

  settles :
      (tasks : List (Task A)) (later : Option (End (List A)) × List (Task A))
      → (conclude tasks ≡ none → IsSettled later)
      → IsSettled (stop_at (conclude tasks) tasks later)
  unfolding stop_at
  settles tasks later waiting = elim (Option-cases (conclude tasks)) [
    | inl e ↦ rw (e, stop_at) (waiting e)
    | inr e ↦ rw e.1 (stop_at-IsSettled e.0 tasks later e.1)
  ]

  run-IsSettled :
      (happenings : List (Happening A)) (tasks : List (Task A))
      → all_of is_own tasks ≡ true
      → IsSettled (run happenings tasks)
  unfolding IsSettled run
  run-IsSettled [] tasks own =
      settles tasks (none, tasks) (λ e. rw (waits-running tasks own e) refl)
  run-IsSettled (interrupt f ∷ later) tasks own =
      settles tasks (some (raises f), map cancel tasks) (λ e. rw (cancel-stops tasks) refl)
  run-IsSettled (ends i end ∷ later) tasks own =
      settles tasks (run later (finish i end tasks))
        (λ e. run-IsSettled later (finish i end tasks) (finish-own i end tasks own))

  -- What a returning call leaves: its answers are those of its tasks.
  unfoldable pub IsWhole : Option (End (List A)) × List (Task A) → Type 0
  IsWhole r = (answers : List A) → r.0 ≡ some (returns answers) → r.1 ≡ map done answers

  stop_at-IsWhole :
      (end : End (List A)) (tasks : List (Task A)) (later : Option (End (List A)) × List (Task A))
      → conclude tasks ≡ some end
      → IsWhole (stop_at (some end) tasks later)
  unfolding IsWhole stop_at
  stop_at-IsWhole (returns as') tasks later h answers e = concluded_done tasks answers (h ∙ e)
  stop_at-IsWhole (raises f) tasks later h answers e = ground (arith, e)

  whole :
      (tasks : List (Task A)) (later : Option (End (List A)) × List (Task A))
      → IsWhole later
      → IsWhole (stop_at (conclude tasks) tasks later)
  unfolding stop_at
  whole tasks later rest = elim (Option-cases (conclude tasks)) [
    | inl e ↦ rw (e, stop_at) rest
    | inr e ↦ rw e.1 (stop_at-IsWhole e.0 tasks later e.1)
  ]

  pub run-IsWhole :
      (happenings : List (Happening A)) (tasks : List (Task A)) → IsWhole (run happenings tasks)
  unfolding IsWhole run
  run-IsWhole [] tasks = whole tasks (none, tasks) (λ answers e. ground (arith, e))
  run-IsWhole (interrupt f ∷ later) tasks =
      whole tasks (some (raises f), map cancel tasks) (λ answers e. ground (arith, e))
  run-IsWhole (ends i end ∷ later) tasks =
      whole tasks (run later (finish i end tasks)) (run-IsWhole later (finish i end tasks))

  cancel-length : (tasks : List (Task A)) → length (map cancel tasks) ≡ length tasks
  cancel-length [] = refl
  cancel-length (task ∷ tasks) = ap suc (cancel-length tasks)

  stop_at-length :
      (end : Option (End (List A))) (tasks : List (Task A))
      (later : Option (End (List A)) × List (Task A))
      → length later.1 ≡ length tasks
      → length (stop_at end tasks later).1 ≡ length tasks
  unfolding stop_at
  stop_at-length none tasks later h = h
  stop_at-length (some (returns answers)) tasks later h = refl
  stop_at-length (some (raises f)) tasks later h = cancel-length tasks

  pub run-length :
      (happenings : List (Happening A)) (tasks : List (Task A))
      → length (run happenings tasks).1 ≡ length tasks
  unfolding run
  run-length [] tasks = stop_at-length (conclude tasks) tasks (none, tasks) refl
  run-length (interrupt f ∷ later) tasks =
      stop_at-length (conclude tasks) tasks (some (raises f), map cancel tasks)
        (cancel-length tasks)
  run-length (ends i end ∷ later) tasks =
      stop_at-length (conclude tasks) tasks (run later (finish i end tasks))
        (run-length later (finish i end tasks) ∙ finish-length i end tasks)

  pub done-length : (answers : List A) → length (map done answers) ≡ length answers
  done-length [] = refl
  done-length (a ∷ answers) = ap suc (done-length answers)

all_running-own : (A : Type 0) (count : ℕ) → all_of is_own (all_running {A = A} count) ≡ true
unfolding all_running
all_running-own A zero = refl
all_running-own A (suc count) = all_running-own A count

pub all_running-length : (A : Type 0) (count : ℕ) → length (all_running {A = A} count) ≡ count
unfolding all_running
all_running-length A zero = refl
all_running-length A (suc count) = ap suc (all_running-length A count)

module _ {A : Type 0} where
  -- Whatever happens, the tasks of one call end together: it has ended if and only if no task of it runs,
  -- so that neither an error nor an interruption leaves a task behind, and it never waits for nothing.
  pub all_or_nothing-settled :
      (count : ℕ) (happenings : List (Happening A))
      → is_some (all_or_nothing count happenings).0
        ≡ not (any_of is_running (all_or_nothing count happenings).1)
  unfolding all_or_nothing IsSettled
  all_or_nothing-settled count happenings =
      run-IsSettled happenings (all_running count) (all_running-own A count)

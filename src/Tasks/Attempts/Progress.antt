-- ===== src/Tasks/Attempts/Progress.antt =====
-- What an observation moves: the cursor of the attempt, the state, the tokens of the task.
use kolyan.Prelude.{
  ℕ, ◌+◌, ◌<◌, ◌≤◌, ◌≡◌, refl, String-Eq, true, some, ok, >>=-ok-eq-ok, arith, ◌⊎◌,
}
use kolyan.Prelude.Map
use kolyan.Prelude.Map.{Map, get-insert, get-update}
use kolyan.Ledger.{FactRecord}
use kolyan.Tasks.Types.{AttemptObservation, AttemptSnapshot, TaskSnapshot, TaskState, is_terminal}
use kolyan.Tasks.Attempts.Evidence.{validate_source}
use kolyan.Tasks.Attempts.Start.{last_cursor}
use kolyan.Tasks.Attempts.Observe.{
  is_open, add_usage, check_observation, check_observe, Observed, observed_attempt, observed,
  state_after_usage, observe,
}

module _ {V : Type 0} (s : TaskSnapshot V) (o : AttemptObservation) where
  check_observe_moves :
      (found : Observed)
      → check_observe s o ≡ ok found
      → (Map.get o.attempt_id s.attempts ≡ some found.attempt)
        × (is_open found.attempt.state ≡ true)
        × (o.execution ≡ found.attempt.binding.execution)
        × (last_cursor found.attempt < o.source.cursor)
        × (found.usage.input_tokens ≡ s.usage.input_tokens + o.usage.input_tokens)
        × (found.usage.output_tokens ≡ s.usage.output_tokens + o.usage.output_tokens)
        × (found.usage.unreported_steps ≡ s.usage.unreported_steps + o.usage.unreported_steps)
        × (found.usage.input_tokens + found.usage.output_tokens ≡ found.sum)
  unfolding check_observe check_observation validate_source add_usage last_cursor
  check_observe_moves found h = ground arith

  last_cursor-observed_attempt :
      (found : Observed)
      → last_cursor found.attempt < o.source.cursor
      → last_cursor found.attempt < last_cursor (observed_attempt found.attempt o found.next)
  unfolding last_cursor
  last_cursor-observed_attempt found later = ground arith

  -- An observation is taken only of an attempt that is open, from its own execution, and at a
  -- cursor past the last one seen. Then it is the last observation of the attempt, whose binding
  -- stays, and the tokens of the task grow by exactly what it reports.
  pub observe_advances :
      (fact : FactRecord V) (s' : TaskSnapshot V)
      → observe s o fact ≡ ok s'
      → (a : AttemptSnapshot) × (a' : AttemptSnapshot) × (Map.get o.attempt_id s.attempts ≡ some a)
        × (Map.get o.attempt_id s'.attempts ≡ some a')
        × (is_open a.state ≡ true)
        × (o.execution ≡ a.binding.execution)
        × (a'.binding ≡ a.binding)
        × (a'.observation ≡ some o)
        × (last_cursor a < last_cursor a')
        × (s'.usage.input_tokens ≡ s.usage.input_tokens + o.usage.input_tokens)
        × (s'.usage.output_tokens ≡ s.usage.output_tokens + o.usage.output_tokens)
        × (s'.usage.unreported_steps ≡ s.usage.unreported_steps + o.usage.unreported_steps)
  unfolding observe
  observe_advances fact s' h =
      let (found, checked, e) = >>=-ok-eq-ok (check_observe s o) (observed s o fact) h in
      let (there, open', own, later, input, output, unreported, _) =
        check_observe_moves found checked in
      let next = observed_attempt found.attempt o found.next in
      (
        found.attempt,
        next,
        there,
        ground (arith, get-update o.attempt_id o.attempt_id next s.attempts),
        open',
        own,
        refl,
        refl,
        last_cursor-observed_attempt found later,
        ground arith,
        ground arith,
        ground arith,
      )

  -- After an observation a task with a ceiling on its tokens has failed, or had ended before, or
  -- it has used no more than the ceiling and knows the use of every step.
  pub observe_ceiling :
      (fact : FactRecord V) (s' : TaskSnapshot V) (limit : ℕ)
      → s.definition.limits.max_tokens ≡ some limit
      → observe s o fact ≡ ok s'
      → (s'.state ≡ TaskState.failed)
        ⊎ (is_terminal s.state ≡ true)
        ⊎ ((s'.usage.input_tokens + s'.usage.output_tokens ≤ limit)
            × (s'.usage.unreported_steps ≡ 0))
  unfolding observe state_after_usage
  observe_ceiling fact s' limit l h =
      let (found, checked, e) = >>=-ok-eq-ok (check_observe s o) (observed s o fact) h in
      let (_, _, _, _, _, _, _, sum) = check_observe_moves found checked in ground arith

-- ===== src/Tasks/Budget.antt =====
-- tasks/budget.rs: the ceiling on the steps that the attempts of a task may reserve.
pub mod Ceiling
use kolyan.Prelude.{
  ℕ, ◌-◌, not, ◌||◌, some, List, [], ◌∷◌, ltb, ◌==◌, ℕ-Eq, is_some, is_empty, contains, ok, ◌>>=◌,
  ◌>>◌, reject_if, ok_or,
}
use kolyan.Prelude.Map
use kolyan.Ledger.{FactRef-Eq, FactRecord}
use kolyan.Tasks.Types.{
  AttemptBinding, TaskExecutionBudgetPolicy, TaskStepReservation, TaskExecutionBudgetState,
  TaskSnapshot, invalid, transition, TaskResult, checked_add,
}
use kolyan.Tasks.Validation.{identity, reference}

unfoldable pub policy_validate : TaskExecutionBudgetPolicy → TaskResult Unit
policy_validate policy = do
  identity policy.id
  identity policy.revision
  reject_if (policy.max_reserved_steps == 0 || policy.deadline_at_ms == 0)
      (invalid "execution budget needs positive Steps and absolute cutoff")

-- `try_fold` over the reservations
unfoldable pub reserved_from : ℕ → List TaskStepReservation → TaskResult ℕ
reserved_from sum [] = ok sum
reserved_from sum (slot ∷ slots) =
    let rest = λ (sum' : ℕ). reserved_from sum' slots in
    do
      sum' ← ok_or (checked_add sum slot.max_steps) (invalid "Step reservation overflow")
      rest sum'

unfoldable pub remaining_steps : TaskExecutionBudgetState → TaskResult ℕ
remaining_steps budget = do
  policy_validate budget.policy
  reserved ← reserved_from 0 (Map.values budget.reservations)
  reject_if (ltb budget.policy.max_reserved_steps reserved)
      (invalid "Step reservations exceed configured budget")
  ok (budget.policy.max_reserved_steps - reserved)

abbrev pub with_reservation :
    TaskExecutionBudgetState → AttemptBinding → ℕ → TaskExecutionBudgetState
with_reservation budget binding max_steps = record budget {
  reservations =
      Map.insert binding.attempt_id (record { binding = binding; max_steps = max_steps })
        budget.reservations;
}

module _ {V : Type 0} where
  unfoldable pub check_configure : TaskSnapshot V → TaskExecutionBudgetPolicy → TaskResult Unit
  check_configure state policy = do
    policy_validate policy
    reject_if (is_some state.execution_budget || not (is_empty state.attempts))
        (transition "execution budget already configured or work already started")

  abbrev pub configured : TaskSnapshot V → TaskExecutionBudgetPolicy → FactRecord V → TaskSnapshot V
  configured state policy fact = record state {
    execution_budget =
        some (record { policy = policy; policy_reference = reference fact; reservations = [] });
  }

  unfoldable pub configure :
      TaskSnapshot V → TaskExecutionBudgetPolicy → FactRecord V → TaskResult (TaskSnapshot V)
  configure state policy fact = do
    _ ← check_configure state policy
    ok (configured state policy fact)

  -- The test of `max_steps` against what remains stands between the others, and its error leaves
  -- the function only where those before it pass.
  unfoldable pub check_reserve :
      TaskSnapshot V → AttemptBinding → ℕ → FactRecord V → TaskResult TaskExecutionBudgetState
  check_reserve state binding max_steps fact = do
    budget ←
        ok_or state.execution_budget
          (transition "budgeted start requires configured execution budget")
    reject_if (max_steps == 0 || ltb state.definition.limits.max_steps_per_turn max_steps)
        (transition "invalid, duplicate or exhausted Step reservation")
    remaining ← remaining_steps budget
    reject_if
        (ltb remaining max_steps
          || Map.contains_key binding.attempt_id budget.reservations
          || not (contains fact.draft.causes budget.policy_reference))
        (transition "invalid, duplicate or exhausted Step reservation")
    ok budget

  abbrev pub reserved :
      TaskSnapshot V → AttemptBinding → ℕ → TaskExecutionBudgetState → TaskSnapshot V
  reserved state binding max_steps budget = record state {
    execution_budget = some (with_reservation budget binding max_steps);
  }

  unfoldable pub reserve :
      TaskSnapshot V → AttemptBinding → ℕ → FactRecord V → TaskResult (TaskSnapshot V)
  reserve state binding max_steps fact = do
    budget ← check_reserve state binding max_steps fact
    ok (reserved state binding max_steps budget)

-- ===== src/Tasks/Scenarios/Budgets.antt =====
-- The sample task with a budget of steps.
use kolyan.Prelude.{ℕ, ◌≡◌, refl, none, some, [], ◌∷◌, ok, ◌+◌, arith, String-Eq, ℕ-Eq}
use kolyan.Ledger.{FactRef-Eq}
use kolyan.Tasks.Types.{
  TaskSnapshot, TaskEvent, TaskExecutionBudgetPolicy, TaskExecutionBudgetState,
}
use kolyan.Tasks.Reducer.{apply}
use kolyan.Tasks.Reducer.Reachable.{Reachable, takes}
use kolyan.Tasks.Samples.{serde, two_step, root_invocation, root_binding, fact_at, fact_of}
use kolyan.Tasks.Samples.Run.{run, after}
use kolyan.Prelude.Map
use kolyan.Tasks.Budget.{reserve, remaining_steps, with_reservation}
use kolyan.Tasks.Budget.Ceiling.{reserve_lowers}
use kolyan.Tasks.Reducer.Charged.{IsCharged, Reachable-IsCharged}
use kolyan.Tasks.Scenarios.{left_by, with_root, root-Reachable}

abbrev steps : TaskExecutionBudgetPolicy
steps = record { id = "steps"; revision = "r1"; max_reserved_steps = 20; deadline_at_ms = 1000 }

abbrev with_steps : TaskSnapshot ℕ
with_steps = after (
    TaskEvent.registered two_step
    ∷ TaskEvent.invocation_admitted root_invocation
    ∷ TaskEvent.execution_budget_configured steps
    ∷ [])

abbrev step_budget : TaskExecutionBudgetState
step_budget = record { policy = steps; policy_reference = fact_of 3; reservations = [] }

abbrev steps_reserved : TaskSnapshot ℕ
steps_reserved = left_by (reserve with_steps root_binding 8 (fact_at 4 3))

has_steps : with_steps.execution_budget ≡ some step_budget
unfolding run
has_steps = refl

reserves_steps : reserve with_steps root_binding 8 (fact_at 4 3) ≡ ok steps_reserved
unfolding run
reserves_steps = refl

reserve_lowers_example :
    (left : ℕ) × (steps_reserved.execution_budget
      ≡ some (with_reservation step_budget root_binding 8))
    × (Map.get "attempt-root" step_budget.reservations ≡ none)
    × (remaining_steps step_budget ≡ ok (left + 8))
    × (remaining_steps (with_reservation step_budget root_binding 8) ≡ ok left)
reserve_lowers_example =
    reserve_lowers with_steps root_binding 8 (fact_at 4 3) step_budget steps_reserved has_steps
      (omega arith) reserves_steps

configures_steps :
    apply serde (some with_root) (TaskEvent.execution_budget_configured steps) (fact_at 3 6)
    ≡ ok with_steps
unfolding run
configures_steps = refl

-- The budgeted start of the root.
abbrev charged : TaskSnapshot ℕ
charged = left_by (
    apply serde (some with_steps) (TaskEvent.budgeted_attempt_started root_binding 8) (fact_at 4 3))

starts_charged :
    apply serde (some with_steps) (TaskEvent.budgeted_attempt_started root_binding 8) (fact_at 4 3)
    ≡ ok charged
unfolding run
starts_charged = refl

charged-Reachable : Reachable serde charged
charged-Reachable =
    takes (TaskEvent.budgeted_attempt_started root_binding 8) (fact_at 4 3) charged
      (takes (TaskEvent.execution_budget_configured steps) (fact_at 3 6) with_steps root-Reachable
        configures_steps)
      starts_charged

Reachable-IsCharged_example : IsCharged charged
Reachable-IsCharged_example = Reachable-IsCharged serde charged charged-Reachable

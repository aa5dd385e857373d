-- ===== src/Tasks/Safety/Apply.antt =====
-- `apply` on a state that a task can be in returns a state or an error.
use kolyan.Prelude.{
  Bool, true, false, ◌≡◌, ◌≢◌, refl, sym, subst, true, none, some, panic, >>=_returns, reject_if,
  arith,
}
use kolyan.Prelude.Sorted.{is_sorted}
use kolyan.Ledger.{FactRecord}
use kolyan.Tasks.Types.{TaskSnapshot, TaskEvent, Serde, AttemptBinding}
use kolyan.Tasks.Topology.{topology, IsValid}
use kolyan.Tasks.Topology.Valid.{Step-IsValid}
use kolyan.Tasks.Validation.{reason}
use kolyan.Tasks.Dependencies.{add_dependency}
use kolyan.Tasks.Admission.{admit}
use kolyan.Tasks.Results.{consume, consume_terminal}
use kolyan.Tasks.Budget.{configure, reserve}
use kolyan.Tasks.Attempts.Start.{authorize_retry, resume, start}
use kolyan.Tasks.Attempts.Observe.{observe}
use kolyan.Tasks.Completion.{complete}
use kolyan.Tasks.Reducer.{require_recovery, dispatch, transition_task, apply}
use kolyan.Tasks.Reducer.Dispatch.{dispatch-Step}
use kolyan.Tasks.Reducer.Reachable.{Reachable, Reachable-IsValid}
use kolyan.Tasks.Reducer.Sorted.{Reachable-is_sorted}
use kolyan.Tasks.Safety.Checks.{validate_definition_returns}
use kolyan.Tasks.Safety.Commands.{
  check_consume_returns, check_terminal_returns, check_dependency_returns, check_start_returns,
  check_retry_returns, check_resume_returns, check_recovery_returns, check_observe_returns,
  check_configure_returns, check_reserve_returns, check_complete_returns, apply_assessment_returns,
}
use kolyan.Tasks.Safety.Loops.{check_admit_returns, refresh_returns, cancel_returns}

abbrev is_registration : {V : Type 0} → TaskEvent V → Bool
is_registration (TaskEvent.registered _) = true
is_registration _ = false

module _ {V : Type 0} (serde : Serde V) (s : TaskSnapshot V) (v : IsValid (topology s))
    (o : is_sorted s.invocations ≡ true) where
  start_returns :
      (t : TaskSnapshot V) → topology t ≡ topology s → (b : AttemptBinding) → start t b ≢ panic
  unfolding start
  start_returns t e b = ground (arith, check_start_returns t (subst IsValid (sym e) v) b)

  dispatch_returns :
      (event : TaskEvent V) (fact : FactRecord V)
      → is_registration event ≡ false
      → dispatch serde s event fact ≢ panic
  unfolding dispatch configure reserve admit add_dependency observe resume require_recovery
      authorize_retry consume consume_terminal complete reason
  dispatch_returns (TaskEvent.registered d) fact other = cc
  dispatch_returns (TaskEvent.execution_budget_configured p) fact other =
      ground (arith, check_configure_returns s v p)
  dispatch_returns (TaskEvent.budgeted_attempt_started b n) fact other = grind (
    arith,
    check_reserve_returns s v b n fact,
    λ (t : TaskSnapshot V) (e : topology t ≡ topology s). start_returns t e b,
  )
  dispatch_returns (TaskEvent.goal_assessed a) fact other =
      apply_assessment_returns s v serde a fact
  dispatch_returns (TaskEvent.invocation_admitted d) fact other =
      ground (arith, check_admit_returns s v d)
  dispatch_returns (TaskEvent.dependency_admitted a b) fact other =
      ground (arith, check_dependency_returns s v a b)
  dispatch_returns (TaskEvent.attempt_started b) fact other = ground (arith, start_returns s refl b)
  dispatch_returns (TaskEvent.attempt_observed obs) fact other =
      ground (arith, check_observe_returns s v obs)
  dispatch_returns (TaskEvent.attempt_resumed b c) fact other =
      ground (arith, check_resume_returns s v b c)
  dispatch_returns (TaskEvent.recovery_needed id why) fact other =
      ground (arith, check_recovery_returns s v id why)
  dispatch_returns (TaskEvent.retry_authorized id e why) fact other =
      ground (arith, check_retry_returns s v id e why)
  dispatch_returns (TaskEvent.result_consumed id r) fact other =
      ground (arith, check_consume_returns s v id r fact)
  dispatch_returns (TaskEvent.terminal_result_consumed id r) fact other =
      ground (arith, check_terminal_returns s v id r fact)
  dispatch_returns (TaskEvent.completed evidence) fact other =
      ground (arith, check_complete_returns s v evidence)
  dispatch_returns (TaskEvent.cancelled why) fact other = cancel_returns s v why o
  dispatch_returns (TaskEvent.failed why) fact other = ground arith

  transition_task_returns :
      (event : TaskEvent V) (fact : FactRecord V)
      → is_registration event ≡ false
      → transition_task serde s event fact ≢ panic
  unfolding transition_task
  transition_task_returns event fact other =
      >>=_returns (reject_if _ _) _ (λ p. ground arith)
        (λ _ _.
          >>=_returns (dispatch serde s event fact) _ (dispatch_returns event fact other) (λ next e.
            refresh_returns (record next { position = fact.position })
              (Step-IsValid (dispatch-Step s serde event fact next e) v)))

-- From every state that a task can be in, and at every event and record, `apply` returns the next
-- state or an error: it never panics.
pub apply_returns :
    {V : Type 0} (serde : Serde V) (s : TaskSnapshot V) (event : TaskEvent V) (fact : FactRecord V)
    → Reachable serde s
    → apply serde (some s) event fact ≢ panic
unfolding apply
apply_returns serde s (TaskEvent.registered d) fact r = ground arith
apply_returns serde s event fact r =
    transition_task_returns serde s (Reachable-IsValid serde r) (Reachable-is_sorted serde r) event
      fact refl

pub apply-none_returns :
    {V : Type 0} (serde : Serde V) (event : TaskEvent V) (fact : FactRecord V)
    → apply serde none event fact ≢ panic
unfolding apply
apply-none_returns serde (TaskEvent.registered d) fact =
    ground (arith, validate_definition_returns serde d)
apply-none_returns serde event fact = ground arith

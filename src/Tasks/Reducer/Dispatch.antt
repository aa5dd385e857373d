-- ===== src/Tasks/Reducer/Dispatch.antt =====
-- Every event that the reducer takes is a step of the abstract view.
use kolyan.Prelude.{
  ℕ, ◌≡◌, refl, sym, subst, String, List, is_some, ok, reject_if, ◌>>=◌, ◌>>◌, >>=-eq-ok, >>-eq-ok,
  >>=-ok-eq-ok,
}
use kolyan.Ledger.{FactRecord}
use kolyan.Tasks.Types.{
  AttemptBinding, TaskExecutionBudgetPolicy, CompletionEvidence, GoalAssessment, TaskState,
  TaskSnapshot, TaskEvent, Serde, transition,
}
use kolyan.Tasks.Topology.{topology, Step}
use kolyan.Tasks.Validation.{reason, assessment_digest}
use kolyan.Tasks.Budget.{check_configure, configured, configure, check_reserve, reserved, reserve}
use kolyan.Tasks.Attempts.Start.{start}
use kolyan.Tasks.Completion.{check_complete, succeeded, complete}
use kolyan.Tasks.Goals.{assessment_owner, apply_assessment, refresh_goals}
use kolyan.Tasks.Reducer.{dispatch, child_waits, refresh, transition_task}
use kolyan.Tasks.Reducer.Refines.{admit-Step, start-Step, add_dependency-Step}
use kolyan.Tasks.Reducer.Commands.{
  still, consume-Step, consume_terminal-Step, observe-Step, resume-Step, authorize_retry-Step,
  require_recovery-Step, cancel-Step,
}

-- `refresh` writes the waits and the state of the task alone.
pub refresh-topology :
    {V : Type 0} (s s' : TaskSnapshot V) → refresh s ≡ ok s' → topology s' ≡ topology s
unfolding refresh refresh_goals
refresh-topology s s' h =
    let (_, _, e) = >>=-ok-eq-ok (child_waits s s.invocations) _ h in
    subst (λ w. topology w ≡ topology s) (sym e) refl

module _ {V : Type 0} (s : TaskSnapshot V) where
  -- Commands that touch neither map.
  configure-Step :
      (policy : TaskExecutionBudgetPolicy) (fact : FactRecord V) (s' : TaskSnapshot V)
      → configure s policy fact ≡ ok s'
      → Step (topology s) (topology s')
  unfolding configure
  configure-Step policy fact s' h =
      let (_, _, e) = >>=-ok-eq-ok (check_configure s policy) _ h in
      still s s' (configured s policy fact) e refl

  complete-Step :
      (evidence : List CompletionEvidence) (s' : TaskSnapshot V)
      → complete s evidence ≡ ok s'
      → Step (topology s) (topology s')
  unfolding complete
  complete-Step evidence s' h =
      let (_, _, e) = >>=-ok-eq-ok (check_complete s evidence) _ h in
      still s s' (succeeded s evidence) e refl

  apply_assessment-Step :
      (serde : Serde V) (assessment : GoalAssessment V) (fact : FactRecord V) (s' : TaskSnapshot V)
      → apply_assessment serde s assessment fact ≡ ok s'
      → Step (topology s) (topology s')
  unfolding apply_assessment
  apply_assessment-Step serde assessment fact s' h =
      let (_, _, then1) = >>=-eq-ok (assessment_owner serde s assessment) _ h in
      let (_, then2) = >>-eq-ok (reject_if _ _) _ then1 in
      let (_, _, e) = >>=-ok-eq-ok (assessment_digest serde assessment) _ then2 in
      still s s' _ e refl

  budgeted-Step :
      (b : AttemptBinding) (max_steps : ℕ) (fact : FactRecord V) (s' : TaskSnapshot V)
      → (reserve s b max_steps fact >>= λ charged. start charged b) ≡ ok s'
      → Step (topology s) (topology s')
  unfolding reserve
  budgeted-Step b max_steps fact s' h =
      let (charged, first, second) = >>=-eq-ok (reserve s b max_steps fact) _ h in
      let (budget, _, e) = >>=-ok-eq-ok (check_reserve s b max_steps fact) _ first in
      start-Step (reserved s b max_steps budget) b s' (subst (λ w. start w b ≡ ok s') e second)

  failed-Step :
      (why : String) (s' : TaskSnapshot V)
      → (reason why >> ok (record s { state = TaskState.failed })) ≡ ok s'
      → Step (topology s) (topology s')
  failed-Step why s' h =
      let (_, _, e) = >>=-ok-eq-ok (reason why) _ h in
      still s s' (record s { state = TaskState.failed }) e refl

  unbudgeted-Step :
      (b : AttemptBinding) (s' : TaskSnapshot V)
      → (reject_if
            (is_some s.execution_budget)
            (transition "configured Task requires atomic budgeted start")
          >> start s b)
        ≡ ok s'
      → Step (topology s) (topology s')
  unbudgeted-Step b s' h = start-Step s b s' (>>-eq-ok (reject_if _ _) _ h).1

  pub dispatch-Step :
      (serde : Serde V) (event : TaskEvent V) (fact : FactRecord V) (s' : TaskSnapshot V)
      → dispatch serde s event fact ≡ ok s'
      → Step (topology s) (topology s')
  unfolding dispatch
  dispatch-Step serde (TaskEvent.registered d) fact s' h = cc
  dispatch-Step serde (TaskEvent.execution_budget_configured p) fact s' h =
      configure-Step p fact s' h
  dispatch-Step serde (TaskEvent.budgeted_attempt_started b n) fact s' h =
      budgeted-Step b n fact s' h
  dispatch-Step serde (TaskEvent.goal_assessed a) fact s' h =
      apply_assessment-Step serde a fact s' h
  dispatch-Step serde (TaskEvent.invocation_admitted d) fact s' h = admit-Step s d s' h
  dispatch-Step serde (TaskEvent.dependency_admitted a b) fact s' h = add_dependency-Step s a b s' h
  dispatch-Step serde (TaskEvent.attempt_started b) fact s' h = unbudgeted-Step b s' h
  dispatch-Step serde (TaskEvent.attempt_observed o) fact s' h = observe-Step s o fact s' h
  dispatch-Step serde (TaskEvent.attempt_resumed b c) fact s' h = resume-Step s b c s' h
  dispatch-Step serde (TaskEvent.recovery_needed id why) fact s' h =
      require_recovery-Step s id why s' h
  dispatch-Step serde (TaskEvent.retry_authorized id e why) fact s' h =
      authorize_retry-Step s id e why s' h
  dispatch-Step serde (TaskEvent.result_consumed id r) fact s' h = consume-Step s id r fact s' h
  dispatch-Step serde (TaskEvent.terminal_result_consumed id r) fact s' h =
      consume_terminal-Step s id r fact s' h
  dispatch-Step serde (TaskEvent.completed evidence) fact s' h = complete-Step evidence s' h
  dispatch-Step serde (TaskEvent.cancelled why) fact s' h = cancel-Step s why s' h
  dispatch-Step serde (TaskEvent.failed why) fact s' h = failed-Step why s' h

  -- Every event that a registered task takes is one step of its topology: nothing, one new
  -- invocation, one new attempt, or one new dependency that closes no cycle.
  pub transition_task-Step :
      (serde : Serde V) (event : TaskEvent V) (fact : FactRecord V) (s' : TaskSnapshot V)
      → transition_task serde s event fact ≡ ok s'
      → Step (topology s) (topology s')
  unfolding transition_task
  transition_task-Step serde event fact s' h =
      let (_, then1) = >>-eq-ok (reject_if _ _) _ h in
      let (next, dispatched, refreshed) = >>=-eq-ok (dispatch serde s event fact) _ then1 in
      subst (λ t. Step (topology s) t)
        (sym (refresh-topology (record next { position = fact.position }) s' refreshed))
        (dispatch-Step serde event fact next dispatched)

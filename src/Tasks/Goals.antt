-- ===== src/Tasks/Goals.antt =====
-- tasks/goals/transitions.rs: whose goal an assessment judges, and what a task waits for.
pub mod Verify
pub mod Registry
use kolyan.Prelude.{
  String, Bool, true, false, not, ◌||◌, Option, none, some, List, [], ◌∷◌, ◌++◌, ltb, if◌then◌else◌,
  ◌==◌, String-Eq, ℕ-Eq, Option-Eq, any, find, last, is_some, is_some_and, ok, ◌>>=◌, ◌>>◌,
  reject_if, ok_or,
}
use mathlib.Core.List.{reverse}
use kolyan.Prelude.Map
use kolyan.Ledger.{FactRef, FactRecord}
use kolyan.Tasks.Types.{
  ExecutionRef-Eq, AgentIdentity-Eq, GoalCheckerKey-Eq, GoalCriterion, CompletionCriterion,
  InvocationRole, InvocationRole-Eq, InvocationInputSource-Eq, AttemptBinding-Eq,
  ExecutionEvidence-Eq, GoalVerdict, GoalVerdict-Eq, WaitingReason, AttemptOutcome, GoalAssessment,
  GoalAssessmentRecord, InvocationState, InvocationState-Eq, TaskSnapshot, invalid, TaskResult,
  Serde,
}
use kolyan.Tasks.Validation.{reference, goal_validate, assessment_digest}

-- `Completed { .. }`
unfoldable pub is_completed_outcome : AttemptOutcome → Bool
is_completed_outcome (AttemptOutcome.completed _) = true
is_completed_outcome _ = false

module _ {V : Type 0} where
  -- `find_map` over the criteria
  unfoldable pub find_goal : String → List (CompletionCriterion V) → Option (GoalCriterion V)
  find_goal id [] = none
  find_goal id (CompletionCriterion.goal goal ∷ criteria) =
      if goal.id == id then some goal else find_goal id criteria
  find_goal id (_ ∷ criteria) = find_goal id criteria

  unfoldable pub assessment_owner :
      Serde V → TaskSnapshot V → GoalAssessment V → TaskResult (GoalCriterion V × FactRef)
  assessment_owner serde prefix assessment = do
    criterion ←
        ok_or (find_goal assessment.criterion_id prefix.definition.criteria)
          (invalid "unknown goal criterion")
    goal_validate serde criterion
    invocation ←
        ok_or (Map.get criterion.invocation_id prefix.invocations) (invalid "missing goal root")
    attempt ←
        ok_or (Map.get assessment.attempt.attempt_id prefix.attempts)
          (invalid "unknown goal attempt")
    observation ← ok_or attempt.observation (invalid "missing stopped goal observation")
    reject_if
        (not (invocation.definition.role == InvocationRole.root)
          || is_some invocation.definition.parent_invocation_id
          || not (invocation.definition.agent == prefix.definition.agent)
          || not (invocation.definition.constraints_digest == prefix.definition.constraints_digest)
          || not (criterion.invocation_id == assessment.attempt.invocation_id)
          || not (last invocation.attempts == some assessment.attempt.attempt_id)
          || not (attempt.binding == assessment.attempt)
          || not (attempt.binding.agent == invocation.definition.agent)
          || not (attempt.binding.constraints_digest == invocation.definition.constraints_digest)
          || not (attempt.binding.input_source == invocation.definition.input_source)
          || not (invocation.state == InvocationState.completed)
          || not (attempt.state == InvocationState.completed)
          || not (is_completed_outcome observation.outcome)
          || not (assessment.source == observation.source)
          || not (assessment.source.execution == attempt.binding.execution)
          || not (assessment.predicate_digest == criterion.predicate_digest)
          || not (assessment.checker == criterion.checker))
        (invalid "goal root/attempt/definition/stopped source differs")
    stopped ← ok_or invocation.completion_fact (invalid "missing goal observation fact")
    reject_if
        (not (stopped.stream_id == prefix.definition.task_id)
          || stopped.position == 0
          || ltb prefix.position stopped.position)
        (invalid "goal observation coordinate is outside prefix")
    ok (criterion, stopped)

  unfoldable pub apply_assessment :
      Serde V → TaskSnapshot V → GoalAssessment V → FactRecord V → TaskResult (TaskSnapshot V)
  apply_assessment serde prefix assessment fact = do
    assessment_owner serde prefix assessment
    reject_if
        (any (λ saved. saved.assessment.criterion_id == assessment.criterion_id)
          prefix.goal_assessments)
        (invalid "goal already assessed; new work requires an admitted correction edge")
    digest ← assessment_digest serde assessment
    ok (record prefix {
      goal_assessments =
          prefix.goal_assessments
          ++ record {
            assessment = assessment;
            reference = reference fact;
            assessment_digest = digest;
          }
            ∷ [];
    })

  -- What one goal adds to the list of waits.
  unfoldable pub goal_wait : GoalCriterion V → Option (GoalAssessmentRecord V) → List WaitingReason
  goal_wait goal none = WaitingReason.goal_assessment goal.id goal.invocation_id ∷ []
  goal_wait goal (some saved) =
      if saved.assessment.verdict == GoalVerdict.satisfied
      then []
      else WaitingReason.goal_unmet goal.id saved.assessment.verdict saved.assessment.reason ∷ []

  -- One round of the loop of `refresh_goals`.
  unfoldable pub criterion_wait : TaskSnapshot V → CompletionCriterion V → List WaitingReason
  criterion_wait state (CompletionCriterion.goal goal) =
      if is_some_and (Map.get goal.invocation_id state.invocations)
        (λ invocation. invocation.state == InvocationState.completed)
      then goal_wait goal (
          find (λ saved. saved.assessment.criterion_id == goal.id) (reverse state.goal_assessments))
      else []
  criterion_wait state _ = []

  unfoldable pub goal_waits : TaskSnapshot V → List (CompletionCriterion V) → List WaitingReason
  goal_waits state [] = []
  goal_waits state (criterion ∷ criteria) =
      criterion_wait state criterion ++ goal_waits state criteria

  unfoldable pub refresh_goals : TaskSnapshot V → TaskSnapshot V
  refresh_goals state = record state {
    waiting = state.waiting ++ goal_waits state state.definition.criteria;
  }

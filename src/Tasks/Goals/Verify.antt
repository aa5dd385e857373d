-- ===== src/Tasks/Goals/Verify.antt =====
-- `goal_causes` and `verify_event` of tasks/goals/transitions.rs: what the host's verifier and the
-- causes of a record have to say of an event before it is applied.
pub mod Causes
use kolyan.Prelude.{
  String, Bool, true, false, not, ◌||◌, Option, none, some, List, [], ◌∷◌, any, contains,
  filter_map, ok, ◌>>=◌, ◌>>◌, reject_if, ok_or, if◌then◌else◌,
}
use kolyan.Ledger.{FactRef, FactRef-Eq, FactRecord}
use kolyan.Tasks.Types.{
  GoalCriterion, CompletionCriterion, CompletionEvidence, TaskDefinition, TaskSnapshot, TaskEvent,
  GoalAssessment, invalid, TaskResult, Serde,
}
use kolyan.Tasks.Validation.{goal_validate}
use kolyan.Tasks.Goals.{assessment_owner}

-- `TaskGoalVerifier`, the trait of the host.
pub record TaskGoalVerifier (V : Type 0) : Type 0 where
  pub validate_criterion : GoalCriterion V → TaskResult Unit
  pub compute_assessment : TaskSnapshot V → String → TaskResult (GoalAssessment V)
  pub verify_assessment : TaskSnapshot V → GoalAssessment V → TaskResult Unit
  pub verify_completion : TaskSnapshot V → List CompletionEvidence → TaskResult Unit

-- The assessment that a satisfied goal refers to.
unfoldable pub assessment_of : CompletionEvidence → Option FactRef
assessment_of (CompletionEvidence.goal_satisfied _ _ assessment _) = some assessment
assessment_of _ = none

module _ {V : Type 0} where
  unfoldable pub goal_causes :
      Serde V → Option (TaskSnapshot V) → TaskEvent V → TaskResult (List FactRef)
  goal_causes serde prefix (TaskEvent.goal_assessed assessment) = do
    state ← ok_or prefix (invalid "goal has no prefix")
    owner ← assessment_owner serde state assessment
    ok (owner.1 ∷ [])
  goal_causes serde prefix (TaskEvent.completed evidence) = ok (filter_map assessment_of evidence)
  goal_causes serde prefix _ = ok []

  unfoldable pub is_goal : CompletionCriterion V → Bool
  is_goal (CompletionCriterion.goal _) = true
  is_goal _ = false

  unfoldable pub verify_goal :
      Serde V → Option (TaskGoalVerifier V) → CompletionCriterion V → TaskResult Unit
  verify_goal serde verifier (CompletionCriterion.goal goal) = do
    goal_validate serde goal
    host ← ok_or verifier (invalid "goal verifier unavailable")
    host.validate_criterion goal
  verify_goal serde verifier _ = ok tt

  -- The loop over the criteria of a registration.
  unfoldable pub verify_goals :
      Serde V → Option (TaskGoalVerifier V) → List (CompletionCriterion V) → TaskResult Unit
  verify_goals serde verifier [] = ok tt
  verify_goals serde verifier (criterion ∷ criteria) =
      let rest = verify_goals serde verifier criteria in
      do verify_goal serde verifier criterion; rest

  -- The loop over the causes.
  unfoldable pub verify_causes : List FactRef → FactRecord V → TaskResult Unit
  verify_causes [] fact = ok tt
  verify_causes (cause ∷ causes) fact =
      let rest = verify_causes causes fact in
      do
        reject_if (not (contains fact.draft.causes cause))
            (invalid "goal fact lacks exact source cause")
        rest

  -- The last `match` on the event.
  unfoldable pub ask_host : TaskGoalVerifier V → TaskSnapshot V → TaskEvent V → TaskResult Unit
  ask_host host state (TaskEvent.goal_assessed assessment) = host.verify_assessment state assessment
  ask_host host state (TaskEvent.completed evidence) = host.verify_completion state evidence
  ask_host host state _ = ok tt

  -- An event other than a registration, on a task that is registered and has a goal.
  unfoldable pub verify_task :
      Serde V
      → Option (TaskGoalVerifier V)
      → TaskSnapshot V
      → TaskEvent V
      → FactRecord V
      → TaskResult Unit
  verify_task serde verifier state event fact = do
    host ← ok_or verifier (invalid "goal verifier unavailable on replay")
    causes ← goal_causes serde (some state) event
    verify_causes causes fact
    ask_host host state event

  unfoldable pub verify_next :
      Serde V
      → Option (TaskGoalVerifier V)
      → Option (TaskSnapshot V)
      → TaskEvent V
      → FactRecord V
      → TaskResult Unit
  verify_next serde verifier none event fact = ok tt
  verify_next serde verifier (some state) event fact =
      let checked = verify_task serde verifier state event fact in
      if any is_goal state.definition.criteria then checked else ok tt

  unfoldable pub verify_event :
      Serde V
      → Option (TaskGoalVerifier V)
      → Option (TaskSnapshot V)
      → TaskEvent V
      → FactRecord V
      → TaskResult Unit
  unfolding verify_next
  verify_event serde verifier prefix (TaskEvent.registered definition) fact =
      verify_goals serde verifier definition.criteria
  verify_event serde verifier prefix event fact = verify_next serde verifier prefix event fact

-- ===== src/Tasks/Scenarios/Goals.antt =====
-- The sample task with a goal, assessed after its invocation completed.
use kolyan.Prelude.{ℕ, ◌≡◌, refl, true, some, ok, ◌≤◌, contains, String-Eq, reject_if, ◌==◌, ℕ-Eq}
use kolyan.Ledger.{FactRef, FactRef-Eq}
use kolyan.Tasks.Types.{TaskSnapshot, TaskEvent, GoalCriterion, invalid}
use kolyan.Tasks.Reducer.{apply}
use kolyan.Tasks.Samples.{serde, fact_at, tidy_assessed, root_stopped}
use kolyan.Tasks.Samples.Run.{run, after}
use kolyan.Tasks.Goals.{find_goal}
use kolyan.Tasks.Goals.Verify.{
  TaskGoalVerifier, verify_event, verify_task, goal_causes, verify_causes, ask_host, is_goal,
}
use kolyan.Tasks.Goals.Verify.Causes.{StoppedBy, goal_assessed_verified}
use kolyan.Tasks.Scenarios.{left_by}

abbrev confirms : TaskGoalVerifier ℕ
confirms = record {
  validate_criterion = λ goal. ok tt;
  compute_assessment = λ state id. ok tidy_assessed;
  verify_assessment =
      λ state assessment. reject_if (assessment.proof == 1) (invalid "the goal is not confirmed");
  verify_completion = λ state evidence. ok tt;
}

abbrev goal_pending : TaskSnapshot ℕ
goal_pending = after root_stopped

abbrev goal_settled : TaskSnapshot ℕ
goal_settled =
    left_by (apply serde (some goal_pending) (TaskEvent.goal_assessed tidy_assessed) (fact_at 5 4))

verifies_goal :
    verify_event serde
      (some confirms)
      (some goal_pending)
      (TaskEvent.goal_assessed tidy_assessed)
      (fact_at 5 4)
    ≡ ok tt
unfolding run verify_event verify_task goal_causes verify_causes ask_host is_goal
verifies_goal = refl

settles_goal :
    apply serde (some goal_pending) (TaskEvent.goal_assessed tidy_assessed) (fact_at 5 4)
    ≡ ok goal_settled
unfolding run
settles_goal = refl

goal_assessed_verified_example :
    (host : TaskGoalVerifier ℕ) × (goal : GoalCriterion ℕ) × (stopped : FactRef) × (some confirms
      ≡ some host)
    × (host.verify_assessment goal_pending tidy_assessed ≡ ok tt)
    × (find_goal "goal" goal_pending.definition.criteria ≡ some goal)
    × ("00" ≡ goal.predicate_digest)
    × (tidy_assessed.checker ≡ goal.checker)
    × StoppedBy goal_pending tidy_assessed goal stopped
    × (contains (fact_at 5 4).draft.causes stopped ≡ true)
    × (stopped.position ≤ goal_pending.position)
goal_assessed_verified_example =
    goal_assessed_verified serde (some confirms) goal_pending tidy_assessed (fact_at 5 4)
      goal_settled verifies_goal settles_goal

-- ===== src/Tasks/Types/Goal.antt =====
-- Assessments of goals: tasks/goals/types.rs. `V` stands for `serde_json::Value`.
use kolyan.Prelude.{String}
use kolyan.Ledger.{FactRef}
use kolyan.Tasks.Types.Identity.{AttemptBinding, GoalCheckerKey}
use kolyan.Tasks.Types.Outcome.{ExecutionEvidence, GoalVerdict}

pub record GoalAssessment (V : Type 0) : Type 0 where
  pub criterion_id : String
  pub predicate_digest : String
  pub checker : GoalCheckerKey
  pub attempt : AttemptBinding
  pub source : ExecutionEvidence
  pub verdict : GoalVerdict
  pub reason : String
  pub proof : V

pub record ComputedGoalDecision (V : Type 0) : Type 0 where
  pub verdict : GoalVerdict
  pub reason : String
  pub proof : V

-- `GoalAssessment::decision`
abbrev pub decision : {V : Type 0} → GoalAssessment V → ComputedGoalDecision V
decision assessment = record {
  verdict = assessment.verdict;
  reason = assessment.reason;
  proof = assessment.proof;
}

pub record GoalAssessmentRecord (V : Type 0) : Type 0 where
  pub assessment : GoalAssessment V
  pub reference : FactRef
  pub assessment_digest : String

-- ===== src/Tasks/Types/Outcome.antt =====
-- Usage, evidence and outcomes of attempts: the middle of tasks/types.rs, and `GoalVerdict` of
-- tasks/goals/types.rs.
use kolyan.Prelude.{
  ℕ, ◌+◌, String, List, Option, none, some, Bool, Eq, String-discrete, ℕ_discrete, ltb,
  if◌then◌else◌,
}
use kolyan.Ledger.{FactRef, FactRef-discrete}
use kolyan.Tasks.Types.Identity.{ExecutionRef, ExecutionRef-discrete, AttemptBinding}

-- u64
abbrev pub u64_limit : ℕ
u64_limit = 18_446_744_073_709_551_616

-- `checked_add` of u64
abbrev pub checked_add : ℕ → ℕ → Option ℕ
checked_add a b = if ltb (a + b) u64_limit then some (a + b) else none

pub record TaskUsage : Type 0 where
  pub input_tokens : ℕ
  pub output_tokens : ℕ
  pub unreported_steps : ℕ

abbrev pub total : TaskUsage → Option ℕ
total u = checked_add u.input_tokens u.output_tokens

pub record ExecutionEvidence : Type 0 where
  pub execution : ExecutionRef
  pub event_id : String
  pub cursor : ℕ

pub data CompletionEvidence : Type 0 where
  goal_satisfied :
      (criterion_id : String) (source : ExecutionEvidence) (assessment : FactRef)
      (assessment_digest : String)
      → CompletionEvidence
  execution_result :
      (criterion_id : String) (source : ExecutionEvidence) (result_digest : String)
      → CompletionEvidence
  verified_artifact :
      (criterion_id : String) (source : ExecutionEvidence) (sha256 : String) (byte_len : ℕ)
      → CompletionEvidence

abbrev pub evidence_criterion_id : CompletionEvidence → String
evidence_criterion_id (goal_satisfied id _ _ _) = id
evidence_criterion_id (execution_result id _ _) = id
evidence_criterion_id (verified_artifact id _ _ _) = id

abbrev pub evidence_source : CompletionEvidence → ExecutionEvidence
evidence_source (goal_satisfied _ source _ _) = source
evidence_source (execution_result _ source _) = source
evidence_source (verified_artifact _ source _ _) = source

pub data GoalVerdict : Type 0 where
  satisfied unsatisfied indeterminate checker_failed : GoalVerdict

pub record TaskSuspension : Type 0 where
  pub checkpoint_id : String
  pub approval_ids : List String
  pub external_wait_ids : List String

pub data WaitingReason : Type 0 where
  goal_assessment : (criterion_id invocation_id : String) → WaitingReason
  goal_unmet : (criterion_id : String) (verdict : GoalVerdict) (reason : String) → WaitingReason
  suspension : TaskSuspension → WaitingReason
  child_results : (invocation_ids : List String) → WaitingReason
  recovery : (reason : String) → WaitingReason

pub data AttemptOutcome : Type 0 where
  suspended : (waiting : TaskSuspension) → AttemptOutcome
  completed : (evidence : List CompletionEvidence) → AttemptOutcome
  failed : (reason : String) (safe_to_retry : Bool) → AttemptOutcome
  cancelled : (reason : String) → AttemptOutcome
  recovery_required : (reason : String) → AttemptOutcome

pub record AttemptObservation : Type 0 where
  pub attempt_id : String
  pub execution : ExecutionRef
  pub source : ExecutionEvidence
  pub usage : TaskUsage
  pub outcome : AttemptOutcome

pub record ConsumedResult : Type 0 where
  pub child_invocation_id : String
  pub completion_fact : FactRef
  pub evidence : List CompletionEvidence

pub data TerminalResultDisposition : Type 0 where
  completed : (evidence : List CompletionEvidence) → TerminalResultDisposition
  failed : (reason : String) → TerminalResultDisposition
  cancelled : (reason : String) → TerminalResultDisposition

pub record ConsumedTerminalResult : Type 0 where
  pub parent : AttemptBinding
  pub child : AttemptBinding
  pub terminal_fact : FactRef
  pub source : ExecutionEvidence
  pub disposition : TerminalResultDisposition

unfoldable pub ExecutionEvidence-discrete : Discrete ExecutionEvidence
ExecutionEvidence-discrete = hlevel (String-discrete, ℕ_discrete, ExecutionRef-discrete)

instance abbrev pub ExecutionEvidence-Eq : Eq ExecutionEvidence
ExecutionEvidence-Eq = record { discrete = ExecutionEvidence-discrete }

unfoldable pub CompletionEvidence-discrete : Discrete CompletionEvidence
CompletionEvidence-discrete =
    hlevel (String-discrete, ℕ_discrete, ExecutionEvidence-discrete, FactRef-discrete)

instance abbrev pub CompletionEvidence-Eq : Eq CompletionEvidence
CompletionEvidence-Eq = record { discrete = CompletionEvidence-discrete }

unfoldable pub GoalVerdict-discrete : Discrete GoalVerdict
GoalVerdict-discrete = hlevel

instance abbrev pub GoalVerdict-Eq : Eq GoalVerdict
GoalVerdict-Eq = record { discrete = GoalVerdict-discrete }

unfoldable pub TerminalResultDisposition-discrete : Discrete TerminalResultDisposition
TerminalResultDisposition-discrete = hlevel (String-discrete, CompletionEvidence-discrete)

instance abbrev pub TerminalResultDisposition-Eq : Eq TerminalResultDisposition
TerminalResultDisposition-Eq = record { discrete = TerminalResultDisposition-discrete }

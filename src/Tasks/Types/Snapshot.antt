-- ===== src/Tasks/Types/Snapshot.antt =====
-- The state of a task: the second half of tasks/types.rs, and the records of tasks/budget.rs.
-- `V` stands for `serde_json::Value`.
use kolyan.Prelude.{ℕ, String, List, Option, Bool, true, false, Eq}
use kolyan.Prelude.Map.{Map}
use kolyan.Ledger.{FactRef}
use kolyan.Tasks.Types.Identity.{AttemptBinding, InvocationDefinition, TaskDefinition}
use kolyan.Tasks.Types.Goal.{GoalAssessmentRecord}
use kolyan.Tasks.Types.Outcome.{
  TaskUsage, CompletionEvidence, WaitingReason, AttemptObservation, ConsumedResult,
  ConsumedTerminalResult,
}

pub data TaskState : Type 0 where
  ready active waiting recovery_required completed failed cancelled : TaskState

unfoldable pub is_terminal : TaskState → Bool
is_terminal TaskState.completed = true
is_terminal TaskState.failed = true
is_terminal TaskState.cancelled = true
is_terminal _ = false

pub data InvocationState : Type 0 where
  admitted running suspended completed failed cancelled recovery_required : InvocationState

unfoldable pub TaskState-discrete : Discrete TaskState
TaskState-discrete = hlevel

instance abbrev pub TaskState-Eq : Eq TaskState
TaskState-Eq = record { discrete = TaskState-discrete }

unfoldable pub InvocationState-discrete : Discrete InvocationState
InvocationState-discrete = hlevel

instance abbrev pub InvocationState-Eq : Eq InvocationState
InvocationState-Eq = record { discrete = InvocationState-discrete }

pub record AttemptSnapshot : Type 0 where
  pub binding : AttemptBinding
  pub state : InvocationState
  pub observation : Option AttemptObservation
  pub waiting : Option WaitingReason
  pub cancellation_requested : Bool
  pub retry_authorized : Bool

pub record InvocationSnapshot : Type 0 where
  pub definition : InvocationDefinition
  pub state : InvocationState
  pub attempts : List String
  pub consumed_results : Map ConsumedResult
  pub terminal_consumed_results : Map ConsumedTerminalResult
  pub terminal_fact : Option FactRef
  pub completion_fact : Option FactRef
  pub cancellation_requested : Bool

pub record TaskExecutionBudgetPolicy : Type 0 where
  pub id : String
  pub revision : String
  pub max_reserved_steps : ℕ  -- u64
  pub deadline_at_ms : ℕ  -- u64

pub record TaskStepReservation : Type 0 where
  pub binding : AttemptBinding
  pub max_steps : ℕ  -- u32

pub record TaskExecutionBudgetState : Type 0 where
  pub policy : TaskExecutionBudgetPolicy
  pub policy_reference : FactRef
  pub reservations : Map TaskStepReservation

pub record TaskSnapshot (V : Type 0) : Type 0 where
  pub execution_budget : Option TaskExecutionBudgetState
  pub goal_assessments : List (GoalAssessmentRecord V)
  pub definition : TaskDefinition V
  pub position : ℕ  -- u64
  pub state : TaskState
  pub usage : TaskUsage
  pub invocations : Map InvocationSnapshot
  pub attempts : Map AttemptSnapshot
  pub waiting : List WaitingReason
  pub success_evidence : List CompletionEvidence

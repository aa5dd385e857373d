-- ===== src/Tasks/Types/Event.antt =====
-- Commands and errors: the end of tasks/types.rs. `V` stands for `serde_json::Value`.
use kolyan.Prelude.{ℕ, String, List, Result, panic, err, ok}
use kolyan.Ledger.Journal.{FactError, FactResult}
use kolyan.Tasks.Types.Identity.{AttemptBinding, InvocationDefinition, TaskDefinition}
use kolyan.Tasks.Types.Goal.{GoalAssessment}
use kolyan.Tasks.Types.Outcome.{
  ExecutionEvidence, CompletionEvidence, AttemptObservation, ConsumedResult, ConsumedTerminalResult,
}
use kolyan.Tasks.Types.Snapshot.{TaskExecutionBudgetPolicy}

-- `LedgerError` of crates/kolyan-ledger/src/lib.rs, and `GoalSourceError` of
-- task_driver/goal_source.rs.
pub data LedgerError : Type 0 where
  invalid_query conflict cancelled storage : String → LedgerError

pub data GoalSourceError : Type 0 where
  invalid : String → GoalSourceError
  bounds_exhausted : GoalSourceError
  storage : LedgerError → GoalSourceError

pub data TaskError : Type 0 where
  goal_source : GoalSourceError → TaskError
  journal : FactError → TaskError
  invalid : String → TaskError
  not_found : String → TaskError
  transition : String → TaskError

abbrev pub TaskResult : Type 0 → Type 0
TaskResult A = Result TaskError A

-- `?` on a result of the journal
abbrev pub from_journal : {A : Type 0} → FactResult A → TaskResult A
from_journal panic = panic
from_journal (err e) = err (TaskError.journal e)
from_journal (ok a) = ok a

pub data TaskEvent (V : Type 0) : Type 0 where
  execution_budget_configured : (policy : TaskExecutionBudgetPolicy) → TaskEvent V
  budgeted_attempt_started : (binding : AttemptBinding) (max_steps : ℕ) → TaskEvent V
  goal_assessed : (assessment : GoalAssessment V) → TaskEvent V
  registered : (definition : TaskDefinition V) → TaskEvent V
  invocation_admitted : (definition : InvocationDefinition) → TaskEvent V
  dependency_admitted : (invocation_id dependency_id : String) → TaskEvent V
  attempt_started : (binding : AttemptBinding) → TaskEvent V
  attempt_observed : (observation : AttemptObservation) → TaskEvent V
  attempt_resumed : (binding : AttemptBinding) (checkpoint_id : String) → TaskEvent V
  recovery_needed : (attempt_id reason : String) → TaskEvent V
  retry_authorized :
      (attempt_id : String) (source : ExecutionEvidence) (reason : String) → TaskEvent V
  result_consumed : (invocation_id : String) (result : ConsumedResult) → TaskEvent V
  terminal_result_consumed :
      (invocation_id : String) (result : ConsumedTerminalResult) → TaskEvent V
  completed : (evidence : List CompletionEvidence) → TaskEvent V
  cancelled : (reason : String) → TaskEvent V
  failed : (reason : String) → TaskEvent V

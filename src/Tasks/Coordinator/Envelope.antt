-- ===== src/Tasks/Coordinator/Envelope.antt =====
-- `envelope` of tasks/coordinator.rs, and the kinds that a replay knows.
use kolyan.Prelude.{ℕ, String, String-Eq, Bool, List, [], ◌∷◌, contains}
use kolyan.Ledger.{FactSubject}
use kolyan.Tasks.Types.{TaskEvent}

abbrev pub version : ℕ
version = 1

-- The event's kind, the first part of `envelope`.
abbrev pub event_kind : {V : Type 0} → TaskEvent V → String
event_kind (TaskEvent.execution_budget_configured _) = "task.execution_budget_configured"
event_kind (TaskEvent.budgeted_attempt_started _ _) = "task.budgeted_attempt_started"
event_kind (TaskEvent.goal_assessed _) = "task.goal_assessed"
event_kind (TaskEvent.registered _) = "task.registered"
event_kind (TaskEvent.invocation_admitted _) = "task.invocation_admitted"
event_kind (TaskEvent.dependency_admitted _ _) = "task.dependency_admitted"
event_kind (TaskEvent.attempt_started _) = "task.attempt_started"
event_kind (TaskEvent.attempt_observed _) = "task.attempt_observed"
event_kind (TaskEvent.attempt_resumed _ _) = "task.attempt_resumed"
event_kind (TaskEvent.recovery_needed _ _) = "task.recovery_needed"
event_kind (TaskEvent.retry_authorized _ _ _) = "task.retry_authorized"
event_kind (TaskEvent.result_consumed _ _) = "task.result_consumed"
event_kind (TaskEvent.terminal_result_consumed _ _) = "task.terminal_result_consumed"
event_kind (TaskEvent.completed _) = "task.completed"
event_kind (TaskEvent.cancelled _) = "task.cancelled"
event_kind (TaskEvent.failed _) = "task.failed"

abbrev subject : String → String → FactSubject
subject kind id = record { kind = kind; id = id }

-- The event's subject, with `task.` put before its kind.
abbrev pub event_subject : {V : Type 0} → String → TaskEvent V → FactSubject
event_subject task_id (TaskEvent.execution_budget_configured _) = subject "task.budget" task_id
event_subject task_id (TaskEvent.budgeted_attempt_started binding _) =
    subject "task.attempt" binding.attempt_id
event_subject task_id (TaskEvent.goal_assessed assessment) =
    subject "task.goal" assessment.criterion_id
event_subject task_id (TaskEvent.registered _) = subject "task.task" task_id
event_subject task_id (TaskEvent.invocation_admitted definition) =
    subject "task.invocation" definition.invocation_id
event_subject task_id (TaskEvent.dependency_admitted invocation_id _) =
    subject "task.invocation" invocation_id
event_subject task_id (TaskEvent.attempt_started binding) =
    subject "task.attempt" binding.attempt_id
event_subject task_id (TaskEvent.attempt_observed observation) =
    subject "task.attempt" observation.attempt_id
event_subject task_id (TaskEvent.attempt_resumed binding _) =
    subject "task.attempt" binding.attempt_id
event_subject task_id (TaskEvent.recovery_needed attempt_id _) = subject "task.attempt" attempt_id
event_subject task_id (TaskEvent.retry_authorized attempt_id _ _) =
    subject "task.attempt" attempt_id
event_subject task_id (TaskEvent.result_consumed invocation_id _) =
    subject "task.invocation" invocation_id
event_subject task_id (TaskEvent.terminal_result_consumed invocation_id _) =
    subject "task.invocation" invocation_id
event_subject task_id (TaskEvent.completed _) = subject "task.task" task_id
event_subject task_id (TaskEvent.cancelled _) = subject "task.task" task_id
event_subject task_id (TaskEvent.failed _) = subject "task.task" task_id

abbrev known_kinds : List String
known_kinds =
    "task.registered" ∷ "task.execution_budget_configured" ∷ "task.budgeted_attempt_started"
    ∷ "task.goal_assessed" ∷ "task.invocation_admitted" ∷ "task.dependency_admitted"
    ∷ "task.attempt_started" ∷ "task.attempt_observed" ∷ "task.attempt_resumed"
    ∷ "task.recovery_needed" ∷ "task.retry_authorized" ∷ "task.result_consumed"
    ∷ "task.terminal_result_consumed" ∷ "task.completed" ∷ "task.cancelled" ∷ "task.failed" ∷ []

unfoldable pub is_known : String → Bool
is_known kind = contains known_kinds kind

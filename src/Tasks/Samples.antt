-- ===== src/Tasks/Samples.antt =====
-- A small task with a root and one delegated child: what its events carry.
pub mod Run
pub mod Journal
pub mod Verifier
use kolyan.Prelude.{ℕ, String, Option, none, some, List, [], ◌∷◌, inr, true}
use kolyan.Ledger.{FactRef, FactRecord}
use kolyan.Tasks.Types.{
  AgentIdentity, CompletionCriterion, CancellationPolicy, TaskDefinition, InvocationRole,
  InvocationInputSource, InvocationDefinition, AttemptBinding, ExecutionEvidence,
  CompletionEvidence, AttemptOutcome, AttemptObservation, ConsumedResult, TaskEvent, Serde,
  GoalCriterion, GoalVerdict, GoalAssessment,
}

abbrev pub serde : Serde ℕ
serde = record {
  value_pieces = λ v. v ∷ [];
  value_vec = λ v. inr (v ∷ []);
  assessment_pieces = λ a. 1 ∷ [];
  assessment_vec = λ a. inr [];
  sha256_hex = λ bytes. "00";
}

abbrev pub hex : String
hex = "cccccccccccccccccccccccccccccccccccccccccccccccccccccccccccccccc"

abbrev pub host : AgentIdentity
host = record { definition_id = "agent"; revision = "r1"; instance_id = "instance" }

abbrev pub two_step : TaskDefinition ℕ
two_step = record {
  task_id = "task";
  objective = "Produce a verified final result";
  criteria = CompletionCriterion.execution_completed "done" "root" ∷ [];
  agent = host;
  constraints_digest = hex;
  limits = record {
    max_depth = 3;
    max_invocations = 8;
    max_attempts = 12;
    max_tokens = some 1000;
    max_steps_per_turn = 8;
  };
  cancellation_policy = CancellationPolicy.root_only;
}

abbrev pub fact_of : ℕ → FactRef
fact_of position = record { stream_id = "task"; position = position; fact_id = "fact" }

abbrev pub input : InvocationRole → InvocationInputSource
input InvocationRole.root = InvocationInputSource.standalone (fact_of 1)
input _ = InvocationInputSource.derived (fact_of 1)

abbrev pub root_invocation : InvocationDefinition
root_invocation = record {
  invocation_id = "root";
  agent = host;
  constraints_digest = hex;
  role = InvocationRole.root;
  parent_invocation_id = none;
  dependencies = [];
  input_source = input InvocationRole.root;
}

abbrev pub child_invocation : InvocationDefinition
child_invocation = record {
  invocation_id = "child";
  agent = host;
  constraints_digest = hex;
  role = InvocationRole.delegation;
  parent_invocation_id = some "root";
  dependencies = [];
  input_source = input InvocationRole.delegation;
}

abbrev pub bind : (invocation attempt execution : String) → InvocationRole → AttemptBinding
bind invocation attempt execution role = record {
  attempt_id = attempt;
  invocation_id = invocation;
  execution = record { session_id = "session"; turn_id = "turn"; execution_id = execution };
  agent = host;
  constraints_digest = hex;
  input_source = input role;
}

abbrev pub root_binding : AttemptBinding
root_binding = bind "root" "attempt-root" "exec-root" InvocationRole.root

abbrev pub child_binding : AttemptBinding
child_binding = bind "child" "attempt-child" "exec-child" InvocationRole.delegation

abbrev pub seen_at : AttemptBinding → ℕ → ExecutionEvidence
seen_at binding cursor = record {
  execution = binding.execution;
  event_id = "event";
  cursor = cursor;
}

abbrev pub seen : AttemptBinding → ℕ → AttemptOutcome → AttemptObservation
seen binding cursor outcome = record {
  attempt_id = binding.attempt_id;
  execution = binding.execution;
  source = seen_at binding cursor;
  usage = record { input_tokens = 10; output_tokens = 5; unreported_steps = 0 };
  outcome = outcome;
}

abbrev pub root_evidence : List CompletionEvidence
root_evidence = CompletionEvidence.execution_result "done" (seen_at root_binding 3) hex ∷ []

-- The record that carries an event at a position, caused by the record at another.
abbrev pub fact_at : ℕ → ℕ → FactRecord ℕ
fact_at position cause = record {
  stream_id = "task";
  position = position;
  draft = record {
    fact_id = "fact";
    subject = record { kind = "task.task"; id = "task" };
    kind = "task.event";
    schema_version = 1;
    critical = true;
    causes = fact_of cause ∷ [];
    payload = 0;
  };
}

abbrev pub child_result : ConsumedResult
child_result = record { child_invocation_id = "child"; completion_fact = fact_of 6; evidence = [] }

abbrev pub admitted_both : List (TaskEvent ℕ)
admitted_both =
    TaskEvent.registered two_step
    ∷ TaskEvent.invocation_admitted root_invocation
    ∷ TaskEvent.invocation_admitted child_invocation
    ∷ []

abbrev pub started_both : List (TaskEvent ℕ)
started_both =
    TaskEvent.registered two_step
    ∷ TaskEvent.invocation_admitted root_invocation
    ∷ TaskEvent.invocation_admitted child_invocation
    ∷ TaskEvent.attempt_started root_binding
    ∷ TaskEvent.attempt_started child_binding
    ∷ []

abbrev pub child_completed : TaskEvent ℕ
child_completed = TaskEvent.attempt_observed (seen child_binding 2 (AttemptOutcome.completed []))

abbrev pub root_completed : TaskEvent ℕ
root_completed =
    TaskEvent.attempt_observed (seen root_binding 4 (AttemptOutcome.completed root_evidence))

-- The same task with a goal in place of its criterion, and the assessment of that goal.
abbrev pub tidy : GoalCriterion ℕ
tidy = record {
  id = "goal";
  invocation_id = "root";
  checker = record { kind = "checker"; revision = "r1" };
  predicate = 0;
  predicate_digest = "00";
}

abbrev pub goal_task : TaskDefinition ℕ
goal_task = record two_step { criteria = CompletionCriterion.goal tidy ∷ [] }

abbrev pub tidy_assessed : GoalAssessment ℕ
tidy_assessed = record {
  criterion_id = "goal";
  predicate_digest = "00";
  checker = record { kind = "checker"; revision = "r1" };
  attempt = root_binding;
  source = seen_at root_binding 4;
  verdict = GoalVerdict.satisfied;
  reason = "as the predicate says";
  proof = 0;
}

abbrev pub root_stopped : List (TaskEvent ℕ)
root_stopped =
    TaskEvent.registered goal_task
    ∷ TaskEvent.invocation_admitted root_invocation
    ∷ TaskEvent.attempt_started root_binding
    ∷ TaskEvent.attempt_observed (seen root_binding 4 (AttemptOutcome.completed []))
    ∷ []

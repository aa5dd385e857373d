-- ===== src/Tasks/Samples/Verifier.antt =====
-- The sample task with a goal and a physical criterion, and a verifier of its one checker.
use kolyan.Prelude.{ℕ, String, ◌==◌, ℕ-Eq, if◌then◌else◌, List, [], ◌∷◌, some, ok, inr}
use kolyan.Ledger.Journal.{Payload}
use kolyan.Tasks.Types.{
  CompletionCriterion, TaskDefinition, ExecutionEvidence, AttemptOutcome, CompletionEvidence,
  GoalVerdict, GoalAssessment, TaskEvent, TaskSnapshot, Serde,
}
use kolyan.Tasks.Goals.Registry.{
  GoalSourceCoverage, GoalSourceReader, GoalJson, GoalChecker, GoalCheckerRegistry,
  LedgerTaskGoalVerifier,
}
use kolyan.Tasks.Samples.{
  serde, hex, two_step, tidy, tidy_assessed, root_invocation, root_binding, root_evidence, seen,
  seen_at, fact_of,
}
use kolyan.Tasks.Samples.Run.{after}

abbrev pub mixed_task : TaskDefinition ℕ
mixed_task = record two_step {
  criteria =
      CompletionCriterion.goal tidy ∷ CompletionCriterion.execution_completed "done" "root" ∷ [];
}

abbrev pub mixed_stopped : List (TaskEvent ℕ)
mixed_stopped =
    TaskEvent.registered mixed_task
    ∷ TaskEvent.invocation_admitted root_invocation
    ∷ TaskEvent.attempt_started root_binding
    ∷ TaskEvent.attempt_observed (seen root_binding 3 (AttemptOutcome.completed root_evidence))
    ∷ []

abbrev pub mixed_assessed : GoalAssessment ℕ
mixed_assessed = record tidy_assessed { source = seen_at root_binding 3 }

abbrev pub mixed_pending : TaskSnapshot ℕ
mixed_pending = after mixed_stopped

abbrev pub mixed_evidence : List CompletionEvidence
mixed_evidence =
    CompletionEvidence.goal_satisfied "goal" (seen_at root_binding 3) (fact_of 5) "00"
    ∷ root_evidence

-- Only the response, the number 7, has another digest.
abbrev pub sha256 : List ℕ → String
sha256 [] = "00"
sha256 (byte ∷ bytes) = if byte == 7 then hex else "00"

abbrev pub response_serde : Serde ℕ
response_serde = record serde { sha256_hex = sha256 }

abbrev pub numbers : Payload ℕ
numbers = record { to_vec = λ v. inr []; equals = λ v w. v == w }

abbrev pub goal_json : GoalJson ℕ ℕ
goal_json = record {
  null = 9;
  exhausted_proof = λ source. 8;
  partial_proof = λ coverage source. 8;
  response_value = λ r. r;
  response_vec = λ r. inr (r ∷ []);
}

abbrev pub reader : GoalSourceReader ExecutionEvidence ℕ ℕ
reader = record {
  inspect_stopped = λ prefix attempt source limits. ok source;
  coverage = λ source. GoalSourceCoverage.complete;
  terminal = λ source. source;
  response = λ source. some 7;
}

abbrev pub tidy_checker : GoalChecker ExecutionEvidence ℕ
tidy_checker = record {
  key = tidy.checker;
  validate_predicate = λ criterion. ok tt;
  assess = λ criterion source.
      ok (record { verdict = GoalVerdict.satisfied; reason = "as the predicate says"; proof = 0 });
}

abbrev pub tidy_registry : GoalCheckerRegistry ExecutionEvidence ℕ
tidy_registry = record { entries = (tidy.checker, tidy_checker) ∷ [] }

abbrev pub verifier : LedgerTaskGoalVerifier ExecutionEvidence ℕ ℕ
verifier = record {
  serde = response_serde;
  values = numbers;
  json = goal_json;
  reader = reader;
  registry = tidy_registry;
  limits = record {
    max_rows = 64;
    max_total_bytes = 65_536;
    max_event_bytes = 4096;
    max_response_bytes = 4096;
    max_effects = 16;
  };
}

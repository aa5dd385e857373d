-- ===== src/Tasks/Coordinator/Command.antt =====
-- `command` of tasks/coordinator.rs and the operations that it serves.
use kolyan.Prelude.{
  ℕ, String, String-Eq, ℕ-Eq, Bool, true, false, not, ◌||◌, Option, none, some, and_then, List, [],
  ◌∷◌, ◌++◌, ◌==◌, last, find, contains, if◌then◌else◌, panic, ok, err, ◌>>=◌, ◌>>◌, reject_if,
  ok_or,
}
use kolyan.Ledger.{FactRef, FactRef-Eq, FactDraft, FactRecord}
use kolyan.Ledger.Journal.{FactResult}
use kolyan.Ledger.Interface.{same_records, same_subject}
use kolyan.Tasks.Types.{
  CompletionCriterion, TaskDefinition, InvocationDefinition, AttemptBinding, ExecutionEvidence,
  CompletionEvidence, AttemptObservation, ConsumedResult, ConsumedTerminalResult, GoalAssessment,
  TaskExecutionBudgetPolicy, TaskSnapshot, TaskEvent, TaskError, invalid, TaskResult, from_journal,
  checked_add,
}
use kolyan.Tasks.Validation.{identity, reference, goal_validate, assessment_digest}
use kolyan.Tasks.Goals.Verify.{goal_causes}
use kolyan.Tasks.Inputs.{decoded, source_fact, event_source}
use kolyan.Tasks.Coordinator.{TaskCoordinator, records, take_event, replay}
use kolyan.Tasks.Coordinator.Envelope.{version, event_kind, event_subject}

-- `if !causes.contains(&cause) { causes.push(cause) }`
unfoldable pub add_cause : FactRef → List FactRef → List FactRef
add_cause cause causes = if contains causes cause then causes else causes ++ cause ∷ []

unfoldable pub add_causes : List FactRef → List FactRef → List FactRef
add_causes [] causes = causes
add_causes (cause ∷ more) causes = add_causes more (add_cause cause causes)

abbrev pub add_found : Option FactRef → List FactRef → List FactRef
add_found none causes = causes
add_found (some cause) causes = add_cause cause causes

module _ {V : Type 0} where
  abbrev pub source_cause : TaskEvent V → Option FactRef
  source_cause event = elim (event_source event) [ none ↦ none | some s ↦ some (source_fact s) ]

  -- The completion or the terminal fact that a result is consumed by.
  abbrev pub result_cause : TaskEvent V → Option FactRef
  result_cause (TaskEvent.result_consumed _ result) = some result.completion_fact
  result_cause (TaskEvent.terminal_result_consumed _ result) = some result.terminal_fact
  result_cause _ = none

  abbrev pub is_budgeted : TaskEvent V → Bool
  is_budgeted (TaskEvent.budgeted_attempt_started _ _) = true
  is_budgeted _ = false

  unfoldable pub add_policy :
      Option (TaskSnapshot V) → TaskEvent V → List FactRef → TaskResult (List FactRef)
  add_policy snapshot event causes =
      let budgeted = (do
        policy ←
            ok_or (and_then snapshot (λ s. s.execution_budget))
              (invalid "budgeted start has no saved policy")
        ok (add_cause policy.policy_reference causes)) in
      if is_budgeted event then budgeted else ok causes

  abbrev pub last_cause : Option (FactRecord V) → List FactRef
  last_cause none = []
  last_cause (some r) = reference r ∷ []

  abbrev pub last_position : Option (FactRecord V) → ℕ
  last_position none = 0
  last_position (some r) = r.position

  abbrev pub draft_of : String → String → TaskEvent V → V → List FactRef → FactDraft V
  draft_of task_id fact_id event payload causes = record {
    fact_id = fact_id;
    subject = event_subject task_id event;
    kind = event_kind event;
    schema_version = version;
    critical = true;
    causes = causes;
    payload = payload;
  }

  abbrev pub candidate_of : String → ℕ → FactDraft V → FactRecord V
  candidate_of task_id position draft = record {
    stream_id = task_id;
    position = position;
    draft = draft;
  }

module _ {J V : Type 0} (c : TaskCoordinator J V) where
  unfoldable pub validate_goals : List (CompletionCriterion V) → TaskResult Unit
  validate_goals [] = ok tt
  validate_goals (CompletionCriterion.goal goal ∷ criteria) =
      let rest = validate_goals criteria in do goal_validate c.json.serde goal; rest
  validate_goals (_ ∷ criteria) = validate_goals criteria

  -- The two tests of the command's own content.
  unfoldable pub validate_content : TaskEvent V → TaskResult Unit
  validate_content (TaskEvent.goal_assessed assessment) = do
    assessment_digest c.json.serde assessment
    ok tt
  validate_content (TaskEvent.registered definition) = validate_goals definition.criteria
  validate_content _ = ok tt

  -- The fact stands already: it has to be this command's.
  unfoldable pub is_other_command : String → TaskEvent V → V → FactRecord V → Bool
  is_other_command task_id event payload existing =
      not (existing.draft.kind == event_kind event)
      || not (same_subject existing.draft.subject (event_subject task_id event))
      || not (existing.draft.schema_version == version)
      || not existing.draft.critical
      || not (c.json.values.equals existing.draft.payload payload)

  unfoldable pub causes_of :
      Option (TaskSnapshot V) → TaskEvent V → List (FactRecord V) → TaskResult (List FactRef)
  causes_of snapshot event facts = do
    goals ← goal_causes c.json.serde snapshot event
    add_policy snapshot event (
        add_causes goals (
          add_found (result_cause event)
            (add_found (source_cause event) (last_cause (last facts)))))

-- What a command is about to append at the head that it has read, and the state that it leads to.
pub record Plan (V : Type 0) : Type 0 where
  pub expected : ℕ
  pub candidate : FactRecord V
  pub next : TaskSnapshot V

-- A command stands already, with the state of its task, or it has a plan.
pub data Prepared (V : Type 0) : Type 0 where
  stands : TaskSnapshot V → Prepared V
  writes : Plan V → Prepared V

module _ {J V : Type 0} (c : TaskCoordinator J V) where
  unfoldable pub plan_command :
      J
      → (task_id fact_id : String) → TaskEvent V
      → V
      → List (FactRecord V)
      → Option (TaskSnapshot V)
      → TaskResult (Plan V)
  plan_command j task_id fact_id event payload facts snapshot = do
    causes ← causes_of c snapshot event facts
    let expected = last_position (last facts)
    position ← ok_or (checked_add expected 1) (invalid "position overflow")
    let candidate = candidate_of task_id position (draft_of task_id fact_id event payload causes)
    next ← take_event c j task_id snapshot event candidate
    ok (record { expected = expected; candidate = candidate; next = next })

  unfoldable pub retry_command :
      String
      → TaskEvent V
      → V
      → FactRecord V
      → Option (TaskSnapshot V)
      → TaskResult (TaskSnapshot V)
  retry_command task_id event payload existing snapshot = do
    reject_if (is_other_command c task_id event payload existing)
        (invalid "fact identity reused with a different command")
    ok_or snapshot (TaskError.not_found task_id)

  -- By the record that has the command's fact already, if there is one.
  unfoldable pub decide :
      J
      → (task_id fact_id : String) → TaskEvent V
      → V
      → List (FactRecord V)
      → Option (TaskSnapshot V)
      → Option (FactRecord V)
      → TaskResult (Prepared V)
  decide j task_id fact_id event payload facts snapshot none = do
    plan ← plan_command j task_id fact_id event payload facts snapshot
    ok (Prepared.writes plan)
  decide j task_id fact_id event payload facts snapshot (some existing) = do
    state ← retry_command task_id event payload existing snapshot
    ok (Prepared.stands state)

  -- `command` until the journal is written.
  unfoldable pub prepare : J → (task_id fact_id : String) → TaskEvent V → TaskResult (Prepared V)
  prepare j task_id fact_id event = do
    identity fact_id
    facts ← records c j task_id
    snapshot ← replay c j task_id facts
    validate_content c event
    payload ← decoded (c.json.event_value event)
    decide j task_id fact_id event payload facts snapshot
        (find (λ r. r.draft.fact_id == fact_id) facts)

  unfoldable pub accept : Plan V → FactResult (List (FactRecord V)) → TaskResult (TaskSnapshot V)
  accept plan appended = do
    committed ← from_journal appended
    reject_if (not (same_records c.json.values committed (plan.candidate ∷ [])))
        (invalid "journal committed a different fact")
    ok plan.next

  -- The append of `command`. Others may have written to the journal since it was read.
  unfoldable pub commit : J → String → Prepared V → TaskResult (TaskSnapshot V) × J
  commit j task_id (Prepared.stands state) = (ok state, j)
  commit j task_id (Prepared.writes plan) =
      let (appended, k) = c.journal.append j task_id plan.expected (plan.candidate.draft ∷ []) in
      (accept plan appended, k)

  unfoldable pub finish : J → String → TaskResult (Prepared V) → TaskResult (TaskSnapshot V) × J
  finish j task_id panic = (panic, j)
  finish j task_id (err e) = (err e, j)
  finish j task_id (ok prepared) = commit j task_id prepared

  -- `command`, with no other writer in between.
  unfoldable pub command :
      J → (task_id fact_id : String) → TaskEvent V → TaskResult (TaskSnapshot V) × J
  command j task_id fact_id event = finish j task_id (prepare j task_id fact_id event)

  module _ (j : J) (task_id fact_id : String) where
    abbrev Answer : Type 0
    Answer = TaskResult (TaskSnapshot V) × J

    unfoldable pub assess_goal : GoalAssessment V → Answer
    assess_goal assessment = command j task_id fact_id (TaskEvent.goal_assessed assessment)

    unfoldable pub configure_execution_budget : TaskExecutionBudgetPolicy → Answer
    configure_execution_budget policy =
        command j task_id fact_id (TaskEvent.execution_budget_configured policy)

    unfoldable pub start_budgeted_attempt : AttemptBinding → ℕ → Answer
    start_budgeted_attempt binding max_steps =
        command j task_id fact_id (TaskEvent.budgeted_attempt_started binding max_steps)

    unfoldable pub admit_invocation : InvocationDefinition → Answer
    admit_invocation definition =
        command j task_id fact_id (TaskEvent.invocation_admitted definition)

    unfoldable pub admit_dependency : (invocation_id dependency_id : String) → Answer
    admit_dependency invocation_id dependency_id =
        command j task_id fact_id (TaskEvent.dependency_admitted invocation_id dependency_id)

    unfoldable pub start_attempt : AttemptBinding → Answer
    start_attempt binding = command j task_id fact_id (TaskEvent.attempt_started binding)

    unfoldable pub observe_attempt : AttemptObservation → Answer
    observe_attempt observation = command j task_id fact_id (TaskEvent.attempt_observed observation)

    unfoldable pub resume_attempt : AttemptBinding → String → Answer
    resume_attempt binding checkpoint_id =
        command j task_id fact_id (TaskEvent.attempt_resumed binding checkpoint_id)

    unfoldable pub mark_recovery : (attempt_id why : String) → Answer
    mark_recovery attempt_id why =
        command j task_id fact_id (TaskEvent.recovery_needed attempt_id why)

    unfoldable pub authorize_retry_of : String → ExecutionEvidence → String → Answer
    authorize_retry_of attempt_id source why =
        command j task_id fact_id (TaskEvent.retry_authorized attempt_id source why)

    unfoldable pub consume_child_result : String → ConsumedResult → Answer
    consume_child_result invocation_id result =
        command j task_id fact_id (TaskEvent.result_consumed invocation_id result)

    unfoldable pub consume_terminal_result : String → ConsumedTerminalResult → Answer
    consume_terminal_result invocation_id result =
        command j task_id fact_id (TaskEvent.terminal_result_consumed invocation_id result)

    unfoldable pub complete_task : List CompletionEvidence → Answer
    complete_task evidence = command j task_id fact_id (TaskEvent.completed evidence)

    unfoldable pub fail_task : String → Answer
    fail_task why = command j task_id fact_id (TaskEvent.failed why)

    unfoldable pub cancel_task : String → Answer
    cancel_task why = command j task_id fact_id (TaskEvent.cancelled why)

  -- Asked of the host, outside any command.
  unfoldable pub compute_goal_assessment : TaskSnapshot V → String → TaskResult (GoalAssessment V)
  compute_goal_assessment prefix criterion_id = do
    host ← ok_or c.goal_verifier (invalid "goal verifier unavailable")
    host.compute_assessment prefix criterion_id

  unfoldable pub verify_goal_completion : TaskSnapshot V → List CompletionEvidence → TaskResult Unit
  verify_goal_completion prefix evidence = do
    host ← ok_or c.goal_verifier (invalid "goal verifier unavailable")
    host.verify_completion prefix evidence

  -- A task is registered in the stream of its own name.
  unfoldable pub register_task : J → String → TaskDefinition V → TaskResult (TaskSnapshot V) × J
  register_task j fact_id definition =
      command j definition.task_id fact_id (TaskEvent.registered definition)

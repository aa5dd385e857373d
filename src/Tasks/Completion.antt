-- ===== src/Tasks/Completion.antt =====
-- tasks/reducer/completion.rs: the success and the cancellation of a task.
pub mod Reached
pub mod Cancels
pub mod Evidence
use kolyan.Prelude.{
  String, Bool, true, not, ◌||◌, Option, none, some, List, [], ◌∷◌, ◌++◌, map, if◌then◌else◌, ◌==◌,
  String-Eq, ℕ-Eq, length, any, find, filter, contains, ok, ◌>>=◌, ◌>>◌, reject_if, ok_or, unwrap,
}
use kolyan.Prelude.Map
use kolyan.Prelude.Map.{Map}
use kolyan.Prelude.Set
use kolyan.Tasks.Types.{
  CancellationPolicy, CancellationPolicy-Eq, criterion_id, CompletionEvidence,
  CompletionEvidence-Eq, evidence_criterion_id, GoalVerdict, GoalVerdict-Eq, AttemptOutcome,
  AttemptObservation, GoalAssessmentRecord, InvocationState, InvocationState-Eq, AttemptSnapshot,
  InvocationSnapshot, TaskState, TaskSnapshot, invalid, transition, TaskResult,
}
use kolyan.Tasks.Validation.{reason}
use kolyan.Tasks.Admission.{is_root}

-- The evidence of a completed observation.
unfoldable pub observed_evidence : Option AttemptObservation → List CompletionEvidence
observed_evidence none = []
observed_evidence (some observation) = elim observation.outcome [
  | AttemptOutcome.completed evidence ↦ evidence
  | _ ↦ []
]

-- The loop over `state.attempts.values()`.
unfoldable pub attempts_evidence : List AttemptSnapshot → List CompletionEvidence
attempts_evidence [] = []
attempts_evidence (attempt ∷ attempts) =
    observed_evidence attempt.observation ++ attempts_evidence attempts

module _ {V : Type 0} where
  unfoldable pub is_satisfied : GoalAssessmentRecord V → Bool
  is_satisfied saved = saved.assessment.verdict == GoalVerdict.satisfied

  unfoldable pub goal_evidence : GoalAssessmentRecord V → CompletionEvidence
  goal_evidence saved =
      CompletionEvidence.goal_satisfied saved.assessment.criterion_id saved.assessment.source
        saved.reference saved.assessment_digest

  unfoldable pub available_evidence : TaskSnapshot V → List CompletionEvidence
  unfolding attempts_evidence
  available_evidence state =
      attempts_evidence (Map.values state.attempts)
      ++ map goal_evidence (filter is_satisfied state.goal_assessments)

  unfoldable pub check_complete : TaskSnapshot V → List CompletionEvidence → TaskResult Unit
  check_complete state evidence = do
    root ←
        ok_or (find is_root (Map.values state.invocations)) (transition "missing root invocation")
    reject_if
        (not (root.state == InvocationState.completed)
          || any (λ inv. not (inv.state == InvocationState.completed))
              (Map.values state.invocations))
        (transition "all admitted invocations must complete before task success")
    let ids = Set.extend [] (map evidence_criterion_id evidence)
    reject_if
        (not (length ids == length evidence)
          || not (length ids == length state.definition.criteria)
          || any (λ criterion. not (contains ids (criterion_id criterion)))
              state.definition.criteria
          || any (λ item. not (contains (available_evidence state) item)) evidence)
        (invalid "completion needs previously observed evidence for every criterion")

  abbrev pub succeeded : TaskSnapshot V → List CompletionEvidence → TaskSnapshot V
  succeeded state evidence = record state {
    success_evidence = evidence;
    state = TaskState.completed;
  }

  unfoldable pub complete : TaskSnapshot V → List CompletionEvidence → TaskResult (TaskSnapshot V)
  complete state evidence = do _ ← check_complete state evidence; ok (succeeded state evidence)

-- The inner loop of `cancel`, over the attempts of one invocation.
unfoldable pub cancel_attempts :
    List String → Map AttemptSnapshot → TaskResult (Map AttemptSnapshot)
cancel_attempts [] attempts = ok attempts
cancel_attempts (id ∷ ids) attempts =
    let rest = λ (attempts' : Map AttemptSnapshot). cancel_attempts ids attempts' in
    do
      attempt ← unwrap (Map.get id attempts)
      rest (Map.update id (record attempt { cancellation_requested = true }) attempts)

unfoldable pub cancel_selected : CancellationPolicy → InvocationSnapshot → Bool
cancel_selected policy inv = policy == CancellationPolicy.all_invocations || is_root inv

-- What `cancel` makes of an invocation that it selects.
abbrev pub cancelled_invocation : InvocationSnapshot → InvocationSnapshot
cancelled_invocation inv = record inv {
  cancellation_requested = true;
  state = if inv.state == InvocationState.admitted then InvocationState.cancelled else inv.state;
}

-- The outer loop of `cancel`, over `state.invocations.values_mut()`.
unfoldable pub cancel_invocations :
    CancellationPolicy
    → Map InvocationSnapshot
    → Map AttemptSnapshot
    → TaskResult (Map InvocationSnapshot × Map AttemptSnapshot)
cancel_invocations policy [] attempts = ok ([], attempts)
cancel_invocations policy ((id, inv) ∷ invocations) attempts =
    let rest =
      λ (attempts' : Map AttemptSnapshot). cancel_invocations policy invocations attempts' in
    let selected = cancel_selected policy inv in
    do
      attempts' ← if selected then cancel_attempts inv.attempts attempts else ok attempts
      found ← rest attempts'
      ok ((id, if selected then cancelled_invocation inv else inv) ∷ found.0, found.1)

abbrev pub cancelled_task :
    {V : Type 0} → TaskSnapshot V → Map InvocationSnapshot × Map AttemptSnapshot → TaskSnapshot V
cancelled_task state found = record state {
  invocations = found.0;
  attempts = found.1;
  state = TaskState.cancelled;
}

unfoldable pub cancel : {V : Type 0} → TaskSnapshot V → String → TaskResult (TaskSnapshot V)
cancel state why = do
  reason why
  found ← cancel_invocations state.definition.cancellation_policy state.invocations state.attempts
  ok (cancelled_task state found)

-- ===== src/Tasks/Goals/Registry/Complete.antt =====
-- tasks/goals/registry.rs: what the completion of a task is verified by, and the verifier as a whole.
use kolyan.Prelude.{
  ℕ, String, String-Eq, ℕ-Eq, Bool, true, false, not, ◌&&◌, Option, none, some, and_then, List, [],
  ◌∷◌, ◌==◌, length, last, find, contains, if◌then◌else◌, Result, panic, ok, err, ◌>>=◌, ◌>>◌,
  reject_if, ok_or,
}
use mathlib.Core.List.{reverse}
use kolyan.Prelude.Map
use kolyan.Tasks.Types.{
  GoalCheckerKey-Eq, GoalCriterion, CompletionCriterion, ExecutionEvidence-Eq, CompletionEvidence,
  CompletionEvidence-Eq, evidence_source, GoalVerdict, GoalVerdict-Eq, AttemptOutcome,
  GoalAssessmentRecord, InvocationState, InvocationState-Eq, InvocationSnapshot, TaskSnapshot,
  GoalSourceError, TaskError, invalid, TaskResult,
}
use kolyan.Tasks.Validation.{goal_value_digest, assessment_digest, to_vec}
use kolyan.Tasks.Goals.Verify.{TaskGoalVerifier}
use kolyan.Tasks.Goals.Registry.{GoalSourceCoverage, GoalSourceCoverage-Eq, LedgerTaskGoalVerifier}
use kolyan.Tasks.Goals.Registry.Assess.{validate_criterion, compute_assessment, verify_assessment}

abbrev pub completed_proofs : AttemptOutcome → Option (List CompletionEvidence)
completed_proofs (AttemptOutcome.completed proofs) = some proofs
completed_proofs _ = none

-- `map_err(TaskError::GoalSource)`
abbrev pub from_source : {S : Type 0} → Result GoalSourceError S → TaskResult S
from_source panic = panic
from_source (err error) = err (TaskError.goal_source error)
from_source (ok source) = ok source

module _ {V : Type 0} where
  abbrev pub required_evidence : GoalCriterion V → GoalAssessmentRecord V → CompletionEvidence
  required_evidence goal saved =
      CompletionEvidence.goal_satisfied goal.id saved.assessment.source saved.reference
        saved.assessment_digest

  abbrev pub latest_assessment :
      String → List (GoalAssessmentRecord V) → Option (GoalAssessmentRecord V)
  latest_assessment id records = find (λ r. r.assessment.criterion_id == id) (reverse records)

module _ {S R V : Type 0} (v : LedgerTaskGoalVerifier S R V) where
  -- One proof of an attempt's completion, against the response of its source.
  unfoldable pub proof_fits : R → (byte_len : ℕ) → CompletionEvidence → TaskResult Bool
  proof_fits response byte_len (CompletionEvidence.execution_result _ _ result_digest) = do
    bytes ← to_vec (v.json.response_vec response)
    ok (result_digest == v.serde.sha256_hex bytes)
  proof_fits response byte_len (CompletionEvidence.verified_artifact _ _ sha256 len) = do
    computed ←
        goal_value_digest v.serde (v.json.response_value response) v.limits.max_response_bytes
    ok (sha256 == computed && len == byte_len)
  proof_fits response byte_len _ = ok false

  unfoldable pub check_proofs : S → R → ℕ → List CompletionEvidence → TaskResult Unit
  check_proofs source response byte_len [] = ok tt
  check_proofs source response byte_len (proof ∷ proofs) =
      let rest = check_proofs source response byte_len proofs in
      do
        reject_if (not (evidence_source proof == v.reader.terminal source))
            (invalid "physical completion source differs")
        fits ← proof_fits response byte_len proof
        reject_if (not fits) (invalid "physical completion result differs")
        rest

  unfoldable pub verify_source_proofs : S → List CompletionEvidence → TaskResult Unit
  verify_source_proofs source proofs = do
    reject_if (not (v.reader.coverage source == GoalSourceCoverage.complete))
        (invalid "cannot complete with incomplete/uncertain physical proof")
    response ← ok_or (v.reader.response source) (invalid "missing successful actual response")
    bytes ← to_vec (v.json.response_vec response)
    check_proofs source response (length bytes) proofs

  -- One round of the loop over the invocations.
  unfoldable pub verify_physical : TaskSnapshot V → InvocationSnapshot → TaskResult Unit
  verify_physical prefix invocation = do
    reject_if (not (invocation.state == InvocationState.completed))
        (invalid "unfinished physical invocation")
    attempt ←
        ok_or (and_then (last invocation.attempts) (λ id. Map.get id prefix.attempts))
          (invalid "missing latest physical attempt")
    observation ← ok_or attempt.observation (invalid "missing stopped observation")
    proofs ←
        ok_or (completed_proofs observation.outcome)
          (invalid "physical observation is not successful")
    source ←
        from_source (v.reader.inspect_stopped prefix attempt.binding observation.source v.limits)
    verify_source_proofs source proofs

  unfoldable pub verify_invocations : TaskSnapshot V → List InvocationSnapshot → TaskResult Unit
  verify_invocations prefix [] = ok tt
  verify_invocations prefix (invocation ∷ invocations) =
      let rest = verify_invocations prefix invocations in do verify_physical prefix invocation; rest

  -- One round of the loop over the criteria, at a goal.
  unfoldable pub verify_saved :
      TaskSnapshot V → List CompletionEvidence → GoalCriterion V → TaskResult Unit
  verify_saved prefix evidence goal = do
    saved ←
        ok_or (latest_assessment goal.id prefix.goal_assessments)
          (invalid "missing goal assessment")
    verify_assessment v prefix saved.assessment
    let digested = (do
      digest ← assessment_digest v.serde saved.assessment
      ok (not (saved.assessment_digest == digest)))
    differs ← if not (saved.assessment.verdict == GoalVerdict.satisfied) then ok true else digested
    reject_if differs (invalid "latest goal assessment is not verified Satisfied")
    reject_if (not (contains evidence (required_evidence goal saved)))
        (invalid "missing exact GoalSatisfied reference")

  unfoldable pub verify_criteria :
      TaskSnapshot V → List CompletionEvidence → List (CompletionCriterion V) → TaskResult Unit
  verify_criteria prefix evidence [] = ok tt
  verify_criteria prefix evidence (CompletionCriterion.goal goal ∷ criteria) =
      let rest = verify_criteria prefix evidence criteria in
      do verify_saved prefix evidence goal; rest
  verify_criteria prefix evidence (_ ∷ criteria) = verify_criteria prefix evidence criteria

  unfoldable pub verify_completion : TaskSnapshot V → List CompletionEvidence → TaskResult Unit
  verify_completion prefix evidence = do
    verify_invocations prefix (Map.values prefix.invocations)
    verify_criteria prefix evidence prefix.definition.criteria

  -- `impl TaskGoalVerifier for LedgerTaskGoalVerifier`
  abbrev pub ledger_verifier : TaskGoalVerifier V
  ledger_verifier = record {
    validate_criterion = validate_criterion v;
    compute_assessment = compute_assessment v;
    verify_assessment = verify_assessment v;
    verify_completion = verify_completion;
  }

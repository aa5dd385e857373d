-- ===== src/Tasks/Goals/Registry/Assess.antt =====
-- tasks/goals/registry.rs: assessments are computed, and recomputed to be verified.
use kolyan.Prelude.{
  String, String-Eq, ℕ-Eq, Bool, not, ◌&&◌, and_then, ◌==◌, last, if◌then◌else◌, Result, panic, ok,
  err, ◌>>=◌, ◌>>◌, reject_if, ok_or,
}
use kolyan.Prelude.Map
use kolyan.Tasks.Types.{
  GoalCheckerKey-Eq, GoalCriterion, ExecutionEvidence, ExecutionEvidence-Eq, CompletionEvidence-Eq,
  GoalVerdict, GoalVerdict-Eq, AttemptObservation, GoalAssessment, ComputedGoalDecision, decision,
  InvocationState-Eq, AttemptSnapshot, TaskSnapshot, GoalSourceError, TaskError, invalid,
  TaskResult,
}
use kolyan.Tasks.Validation.{goal_validate, assessment_digest, decision_validate}
use kolyan.Tasks.Goals.{find_goal, assessment_owner}
use kolyan.Tasks.Goals.Registry.{
  GoalSourceCoverage, GoalSourceCoverage-Eq, get_checker, LedgerTaskGoalVerifier,
}

module _ {S R V : Type 0} (v : LedgerTaskGoalVerifier S R V) where
  -- `==` of two decisions, derived.
  unfoldable pub same_decision : ComputedGoalDecision V → ComputedGoalDecision V → Bool
  same_decision d e =
      d.verdict == e.verdict && d.reason == e.reason && v.values.equals d.proof e.proof

  unfoldable pub validate_criterion : GoalCriterion V → TaskResult Unit
  validate_criterion criterion = do
    goal_validate v.serde criterion
    checker ← get_checker v.registry criterion.checker
    checker.validate_predicate criterion

  abbrev pub partial_decision : S → ComputedGoalDecision V
  partial_decision source = record {
    verdict = GoalVerdict.indeterminate;
    reason = "authoritative source coverage is incomplete or uncertain";
    proof = v.json.partial_proof (v.reader.coverage source) (v.reader.terminal source);
  }

  abbrev pub exhausted_decision : ExecutionEvidence → ComputedGoalDecision V
  exhausted_decision source = record {
    verdict = GoalVerdict.indeterminate;
    reason = "source budget exhausted before physical identity validation";
    proof = v.json.exhausted_proof source;
  }

  unfoldable pub decide_source : GoalCriterion V → S → TaskResult (ComputedGoalDecision V)
  decide_source criterion source =
      let checked = (do
        checker ← get_checker v.registry criterion.checker
        checker.assess criterion source) in
      if v.reader.coverage source == GoalSourceCoverage.complete
      then checked
      else ok (partial_decision source)

  -- What the reader answers: a source, exhausted bounds, or an error.
  unfoldable pub decide_inspected :
      GoalCriterion V
      → ExecutionEvidence
      → Result GoalSourceError S
      → TaskResult (ComputedGoalDecision V)
  decide_inspected criterion evidence panic = panic
  decide_inspected criterion evidence (err GoalSourceError.bounds_exhausted) =
      ok (exhausted_decision evidence)
  decide_inspected criterion evidence (err error) = err (TaskError.goal_source error)
  decide_inspected criterion evidence (ok source) = do
    computed ← decide_source criterion source
    decision_validate v.serde computed
    ok computed

  unfoldable pub computed_decision :
      TaskSnapshot V → GoalAssessment V → TaskResult (ComputedGoalDecision V)
  computed_decision prefix assessment = do
    owner ← assessment_owner v.serde prefix assessment
    validate_criterion owner.0
    decide_inspected owner.0 assessment.source
        (v.reader.inspect_stopped prefix assessment.attempt assessment.source v.limits)

  abbrev pub draft_assessment :
      GoalCriterion V → AttemptSnapshot → AttemptObservation → GoalAssessment V
  draft_assessment criterion attempt observation = record {
    criterion_id = criterion.id;
    predicate_digest = criterion.predicate_digest;
    checker = criterion.checker;
    attempt = attempt.binding;
    source = observation.source;
    verdict = GoalVerdict.indeterminate;
    reason = "";
    proof = v.json.null;
  }

  abbrev pub with_decision : GoalAssessment V → ComputedGoalDecision V → GoalAssessment V
  with_decision assessment computed = record assessment {
    verdict = computed.verdict;
    reason = computed.reason;
    proof = computed.proof;
  }

  unfoldable pub compute_assessment : TaskSnapshot V → String → TaskResult (GoalAssessment V)
  compute_assessment prefix criterion_id = do
    criterion ←
        ok_or (find_goal criterion_id prefix.definition.criteria) (invalid "unknown goal criterion")
    invocation ←
        ok_or (Map.get criterion.invocation_id prefix.invocations)
          (invalid "goal root not admitted")
    attempt ←
        ok_or (and_then (last invocation.attempts) (λ id. Map.get id prefix.attempts))
          (invalid "goal has no latest attempt")
    observation ← ok_or attempt.observation (invalid "goal attempt not observed")
    let assessment = draft_assessment criterion attempt observation
    computed ← computed_decision prefix assessment
    ok (with_decision assessment computed)

  unfoldable pub verify_assessment : TaskSnapshot V → GoalAssessment V → TaskResult Unit
  verify_assessment prefix assessment = do
    assessment_digest v.serde assessment
    computed ← computed_decision prefix assessment
    reject_if (not (same_decision computed (decision assessment)))
        (invalid "submitted goal decision differs from deterministic recomputation")

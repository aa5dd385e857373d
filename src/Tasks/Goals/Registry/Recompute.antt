-- ===== src/Tasks/Goals/Registry/Recompute.antt =====
-- Assessments that tasks/goals/registry.rs computes, and their verification.
use kolyan.Prelude.{
  ◌≡◌, refl, ap, ◌∙◌, String, String-Eq, true, some, Result, panic, err, ◌>>◌, >>=-same, and_then,
  last, ==_refl, contains, ok, ok_or, >>=-eq-ok, >>=-ok-eq-ok, arith,
}
use kolyan.Prelude.Map
use kolyan.Ledger.{FactRef, FactRef-Eq, FactRecord}
use kolyan.Tasks.Types.{
  AttemptBinding, ExecutionEvidence, GoalSourceError, GoalCriterion, GoalAssessment,
  ComputedGoalDecision, decision, GoalVerdict-Eq, TaskSnapshot, TaskEvent, invalid,
}
use kolyan.Tasks.Validation.{assessment_digest}
use kolyan.Tasks.Goals.{find_goal, assessment_owner}
use kolyan.Tasks.Goals.Verify.{
  goal_causes, verify_causes, ask_host, verify_task, verify_next, verify_event,
}
use kolyan.Tasks.Goals.Registry.{LedgerTaskGoalVerifier, GoalSourceLimits}
use kolyan.Tasks.Goals.Registry.Assess.{
  same_decision, decide_source, decide_inspected, validate_criterion, computed_decision,
  draft_assessment, with_decision, compute_assessment, verify_assessment,
}
use kolyan.Tasks.Goals.Registry.Complete.{ledger_verifier}

module _ {S R V : Type 0} (v : LedgerTaskGoalVerifier S R V) (prefix : TaskSnapshot V) where
  -- A decision depends on nothing of the assessment that it fills in.
  computed_decision-with_decision :
      (assessment : GoalAssessment V) (computed : ComputedGoalDecision V)
      → computed_decision v prefix (with_decision v assessment computed)
        ≡ computed_decision v prefix assessment
  unfolding computed_decision assessment_owner
  computed_decision-with_decision assessment computed = refl

  computed_decision-eq-ok :
      (assessment : GoalAssessment V) (computed : ComputedGoalDecision V)
      → computed_decision v prefix assessment ≡ ok computed
      → (owner : GoalCriterion V × FactRef) × (assessment_owner v.serde prefix assessment
          ≡ ok owner)
  unfolding computed_decision
  computed_decision-eq-ok assessment computed h =
      let (owner, owned, _) = >>=-eq-ok (assessment_owner v.serde prefix assessment) _ h in
      (owner, owned)

  compute_assessment-eq-ok :
      (criterion_id : String) (a : GoalAssessment V)
      → compute_assessment v prefix criterion_id ≡ ok a
      → (before : GoalAssessment V) × (computed : ComputedGoalDecision V) × (computed_decision v
            prefix before
          ≡ ok computed)
        × (a ≡ with_decision v before computed)
  unfolding compute_assessment
  compute_assessment-eq-ok criterion_id a h =
      let (criterion, _, then1) =
        >>=-eq-ok
          (ok_or (find_goal criterion_id prefix.definition.criteria)
            (invalid "unknown goal criterion"))
          _ h in
      let (invocation, _, then2) =
        >>=-eq-ok
          (ok_or (Map.get criterion.invocation_id prefix.invocations)
            (invalid "goal root not admitted"))
          _ then1 in
      let (attempt, _, then3) =
        >>=-eq-ok
          (ok_or (and_then (last invocation.attempts) (λ id. Map.get id prefix.attempts))
            (invalid "goal has no latest attempt"))
          _ then2 in
      let (observation, _, then4) =
        >>=-eq-ok (ok_or attempt.observation (invalid "goal attempt not observed")) _ then3 in
      let before = draft_assessment v criterion attempt observation in
      let (computed, made, e) =
        >>=-ok-eq-ok (computed_decision v prefix before) (with_decision v before) then4 in
      (before, computed, made, e)

  -- The same verifier over a ledger that has changed: only what the reader inspects differs.
  module _
      (inspect : TaskSnapshot V
        → AttemptBinding
        → ExecutionEvidence
        → GoalSourceLimits
        → Result GoalSourceError S) where
    abbrev pub reread : LedgerTaskGoalVerifier S R V
    reread =
        let reader = v.reader in record v { reader = record reader { inspect_stopped = inspect } }

    decide_inspected-reread :
        (criterion : GoalCriterion V) (evidence : ExecutionEvidence)
        (answer : Result GoalSourceError S)
        → decide_inspected reread criterion evidence answer
          ≡ decide_inspected v criterion evidence answer
    unfolding decide_inspected decide_source
    decide_inspected-reread criterion evidence panic = refl
    decide_inspected-reread criterion evidence (err (GoalSourceError.invalid m)) = refl
    decide_inspected-reread criterion evidence (err GoalSourceError.bounds_exhausted) = refl
    decide_inspected-reread criterion evidence (err (GoalSourceError.storage e)) = refl
    decide_inspected-reread criterion evidence (ok source) = refl

    computed_decision-reread :
        (a : GoalAssessment V)
        → inspect prefix a.attempt a.source v.limits
          ≡ v.reader.inspect_stopped prefix a.attempt a.source v.limits
        → computed_decision reread prefix a ≡ computed_decision v prefix a
    unfolding computed_decision validate_criterion
    computed_decision-reread a agrees = >>=-same (assessment_owner v.serde prefix a) _ _ (λ owner.
        ap (λ w. validate_criterion v owner.0 >> w)
          (decide_inspected-reread owner.0 a.source (inspect prefix a.attempt a.source v.limits)
            ∙ ap (decide_inspected v owner.0 a.source) agrees))

    module _ (equals_refl : (x : V) → v.values.equals x x ≡ true) (criterion_id digest : String)
        (a : GoalAssessment V) (fact : FactRecord V)
        (computed : compute_assessment v prefix criterion_id ≡ ok a)
        (digested : assessment_digest v.serde a ≡ ok digest)
        (agrees : inspect prefix a.attempt a.source v.limits
          ≡ v.reader.inspect_stopped prefix a.attempt a.source v.limits)
        (named : (goal : GoalCriterion V) (stopped : FactRef)
          → assessment_owner v.serde prefix a ≡ ok (goal, stopped)
          → contains fact.draft.causes stopped ≡ true) where
      same_decision_refl : (d : ComputedGoalDecision V) → same_decision reread d d ≡ true
      unfolding same_decision
      same_decision_refl d =
          ground (arith, ==_refl d.verdict, ==_refl d.reason, equals_refl d.proof)

      decides_again :
          (d : ComputedGoalDecision V) × (computed_decision v prefix a ≡ ok d)
          × (same_decision reread d (decision a) ≡ true)
      decides_again =
          let (before, d, made, e) = compute_assessment-eq-ok criterion_id a computed in
          (
            d,
            ap (computed_decision v prefix) e ∙ computed_decision-with_decision before d ∙ made,
            ap (λ w. same_decision reread d (decision w)) e ∙ same_decision_refl d,
          )

      verifies_again : verify_assessment reread prefix a ≡ ok tt
      unfolding verify_assessment
      verifies_again =
          let (d, again, same) = decides_again in
          rw (digested, computed_decision-reread a agrees, again, same)

      checked :
          verify_task v.serde
            (some (ledger_verifier reread))
            prefix
            (TaskEvent.goal_assessed a)
            fact
          ≡ ok tt
      unfolding verify_task verify_causes ask_host goal_causes
      checked =
          let (d, again, _) = decides_again in
          let (owner, owned) = computed_decision-eq-ok a d again in
          rw (owned, named owner.0 owner.1 owned, verifies_again)

      -- An assessment that the verifier computed for a state passes `verify_event` on that state, where
      -- a value equals itself, if the assessment has a digest, its record names the completion of the
      -- goal's root among its causes, and the reader, which may read a ledger that has changed since,
      -- still answers the same for the stopped source of the assessment.
      pub computed_passes :
          verify_event v.serde
            (some (ledger_verifier reread))
            (some prefix)
            (TaskEvent.goal_assessed a)
            fact
          ≡ ok tt
      unfolding verify_event verify_next
      computed_passes = ground (arith, checked)

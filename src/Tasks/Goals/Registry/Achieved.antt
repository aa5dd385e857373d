-- ===== src/Tasks/Goals/Registry/Achieved.antt =====
-- Completions that the verifier of tasks/goals/registry.rs accepts.
use kolyan.Prelude.{
  ◌≡◌, ◌≢◌, ◌++◌, sym, subst, String, String-Eq, Bool, true, false, if◌then◌else◌, not, some, List,
  [], ◌∷◌, ◌==◌, contains, ok, inl, inr, reject_if, reject_if-eq-ok, ok_or, ok_or-eq-ok, ◌>>=◌,
  >>=-eq-ok, >>=-ok-eq-ok, >>-eq-ok, refl, ap, ◌∙◌, arith,
}
use mathlib.Core.List.{Memᴰ}
use mathlib.Core.List.Memᴰ
use kolyan.Prelude.Latest.{find-reverse}
use kolyan.Prelude.Map.{Map}
use kolyan.Prelude.Map
use kolyan.Tasks.Types.{
  GoalCriterion, CompletionCriterion, CompletionEvidence, CompletionEvidence-Eq,
  CompletionEvidence-discrete, ExecutionEvidence-Eq, GoalVerdict, GoalVerdict-Eq,
  GoalAssessmentRecord, InvocationState-Eq, InvocationSnapshot, TaskSnapshot, invalid, TaskResult,
}
use kolyan.Tasks.Validation.{assessment_digest}
use kolyan.Tasks.Goals.Registry.{GoalSourceCoverage-Eq, LedgerTaskGoalVerifier}
use kolyan.Tasks.Goals.Registry.Assess.{verify_assessment}
use kolyan.Tasks.Goals.Registry.Complete.{
  verify_invocations, required_evidence, latest_assessment, verify_saved, verify_criteria,
  verify_completion,
}
use kolyan.Tasks.Goals.Registry.Confirmed.{Confirmed, verify_invocations-Confirmed}

contains-Memᴰ :
    (items : List CompletionEvidence) (item : CompletionEvidence)
    → contains items item ≡ true
    → Memᴰ item items
unfolding contains
contains-Memᴰ [] item h = cc
contains-Memᴰ (first ∷ items) item h = elim (CompletionEvidence-discrete first item) [
  | yes e ↦ Memᴰ.head (sym e)
  | no d ↦ Memᴰ.tail (contains-Memᴰ items item (ground arith))
]

module _ {V : Type 0} where
  -- The first that `find` meets in the reverse is the last in the list.
  latest_assessment_lem :
      (id : String) (records : List (GoalAssessmentRecord V)) (saved : GoalAssessmentRecord V)
      → latest_assessment id records ≡ some saved
      → (before : List (GoalAssessmentRecord V)) × (later : List (GoalAssessmentRecord V))
        × (records ≡ before ++ saved ∷ later)
        × (saved.assessment.criterion_id ≡ id)
        × ((other : GoalAssessmentRecord V) → Memᴰ other later → other.assessment.criterion_id ≢ id)
  latest_assessment_lem id records saved h =
      let (before, later, e, own, others) =
        find-reverse (λ (r : GoalAssessmentRecord V). r.assessment.criterion_id == id) records saved
          h in
      (before, later, e, (ground arith), λ other m same. ground (arith, others other m))

module _ {S R V : Type 0} (v : LedgerTaskGoalVerifier S R V) (prefix : TaskSnapshot V) where
  -- A goal whose latest assessment is satisfied, recomputed and referred to.
  unfoldable pub Achieved : List CompletionEvidence → GoalCriterion V → Type 0
  Achieved evidence goal =
      (before : List (GoalAssessmentRecord V)) × (saved : GoalAssessmentRecord V) × (later : List
        (GoalAssessmentRecord V))
      × (prefix.goal_assessments ≡ before ++ saved ∷ later)
      × (saved.assessment.criterion_id ≡ goal.id)
      × ((other : GoalAssessmentRecord V)
          → Memᴰ other later
          → other.assessment.criterion_id ≢ goal.id)
      × (saved.assessment.verdict ≡ GoalVerdict.satisfied)
      × (verify_assessment v prefix saved.assessment ≡ ok tt)
      × (assessment_digest v.serde saved.assessment ≡ ok saved.assessment_digest)
      × Memᴰ
          (CompletionEvidence.goal_satisfied goal.id saved.assessment.source saved.reference
            saved.assessment_digest)
          evidence

  agreed_digest :
      (satisfied : Bool) (digested : TaskResult String) (saved : String)
      → (if not satisfied then ok true else (digested >>= λ digest. ok (not (saved == digest))))
        ≡ ok false
      → (satisfied ≡ true) × (digested ≡ ok saved)
  agreed_digest false digested saved h = cc
  agreed_digest true digested saved h =
      let (digest, made, same) = >>=-ok-eq-ok digested (λ digest. not (saved == digest)) h in
      (refl, made ∙ ground arith)

  verify_saved-Achieved :
      (evidence : List CompletionEvidence) (goal : GoalCriterion V)
      → verify_saved v prefix evidence goal ≡ ok tt
      → Achieved evidence goal
  unfolding Achieved verify_saved
  verify_saved-Achieved evidence goal h =
      let (saved, latest, then1) =
        >>=-eq-ok
          (ok_or (latest_assessment goal.id prefix.goal_assessments)
            (invalid "missing goal assessment"))
          _ h in
      let (verified, then2) = >>-eq-ok (verify_assessment v prefix saved.assessment) _ then1 in
      let digested : TaskResult Bool = assessment_digest v.serde saved.assessment >>= λ digest.
      ok (not (saved.assessment_digest == digest)) in
      let (differs, same, then3) =
        >>=-eq-ok
          (if not (saved.assessment.verdict == GoalVerdict.satisfied) then ok true else digested) _
          then2 in
      let (agrees, then4) =
        >>-eq-ok (reject_if differs (invalid "latest goal assessment is not verified Satisfied")) _
          then3 in
      let (satisfied, digest) =
        agreed_digest (saved.assessment.verdict == GoalVerdict.satisfied)
          (assessment_digest v.serde saved.assessment) saved.assessment_digest
          (same ∙ ap ok (reject_if-eq-ok _ _ agrees)) in
      let referred = reject_if-eq-ok _ _ then4 in
      let (before, later, split, own, others) =
        latest_assessment_lem goal.id prefix.goal_assessments saved (ok_or-eq-ok _ _ latest) in
      (
        before,
        saved,
        later,
        split,
        own,
        others,
        (ground arith),
        verified,
        digest,
        contains-Memᴰ evidence (required_evidence goal saved) (ground arith),
      )

  verify_criteria-Achieved :
      (evidence : List CompletionEvidence) (criteria : List (CompletionCriterion V))
      (goal : GoalCriterion V)
      → verify_criteria v prefix evidence criteria ≡ ok tt
      → Memᴰ (CompletionCriterion.goal goal) criteria
      → Achieved evidence goal
  unfolding verify_criteria
  verify_criteria-Achieved evidence [] goal h m = absurd (Memᴰ.not-nil m)
  verify_criteria-Achieved evidence (CompletionCriterion.goal first ∷ criteria) goal h m =
      let (passed, then1) = >>-eq-ok (verify_saved v prefix evidence first) _ h in
      elim (Memᴰ.cases_cons m) [
        | inl same ↦
            let e : first ≡ goal = cc in
            subst (Achieved evidence) e (verify_saved-Achieved evidence first passed)
        | inr below ↦ verify_criteria-Achieved evidence criteria goal then1 below
      ]
  verify_criteria-Achieved evidence (CompletionCriterion.execution_completed i j ∷ criteria) goal h
        m =
      elim (Memᴰ.cases_cons m) [
        | inl same ↦ cc
        | inr below ↦ verify_criteria-Achieved evidence criteria goal h below
      ]
  verify_criteria-Achieved evidence (CompletionCriterion.artifact_digest i j k ∷ criteria) goal h
        m =
      elim (Memᴰ.cases_cons m) [
        | inl same ↦ cc
        | inr below ↦ verify_criteria-Achieved evidence criteria goal h below
      ]

  -- If `verify_completion` of the ledger's verifier accepts a completion of a state, then every
  -- invocation of the state completed with an observation of its latest attempt whose source,
  -- inspected again, is complete and has a response, and each proof of the observation names that
  -- source and has the digest of the response's bytes, or the digest of its value and their number.
  pub verify_completion-Confirmed :
      (evidence : List CompletionEvidence) (id : String) (invocation : InvocationSnapshot)
      → verify_completion v prefix evidence ≡ ok tt
      → Map.get id prefix.invocations ≡ some invocation
      → Confirmed v prefix invocation
  unfolding verify_completion
  verify_completion-Confirmed evidence id invocation h found =
      let (first, _) = >>-eq-ok (verify_invocations v prefix (Map.values prefix.invocations)) _ h in
      verify_invocations-Confirmed v prefix prefix.invocations id invocation first found

  -- If `verify_completion` of the ledger's verifier accepts a completion of a state, then every goal
  -- among the criteria has an assessment, with no later one of the same goal, that is satisfied,
  -- passes recomputation, has the digest that it was saved with, and is referred to by the evidence.
  pub verify_completion-Achieved :
      (evidence : List CompletionEvidence) (goal : GoalCriterion V)
      → verify_completion v prefix evidence ≡ ok tt
      → Memᴰ (CompletionCriterion.goal goal) prefix.definition.criteria
      → Achieved evidence goal
  unfolding verify_completion
  verify_completion-Achieved evidence goal h m =
      let (_, then1) = >>-eq-ok (verify_invocations v prefix (Map.values prefix.invocations)) _ h in
      verify_criteria-Achieved evidence prefix.definition.criteria goal then1 m

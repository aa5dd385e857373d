-- ===== src/Tasks/Goals/Registry.antt =====
-- tasks/goals/registry.rs: the registry of checkers and the verifier of goals over the ledger. The
-- reader of a stopped execution (task_driver/goal_source.rs) is taken by what it answers.
pub mod Assess
pub mod Complete
pub mod Recompute
pub mod Keys
pub mod Confirmed
pub mod Achieved
use kolyan.Prelude.{
  ℕ, String, String-Eq, ℕ-Eq, Bool, true, false, not, ◌&&◌, ◌||◌, Option, none, some, and_then,
  List, [], ◌∷◌, Eq, ◌==◌, ltb, leb, length, is_empty, last, find, contains, if◌then◌else◌, Result,
  panic, ok, err, ◌⊎◌, inl, inr, ◌>>=◌, ◌>>◌, reject_if, ok_or,
}
use mathlib.Core.List.{reverse}
use kolyan.Prelude.Map
use kolyan.Ledger.Journal.{Payload}
use kolyan.Tasks.Types.{
  GoalCheckerKey, GoalCheckerKey-Eq, GoalCriterion, CompletionCriterion, AttemptBinding,
  ExecutionEvidence, ExecutionEvidence-Eq, CompletionEvidence, CompletionEvidence-Eq,
  evidence_source, GoalVerdict, GoalVerdict-Eq, AttemptOutcome, AttemptObservation, GoalAssessment,
  GoalAssessmentRecord, ComputedGoalDecision, decision, InvocationState, InvocationState-Eq,
  AttemptSnapshot, InvocationSnapshot, TaskSnapshot, GoalSourceError, TaskError, invalid,
  TaskResult, Serde,
}
use kolyan.Tasks.Validation.{
  checker_validate, goal_validate, goal_value_digest, assessment_digest, decision_validate, to_vec,
}
use kolyan.Tasks.Goals.{find_goal, assessment_owner}
use kolyan.Tasks.Goals.Verify.{TaskGoalVerifier}

pub data GoalSourceCoverage : Type 0 where
  complete exhausted uncertain : GoalSourceCoverage

unfoldable pub GoalSourceCoverage-discrete : Discrete GoalSourceCoverage
GoalSourceCoverage-discrete = hlevel

instance abbrev pub GoalSourceCoverage-Eq : Eq GoalSourceCoverage
GoalSourceCoverage-Eq = record { discrete = GoalSourceCoverage-discrete }

pub record GoalSourceLimits : Type 0 where
  pub max_rows : ℕ
  pub max_total_bytes : ℕ
  pub max_event_bytes : ℕ
  pub max_response_bytes : ℕ
  pub max_effects : ℕ

abbrev within : (high n : ℕ) → Bool
within high n = leb 1 n && leb n high

-- `GoalSourceLimits::validate`, with the text of its error as `LedgerTaskGoalVerifier::new` wraps it.
unfoldable pub limits_validate : GoalSourceLimits → TaskResult Unit
limits_validate limits =
    reject_if
      (not (within 4096 limits.max_rows)
        || not (within 33_554_432 limits.max_total_bytes)
        || not (within 16_777_216 limits.max_event_bytes)
        || not (within 16_777_216 limits.max_response_bytes)
        || not (within 128 limits.max_effects))
      (invalid "invalid goal source: invalid source hard ceilings")

-- `GoalSourceReader` and the `VerifiedGoalSource` that it gives, with the `ModelResponse` of that.
pub record GoalSourceReader (S R V : Type 0) : Type 0 where
  pub inspect_stopped :
      TaskSnapshot V
      → AttemptBinding
      → ExecutionEvidence
      → GoalSourceLimits
      → Result GoalSourceError S
  pub coverage : S → GoalSourceCoverage
  pub terminal : S → ExecutionEvidence
  pub response : S → Option R

-- What the file takes of serde_json: the values that `json!` makes, and a response's bytes.
pub record GoalJson (R V : Type 0) : Type 0 where
  pub null : V
  pub exhausted_proof : ExecutionEvidence → V
  pub partial_proof : GoalSourceCoverage → ExecutionEvidence → V
  pub response_value : R → V
  pub response_vec : R → String ⊎ List ℕ

-- `trait GoalChecker`, of the host
pub record GoalChecker (S V : Type 0) : Type 0 where
  pub key : GoalCheckerKey
  pub validate_predicate : GoalCriterion V → TaskResult Unit
  pub assess : GoalCriterion V → S → TaskResult (ComputedGoalDecision V)

-- A `BTreeMap<GoalCheckerKey, _>`, of which only look-ups are seen.
pub record GoalCheckerRegistry (S V : Type 0) : Type 0 where
  pub entries : List (GoalCheckerKey × GoalChecker S V)

module _ {S V : Type 0} where
  unfoldable pub find_checker :
      GoalCheckerKey → List (GoalCheckerKey × GoalChecker S V) → Option (GoalChecker S V)
  find_checker key [] = none
  find_checker key ((k, checker) ∷ entries) =
      if k == key then some checker else find_checker key entries

  abbrev pub is_found : Option (GoalChecker S V) → Bool
  is_found none = false
  is_found (some _) = true

  unfoldable pub add_checkers :
      List (GoalCheckerKey × GoalChecker S V)
      → List (GoalChecker S V)
      → TaskResult (List (GoalCheckerKey × GoalChecker S V))
  add_checkers entries [] = ok entries
  add_checkers entries (checker ∷ checkers) =
      let rest = add_checkers ((checker.key, checker) ∷ entries) checkers in
      do
        checker_validate checker.key
        reject_if (is_found (find_checker checker.key entries)) (invalid "duplicate checker key")
        rest

  -- `GoalCheckerRegistry::new`
  unfoldable pub new_registry : List (GoalChecker S V) → TaskResult (GoalCheckerRegistry S V)
  new_registry checkers = do
    reject_if (is_empty checkers || ltb 128 (length checkers))
        (invalid "checker count must be 1..128")
    entries ← add_checkers [] checkers
    ok (record { entries = entries })

  -- `GoalCheckerRegistry::get`
  unfoldable pub get_checker :
      GoalCheckerRegistry S V → GoalCheckerKey → TaskResult (GoalChecker S V)
  get_checker registry key = do
    checker ←
        ok_or (find_checker key registry.entries) (invalid "unknown goal checker kind/revision")
    reject_if (not (checker.key == key)) (invalid "registered checker key changed")
    ok checker

pub record LedgerTaskGoalVerifier (S R V : Type 0) : Type 0 where
  pub serde : Serde V
  pub values : Payload V
  pub json : GoalJson R V
  pub reader : GoalSourceReader S R V
  pub registry : GoalCheckerRegistry S V
  pub limits : GoalSourceLimits

-- `LedgerTaskGoalVerifier::new`: the limits are checked first.
unfoldable pub new_verifier :
    {S R V : Type 0} → LedgerTaskGoalVerifier S R V → TaskResult (LedgerTaskGoalVerifier S R V)
new_verifier v = do limits_validate v.limits; ok v

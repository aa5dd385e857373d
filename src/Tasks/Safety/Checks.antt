-- ===== src/Tasks/Safety/Checks.antt =====
-- The checks that read a task, an evidence or a goal alone return a value or an error.
use kolyan.Prelude.{ℕ, ◌+◌, ◌≢◌, String, List, [], ◌∷◌, panic, arith}
use kolyan.Tasks.Types.{
  evidence_criterion_id, GoalCriterion, CompletionCriterion, TaskDefinition, GoalAssessment, Serde,
  AttemptBinding, CompletionEvidence, TaskSnapshot, TaskSuspension,
}
use kolyan.Tasks.Validation.{
  identity, digest, agent, reason, count_writes, bounded_serialized_bytes, to_vec, checker_validate,
  goal_value_digest, goal_validate, assessment_digest, validate_kind, validate_artifact,
  validate_criteria, validate_limits, validate_definition,
}
use kolyan.Tasks.Attempts.Evidence.{
  validate_source, evidence_fits, validate_items, validate_evidence, validate_wait_ids,
  validate_waiting,
}

count_writes_returns : (limit bytes : ℕ) (ns : List ℕ) → count_writes limit bytes ns ≢ panic
unfolding count_writes
count_writes_returns limit bytes [] = ground arith
count_writes_returns limit bytes (n ∷ ns) =
    ground (arith, count_writes_returns limit (bytes + n) ns)

module _ {V : Type 0} (serde : Serde V) where
  goal_value_digest_returns : (v : V) (limit : ℕ) → goal_value_digest serde v limit ≢ panic
  unfolding goal_value_digest bounded_serialized_bytes to_vec
  goal_value_digest_returns v limit =
      ground (arith, count_writes_returns limit 0 (serde.value_pieces v))

  pub goal_validate_returns : (goal : GoalCriterion V) → goal_validate serde goal ≢ panic
  unfolding goal_validate identity checker_validate
  goal_validate_returns goal = ground (arith, goal_value_digest_returns goal.predicate 65536)

  pub assessment_digest_returns : (a : GoalAssessment V) → assessment_digest serde a ≢ panic
  unfolding assessment_digest identity checker_validate bounded_serialized_bytes to_vec
  assessment_digest_returns a = ground (
    arith,
    count_writes_returns 65536 0 (serde.value_pieces a.proof),
    count_writes_returns 131072 0 (serde.assessment_pieces a),
  )

  validate_criteria_returns :
      (ids : List String) (criteria : List (CompletionCriterion V))
      → validate_criteria serde ids criteria ≢ panic
  unfolding validate_criteria validate_kind validate_artifact identity digest
  validate_criteria_returns ids [] = ground arith
  validate_criteria_returns ids (CompletionCriterion.goal goal ∷ criteria) =
      ground (arith, goal_validate_returns goal, validate_criteria_returns (goal.id ∷ ids) criteria)
  validate_criteria_returns ids (CompletionCriterion.execution_completed id inv ∷ criteria) =
      ground (arith, validate_criteria_returns (id ∷ ids) criteria)
  validate_criteria_returns ids (CompletionCriterion.artifact_digest id inv sha ∷ criteria) =
      ground (arith, validate_criteria_returns (id ∷ ids) criteria)

  pub validate_definition_returns : (d : TaskDefinition V) → validate_definition serde d ≢ panic
  unfolding validate_definition identity reason agent digest validate_limits
  validate_definition_returns d = ground (arith, validate_criteria_returns [] d.criteria)

module _ {V : Type 0} (s : TaskSnapshot V) where
  validate_items_returns :
      (criteria : List (CompletionCriterion V)) (b : AttemptBinding) (ids : List String)
      (items : List CompletionEvidence)
      → validate_items criteria b ids items ≢ panic
  unfolding validate_items validate_source identity evidence_fits digest
  validate_items_returns criteria b ids [] = ground arith
  validate_items_returns criteria b ids (item ∷ items) =
      ground (arith, validate_items_returns criteria b (evidence_criterion_id item ∷ ids) items)

  pub validate_evidence_returns :
      (items : List CompletionEvidence) (b : AttemptBinding) → validate_evidence s items b ≢ panic
  unfolding validate_evidence
  validate_evidence_returns items b =
      ground (arith, validate_items_returns s.definition.criteria b [] items)

validate_wait_ids_returns : (seen ids : List String) → validate_wait_ids seen ids ≢ panic
unfolding validate_wait_ids identity
validate_wait_ids_returns seen [] = ground arith
validate_wait_ids_returns seen (id ∷ ids) =
    ground (arith, validate_wait_ids_returns (id ∷ seen) ids)

pub validate_waiting_returns : (w : TaskSuspension) → validate_waiting w ≢ panic
unfolding validate_waiting identity
validate_waiting_returns w = ground (
  arith,
  validate_wait_ids_returns [] w.approval_ids,
  validate_wait_ids_returns [] w.external_wait_ids,
)

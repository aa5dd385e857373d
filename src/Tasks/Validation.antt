-- ===== src/Tasks/Validation.antt =====
-- tasks/reducer/validation.rs, `identity` and `reference` of tasks/reducer.rs, and the checks of
-- tasks/goals/types.rs.
use kolyan.Prelude.{
  ℕ, ◌+◌, String, Bool, not, ◌||◌, some, List, [], ◌∷◌, ltb, ◌==◌, String-Eq, ℕ-Eq, Option-Eq,
  is_empty, length, any, contains, is_blank, byte_len, all_hex, ok, err, ◌⊎◌, inl, inr, ◌>>=◌, ◌>>◌,
  reject_if, ok_or,
}
use kolyan.Prelude.Map
use kolyan.Ledger.{FactRef, FactRecord}
use kolyan.Tasks.Types.{
  AgentIdentity, TaskLimits, GoalCheckerKey, GoalCriterion, CompletionCriterion, criterion_id,
  criterion_invocation_id, TaskDefinition, GoalAssessment, TaskSnapshot, invalid, TaskResult, Serde,
  checked_add, ComputedGoalDecision,
}

unfoldable pub identity : String → TaskResult Unit
identity value =
    reject_if (is_blank value || ltb 256 (byte_len value)) (invalid "empty or oversized identity")

unfoldable pub reference : {V : Type 0} → FactRecord V → FactRef
reference record' = record {
  stream_id = record'.stream_id;
  position = record'.position;
  fact_id = record'.draft.fact_id;
}

unfoldable pub digest : String → TaskResult Unit
digest value =
    reject_if (not (byte_len value == 64) || not (all_hex value))
      (invalid "expected a SHA-256 hex digest")

unfoldable pub agent : AgentIdentity → TaskResult Unit
agent value = do identity value.definition_id; identity value.revision; identity value.instance_id

unfoldable pub reason : String → TaskResult Unit
reason value =
    reject_if (is_blank value || ltb 8192 (byte_len value))
      (invalid "empty or oversized reason/objective")

-- `Counter::write`, over the pieces that the serializer writes: `usize` is 64 bits wide.
unfoldable pub count_writes : (limit bytes : ℕ) → List ℕ → TaskResult ℕ
count_writes limit bytes [] = ok bytes
count_writes limit bytes (n ∷ ns) =
    let rest = count_writes limit (bytes + n) ns in
    do
      ok_or (checked_add bytes n) (invalid "size overflow")
      reject_if (ltb limit (bytes + n)) (invalid "goal payload exceeds byte ceiling")
      rest

unfoldable pub bounded_serialized_bytes : (pieces : List ℕ) (limit : ℕ) → TaskResult ℕ
bounded_serialized_bytes pieces limit = count_writes limit 0 pieces

-- `serde_json::to_vec(value).map_err(|error| TaskError::Invalid(error.to_string()))`
unfoldable pub to_vec : String ⊎ List ℕ → TaskResult (List ℕ)
to_vec (inl message) = err (invalid message)
to_vec (inr bytes) = ok bytes

abbrev pub max_goal_predicate_bytes : ℕ
max_goal_predicate_bytes = 65536

abbrev pub max_goal_proof_bytes : ℕ
max_goal_proof_bytes = 65536

unfoldable pub checker_validate : GoalCheckerKey → TaskResult Unit
checker_validate key = do identity key.kind; identity key.revision

abbrev pub goal_of :
    {V : Type 0} → (id invocation_id : String) → GoalCheckerKey → V → String → GoalCriterion V
goal_of id invocation_id checker predicate predicate_digest = record {
  id = id;
  invocation_id = invocation_id;
  checker = checker;
  predicate = predicate;
  predicate_digest = predicate_digest;
}

module _ {V : Type 0} (serde : Serde V) where
  unfoldable pub goal_value_digest : V → ℕ → TaskResult String
  goal_value_digest value limit = do
    bounded_serialized_bytes (serde.value_pieces value) limit
    bytes ← to_vec (serde.value_vec value)
    ok (serde.sha256_hex bytes)

  unfoldable pub goal_validate : GoalCriterion V → TaskResult Unit
  goal_validate goal = do
    identity goal.id
    identity goal.invocation_id
    checker_validate goal.checker
    computed ← goal_value_digest goal.predicate max_goal_predicate_bytes
    reject_if (not (goal.predicate_digest == computed)) (invalid "goal predicate digest differs")

  -- `GoalCriterion::new`
  unfoldable pub new_goal :
      (id invocation_id : String) → GoalCheckerKey → V → TaskResult (GoalCriterion V)
  new_goal id invocation_id checker predicate = do
    predicate_digest ← goal_value_digest predicate max_goal_predicate_bytes
    let goal = goal_of id invocation_id checker predicate predicate_digest
    goal_validate goal
    ok goal

  -- `ComputedGoalDecision::validate`
  unfoldable pub decision_validate : ComputedGoalDecision V → TaskResult Unit
  decision_validate computed = do
    reject_if (is_blank computed.reason || ltb 8192 (byte_len computed.reason))
        (invalid "empty or oversized goal reason")
    bounded_serialized_bytes (serde.value_pieces computed.proof) max_goal_proof_bytes
    ok tt

  unfoldable pub assessment_digest : GoalAssessment V → TaskResult String
  assessment_digest assessment = do
    checker_validate assessment.checker
    identity assessment.criterion_id
    reject_if (is_blank assessment.reason || ltb 8192 (byte_len assessment.reason))
        (invalid "empty or oversized goal reason")
    bounded_serialized_bytes (serde.value_pieces assessment.proof) max_goal_proof_bytes
    bounded_serialized_bytes (serde.assessment_pieces assessment) 131072
    bytes ← to_vec (serde.assessment_vec assessment)
    ok (serde.sha256_hex bytes)

  -- One round of the loop over the criteria, but for the test of repeated ids.
  unfoldable pub validate_kind : CompletionCriterion V → TaskResult Unit
  validate_kind (CompletionCriterion.goal goal) = goal_validate goal
  validate_kind _ = ok tt

  unfoldable pub validate_artifact : CompletionCriterion V → TaskResult Unit
  validate_artifact (CompletionCriterion.artifact_digest _ _ sha256) = digest sha256
  validate_artifact _ = ok tt

  unfoldable pub validate_criteria : List String → List (CompletionCriterion V) → TaskResult Unit
  validate_criteria ids [] = ok tt
  validate_criteria ids (criterion ∷ criteria) =
      let rest = validate_criteria (criterion_id criterion ∷ ids) criteria in
      do
        validate_kind criterion
        identity (criterion_id criterion)
        identity (criterion_invocation_id criterion)
        reject_if (contains ids (criterion_id criterion)) (invalid "duplicate criterion")
        validate_artifact criterion
        rest

  unfoldable pub validate_limits : TaskLimits → TaskResult Unit
  validate_limits limits =
      reject_if
        (limits.max_invocations == 0
          || ltb 4096 limits.max_invocations
          || limits.max_attempts == 0
          || ltb 16384 limits.max_attempts
          || limits.max_tokens == some 0
          || ltb 128 limits.max_depth
          || limits.max_steps_per_turn == 0)
        (invalid "invalid bounded task limits")

  unfoldable pub validate_definition : TaskDefinition V → TaskResult Unit
  validate_definition definition = do
    identity definition.task_id
    reason definition.objective
    agent definition.agent
    digest definition.constraints_digest
    reject_if (is_empty definition.criteria || ltb 128 (length definition.criteria))
        (invalid "criteria count must be 1..128")
    validate_criteria [] definition.criteria
    validate_limits definition.limits

-- An identity is taken by the task, an invocation, an attempt or the execution of an attempt.
abbrev pub is_taken : {V : Type 0} → TaskSnapshot V → String → Bool
is_taken state id =
    id == state.definition.task_id
    || Map.contains_key id state.invocations
    || Map.contains_key id state.attempts
    || any (λ attempt. attempt.binding.execution.execution_id == id) (Map.values state.attempts)

unfoldable pub available_id : {V : Type 0} → TaskSnapshot V → String → TaskResult Unit
available_id state id = do
  identity id
  reject_if (is_taken state id) (invalid "task/invocation/attempt/execution identity collision")

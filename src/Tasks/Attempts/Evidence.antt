-- ===== src/Tasks/Attempts/Evidence.antt =====
-- The checks of tasks/reducer/attempts.rs: `validate_source`, `validate_evidence` and
-- `validate_waiting`, and the token budget that `start` and `resume` test.
use kolyan.Prelude.{
  String, Bool, true, false, not, ◌||◌, ◌&&◌, List, [], ◌∷◌, ltb, leb, ◌==◌, String-Eq, ℕ-Eq,
  is_empty, is_some_and, is_none_or, length, contains, find, if◌then◌else◌, ok, err, ◌>>=◌, ◌>>◌,
  reject_if, ok_or,
}
use kolyan.Tasks.Types.{
  ExecutionRef-Eq, ExecutionEvidence, AttemptBinding, CompletionCriterion, criterion_id,
  criterion_invocation_id, CompletionEvidence, evidence_criterion_id, evidence_source,
  TaskSuspension, TaskSnapshot, invalid, TaskResult, total,
}
use kolyan.Tasks.Validation.{identity, digest}

unfoldable pub validate_source : ExecutionEvidence → AttemptBinding → TaskResult Unit
validate_source source binding = do
  identity source.event_id
  reject_if (source.cursor == 0 || not (source.execution == binding.execution))
      (invalid "evidence is not bound to the admitted execution")

-- `matches!(item, CompletionEvidence::GoalSatisfied { .. })`
unfoldable pub is_goal_satisfied : CompletionEvidence → Bool
is_goal_satisfied (CompletionEvidence.goal_satisfied _ _ _ _) = true
is_goal_satisfied _ = false

-- The `match` on the criterion and the evidence.
unfoldable pub evidence_fits :
    {V : Type 0} → CompletionCriterion V → CompletionEvidence → TaskResult Unit
evidence_fits (CompletionCriterion.execution_completed _ _)
      (CompletionEvidence.execution_result _ _ result_digest) =
    digest result_digest
evidence_fits (CompletionCriterion.artifact_digest _ _ expected)
      (CompletionEvidence.verified_artifact _ _ sha256 _) =
    if sha256 == expected
    then digest sha256
    else err (invalid "criterion evidence type/digest mismatch")
evidence_fits _ _ = err (invalid "criterion evidence type/digest mismatch")

module _ {V : Type 0} where
  unfoldable pub validate_items :
      List (CompletionCriterion V)
      → AttemptBinding
      → List String
      → List CompletionEvidence
      → TaskResult Unit
  validate_items criteria binding ids [] = ok tt
  validate_items criteria binding ids (item ∷ items) =
      let rest = validate_items criteria binding (evidence_criterion_id item ∷ ids) items in
      do
        reject_if (is_goal_satisfied item)
            (invalid "GoalSatisfied is not physical attempt evidence")
        validate_source (evidence_source item) binding
        reject_if (contains ids (evidence_criterion_id item))
            (invalid "duplicate criterion evidence")
        criterion ←
            ok_or
              (find (λ criterion. criterion_id criterion == evidence_criterion_id item) criteria)
              (invalid "unknown completion criterion")
        reject_if (not (criterion_invocation_id criterion == binding.invocation_id))
            (invalid "criterion belongs to a different invocation")
        evidence_fits criterion item
        rest

  unfoldable pub validate_evidence :
      TaskSnapshot V → List CompletionEvidence → AttemptBinding → TaskResult Unit
  validate_evidence state evidence binding = do
    reject_if (ltb 128 (length evidence)) (invalid "too much completion evidence")
    validate_items state.definition.criteria binding [] evidence

  -- The closure that `start` and `resume` share: unknown usage, or a total at the ceiling.
  unfoldable pub tokens_exhausted : TaskSnapshot V → Bool
  tokens_exhausted state = is_some_and state.definition.limits.max_tokens (λ limit.
      ltb 0 state.usage.unreported_steps || is_none_or (total state.usage) (λ sum. leb limit sum))

unfoldable pub validate_wait_ids : List String → List String → TaskResult Unit
validate_wait_ids seen [] = ok tt
validate_wait_ids seen (id ∷ ids) =
    let rest = validate_wait_ids (id ∷ seen) ids in
    do identity id; reject_if (contains seen id) (invalid "duplicate suspension coordinate"); rest

unfoldable pub validate_waiting : TaskSuspension → TaskResult Unit
validate_waiting waiting = do
  identity waiting.checkpoint_id
  reject_if (is_empty waiting.approval_ids && is_empty waiting.external_wait_ids)
      (invalid "suspension has no pending waits")
  validate_wait_ids [] waiting.approval_ids
  validate_wait_ids [] waiting.external_wait_ids

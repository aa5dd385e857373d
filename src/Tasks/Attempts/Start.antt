-- ===== src/Tasks/Attempts/Start.antt =====
-- `start`, `resume` and `authorize_retry` of tasks/reducer/attempts.rs.
use kolyan.Prelude.{
  ℕ, String, Bool, true, false, not, ◌||◌, Option, none, some, [], ◌∷◌, ◌++◌, leb, ◌==◌, String-Eq,
  Option-Eq, last, any, is_some_and, and_then, length, ok, err, ◌>>=◌, ◌>>◌, reject_if, ok_or,
  unwrap,
}
use kolyan.Prelude.Map
use kolyan.Tasks.Types.{
  AgentIdentity-Eq, InvocationInputSource-Eq, ExecutionEvidence, AttemptBinding, AttemptBinding-Eq,
  WaitingReason, AttemptOutcome, InvocationState, InvocationState-Eq, AttemptSnapshot,
  InvocationSnapshot, TaskSnapshot, invalid, transition, TaskResult,
}
use kolyan.Tasks.Validation.{identity, reason, available_id}
use kolyan.Tasks.Dependencies.{has_consumed}
use kolyan.Tasks.Attempts.Evidence.{validate_source, tokens_exhausted}

-- The outcome `Failed { safe_to_retry: true, .. }`.
unfoldable pub is_safe_failure : AttemptOutcome → Bool
is_safe_failure (AttemptOutcome.failed _ safe_to_retry) = safe_to_retry
is_safe_failure _ = false

unfoldable pub may_retry : AttemptSnapshot → Bool
may_retry attempt =
    attempt.retry_authorized || is_some_and attempt.observation (λ obs. is_safe_failure obs.outcome)

-- A dependency whose result is not consumed.
unfoldable pub has_unmet : InvocationSnapshot → Bool
has_unmet inv = any (λ id. not (has_consumed inv id)) inv.definition.dependencies

-- `Failed | RecoveryRequired`
unfoldable pub is_broken : InvocationState → Bool
is_broken InvocationState.failed = true
is_broken InvocationState.recovery_required = true
is_broken _ = false

-- `matches!(&attempt.waiting, Some(WaitingReason::Suspension(w)) if w.checkpoint_id == checkpoint_id)`
unfoldable pub waits_at : String → Option WaitingReason → Bool
waits_at checkpoint_id (some (WaitingReason.suspension waiting)) =
    waiting.checkpoint_id == checkpoint_id
waits_at checkpoint_id _ = false

-- The cursor of the last observation, 0 where there is none.
unfoldable pub last_cursor : AttemptSnapshot → ℕ
last_cursor attempt = elim attempt.observation [
  | none ↦ 0
  | some observation ↦ observation.source.cursor
]

abbrev pub fresh_attempt : AttemptBinding → AttemptSnapshot
fresh_attempt binding = record {
  binding = binding;
  state = InvocationState.running;
  observation = none;
  waiting = none;
  cancellation_requested = false;
  retry_authorized = false;
}

abbrev pub running_invocation : InvocationSnapshot → String → InvocationSnapshot
running_invocation inv attempt_id = record inv {
  state = InvocationState.running;
  terminal_fact = none;
  attempts = inv.attempts ++ attempt_id ∷ [];
}

abbrev pub authorized_attempt : AttemptSnapshot → AttemptSnapshot
authorized_attempt attempt = record attempt {
  retry_authorized = true;
  state = InvocationState.failed;
  waiting = none;
}

abbrev pub resumed_attempt : AttemptSnapshot → AttemptSnapshot
resumed_attempt attempt = record attempt { state = InvocationState.running; waiting = none }

module _ {V : Type 0} where
  -- A write to an attempt, and the state that its invocation gets with it.
  abbrev pub with_states :
      TaskSnapshot V
      → String
      → AttemptSnapshot
      → InvocationState
      → InvocationSnapshot
      → TaskSnapshot V
  with_states state attempt_id attempt next inv = record state {
    attempts = Map.update attempt_id attempt state.attempts;
    invocations =
        Map.update attempt.binding.invocation_id (record inv { state = next }) state.invocations;
  }

  -- The `match` on the state of the invocation.
  unfoldable pub startable : TaskSnapshot V → InvocationSnapshot → InvocationState → TaskResult Unit
  startable state inv InvocationState.admitted = ok tt
  startable state inv InvocationState.failed =
      reject_if
        (not
          (is_some_and (and_then (last inv.attempts) (λ id. Map.get id state.attempts)) may_retry))
        (transition "no explicit safe-retry evidence")
  startable state inv _ = err (transition "invocation is not startable")

  -- The guards of `start`: the invocation that the attempt belongs to.
  unfoldable pub check_start : TaskSnapshot V → AttemptBinding → TaskResult InvocationSnapshot
  check_start state binding = do
    available_id state binding.attempt_id
    available_id state binding.execution.execution_id
    reject_if (binding.attempt_id == binding.execution.execution_id)
        (invalid "attempt and execution must be distinct")
    identity binding.execution.session_id
    identity binding.execution.turn_id
    inv ← ok_or (Map.get binding.invocation_id state.invocations) (invalid "unknown invocation")
    reject_if
        (not (inv.definition.agent == binding.agent)
          || not (inv.definition.constraints_digest == binding.constraints_digest)
          || not (inv.definition.input_source == binding.input_source))
        (transition "changed revision/instance/constraints require new admission")
    reject_if
        (leb state.definition.limits.max_attempts (length state.attempts) || tokens_exhausted state)
        (transition "shared attempt/token budget exhausted")
    startable state inv inv.state
    reject_if (has_unmet inv)
        (transition "dependencies require explicit result consumption before execution")
    ok inv

  abbrev pub started : TaskSnapshot V → AttemptBinding → InvocationSnapshot → TaskSnapshot V
  started state binding inv = record state {
    invocations =
        Map.update binding.invocation_id (running_invocation inv binding.attempt_id)
          state.invocations;
    attempts = Map.insert binding.attempt_id (fresh_attempt binding) state.attempts;
  }

  unfoldable pub start : TaskSnapshot V → AttemptBinding → TaskResult (TaskSnapshot V)
  start state binding = do inv ← check_start state binding; ok (started state binding inv)

  unfoldable pub check_retry :
      TaskSnapshot V
      → String
      → ExecutionEvidence
      → String
      → TaskResult (AttemptSnapshot × InvocationSnapshot)
  check_retry state attempt_id source why = do
    reason why
    attempt ← ok_or (Map.get attempt_id state.attempts) (invalid "unknown retry attempt")
    validate_source source attempt.binding
    invocation ← unwrap (Map.get attempt.binding.invocation_id state.invocations)
    reject_if
        (not (is_broken attempt.state)
          || attempt.cancellation_requested
          || invocation.cancellation_requested
          || attempt.retry_authorized
          || not (last invocation.attempts == some attempt_id)
          || not (is_broken invocation.state)
          || leb source.cursor (last_cursor attempt))
        (transition
          "retry requires the latest stopped attempt and advancing reconciliation evidence")
    ok (attempt, invocation)

  unfoldable pub authorize_retry :
      TaskSnapshot V → String → ExecutionEvidence → String → TaskResult (TaskSnapshot V)
  authorize_retry state attempt_id source why = do
    found ← check_retry state attempt_id source why
    ok (with_states state attempt_id (authorized_attempt found.0) InvocationState.failed found.1)

  unfoldable pub check_resume :
      TaskSnapshot V → AttemptBinding → String → TaskResult (AttemptSnapshot × InvocationSnapshot)
  check_resume state binding checkpoint_id = do
    identity checkpoint_id
    reject_if (tokens_exhausted state)
        (transition "shared token budget cannot admit checkpoint resumption")
    attempt ← ok_or (Map.get binding.attempt_id state.attempts) (invalid "unknown attempt")
    reject_if
        (not (attempt.binding == binding)
          || not (attempt.state == InvocationState.suspended)
          || not (waits_at checkpoint_id attempt.waiting)
          || attempt.cancellation_requested)
        (transition "checkpoint/binding/revision/constraints mismatch or cancelled")
    inv ← unwrap (Map.get binding.invocation_id state.invocations)
    ok (attempt, inv)

  -- The binding is that of the attempt found, so its invocation is too.
  unfoldable pub resume : TaskSnapshot V → AttemptBinding → String → TaskResult (TaskSnapshot V)
  resume state binding checkpoint_id = do
    found ← check_resume state binding checkpoint_id
    ok (
        with_states state binding.attempt_id (resumed_attempt found.0) InvocationState.running
          found.1)

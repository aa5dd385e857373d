-- ===== src/Tasks/Attempts/Observe.antt =====
-- `observe` of tasks/reducer/attempts.rs: what the host saw of an attempt.
use kolyan.Prelude.{
  ℕ, Bool, true, false, not, ◌||◌, ◌&&◌, Option, none, some, ltb, leb, if◌then◌else◌, ◌==◌,
  String-Eq, any, contains, is_some_and, ok, err, ◌>>=◌, ◌>>◌, reject_if, ok_or, unwrap,
}
use kolyan.Prelude.Map
use kolyan.Ledger.{FactRecord}
use kolyan.Tasks.Types.{
  ExecutionRef-Eq, TaskUsage, checked_add, total, evidence_source, TaskSuspension, WaitingReason,
  AttemptOutcome, AttemptObservation, InvocationState, InvocationState-Eq, AttemptSnapshot,
  InvocationSnapshot, TaskState, is_terminal, TaskSnapshot, invalid, transition, TaskResult,
}
use kolyan.Tasks.Validation.{reference, reason}
use kolyan.Tasks.Dependencies.{has_consumed, required_results, is_stopped}
use kolyan.Tasks.Attempts.Evidence.{validate_source, validate_evidence, validate_waiting}

-- `Running | RecoveryRequired | Suspended`
unfoldable pub is_open : InvocationState → Bool
is_open InvocationState.running = true
is_open InvocationState.recovery_required = true
is_open InvocationState.suspended = true
is_open _ = false

-- The outcomes that a suspended attempt may have: all but `Completed`.
unfoldable pub leaves_suspension : AttemptOutcome → Bool
leaves_suspension (AttemptOutcome.completed _) = false
leaves_suspension _ = true

-- A second suspension keeps the checkpoint, and waits for nothing that the first did not.
unfoldable pub narrows : (previous waiting : TaskSuspension) → Bool
narrows previous waiting = not (
    not (waiting.checkpoint_id == previous.checkpoint_id)
    || any (λ id. not (contains previous.approval_ids id)) waiting.approval_ids
    || any (λ id. not (contains previous.external_wait_ids id)) waiting.external_wait_ids)

unfoldable pub check_merge : Option WaitingReason → AttemptOutcome → TaskResult Unit
check_merge (some (WaitingReason.suspension previous)) (AttemptOutcome.suspended waiting) =
    reject_if (not (narrows previous waiting))
      (transition "partial merge cannot replace checkpoint or introduce waits")
check_merge _ (AttemptOutcome.suspended _) =
    err (invalid "suspended attempt lacks checkpoint coordinates")
check_merge _ _ = ok tt

-- What `attempt.waiting` becomes.
unfoldable pub waiting_after : AttemptOutcome → Option WaitingReason
waiting_after (AttemptOutcome.suspended waiting) = some (WaitingReason.suspension waiting)
waiting_after (AttemptOutcome.recovery_required reason) = some (WaitingReason.recovery reason)
waiting_after _ = none

unfoldable pub add_usage : TaskUsage → TaskUsage → TaskResult TaskUsage
add_usage u v = do
  input ← ok_or (checked_add u.input_tokens v.input_tokens) (invalid "usage overflow")
  output ← ok_or (checked_add u.output_tokens v.output_tokens) (invalid "usage overflow")
  unreported ← ok_or (checked_add u.unreported_steps v.unreported_steps) (invalid "usage overflow")
  ok (record { input_tokens = input; output_tokens = output; unreported_steps = unreported })

-- The second suspension of an attempt that is suspended.
unfoldable pub check_suspension : AttemptSnapshot → AttemptOutcome → TaskResult Unit
check_suspension attempt outcome =
    if attempt.state == InvocationState.suspended
    then check_merge attempt.waiting outcome
    else ok tt

-- The checks of `observe` before the new state is computed.
unfoldable pub check_observation : AttemptSnapshot → AttemptObservation → TaskResult Unit
check_observation attempt observation = do
  reject_if (not (is_open attempt.state))
      (transition "attempt already stopped; retry exact fact identity instead")
  reject_if (not (observation.execution == attempt.binding.execution))
      (invalid "observation execution mismatch")
  validate_source observation.source attempt.binding
  reject_if
      (attempt.state == InvocationState.suspended && not (leaves_suspension observation.outcome))
      (transition "suspension must be explicitly resumed before execution completion")
  check_suspension attempt observation.outcome
  reject_if
      (is_some_and attempt.observation
        (λ previous. leb observation.source.cursor previous.source.cursor))
      (transition "observation must advance durable execution evidence")

abbrev pub observed_attempt :
    AttemptSnapshot → AttemptObservation → InvocationState → AttemptSnapshot
observed_attempt attempt observation next = record attempt {
  state = next;
  waiting = waiting_after observation.outcome;
  observation = some observation;
}

-- What `observe` finds before it writes: the attempt and its invocation, the state to come, and the
-- usage with its total.
pub record Observed : Type 0 where
  pub attempt : AttemptSnapshot
  pub inv : InvocationSnapshot
  pub next : InvocationState
  pub usage : TaskUsage
  pub sum : ℕ

module _ {V : Type 0} where
  unfoldable pub next_state :
      TaskSnapshot V
      → AttemptSnapshot
      → AttemptObservation
      → AttemptOutcome
      → TaskResult InvocationState
  next_state state attempt observation (AttemptOutcome.completed evidence) = do
    validate_evidence state evidence attempt.binding
    reject_if (any (λ item. ltb observation.source.cursor (evidence_source item).cursor) evidence)
        (invalid "completion evidence is ahead of the observed execution")
    inv ← unwrap (Map.get attempt.binding.invocation_id state.invocations)
    required ← required_results state attempt.binding.invocation_id
    reject_if (any (λ id. not (has_consumed inv id)) required)
        (transition "child results must be consumed before parent completion")
    ok InvocationState.completed
  next_state state attempt observation (AttemptOutcome.suspended waiting) = do
    validate_waiting waiting
    ok InvocationState.suspended
  next_state state attempt observation (AttemptOutcome.failed why _) = do
    reason why
    ok InvocationState.failed
  next_state state attempt observation (AttemptOutcome.cancelled why) = do
    reason why
    ok InvocationState.cancelled
  next_state state attempt observation (AttemptOutcome.recovery_required why) = do
    reason why
    ok InvocationState.recovery_required

  abbrev pub observed_invocation :
      InvocationSnapshot → InvocationState → FactRecord V → InvocationSnapshot
  observed_invocation inv next fact = record inv {
    state = next;
    terminal_fact = if is_stopped next then some (reference fact) else inv.terminal_fact;
    completion_fact =
        if next == InvocationState.completed then some (reference fact) else inv.completion_fact;
  }

  -- The task fails where the tokens used pass the ceiling, or are not known.
  unfoldable pub state_after_usage : TaskSnapshot V → TaskUsage → ℕ → TaskState
  state_after_usage state usage sum =
      if is_some_and state.definition.limits.max_tokens
          (λ limit. ltb limit sum || ltb 0 usage.unreported_steps)
        && not (is_terminal state.state)
      then TaskState.failed
      else state.state

  unfoldable pub check_observe : TaskSnapshot V → AttemptObservation → TaskResult Observed
  check_observe state observation = do
    attempt ← ok_or (Map.get observation.attempt_id state.attempts) (invalid "unknown attempt")
    check_observation attempt observation
    next ← next_state state attempt observation observation.outcome
    usage ← add_usage state.usage observation.usage
    sum ← ok_or (total usage) (invalid "usage overflow")
    inv ← unwrap (Map.get attempt.binding.invocation_id state.invocations)
    ok (record { attempt = attempt; inv = inv; next = next; usage = usage; sum = sum })

  abbrev pub observed :
      TaskSnapshot V → AttemptObservation → FactRecord V → Observed → TaskSnapshot V
  observed state observation fact found = record state {
    usage = found.usage;
    attempts =
        Map.update observation.attempt_id (observed_attempt found.attempt observation found.next)
          state.attempts;
    invocations =
        Map.update found.attempt.binding.invocation_id
          (observed_invocation found.inv found.next fact) state.invocations;
    state = state_after_usage state found.usage found.sum;
  }

  unfoldable pub observe :
      TaskSnapshot V → AttemptObservation → FactRecord V → TaskResult (TaskSnapshot V)
  observe state observation fact = do
    found ← check_observe state observation
    ok (observed state observation fact found)

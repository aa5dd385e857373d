-- ===== src/Tasks/Reducer.antt =====
-- `apply` and `refresh` of tasks/reducer.rs. On an error the source leaves its `snapshot` half
-- written, and both callers drop it; here an error carries no state.
pub mod Shape
pub mod Refines
pub mod Commands
pub mod Dispatch
pub mod Reachable
pub mod Keeps
pub mod Sorted
pub mod Limits
pub mod Terminal
pub mod States
pub mod Derived
pub mod Consumed
pub mod Charged
use kolyan.Prelude.{
  panic, String, Bool, true, false, not, ◌&&◌, Option, none, some, List, [], ◌∷◌, ◌++◌,
  if◌then◌else◌, ◌==◌, is_empty, is_some, is_some_and, any, filter, filter_map, ok, err, ◌>>=◌,
  ◌>>◌, reject_if, ok_or, unwrap,
}
use kolyan.Prelude.Map
use kolyan.Prelude.Map.{Map}
use kolyan.Ledger.{FactRecord}
use kolyan.Tasks.Types.{
  CancellationPolicy, CancellationPolicy-Eq, TaskDefinition, WaitingReason, InvocationState,
  InvocationState-Eq, AttemptSnapshot, InvocationSnapshot, TaskState, TaskState-Eq, is_terminal,
  TaskSnapshot, TaskEvent, transition, TaskResult, Serde,
}
use kolyan.Tasks.Validation.{reason, validate_definition}
use kolyan.Tasks.Dependencies.{add_dependency, has_consumed, required_results}
use kolyan.Tasks.Admission.{is_root, admit}
use kolyan.Tasks.Results.{consume, consume_terminal}
use kolyan.Tasks.Attempts.Start.{with_states, start, authorize_retry, resume}
use kolyan.Tasks.Attempts.Observe.{observe, is_open}
use kolyan.Tasks.Budget.{configure, reserve}
use kolyan.Tasks.Completion.{complete, cancel}
use kolyan.Tasks.Goals.{apply_assessment, refresh_goals}

-- The state of a task that is not terminal.
unfoldable pub derived_state : Map InvocationSnapshot → List WaitingReason → TaskState
derived_state invocations waiting =
    if any (λ inv. inv.state == InvocationState.recovery_required) (Map.values invocations)
    then TaskState.recovery_required
    else if any (λ inv. inv.state == InvocationState.running) (Map.values invocations)
    then TaskState.active
    else if not (is_empty waiting)
    then TaskState.waiting
    else TaskState.ready

abbrev pub broken_attempt : AttemptSnapshot → String → AttemptSnapshot
broken_attempt attempt why = record attempt {
  state = InvocationState.recovery_required;
  waiting = some (WaitingReason.recovery why);
}

module _ {V : Type 0} where
  -- `AttemptObserved(_) | RecoveryNeeded { .. }`
  unfoldable pub is_late_report : TaskEvent V → Bool
  is_late_report (TaskEvent.attempt_observed _) = true
  is_late_report (TaskEvent.recovery_needed _ _) = true
  is_late_report _ = false

  -- A child that goes on after the cancellation of the root alone.
  unfoldable pub is_detached_resume : TaskSnapshot V → TaskEvent V → Bool
  is_detached_resume state (TaskEvent.attempt_resumed binding _) =
      state.state == TaskState.cancelled
      && state.definition.cancellation_policy == CancellationPolicy.root_only
      && is_some_and (Map.get binding.invocation_id state.invocations) (λ inv. not (is_root inv))
  is_detached_resume state _ = false

  unfoldable pub check_recovery :
      TaskSnapshot V → String → String → TaskResult (AttemptSnapshot × InvocationSnapshot)
  check_recovery state attempt_id why = do
    reason why
    attempt ← ok_or (Map.get attempt_id state.attempts) (transition "unknown attempt")
    reject_if (not (is_open attempt.state))
        (transition "only running or waiting attempts can require recovery")
    inv ← unwrap (Map.get attempt.binding.invocation_id state.invocations)
    ok (attempt, inv)

  unfoldable pub require_recovery : TaskSnapshot V → String → String → TaskResult (TaskSnapshot V)
  require_recovery state attempt_id why = do
    found ← check_recovery state attempt_id why
    ok (
        with_states state attempt_id (broken_attempt found.0 why) InvocationState.recovery_required
          found.1)

  -- The `match` of `apply` on the event.
  unfoldable pub dispatch :
      Serde V → TaskSnapshot V → TaskEvent V → FactRecord V → TaskResult (TaskSnapshot V)
  dispatch serde state (TaskEvent.execution_budget_configured policy) fact =
      configure state policy fact
  dispatch serde state (TaskEvent.budgeted_attempt_started binding max_steps) fact = do
    charged ← reserve state binding max_steps fact
    start charged binding
  dispatch serde state (TaskEvent.goal_assessed assessment) fact =
      apply_assessment serde state assessment fact
  -- `unreachable!()`: `apply` answers a registration before.
  dispatch serde state (TaskEvent.registered definition) fact = panic
  dispatch serde state (TaskEvent.invocation_admitted definition) fact = admit state definition
  dispatch serde state (TaskEvent.dependency_admitted invocation_id dependency_id) fact =
      add_dependency state invocation_id dependency_id
  dispatch serde state (TaskEvent.attempt_started binding) fact = do
    reject_if (is_some state.execution_budget)
        (transition "configured Task requires atomic budgeted start")
    start state binding
  dispatch serde state (TaskEvent.attempt_observed observation) fact =
      observe state observation fact
  dispatch serde state (TaskEvent.attempt_resumed binding checkpoint_id) fact =
      resume state binding checkpoint_id
  dispatch serde state (TaskEvent.recovery_needed attempt_id why) fact =
      require_recovery state attempt_id why
  dispatch serde state (TaskEvent.retry_authorized attempt_id source why) fact =
      authorize_retry state attempt_id source why
  dispatch serde state (TaskEvent.result_consumed invocation_id result) fact =
      consume state invocation_id result fact
  dispatch serde state (TaskEvent.terminal_result_consumed invocation_id result) fact =
      consume_terminal state invocation_id result fact
  dispatch serde state (TaskEvent.completed evidence) fact = complete state evidence
  dispatch serde state (TaskEvent.cancelled why) fact = cancel state why
  dispatch serde state (TaskEvent.failed why) fact = do
    reason why
    ok (record state { state = TaskState.failed })

  -- The loop of `refresh` over the invocations.
  unfoldable pub child_waits :
      TaskSnapshot V → Map InvocationSnapshot → TaskResult (List WaitingReason)
  child_waits state [] = ok []
  child_waits state ((id, inv) ∷ invocations) =
      let rest = child_waits state invocations in
      do
        required ← required_results state id
        let pending = filter (λ child. not (has_consumed inv child)) required
        waits ← rest
        ok (if is_empty pending then waits else WaitingReason.child_results pending ∷ waits)

  unfoldable pub refresh : TaskSnapshot V → TaskResult (TaskSnapshot V)
  refresh state = do
    children ← child_waits state state.invocations
    let waits = filter_map (λ attempt. attempt.waiting) (Map.values state.attempts) ++ children
    let refreshed = refresh_goals (record state { waiting = waits })
    ok (record refreshed {
      state =
          if is_terminal state.state
          then state.state
          else derived_state refreshed.invocations refreshed.waiting;
    })

  abbrev pub registered_task : TaskDefinition V → FactRecord V → TaskSnapshot V
  registered_task definition fact = record {
    execution_budget = none;
    goal_assessments = [];
    definition = definition;
    position = fact.position;
    state = TaskState.ready;
    usage = record { input_tokens = 0; output_tokens = 0; unreported_steps = 0 };
    invocations = [];
    attempts = [];
    waiting = [];
    success_evidence = [];
  }

  -- `apply` on a task that is registered.
  unfoldable pub transition_task :
      Serde V → TaskSnapshot V → TaskEvent V → FactRecord V → TaskResult (TaskSnapshot V)
  transition_task serde state event fact = do
    reject_if
        (is_terminal state.state
          && not (is_detached_resume state event)
          && not (is_late_report event))
        (transition "task is terminal")
    next ← dispatch serde state event fact
    refresh (record next { position = fact.position })

  unfoldable pub apply :
      Serde V → Option (TaskSnapshot V) → TaskEvent V → FactRecord V → TaskResult (TaskSnapshot V)
  apply serde none (TaskEvent.registered definition) fact = do
    validate_definition serde definition
    ok (registered_task definition fact)
  apply serde none _ fact = err (transition "missing task registration")
  apply serde (some state) (TaskEvent.registered definition) fact =
      err (transition "task already registered")
  apply serde (some state) event fact = transition_task serde state event fact

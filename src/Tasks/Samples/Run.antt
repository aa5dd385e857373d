-- ===== src/Tasks/Samples/Run.antt =====
-- The reducer, run on the events of the sample task.
use kolyan.Prelude.{
  ℕ, ◌+◌, Option, none, some, List, [], ◌∷◌, ok, any, all, find, filter, filter_map, contains,
  is_blank, is_whitespace, all_hex, is_hex_digit, String-discrete, Option-discrete, List-discrete,
  ℕ_discrete, ◌>>=◌,
}
use kolyan.Prelude.Map
use kolyan.Prelude.Set
use kolyan.Ledger.{FactRef-discrete}
use kolyan.Tasks.Types.{
  ExecutionRef-discrete, AgentIdentity-discrete, GoalCheckerKey-discrete,
  CancellationPolicy-discrete, InvocationRole-discrete, InvocationInputSource-discrete,
  AttemptBinding-discrete, ExecutionEvidence-discrete, CompletionEvidence-discrete,
  GoalVerdict-discrete, TerminalResultDisposition-discrete, is_terminal, TaskState-discrete,
  InvocationState-discrete, TaskSnapshot, TaskResult, TaskEvent,
}
use kolyan.Tasks.Validation.{
  identity, reference, digest, agent, reason, count_writes, bounded_serialized_bytes, to_vec,
  checker_validate, goal_value_digest, goal_validate, assessment_digest, validate_kind,
  validate_artifact, validate_criteria, validate_limits, validate_definition, available_id,
}
use kolyan.Tasks.Dependencies.{
  has_consumed, is_stopped, takes_dependencies, any_reaches, reaches, is_child_of, results_of,
  required_results, check_dependency, add_dependency,
}
use kolyan.Tasks.Admission.{
  source_fits, is_foreign_goal, is_root, depth_step, ancestor_depth, dependencies_valid,
  parent_allows, admit_root, admit_child, admit_role, check_admit, admit,
}
use kolyan.Tasks.Results.{
  completed_evidence, disposition_of, differs, last_observation, check_consume, consume,
  check_terminal, consume_terminal,
}
use kolyan.Tasks.Budget.{
  policy_validate, reserved_from, remaining_steps, check_configure, configure, check_reserve,
  reserve,
}
use kolyan.Tasks.Attempts.Evidence.{
  validate_source, is_goal_satisfied, evidence_fits, validate_items, validate_evidence,
  tokens_exhausted, validate_wait_ids, validate_waiting,
}
use kolyan.Tasks.Attempts.Start.{
  is_safe_failure, may_retry, has_unmet, is_broken, waits_at, last_cursor, startable, check_start,
  start, check_retry, authorize_retry, check_resume, resume,
}
use kolyan.Tasks.Attempts.Observe.{
  is_open, leaves_suspension, narrows, check_merge, waiting_after, add_usage, check_suspension,
  check_observation, next_state, state_after_usage, check_observe, observe,
}
use kolyan.Tasks.Completion.{
  observed_evidence, attempts_evidence, is_satisfied, goal_evidence, available_evidence,
  check_complete, complete, cancel_attempts, cancel_selected, cancel_invocations, cancel,
}
use kolyan.Tasks.Goals.{
  is_completed_outcome, find_goal, assessment_owner, apply_assessment, goal_wait, criterion_wait,
  goal_waits, refresh_goals,
}
use kolyan.Tasks.Reducer.{
  derived_state, is_late_report, is_detached_resume, check_recovery, require_recovery, dispatch,
  child_waits, refresh, transition_task, apply, registered_task,
}
use kolyan.Tasks.Samples.{serde, fact_at, two_step}

-- A run unfolds every function of the reducer.
unfoldable pub run :
    List (TaskEvent ℕ) → ℕ → Option (TaskSnapshot ℕ) → TaskResult (Option (TaskSnapshot ℕ))
unfolding any all find filter filter_map contains is_blank is_whitespace all_hex is_hex_digit
    String-discrete Option-discrete List-discrete ℕ_discrete Map.get Map.insert Map.update
    Set.insert Set.extend FactRef-discrete ExecutionRef-discrete AgentIdentity-discrete
    GoalCheckerKey-discrete CancellationPolicy-discrete InvocationRole-discrete
    InvocationInputSource-discrete AttemptBinding-discrete ExecutionEvidence-discrete
    CompletionEvidence-discrete GoalVerdict-discrete TerminalResultDisposition-discrete is_terminal
    TaskState-discrete InvocationState-discrete identity reference digest agent reason count_writes
    bounded_serialized_bytes to_vec checker_validate goal_value_digest goal_validate
    assessment_digest validate_kind validate_artifact validate_criteria validate_limits
    validate_definition available_id has_consumed is_stopped takes_dependencies any_reaches reaches
    is_child_of results_of required_results check_dependency add_dependency source_fits
    is_foreign_goal is_root depth_step ancestor_depth dependencies_valid parent_allows admit_root
    admit_child admit_role check_admit admit completed_evidence disposition_of differs
    last_observation check_consume consume check_terminal consume_terminal policy_validate
    reserved_from remaining_steps check_configure configure check_reserve reserve validate_source
    is_goal_satisfied evidence_fits validate_items validate_evidence tokens_exhausted
    validate_wait_ids validate_waiting is_safe_failure may_retry has_unmet is_broken waits_at
    last_cursor startable check_start start check_retry authorize_retry check_resume resume is_open
    leaves_suspension narrows check_merge waiting_after add_usage check_suspension check_observation
    next_state state_after_usage check_observe observe observed_evidence attempts_evidence
    is_satisfied goal_evidence available_evidence check_complete complete cancel_attempts
    cancel_selected cancel_invocations cancel is_completed_outcome find_goal assessment_owner
    apply_assessment goal_wait criterion_wait goal_waits refresh_goals derived_state is_late_report
    is_detached_resume check_recovery require_recovery dispatch child_waits refresh transition_task
    apply
run [] position state = ok state
run (event ∷ events) position state =
    let rest = λ (next : TaskSnapshot ℕ). run events (position + 1) (some next) in
    do next ← apply serde state event (fact_at position 6); rest next

abbrev pub state_of : TaskResult (Option (TaskSnapshot ℕ)) → TaskSnapshot ℕ
state_of (ok (some state)) = state
state_of _ = registered_task two_step (fact_at 1 6)

-- The task after its first events, each in a record of its own.
abbrev pub after : List (TaskEvent ℕ) → TaskSnapshot ℕ
after events = state_of (run events 1 none)

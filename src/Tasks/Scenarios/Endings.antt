-- ===== src/Tasks/Scenarios/Endings.antt =====
-- The sample task, cancelled or run to its end, and the results that are consumed on the way.
use kolyan.Prelude.{
  ℕ, ◌≡◌, ◌≢◌, refl, true, false, some, [], ◌∷◌, ◌++◌, ok, String, ◌||◌, contains, String-Eq, ℕ-Eq,
}
use kolyan.Ledger.{FactRef-Eq}
use kolyan.Tasks.Types.{
  TaskState, TaskSnapshot, TaskEvent, is_terminal, InvocationSnapshot, ConsumedTerminalResult,
  TerminalResultDisposition,
}
use kolyan.Tasks.Reducer.{apply, is_late_report, is_detached_resume}
use kolyan.Tasks.Samples.{
  serde, root_binding, child_binding, started_both, child_completed, root_completed, child_result,
  root_evidence, fact_at, seen_at, fact_of,
}
use kolyan.Tasks.Samples.Run.{run, after}
use kolyan.Prelude.Map
use kolyan.Prelude.Sorted.{is_sorted, starts_above, is_below}
use kolyan.Tasks.Reducer.Terminal.{Stays, terminal_absorbs}
use kolyan.Tasks.Completion.{cancel, complete}
use kolyan.Tasks.Completion.Reached.{is_requested}
use kolyan.Tasks.Completion.Cancels.{IsSelected, IsCancelled, cancel_reaches}
use kolyan.Tasks.Completion.Evidence.{Rests, complete_rests}
use kolyan.Tasks.Reducer.Consumed.{now, then_takes, completed, terminal, consumed_once}
use kolyan.Tasks.Scenarios.{left_by, both_started}

-- A cancellation, and a report that comes after it.
abbrev task_cancelled : TaskSnapshot ℕ
task_cancelled = after (started_both ++ TaskEvent.cancelled "stop" ∷ [])

abbrev reported_late : TaskSnapshot ℕ
reported_late = after (started_both ++ TaskEvent.cancelled "stop" ∷ child_completed ∷ [])

cancelled_ended : is_terminal task_cancelled.state ≡ true
unfolding run
cancelled_ended = refl

reports_late : apply serde (some task_cancelled) child_completed (fact_at 7 6) ≡ ok reported_late
unfolding run
reports_late = refl

terminal_absorbs_example :
    (is_late_report child_completed || is_detached_resume task_cancelled child_completed ≡ true)
    × Stays task_cancelled reported_late
terminal_absorbs_example =
    terminal_absorbs serde task_cancelled child_completed (fact_at 7 6) reported_late
      cancelled_ended reports_late

abbrev root_cancelled : TaskSnapshot ℕ
root_cancelled = left_by (cancel both_started "stop")

cancels_root : cancel both_started "stop" ≡ ok root_cancelled
unfolding run
cancels_root = refl

started_sorted : is_sorted both_started.invocations ≡ true
unfolding run is_sorted starts_above is_below
started_sorted = refl

cancel_reaches_example :
    (root_cancelled.state ≡ TaskState.cancelled)
    × ((id : String) (inv : InvocationSnapshot)
        → Map.get id both_started.invocations ≡ some inv
        → IsSelected both_started.definition.cancellation_policy inv
        → (inv' : InvocationSnapshot) × (Map.get id root_cancelled.invocations ≡ some inv')
          × IsCancelled inv inv')
    × ((id : String) (inv : InvocationSnapshot)
        → Map.get id both_started.invocations ≡ some inv
        → ¬ IsSelected both_started.definition.cancellation_policy inv
        → Map.get id root_cancelled.invocations ≡ some inv)
    × ((id a : String) (inv : InvocationSnapshot)
        → Map.get id both_started.invocations ≡ some inv
        → IsSelected both_started.definition.cancellation_policy inv
        → contains inv.attempts a ≡ true
        → is_requested root_cancelled.attempts a ≡ true)
    × ((a : String)
        → ((id : String) (inv : InvocationSnapshot)
            → Map.get id both_started.invocations ≡ some inv
            → IsSelected both_started.definition.cancellation_policy inv
            → contains inv.attempts a ≡ false)
        → Map.get a root_cancelled.attempts ≡ Map.get a both_started.attempts)
cancel_reaches_example =
    cancel_reaches both_started "stop" root_cancelled started_sorted cancels_root

-- The consumption of the child's result.
abbrev child_done : TaskSnapshot ℕ
child_done = after (started_both ++ child_completed ∷ [])

abbrev result_taken : TaskSnapshot ℕ
result_taken =
    left_by
      (apply serde (some child_done) (TaskEvent.result_consumed "root" child_result) (fact_at 7 6))

takes_result :
    apply serde (some child_done) (TaskEvent.result_consumed "root" child_result) (fact_at 7 6)
    ≡ ok result_taken
unfolding run
takes_result = refl

abbrev root_done : TaskSnapshot ℕ
root_done = left_by (apply serde (some result_taken) root_completed (fact_at 8 6))

takes_root : apply serde (some result_taken) root_completed (fact_at 8 6) ≡ ok root_done
unfolding run
takes_root = refl

abbrev child_terminal : ConsumedTerminalResult
child_terminal = record {
  parent = root_binding;
  child = child_binding;
  terminal_fact = fact_of 6;
  source = seen_at child_binding 2;
  disposition = TerminalResultDisposition.completed [];
}

consumed_once_example :
    apply serde
      (some root_done)
      (TaskEvent.terminal_result_consumed "root" child_terminal)
      (fact_at 9 6)
    ≢ ok root_done
consumed_once_example =
    consumed_once serde child_done result_taken root_done root_done "root" "child"
      (TaskEvent.result_consumed "root" child_result)
      (TaskEvent.terminal_result_consumed "root" child_terminal) (fact_at 7 6) (fact_at 9 6)
      (completed child_result refl) takes_result
      (then_takes root_completed (fact_at 8 6) root_done now takes_root)
      (terminal child_terminal refl)

abbrev all_done : TaskSnapshot ℕ
all_done = after (
    started_both
    ++ child_completed ∷ TaskEvent.result_consumed "root" child_result ∷ root_completed ∷ [])

abbrev task_completed : TaskSnapshot ℕ
task_completed = left_by (complete all_done root_evidence)

completes_task : complete all_done root_evidence ≡ ok task_completed
unfolding run
completes_task = refl

complete_rests_example :
    Rests all_done root_evidence
    × (task_completed
        ≡ record all_done { success_evidence = root_evidence; state = TaskState.completed })
complete_rests_example = complete_rests all_done root_evidence task_completed completes_task

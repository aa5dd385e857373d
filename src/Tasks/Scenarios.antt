-- ===== src/Tasks/Scenarios.antt =====
-- The sample task, run: tests of the reducer, and each theorem at a step of the run.
mod Budgets
mod Endings
mod Goals
mod Registry
mod Commands
mod Inputs
use kolyan.Prelude.{
  ℕ, ◌≡◌, ◌≢◌, refl, true, none, some, List, [], ◌∷◌, ◌++◌, ok, panic, String, Bool, ◌↔◌, ◌⊎◌, ◌+◌,
  ◌<◌, ◌≤◌, ◌||◌, String-Eq, ◌==◌, ℕ-Eq,
}
use kolyan.Ledger.{FactRef-Eq}
use kolyan.Tasks.Types.{
  TaskState, TaskSnapshot, TaskEvent, TaskResult, is_terminal, AttemptSnapshot, AttemptObservation,
  AttemptOutcome,
}
use kolyan.Tasks.Reducer.{apply}
use kolyan.Tasks.Reducer.Reachable.{Reachable, registers, takes, Reachable-IsValid, apply-Step}
use kolyan.Tasks.Topology.{topology, Step, IsValid, Reaches}
use kolyan.Tasks.Samples.{
  serde, two_step, root_invocation, child_invocation, root_binding, child_binding, admitted_both,
  started_both, child_completed, root_completed, child_result, root_evidence, fact_at, seen,
}
use kolyan.Tasks.Samples.Run.{run, after}
use kolyan.Prelude.Map
use kolyan.Tasks.Dependencies.Decides.{search, search-Reaches}
use kolyan.Tasks.Safety.Apply.{apply_returns}
use kolyan.Tasks.Reducer.Limits.{WithinLimits, Reachable-WithinLimits}
use kolyan.Tasks.Reducer.Derived.{Reads, apply-Reads}
use kolyan.Tasks.Attempts.Start.{start, last_cursor}
use kolyan.Tasks.Attempts.Observe.{observe, is_open}
use kolyan.Tasks.Attempts.Progress.{observe_advances, observe_ceiling}

abbrev registered : TaskSnapshot ℕ
registered = after (TaskEvent.registered two_step ∷ [])

abbrev with_root : TaskSnapshot ℕ
with_root =
    after (TaskEvent.registered two_step ∷ TaskEvent.invocation_admitted root_invocation ∷ [])

abbrev with_both : TaskSnapshot ℕ
with_both = after admitted_both

abbrev story : List (TaskEvent ℕ)
story =
    started_both
    ++ child_completed
      ∷ TaskEvent.result_consumed "root" child_result
      ∷ root_completed
      ∷ TaskEvent.completed root_evidence
      ∷ []

story_completes : (after story).state ≡ TaskState.completed
unfolding run
story_completes = refl

registers_first : apply serde none (TaskEvent.registered two_step) (fact_at 1 6) ≡ ok registered
unfolding run
registers_first = refl

admits_root :
    apply serde (some registered) (TaskEvent.invocation_admitted root_invocation) (fact_at 2 6)
    ≡ ok with_root
unfolding run
admits_root = refl

admits_child :
    apply serde (some with_root) (TaskEvent.invocation_admitted child_invocation) (fact_at 3 6)
    ≡ ok with_both
unfolding run
admits_child = refl

root-Reachable : Reachable serde with_root
root-Reachable =
    takes (TaskEvent.invocation_admitted root_invocation) (fact_at 2 6) with_root
      (registers two_step (fact_at 1 6) registered registers_first) admits_root

both-Reachable : Reachable serde with_both
both-Reachable =
    takes (TaskEvent.invocation_admitted child_invocation) (fact_at 3 6) with_both root-Reachable
      admits_child

Reachable-IsValid_example : IsValid (topology with_both)
Reachable-IsValid_example = Reachable-IsValid serde both-Reachable

apply-Step_example : Step (topology with_root) (topology with_both)
apply-Step_example =
    apply-Step serde with_root (TaskEvent.invocation_admitted child_invocation) (fact_at 3 6)
      with_both admits_child

search-Reaches_example :
    (hit : Bool) × (seen : List String) × (search with_both "root" "child" ≡ some (hit, seen))
    × ((hit ≡ true) ↔ Reaches (topology with_both) "root" "child")
search-Reaches_example = search-Reaches with_both "root" "child"

apply_returns_example :
    apply serde (some with_both) (TaskEvent.attempt_started root_binding) (fact_at 4 6) ≢ panic
apply_returns_example =
    apply_returns serde with_both (TaskEvent.attempt_started root_binding) (fact_at 4 6)
      both-Reachable

Reachable-WithinLimits_example : WithinLimits with_both
Reachable-WithinLimits_example = Reachable-WithinLimits serde with_both both-Reachable

apply-Reads_example :
    Reads with_both × (with_both.position ≡ 3) × (with_both.definition ≡ with_root.definition)
apply-Reads_example =
    apply-Reads serde with_root (TaskEvent.invocation_admitted child_invocation) (fact_at 3 6)
      with_both admits_child

-- The state that a command leaves before `refresh`.
abbrev left_by : TaskResult (TaskSnapshot ℕ) → TaskSnapshot ℕ
left_by (ok state) = state
left_by _ = with_both

abbrev root_started : TaskSnapshot ℕ
root_started = left_by (start with_both root_binding)

abbrev both_started : TaskSnapshot ℕ
both_started = after started_both

abbrev child_seen : AttemptObservation
child_seen = seen child_binding 2 (AttemptOutcome.completed [])

abbrev child_observed : TaskSnapshot ℕ
child_observed = left_by (observe both_started child_seen (fact_at 6 6))

observes_child : observe both_started child_seen (fact_at 6 6) ≡ ok child_observed
unfolding run
observes_child = refl

observe_advances_example :
    (a : AttemptSnapshot) × (a' : AttemptSnapshot) × (Map.get "attempt-child" both_started.attempts
      ≡ some a)
    × (Map.get "attempt-child" child_observed.attempts ≡ some a')
    × (is_open a.state ≡ true)
    × (child_seen.execution ≡ a.binding.execution)
    × (a'.binding ≡ a.binding)
    × (a'.observation ≡ some child_seen)
    × (last_cursor a < last_cursor a')
    × (child_observed.usage.input_tokens ≡ both_started.usage.input_tokens + 10)
    × (child_observed.usage.output_tokens ≡ both_started.usage.output_tokens + 5)
    × (child_observed.usage.unreported_steps ≡ both_started.usage.unreported_steps + 0)
observe_advances_example =
    observe_advances both_started child_seen (fact_at 6 6) child_observed observes_child

has_ceiling : both_started.definition.limits.max_tokens ≡ some 1000
unfolding run
has_ceiling = refl

observe_ceiling_example :
    (child_observed.state ≡ TaskState.failed)
    ⊎ (is_terminal both_started.state ≡ true)
    ⊎ ((child_observed.usage.input_tokens + child_observed.usage.output_tokens ≤ 1000)
        × (child_observed.usage.unreported_steps ≡ 0))
observe_ceiling_example =
    observe_ceiling both_started child_seen (fact_at 6 6) child_observed 1000 has_ceiling
      observes_child

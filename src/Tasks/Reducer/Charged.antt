-- ===== src/Tasks/Reducer/Charged.antt =====
-- Once a task has a budget of steps, every attempt has its reservation.
use kolyan.Prelude.{
  ℕ, ◌≡◌, refl, sym, subst, ap, String, String-Eq, true, Option, none, some, [], ◌∷◌, is_empty, ok,
  ◌>>=◌, >>=-eq-ok, >>-eq-ok, >>=-ok-eq-ok, arith, Option-cases, inl, inr,
}
use kolyan.Prelude.Map
use kolyan.Prelude.Map.{Map, get-insert, get-update}
use kolyan.Ledger.{FactRecord}
use kolyan.Tasks.Types.{
  AttemptBinding, TaskStepReservation, TaskExecutionBudgetPolicy, TaskExecutionBudgetState,
  AttemptSnapshot, TaskSnapshot, TaskEvent, Serde,
}
use kolyan.Tasks.Validation.{reason}
use kolyan.Tasks.Dependencies.{add_dependency}
use kolyan.Tasks.Admission.{admit}
use kolyan.Tasks.Results.{consume, consume_terminal}
use kolyan.Tasks.Budget.{check_configure, configure, reserve, check_reserve, reserved}
use kolyan.Tasks.Attempts.Start.{
  check_start, check_retry, authorize_retry, check_resume, resume, fresh_attempt, start, started,
}
use kolyan.Tasks.Attempts.Observe.{check_observe, observe}
use kolyan.Tasks.Completion.{cancel_invocations, cancelled_task, complete, cancel}
use kolyan.Tasks.Goals.{apply_assessment, refresh_goals}
use kolyan.Tasks.Reducer.{check_recovery, require_recovery, dispatch, refresh}
use kolyan.Tasks.Reducer.Shape.{topology-cancelled}
use kolyan.Tasks.Reducer.Reachable.{
  Reachable, registers, takes, skips, apply_first, apply_next, transition_task-eq-ok,
}

abbrev pub slot_binding : Option TaskStepReservation → Option AttemptBinding
slot_binding none = none
slot_binding (some slot) = some slot.binding

-- Every attempt has a reservation of its own binding.
pub record IsCharged {V : Type 0} (s : TaskSnapshot V) : Type 0 where
  pub slot :
      (budget : TaskExecutionBudgetState) (id : String) (a : AttemptSnapshot)
      → s.execution_budget ≡ some budget
      → Map.get id s.attempts ≡ some a
      → slot_binding (Map.get id budget.reservations) ≡ some a.binding

get-empty : (id : String) (m : Map AttemptSnapshot) → is_empty m ≡ true → Map.get id m ≡ none
unfolding Map.get
get-empty id [] h = refl
get-empty id (e ∷ m) h = cc

check_reserve_found :
    {V : Type 0} (s : TaskSnapshot V) (b : AttemptBinding) (n : ℕ) (fact : FactRecord V)
    (budget : TaskExecutionBudgetState)
    → check_reserve s b n fact ≡ ok budget
    → s.execution_budget ≡ some budget
unfolding check_reserve
check_reserve_found s b n fact budget h = ground arith

module _ {V : Type 0} (s : TaskSnapshot V) (c : IsCharged s) where
  configure-IsCharged :
      (p : TaskExecutionBudgetPolicy) (fact : FactRecord V) (s' : TaskSnapshot V)
      → configure s p fact ≡ ok s'
      → IsCharged s'
  unfolding configure check_configure
  configure-IsCharged p fact s' h = record {
    slot = λ budget id a b f. ground (arith, get-empty id s.attempts);
  }

  budgeted-IsCharged :
      (b : AttemptBinding) (n : ℕ) (fact : FactRecord V) (s' : TaskSnapshot V)
      → (reserve s b n fact >>= λ charged. start charged b) ≡ ok s'
      → IsCharged s'
  unfolding reserve start
  budgeted-IsCharged b n fact s' h =
      let (charged, first, second) = >>=-eq-ok (reserve s b n fact) _ h in
      let (old, checked, e) = >>=-ok-eq-ok (check_reserve s b n fact) (reserved s b n) first in
      let (inv, _, e') = >>=-ok-eq-ok (check_start charged b) (started charged b) second in
      let slot : TaskStepReservation = record { binding = b; max_steps = n } in
      let found = check_reserve_found s b n fact old checked in
      record {
        slot = λ budget id a g f. ground (
          arith,
          get-insert b.attempt_id id slot old.reservations,
          get-insert b.attempt_id id (fresh_attempt b) s.attempts,
          c.slot old id a found,
        );
      }

  cancel-IsCharged : (why : String) (s' : TaskSnapshot V) → cancel s why ≡ ok s' → IsCharged s'
  unfolding cancel
  cancel-IsCharged why s' h =
      let (_, rest) = >>-eq-ok (reason why) _ h in
      let (found, second, e) =
        >>=-ok-eq-ok (cancel_invocations s.definition.cancellation_policy s.invocations s.attempts)
          (cancelled_task s) rest in
      let kept = topology-cancelled s found second in
      record {
        slot = λ budget id a g f. elim (Option-cases (Map.get id s.attempts)) [
          | inl h' ↦ ground (arith, ap (λ t. t.attempt id) kept)
          | inr (old, h') ↦ ground (arith, ap (λ t. t.attempt id) kept, c.slot budget id old)
        ];
      }

  dispatch-IsCharged :
      (serde : Serde V) (event : TaskEvent V) (fact : FactRecord V) (s' : TaskSnapshot V)
      → dispatch serde s event fact ≡ ok s'
      → IsCharged s'
  unfolding dispatch apply_assessment add_dependency admit start observe check_observe resume
      check_resume require_recovery check_recovery authorize_retry check_retry consume
      consume_terminal complete
  dispatch-IsCharged serde (TaskEvent.execution_budget_configured p) fact s' h =
      configure-IsCharged p fact s' h
  dispatch-IsCharged serde (TaskEvent.budgeted_attempt_started b n) fact s' h =
      budgeted-IsCharged b n fact s' h
  dispatch-IsCharged serde (TaskEvent.cancelled why) fact s' h = cancel-IsCharged why s' h
  dispatch-IsCharged serde event fact s' h = record {
    slot = λ budget id a g f. grind (arith, c.slot budget id, get-update {V = AttemptSnapshot});
  }

refresh-IsCharged :
    {V : Type 0} (s s' : TaskSnapshot V) → refresh s ≡ ok s' → IsCharged s → IsCharged s'
unfolding refresh refresh_goals
refresh-IsCharged s s' h c = record { slot = λ budget id a g f. ground (arith, c.slot budget id a) }

-- In every state that a task can be in, if it has a budget of steps, each of its attempts has a
-- reservation in the budget, made for the binding of that attempt.
pub Reachable-IsCharged :
    {V : Type 0} (serde : Serde V) (s : TaskSnapshot V) → Reachable serde s → IsCharged s
Reachable-IsCharged serde s (registers d fact _ h) =
    let (_, e) = apply_first serde d fact s h in
    subst IsCharged (sym e) (record { slot = λ budget id a g f. cc })
Reachable-IsCharged serde s (takes {s = before} event fact _ r h) =
    let (_, next, dispatched, refreshed) =
      transition_task-eq-ok serde before event fact s (apply_next serde before event fact s h) in
    let kept =
      dispatch-IsCharged before (Reachable-IsCharged serde before r) serde event fact next
        dispatched in
    refresh-IsCharged (record next { position = fact.position }) s refreshed
      (record { slot = λ budget id a g f. kept.slot budget id a g f })
Reachable-IsCharged serde _ (skips {s = s} position r) =
    let kept = Reachable-IsCharged serde s r in
    record { slot = λ budget id a g f. kept.slot budget id a g f }

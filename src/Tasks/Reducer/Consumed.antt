-- ===== src/Tasks/Reducer/Consumed.antt =====
-- The events of tasks/reducer.rs that consume the result of a child, in a run of events.
use kolyan.Prelude.{
  ℕ, ◌≡◌, ◌≢◌, sym, ap, ◌∙◌, String, String-Eq, true, false, some, ok, >>=-eq-ok, >>-eq-ok,
  >>=-ok-eq-ok, arith, Option-cases, inl, inr,
}
use kolyan.Prelude.Map
use kolyan.Prelude.Map.{Map, get-insert, get-update}
use kolyan.Ledger.{FactRecord}
use kolyan.Tasks.Types.{
  AttemptBinding, ConsumedResult, ConsumedTerminalResult, InvocationSnapshot, TaskSnapshot,
  TaskEvent, Serde,
}
use kolyan.Tasks.Validation.{reason, available_id}
use kolyan.Tasks.Dependencies.{has_consumed, with_invocation, add_dependency, check_dependency}
use kolyan.Tasks.Admission.{admit, check_admit}
use kolyan.Tasks.Results.{
  with_terminal_result, consume, consume_terminal, check_consume, check_terminal,
}
use kolyan.Tasks.Results.Once.{
  has_result, check_terminal_new, consume_new, consume_terminal_new, consume_has,
  consume_terminal_has,
}
use kolyan.Tasks.Budget.{configure, reserve}
use kolyan.Tasks.Attempts.Start.{
  check_start, check_retry, authorize_retry, check_resume, resume, start,
}
use kolyan.Tasks.Attempts.Observe.{check_observe, observe}
use kolyan.Tasks.Completion.{cancel_invocations, cancelled_task, complete, cancel}
use kolyan.Tasks.Completion.Reached.{cancel_invocations_states}
use kolyan.Tasks.Goals.{apply_assessment, refresh_goals}
use kolyan.Tasks.Reducer.{check_recovery, require_recovery, dispatch, refresh, apply}
use kolyan.Tasks.Reducer.Reachable.{apply_next, transition_task-eq-ok}

start-has_result :
    {V : Type 0} (s s' : TaskSnapshot V) (id child : String) (b : AttemptBinding)
    → start s b ≡ ok s'
    → has_result s id child ≡ true
    → has_result s' id child ≡ true
unfolding start check_start has_consumed
start-has_result s s' id child b h has = grind (arith, get-update {V = InvocationSnapshot})

reserve-has_result :
    {V : Type 0} (s s' : TaskSnapshot V) (id child : String) (b : AttemptBinding) (n : ℕ)
    (fact : FactRecord V)
    → reserve s b n fact ≡ ok s'
    → has_result s id child ≡ true
    → has_result s' id child ≡ true
unfolding reserve
reserve-has_result s s' id child b n fact h has = ground arith

terminal-has_result :
    {V : Type 0} (s s' : TaskSnapshot V) (id child consumer : String) (r : ConsumedTerminalResult)
    (fact : FactRecord V)
    → consume_terminal s consumer r fact ≡ ok s'
    → has_result s id child ≡ true
    → has_result s' id child ≡ true
unfolding consume_terminal has_consumed
terminal-has_result s s' id child consumer r fact h has =
    let (inv, checked, e) =
      >>=-ok-eq-ok (check_terminal s consumer r fact)
        (λ i. with_invocation s consumer (with_terminal_result i r)) h in
    let (found, _) = check_terminal_new s consumer r fact inv checked in
    ground (
      arith,
      get-update consumer id (with_terminal_result inv r) s.invocations,
      get-insert r.child.invocation_id child r inv.terminal_consumed_results,
    )

module _ {V : Type 0} (s : TaskSnapshot V) (id child : String)
    (has : has_result s id child ≡ true) where
  dispatch-has_result :
      (serde : Serde V) (event : TaskEvent V) (fact : FactRecord V) (s' : TaskSnapshot V)
      → dispatch serde s event fact ≡ ok s'
      → has_result s' id child ≡ true
  unfolding dispatch cancel apply_assessment add_dependency check_dependency admit check_admit
      available_id start check_start observe check_observe resume check_resume require_recovery
      check_recovery authorize_retry check_retry consume check_consume check_terminal
      consume_terminal complete configure reserve has_consumed
  dispatch-has_result serde (TaskEvent.cancelled why) fact s' h =
      let (_, rest) = >>-eq-ok (reason why) _ h in
      let (found, second, e) =
        >>=-ok-eq-ok (cancel_invocations s.definition.cancellation_policy s.invocations s.attempts)
          (cancelled_task s) rest in
      elim (Option-cases (Map.get id s.invocations)) [
        | inl none' ↦ ground arith
        | inr (inv, there) ↦
            let after =
              cancel_invocations_states s.definition.cancellation_policy id s.invocations s.attempts
                found inv second there in
            ground (arith, ap (λ t. Map.get id t.invocations) e, after)
      ]
  dispatch-has_result serde (TaskEvent.budgeted_attempt_started b n) fact s' h =
      let (charged, first, second) = >>=-eq-ok (reserve s b n fact) _ h in
      start-has_result charged s' id child b second
        (reserve-has_result s charged id child b n fact first has)
  dispatch-has_result serde (TaskEvent.invocation_admitted d) fact s' h =
      grind (arith, get-insert {V = InvocationSnapshot})
  dispatch-has_result serde (TaskEvent.result_consumed d r) fact s' h =
      grind (arith, get-update {V = InvocationSnapshot}, get-insert {V = ConsumedResult})
  dispatch-has_result serde (TaskEvent.terminal_result_consumed d r) fact s' h =
      terminal-has_result s s' id child d r fact h has
  dispatch-has_result serde event fact s' h = grind (arith, get-update {V = InvocationSnapshot})

refresh-has_result :
    {V : Type 0} (s s' : TaskSnapshot V) (id child : String)
    → refresh s ≡ ok s'
    → has_result s id child ≡ true
    → has_result s' id child ≡ true
unfolding refresh refresh_goals
refresh-has_result s s' id child h has = ground arith

module _ {V : Type 0} (serde : Serde V) where
  -- The states that a task gets to from a state, by events that it takes and by records that a
  -- replay goes past.
  pub data Later (s : TaskSnapshot V) : TaskSnapshot V → Type 0 where
    now : Later s s
    then_takes :
        {t : TaskSnapshot V} (event : TaskEvent V) (fact : FactRecord V) (t' : TaskSnapshot V)
        → Later s t
        → apply serde (some t) event fact ≡ ok t'
        → Later s t'
    then_skips :
        {t : TaskSnapshot V} (position : ℕ) → Later s t → Later s (record t { position = position })

  -- An event by which an invocation consumes the result of a child, in either form.
  pub data Consumes (id child : String) : TaskEvent V → Type 0 where
    completed :
        (r : ConsumedResult)
        → r.child_invocation_id ≡ child
        → Consumes id child (TaskEvent.result_consumed id r)
    terminal :
        (r : ConsumedTerminalResult)
        → r.child.invocation_id ≡ child
        → Consumes id child (TaskEvent.terminal_result_consumed id r)

  apply-has_result :
      (s s' : TaskSnapshot V) (id child : String) (event : TaskEvent V) (fact : FactRecord V)
      → apply serde (some s) event fact ≡ ok s'
      → has_result s id child ≡ true
      → has_result s' id child ≡ true
  apply-has_result s s' id child event fact h has =
      let (_, next, dispatched, refreshed) =
        transition_task-eq-ok serde s event fact s' (apply_next serde s event fact s' h) in
      refresh-has_result (record next { position = fact.position }) s' id child refreshed
        (dispatch-has_result s id child has serde event fact next dispatched)

  Later-has_result :
      (s t : TaskSnapshot V) (id child : String)
      → Later s t
      → has_result s id child ≡ true
      → has_result t id child ≡ true
  Later-has_result s _ id child now has = has
  Later-has_result s _ id child (then_takes {t = t} event fact t' l h) has =
      apply-has_result t t' id child event fact h (Later-has_result s t id child l has)
  Later-has_result s _ id child (then_skips {t = t} position l) has =
      Later-has_result s t id child l has

  dispatch-Consumes :
      (s s' : TaskSnapshot V) (id child : String) (event : TaskEvent V) (fact : FactRecord V)
      → Consumes id child event
      → dispatch serde s event fact ≡ ok s'
      → (has_result s id child ≡ false) × (has_result s' id child ≡ true)
  unfolding dispatch
  dispatch-Consumes s s' id child _ fact (completed r e) h = (
    ap (has_result s id) (sym e) ∙ consume_new s id r fact s' h,
    ap (has_result s' id) (sym e) ∙ consume_has s id r fact s' h,
  )
  dispatch-Consumes s s' id child _ fact (terminal r e) h = (
    ap (has_result s id) (sym e) ∙ consume_terminal_new s id r fact s' h,
    ap (has_result s' id) (sym e) ∙ consume_terminal_has s id r fact s' h,
  )

  -- Once a task has taken an event by which an invocation consumes the result of a child, in either
  -- form, it takes no other such event of this invocation and this child, in either form, whatever
  -- it has taken in between.
  pub consumed_once :
      (s s' t u : TaskSnapshot V) (id child : String) (first second : TaskEvent V)
      (fact next : FactRecord V)
      → Consumes id child first
      → apply serde (some s) first fact ≡ ok s'
      → Later s' t
      → Consumes id child second
      → apply serde (some t) second next ≢ ok u
  consumed_once s s' t u id child first second fact next c h l c' again =
      let (_, m, dispatched, refreshed) =
        transition_task-eq-ok serde s first fact s' (apply_next serde s first fact s' h) in
      let has : has_result t id child ≡ true = Later-has_result s' t id child l (
        refresh-has_result (record m { position = fact.position }) s' id child refreshed
          (dispatch-Consumes s m id child first fact c dispatched).1) in
      let (_, n, taken, _) =
        transition_task-eq-ok serde t second next u (apply_next serde t second next u again) in
      cc (sym has ∙ (dispatch-Consumes t n id child second next c' taken).0)

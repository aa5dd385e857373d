-- ===== src/Tasks/Reducer/Terminal.antt =====
-- A task that has ended.
use kolyan.Prelude.{
  ◌≡◌, refl, sym, subst, String, true, false, not, ◌||◌, ◌&&◌, some, length, ok, >>=-ok-eq-ok,
  arith,
}
use kolyan.Prelude.Map.{length-update}
use kolyan.Ledger.{FactRecord}
use kolyan.Tasks.Types.{
  AttemptBinding, AttemptObservation, InvocationState, InvocationSnapshot, AttemptSnapshot,
  TaskSnapshot, is_terminal, TaskEvent, Serde,
}
use kolyan.Tasks.Attempts.Start.{check_resume, resumed_attempt, with_states, resume}
use kolyan.Tasks.Attempts.Observe.{
  check_observe, observed_attempt, observed_invocation, observe, state_after_usage,
}
use kolyan.Tasks.Goals.{refresh_goals}
use kolyan.Tasks.Reducer.Reachable.{apply_next, transition_task-eq-ok}
use kolyan.Tasks.Reducer.{
  require_recovery, is_late_report, is_detached_resume, dispatch, refresh, apply, broken_attempt,
  check_recovery,
}

-- What stays as it is.
pub record Stays {V : Type 0} (s s' : TaskSnapshot V) : Type 0 where
  pub state : s'.state ≡ s.state
  pub success_evidence : s'.success_evidence ≡ s.success_evidence
  pub invocations : length s'.invocations ≡ length s.invocations
  pub attempts : length s'.attempts ≡ length s.attempts

module _ {V : Type 0} (s : TaskSnapshot V) where
  observe-Stays :
      (o : AttemptObservation) (fact : FactRecord V) (s' : TaskSnapshot V)
      → is_terminal s.state ≡ true
      → observe s o fact ≡ ok s'
      → Stays s s'
  unfolding observe state_after_usage
  observe-Stays o fact s' t h =
      let (found, _, e) = >>=-ok-eq-ok (check_observe s o) _ h in
      let attempts =
        length-update o.attempt_id (observed_attempt found.attempt o found.next) s.attempts in
      let invocations =
        length-update found.attempt.binding.invocation_id
          (observed_invocation found.inv found.next fact) s.invocations in
      record {
        state = ground arith;
        success_evidence = ground arith;
        invocations = ground arith;
        attempts = ground arith;
      }

  with_states-Stays :
      (id : String) (a : AttemptSnapshot) (next : InvocationState) (inv : InvocationSnapshot)
      → Stays s (with_states s id a next inv)
  with_states-Stays id a next inv = record {
    state = refl;
    success_evidence = refl;
    invocations = length-update a.binding.invocation_id (record inv { state = next }) s.invocations;
    attempts = length-update id a s.attempts;
  }

  resume-Stays :
      (b : AttemptBinding) (c : String) (s' : TaskSnapshot V) → resume s b c ≡ ok s' → Stays s s'
  unfolding resume
  resume-Stays b c s' h =
      let (found, _, e) = >>=-ok-eq-ok (check_resume s b c) _ h in
      subst (Stays s) (sym e)
        (with_states-Stays b.attempt_id (resumed_attempt found.0) InvocationState.running found.1)

  require_recovery-Stays :
      (id why : String) (s' : TaskSnapshot V) → require_recovery s id why ≡ ok s' → Stays s s'
  unfolding require_recovery
  require_recovery-Stays id why s' h =
      let (found, _, e) = >>=-ok-eq-ok (check_recovery s id why) _ h in
      subst (Stays s) (sym e) (
        with_states-Stays id (broken_attempt found.0 why) InvocationState.recovery_required found.1)

  refresh-Stays :
      (s' : TaskSnapshot V) → is_terminal s.state ≡ true → refresh s ≡ ok s' → Stays s s'
  unfolding refresh refresh_goals
  refresh-Stays s' t h = ground arith

  late_only :
      (event : TaskEvent V)
      → is_terminal s.state ≡ true
      → is_terminal s.state && not (is_detached_resume s event) && not (is_late_report event)
        ≡ false
      → is_late_report event || is_detached_resume s event ≡ true
  late_only event t accepted = ground arith

  dispatch-Stays :
      (serde : Serde V) (event : TaskEvent V) (fact : FactRecord V) (s' : TaskSnapshot V)
      → is_terminal s.state ≡ true
      → is_late_report event || is_detached_resume s event ≡ true
      → dispatch serde s event fact ≡ ok s'
      → Stays s s'
  unfolding dispatch is_late_report is_detached_resume
  dispatch-Stays serde (TaskEvent.attempt_observed o) fact s' t late h = observe-Stays o fact s' t h
  dispatch-Stays serde (TaskEvent.attempt_resumed b c) fact s' t late h = resume-Stays b c s' h
  dispatch-Stays serde (TaskEvent.recovery_needed id why) fact s' t late h =
      require_recovery-Stays id why s' h
  dispatch-Stays serde event fact s' t late h = cc

-- A task that has ended takes nothing but a late report of an attempt or the resumption of a
-- detached child, and then its state, its evidence of success and the numbers of its invocations
-- and attempts stay as they are.
pub terminal_absorbs :
    {V : Type 0} (serde : Serde V) (s : TaskSnapshot V) (event : TaskEvent V) (fact : FactRecord V)
    (s' : TaskSnapshot V)
    → is_terminal s.state ≡ true
    → apply serde (some s) event fact ≡ ok s'
    → (is_late_report event || is_detached_resume s event ≡ true) × Stays s s'
terminal_absorbs serde s event fact s' t h =
    let checked = apply_next serde s event fact s' h in
    let (accepted, next, dispatched, refreshed) =
      transition_task-eq-ok serde s event fact s' checked in
    let late = late_only s event t accepted in
    let kept = dispatch-Stays s serde event fact next t late dispatched in
    let last =
      refresh-Stays (record next { position = fact.position }) s' (ground arith) refreshed in
    (late, ground arith)

-- ===== src/Tasks/Reducer/Commands.antt =====
-- What the commands that write to an attempt or an invocation are in the abstract view.
use kolyan.Prelude.{◌≡◌, refl, sym, subst, String, some, ok, >>-eq-ok, >>=-ok-eq-ok, arith}
use kolyan.Prelude.Map
use kolyan.Prelude.Map.{Map}
use kolyan.Ledger.{FactRecord}
use kolyan.Tasks.Types.{
  AttemptBinding, AttemptObservation, AttemptSnapshot, InvocationSnapshot, InvocationState,
  ConsumedResult, ConsumedTerminalResult, ExecutionEvidence, TaskSnapshot,
}
use kolyan.Tasks.Topology.{topology, Step, same}
use kolyan.Tasks.Validation.{reason}
use kolyan.Tasks.Dependencies.{with_invocation}
use kolyan.Tasks.Results.{
  with_result, with_terminal_result, check_consume, consume, check_terminal, consume_terminal,
}
use kolyan.Tasks.Attempts.Start.{
  check_retry, authorized_attempt, authorize_retry, check_resume, resumed_attempt, resume,
  with_states,
}
use kolyan.Tasks.Attempts.Observe.{
  Observed, check_observe, observed_attempt, observed_invocation, observed, observe,
}
use kolyan.Tasks.Completion.{cancel_invocations, cancelled_task, cancel}
use kolyan.Tasks.Reducer.{broken_attempt, check_recovery, require_recovery}
use kolyan.Tasks.Reducer.Shape.{topology-with_invocation, topology-write, topology-cancelled}

module _ {V : Type 0} (s : TaskSnapshot V) where
  -- A command that leaves the topology.
  pub still :
      (s' w : TaskSnapshot V) → s' ≡ w → topology w ≡ topology s → Step (topology s) (topology s')
  still s' w e t = same (subst (λ u. topology u ≡ topology s) (sym e) t)

  check_consume_found :
      (id : String) (r : ConsumedResult) (fact : FactRecord V) (inv : InvocationSnapshot)
      → check_consume s id r fact ≡ ok inv
      → Map.get id s.invocations ≡ some inv
  unfolding check_consume
  check_consume_found id r fact inv h = ground arith

  check_terminal_found :
      (id : String) (r : ConsumedTerminalResult) (fact : FactRecord V) (inv : InvocationSnapshot)
      → check_terminal s id r fact ≡ ok inv
      → Map.get id s.invocations ≡ some inv
  unfolding check_terminal
  check_terminal_found id r fact inv h = ground arith

  -- The attempt and the invocation that a command is about.
  record Found (id : String) (attempt : AttemptSnapshot) (inv : InvocationSnapshot) : Type 0 where
    attempt_found : Map.get id s.attempts ≡ some attempt
    inv_found : Map.get attempt.binding.invocation_id s.invocations ≡ some inv

  check_observe_found :
      (o : AttemptObservation) (found : Observed)
      → check_observe s o ≡ ok found
      → (Map.get o.attempt_id s.attempts ≡ some found.attempt)
        × (Map.get found.attempt.binding.invocation_id s.invocations ≡ some found.inv)
  unfolding check_observe
  check_observe_found o found h = ground arith

  check_retry_found :
      (id : String) (source : ExecutionEvidence) (why : String)
      (found : AttemptSnapshot × InvocationSnapshot)
      → check_retry s id source why ≡ ok found
      → (Map.get id s.attempts ≡ some found.0)
        × (Map.get found.0.binding.invocation_id s.invocations ≡ some found.1)
  unfolding check_retry
  check_retry_found id source why found h = ground arith

  check_resume_found :
      (b : AttemptBinding) (checkpoint : String) (found : AttemptSnapshot × InvocationSnapshot)
      → check_resume s b checkpoint ≡ ok found
      → (Map.get b.attempt_id s.attempts ≡ some found.0)
        × (Map.get found.0.binding.invocation_id s.invocations ≡ some found.1)
  unfolding check_resume
  check_resume_found b checkpoint found h = ground arith

  check_recovery_found :
      (id why : String) (found : AttemptSnapshot × InvocationSnapshot)
      → check_recovery s id why ≡ ok found
      → (Map.get id s.attempts ≡ some found.0)
        × (Map.get found.0.binding.invocation_id s.invocations ≡ some found.1)
  unfolding check_recovery
  check_recovery_found id why found h = ground arith

  topology-with_states :
      (id : String) (attempt attempt' : AttemptSnapshot) (next : InvocationState)
      (inv : InvocationSnapshot)
      → Map.get id s.attempts ≡ some attempt
      → Map.get attempt.binding.invocation_id s.invocations ≡ some inv
      → attempt'.binding ≡ attempt.binding
      → topology (with_states s id attempt' next inv) ≡ topology s
  topology-with_states id attempt attempt' next inv fa fi b =
      topology-write s id attempt attempt' inv (record inv { state = next })
        (with_states s id attempt' next inv) fa fi b refl refl refl (rw b refl)

  pub consume-Step :
      (id : String) (r : ConsumedResult) (fact : FactRecord V) (s' : TaskSnapshot V)
      → consume s id r fact ≡ ok s'
      → Step (topology s) (topology s')
  unfolding consume
  consume-Step id r fact s' h =
      let (inv, checked, e) =
        >>=-ok-eq-ok (check_consume s id r fact) (λ i. with_invocation s id (with_result i r)) h in
      still s' (with_invocation s id (with_result inv r)) e (
        topology-with_invocation s id inv (with_result inv r)
          (check_consume_found id r fact inv checked) refl refl)

  pub consume_terminal-Step :
      (id : String) (r : ConsumedTerminalResult) (fact : FactRecord V) (s' : TaskSnapshot V)
      → consume_terminal s id r fact ≡ ok s'
      → Step (topology s) (topology s')
  unfolding consume_terminal
  consume_terminal-Step id r fact s' h =
      let (inv, checked, e) =
        >>=-ok-eq-ok (check_terminal s id r fact)
          (λ i. with_invocation s id (with_terminal_result i r)) h in
      still s' (with_invocation s id (with_terminal_result inv r)) e (
        topology-with_invocation s id inv (with_terminal_result inv r)
          (check_terminal_found id r fact inv checked) refl refl)

  pub observe-Step :
      (o : AttemptObservation) (fact : FactRecord V) (s' : TaskSnapshot V)
      → observe s o fact ≡ ok s'
      → Step (topology s) (topology s')
  unfolding observe
  observe-Step o fact s' h =
      let (found, checked, e) = >>=-ok-eq-ok (check_observe s o) (observed s o fact) h in
      let (fa, fi) = check_observe_found o found checked in
      still s' (observed s o fact found) e (
        topology-write s o.attempt_id found.attempt (observed_attempt found.attempt o found.next)
          found.inv (observed_invocation found.inv found.next fact) (observed s o fact found) fa fi
          refl refl refl refl refl)

  pub resume-Step :
      (b : AttemptBinding) (checkpoint : String) (s' : TaskSnapshot V)
      → resume s b checkpoint ≡ ok s'
      → Step (topology s) (topology s')
  unfolding resume
  resume-Step b checkpoint s' h =
      let (found, checked, e) = >>=-ok-eq-ok (check_resume s b checkpoint) _ h in
      let (fa, fi) = check_resume_found b checkpoint found checked in
      still s' _ e (
        topology-with_states b.attempt_id found.0 (resumed_attempt found.0) InvocationState.running
          found.1 fa fi refl)

  pub authorize_retry-Step :
      (id : String) (source : ExecutionEvidence) (why : String) (s' : TaskSnapshot V)
      → authorize_retry s id source why ≡ ok s'
      → Step (topology s) (topology s')
  unfolding authorize_retry
  authorize_retry-Step id source why s' h =
      let (found, checked, e) = >>=-ok-eq-ok (check_retry s id source why) _ h in
      let (fa, fi) = check_retry_found id source why found checked in
      still s' _ e (
        topology-with_states id found.0 (authorized_attempt found.0) InvocationState.failed found.1
          fa fi refl)

  pub require_recovery-Step :
      (id why : String) (s' : TaskSnapshot V)
      → require_recovery s id why ≡ ok s'
      → Step (topology s) (topology s')
  unfolding require_recovery
  require_recovery-Step id why s' h =
      let (found, checked, e) = >>=-ok-eq-ok (check_recovery s id why) _ h in
      let (fa, fi) = check_recovery_found id why found checked in
      still s' _ e (
        topology-with_states id found.0 (broken_attempt found.0 why)
          InvocationState.recovery_required found.1 fa fi refl)

  pub cancel-Step :
      (why : String) (s' : TaskSnapshot V) → cancel s why ≡ ok s' → Step (topology s) (topology s')
  unfolding cancel
  cancel-Step why s' h =
      let (_, rest) = >>-eq-ok (reason why) _ h in
      let (found, second, e) =
        >>=-ok-eq-ok (cancel_invocations s.definition.cancellation_policy s.invocations s.attempts)
          (cancelled_task s) rest in
      still s' (cancelled_task s found) e (topology-cancelled s found second)

-- ===== src/Tasks/Results/Once.antt =====
-- `consume` and `consume_terminal` of tasks/reducer/topology.rs: what is consumed before and after.
use kolyan.Prelude.{
  ◌≡◌, String, String-Eq, Bool, true, false, some, is_some_and, ok, >>=-ok-eq-ok, arith,
}
use kolyan.Prelude.Map
use kolyan.Prelude.Map.{Map, get-update, get-insert}
use kolyan.Ledger.{FactRef-Eq, FactRecord}
use kolyan.Tasks.Types.{
  ConsumedResult, ConsumedTerminalResult, CompletionEvidence-Eq, InvocationSnapshot, TaskSnapshot,
}
use kolyan.Tasks.Dependencies.{has_consumed, with_invocation}
use kolyan.Tasks.Results.{
  with_result, with_terminal_result, check_consume, consume, check_terminal, consume_terminal,
}

module _ {V : Type 0} (s : TaskSnapshot V) (id : String) where
  check_consume_new :
      (r : ConsumedResult) (fact : FactRecord V) (inv : InvocationSnapshot)
      → check_consume s id r fact ≡ ok inv
      → (Map.get id s.invocations ≡ some inv) × (has_consumed inv r.child_invocation_id ≡ false)
  unfolding check_consume
  check_consume_new r fact inv h = ground arith

  pub check_terminal_new :
      (r : ConsumedTerminalResult) (fact : FactRecord V) (inv : InvocationSnapshot)
      → check_terminal s id r fact ≡ ok inv
      → (Map.get id s.invocations ≡ some inv) × (has_consumed inv r.child.invocation_id ≡ false)
  unfolding check_terminal
  check_terminal_new r fact inv h = ground arith

  -- The child's result is with the invocation.
  abbrev pub has_result : String → Bool
  has_result child = is_some_and (Map.get id s.invocations) (λ inv. has_consumed inv child)

  pub consume_new :
      (r : ConsumedResult) (fact : FactRecord V) (s' : TaskSnapshot V)
      → consume s id r fact ≡ ok s'
      → has_result r.child_invocation_id ≡ false
  unfolding consume
  consume_new r fact s' h =
      let (inv, checked, _) = >>=-ok-eq-ok (check_consume s id r fact) _ h in
      ground (arith, check_consume_new r fact inv checked)

  pub consume_terminal_new :
      (r : ConsumedTerminalResult) (fact : FactRecord V) (s' : TaskSnapshot V)
      → consume_terminal s id r fact ≡ ok s'
      → has_result r.child.invocation_id ≡ false
  unfolding consume_terminal
  consume_terminal_new r fact s' h =
      let (inv, checked, _) = >>=-ok-eq-ok (check_terminal s id r fact) _ h in
      ground (arith, check_terminal_new r fact inv checked)

  pub consume_has :
      (r : ConsumedResult) (fact : FactRecord V) (s' : TaskSnapshot V)
      → consume s id r fact ≡ ok s'
      → is_some_and (Map.get id s'.invocations) (λ inv. has_consumed inv r.child_invocation_id)
        ≡ true
  unfolding consume has_consumed
  consume_has r fact s' h =
      let (inv, checked, e) =
        >>=-ok-eq-ok (check_consume s id r fact) (λ i. with_invocation s id (with_result i r)) h in
      let (found, _) = check_consume_new r fact inv checked in
      ground (
        arith,
        get-update id id (with_result inv r) s.invocations,
        get-insert r.child_invocation_id r.child_invocation_id r inv.consumed_results,
      )

  pub consume_terminal_has :
      (r : ConsumedTerminalResult) (fact : FactRecord V) (s' : TaskSnapshot V)
      → consume_terminal s id r fact ≡ ok s'
      → is_some_and (Map.get id s'.invocations) (λ inv. has_consumed inv r.child.invocation_id)
        ≡ true
  unfolding consume_terminal has_consumed
  consume_terminal_has r fact s' h =
      let (inv, checked, e) =
        >>=-ok-eq-ok (check_terminal s id r fact)
          (λ i. with_invocation s id (with_terminal_result i r)) h in
      let (found, _) = check_terminal_new r fact inv checked in
      ground (
        arith,
        get-update id id (with_terminal_result inv r) s.invocations,
        get-insert r.child.invocation_id r.child.invocation_id r inv.terminal_consumed_results,
      )

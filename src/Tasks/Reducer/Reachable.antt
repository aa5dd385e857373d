-- ===== src/Tasks/Reducer/Reachable.antt =====
-- The states that a task can be in: what the reducer makes of a registration and of the events
-- after it. A snapshot of the service is one of these.
use kolyan.Prelude.{
  ℕ, ◌≡◌, sym, subst, false, none, some, ok, >>-eq-ok, >>=-ok-eq-ok, arith, ◌&&◌, not,
  reject_if-eq-ok, reject_if, >>=-eq-ok,
}
use kolyan.Prelude.Map
use kolyan.Ledger.{FactRecord}
use kolyan.Tasks.Types.{TaskDefinition, TaskSnapshot, TaskEvent, is_terminal, Serde}
use kolyan.Tasks.Topology.{topology, Step, IsValid}
use kolyan.Tasks.Topology.Valid.{Step-IsValid}
use kolyan.Tasks.Validation.{validate_definition}
use kolyan.Tasks.Reducer.{
  is_detached_resume, is_late_report, dispatch, refresh, registered_task, transition_task, apply,
}
use kolyan.Tasks.Reducer.Dispatch.{transition_task-Step}

module _ {V : Type 0} (serde : Serde V) where
  pub data Reachable : TaskSnapshot V → Type 0 where
    registers :
        (d : TaskDefinition V) (fact : FactRecord V) (s : TaskSnapshot V)
        → apply serde none (TaskEvent.registered d) fact ≡ ok s
        → Reachable s
    takes :
        {s : TaskSnapshot V} (event : TaskEvent V) (fact : FactRecord V) (s' : TaskSnapshot V)
        → Reachable s
        → apply serde (some s) event fact ≡ ok s'
        → Reachable s'
    -- A replay goes past a record that is not critical and not known to it.
    skips :
        {s : TaskSnapshot V} (position : ℕ)
        → Reachable s
        → Reachable (record s { position = position })

  pub apply_first :
      (d : TaskDefinition V) (fact : FactRecord V) (s : TaskSnapshot V)
      → apply serde none (TaskEvent.registered d) fact ≡ ok s
      → (validate_definition serde d ≡ ok tt) × (s ≡ registered_task d fact)
  unfolding apply
  apply_first d fact s h =
      let (_, checked, e) = >>=-ok-eq-ok (validate_definition serde d) _ h in (checked, e)

  pub apply_next :
      (s : TaskSnapshot V) (event : TaskEvent V) (fact : FactRecord V) (s' : TaskSnapshot V)
      → apply serde (some s) event fact ≡ ok s'
      → transition_task serde s event fact ≡ ok s'
  unfolding apply
  apply_next s event fact s' h = ground arith

  -- What `apply` does to a task that is registered: the test of a terminal task, the command, and
  -- `refresh`.
  pub transition_task-eq-ok :
      (s : TaskSnapshot V) (event : TaskEvent V) (fact : FactRecord V) (s' : TaskSnapshot V)
      → transition_task serde s event fact ≡ ok s'
      → (is_terminal s.state && not (is_detached_resume s event) && not (is_late_report event)
          ≡ false)
        × (next : TaskSnapshot V) × (dispatch serde s event fact ≡ ok next)
        × (refresh (record next { position = fact.position }) ≡ ok s')
  unfolding transition_task
  transition_task-eq-ok s event fact s' h =
      let (accepted, then1) = >>-eq-ok (reject_if _ _) _ h in
      let (next, dispatched, refreshed) = >>=-eq-ok (dispatch serde s event fact) _ then1 in
      (reject_if-eq-ok _ _ accepted, next, dispatched, refreshed)

  -- Every event that a registered task takes is one step of the abstract view: nothing, one new
  -- invocation, one new attempt, or one new dependency that closes no cycle.
  pub apply-Step :
      (s : TaskSnapshot V) (event : TaskEvent V) (fact : FactRecord V) (s' : TaskSnapshot V)
      → apply serde (some s) event fact ≡ ok s'
      → Step (topology s) (topology s')
  apply-Step s event fact s' h =
      transition_task-Step s serde event fact s' (apply_next s event fact s' h)

  registered-IsValid :
      (d : TaskDefinition V) (fact : FactRecord V) → IsValid (topology (registered_task d fact))
  unfolding Map.get
  registered-IsValid d fact = record {
    named = λ id n h. cc;
    owned = λ id b h. cc;
    listed = λ id n a h l. cc;
    parents_known = λ id n p h e. cc;
    rank = λ id. 0;
    rank_bounded = λ id h. cc;
    rank_falls = λ id n p h e. cc;
    one_root = λ i j x y f g p q. cc;
    dependencies_known = λ a b e. cc e.found;
    acyclic = λ a b e p. cc e.found;
  }

  -- In every state that a task can be in, an attempt and its invocation name each other, parents
  -- and dependencies are there, parents lead up to the roots, there is at most one root, and no
  -- chain of dependencies is a cycle.
  pub Reachable-IsValid : {s : TaskSnapshot V} → Reachable s → IsValid (topology s)
  Reachable-IsValid (registers d fact s h) =
      subst (λ w. IsValid (topology w)) (sym (apply_first d fact s h).1) (registered-IsValid d fact)
  Reachable-IsValid (takes {s = s} event fact s' r h) =
      Step-IsValid (apply-Step s event fact s' h) (Reachable-IsValid r)
  Reachable-IsValid (skips position r) = Reachable-IsValid r

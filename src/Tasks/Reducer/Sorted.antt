-- ===== src/Tasks/Reducer/Sorted.antt =====
-- The maps of a task keep their keys in order.
use kolyan.Prelude.{
  ◌≡◌, refl, sym, subst, String, true, [], ◌∷◌, ok, reject_if, >>=-eq-ok, >>-eq-ok, if◌then◌else◌,
  arith,
}
use kolyan.Prelude.Map.{Map}
use kolyan.Prelude.Sorted.{is_sorted, starts_above, is_sorted-insert, is_sorted-update}
use kolyan.Ledger.{FactRecord}
use kolyan.Tasks.Types.{
  CancellationPolicy, AttemptSnapshot, InvocationSnapshot, TaskSnapshot, TaskEvent, Serde,
}
use kolyan.Tasks.Dependencies.{add_dependency}
use kolyan.Tasks.Admission.{admit}
use kolyan.Tasks.Results.{consume, consume_terminal}
use kolyan.Tasks.Budget.{configure, reserve}
use kolyan.Tasks.Attempts.Start.{authorize_retry, resume, start}
use kolyan.Tasks.Attempts.Observe.{observe}
use kolyan.Tasks.Completion.{cancel_attempts, cancel_selected, cancel_invocations, complete, cancel}
use kolyan.Tasks.Goals.{apply_assessment, refresh_goals}
use kolyan.Tasks.Reducer.{require_recovery, dispatch, refresh, transition_task}
use kolyan.Tasks.Reducer.Reachable.{Reachable, registers, takes, skips, apply_first, apply_next}

cancel_invocations-starts_above :
    (policy : CancellationPolicy) (k : String) (invs : Map InvocationSnapshot)
    (m : Map AttemptSnapshot) (found : Map InvocationSnapshot × Map AttemptSnapshot)
    → cancel_invocations policy invs m ≡ ok found
    → starts_above k found.0 ≡ starts_above k invs
unfolding cancel_invocations starts_above
cancel_invocations-starts_above policy k [] m found h = ground arith
cancel_invocations-starts_above policy k ((id, inv) ∷ invs) m found h = ground arith

cancel_invocations-is_sorted :
    (policy : CancellationPolicy) (invs : Map InvocationSnapshot) (m : Map AttemptSnapshot)
    (found : Map InvocationSnapshot × Map AttemptSnapshot)
    → cancel_invocations policy invs m ≡ ok found
    → is_sorted found.0 ≡ is_sorted invs
unfolding cancel_invocations is_sorted
cancel_invocations-is_sorted policy [] m found h = ground arith
cancel_invocations-is_sorted policy ((id, inv) ∷ invs) m found h =
    let (m', first, then') =
      >>=-eq-ok (if cancel_selected policy inv then cancel_attempts inv.attempts m else ok m) _ h in
    let (rest, second, last) = >>=-eq-ok (cancel_invocations policy invs m') _ then' in
    ground (
      arith,
      cancel_invocations-is_sorted policy invs m' rest second,
      cancel_invocations-starts_above policy id invs m' rest second,
    )

module _ {V : Type 0} (s : TaskSnapshot V) (o : is_sorted s.invocations ≡ true) where
  cancel-is_sorted :
      (why : String) (s' : TaskSnapshot V) → cancel s why ≡ ok s' → is_sorted s'.invocations ≡ true
  unfolding cancel
  cancel-is_sorted why s' h = grind (
    arith,
    cancel_invocations-is_sorted s.definition.cancellation_policy s.invocations s.attempts,
  )

  dispatch-is_sorted :
      (serde : Serde V) (event : TaskEvent V) (fact : FactRecord V) (s' : TaskSnapshot V)
      → dispatch serde s event fact ≡ ok s'
      → is_sorted s'.invocations ≡ true
  unfolding dispatch configure reserve start apply_assessment admit add_dependency observe resume
      require_recovery authorize_retry consume consume_terminal complete
  dispatch-is_sorted serde event fact s' h = grind (
    arith,
    is_sorted-insert {V = InvocationSnapshot},
    is_sorted-update {V = InvocationSnapshot},
    cancel-is_sorted,
  )

refresh-invocations :
    {V : Type 0} (s s' : TaskSnapshot V) → refresh s ≡ ok s' → s'.invocations ≡ s.invocations
unfolding refresh refresh_goals
refresh-invocations s s' h = ground arith

-- The invocations of a task stand in the order of their names, each name once.
pub Reachable-is_sorted :
    {V : Type 0} (serde : Serde V) {s : TaskSnapshot V}
    → Reachable serde s
    → is_sorted s.invocations ≡ true
unfolding is_sorted transition_task
Reachable-is_sorted serde (registers d fact s h) =
    subst (λ w. is_sorted w.invocations ≡ true) (sym (apply_first serde d fact s h).1) refl
Reachable-is_sorted serde (takes {s = s} event fact s' r h) =
    let (_, then1) = >>-eq-ok (reject_if _ _) _ (apply_next serde s event fact s' h) in
    let (next, dispatched, refreshed) = >>=-eq-ok (dispatch serde s event fact) _ then1 in
    subst (λ w. is_sorted w ≡ true)
      (sym (refresh-invocations (record next { position = fact.position }) s' refreshed))
      (dispatch-is_sorted s (Reachable-is_sorted serde r) serde event fact next dispatched)
Reachable-is_sorted serde (skips position r) = Reachable-is_sorted serde r

-- ===== src/Tasks/Reducer/Derived.antt =====
-- The position, the definition and the state that an event leaves.
use kolyan.Prelude.{
  ◌≡◌, ◌≢◌, ◌↔◌, sym, subst, Bool-cases, Option, none, List, String-Eq, filter_map, ◌++◌,
  >>=-ok-eq-ok, ap, inl, inr, ◌∙◌, String, false, some, [], ◌∷◌, ok, ◌==◌, arith,
}
use mathlib.Core.List.{Memᴰ}
use mathlib.Core.List.Memᴰ
use kolyan.Prelude.Map
use kolyan.Prelude.Map.{Map}
use kolyan.Ledger.{FactRecord}
use kolyan.Tasks.Types.{
  InvocationState, InvocationState-Eq, AttemptSnapshot, WaitingReason, TaskState, is_terminal,
  TaskSnapshot, TaskEvent, Serde,
}
use kolyan.Tasks.Goals.{refresh_goals}
use kolyan.Tasks.Reducer.{derived_state, child_waits, refresh, apply}
use kolyan.Tasks.Reducer.Keeps.{dispatch-definition, refresh-definition}
use kolyan.Tasks.Reducer.Reachable.{apply_next, transition_task-eq-ok}
use kolyan.Tasks.Reducer.States.{
  HasState, has_state-HasState, HasState-has_state, no_state, has_state-false, reads_recovery,
  reads_active, reads_waiting, reads_ready, derives_recovery, derives_active, derives_waiting,
  derives_ready,
}

-- What the state of a task that has not ended says of its invocations and of its waits, and what
-- these say of it.
pub record Reads {V : Type 0} (s : TaskSnapshot V) : Type 0 where
  pub recovery :
      is_terminal s.state ≡ false
      → (s.state ≡ TaskState.recovery_required)
        ↔ HasState InvocationState.recovery_required s.invocations
  pub active :
      is_terminal s.state ≡ false
      → (s.state ≡ TaskState.active) ↔ (
          (¬ HasState InvocationState.recovery_required s.invocations)
          × HasState InvocationState.running s.invocations)
  pub waiting :
      is_terminal s.state ≡ false
      → (s.state ≡ TaskState.waiting) ↔ (
          (¬ HasState InvocationState.recovery_required s.invocations)
          × (¬ HasState InvocationState.running s.invocations)
          × (s.waiting ≢ []))
  pub ready :
      is_terminal s.state ≡ false
      → (s.state ≡ TaskState.ready) ↔ (
          (¬ HasState InvocationState.recovery_required s.invocations)
          × (¬ HasState InvocationState.running s.invocations)
          × (s.waiting ≡ []))
  -- What an attempt waits for, the task waits for.
  pub attempt_waits :
      (id : String) (attempt : AttemptSnapshot) (reason : WaitingReason)
      → Map.get id s.attempts ≡ some attempt
      → attempt.waiting ≡ some reason
      → Memᴰ reason s.waiting

refresh_keeps :
    {V : Type 0} (s s' : TaskSnapshot V)
    → refresh s ≡ ok s'
    → (s'.position ≡ s.position)
      × (is_terminal s'.state ≡ false → s'.state ≡ derived_state s'.invocations s'.waiting)
      × (s'.attempts ≡ s.attempts)
unfolding refresh refresh_goals is_terminal
refresh_keeps s s' h = ground arith

abbrev put : {B : Type 0} → Option B → List B → List B
put o rest = elim o [ none ↦ rest | some b ↦ b ∷ rest ]

put-here : {B : Type 0} (o : Option B) (rest : List B) (b : B) → o ≡ some b → Memᴰ b (put o rest)
put-here none rest b e = cc
put-here (some c) rest b e = Memᴰ.head (ground arith)

put-later : {B : Type 0} (o : Option B) (rest : List B) (b : B) → Memᴰ b rest → Memᴰ b (put o rest)
put-later none rest b m = m
put-later (some c) rest b m = Memᴰ.tail m

Memᴰ-filter_map :
    {A B : Type 0} (f : A → Option B) (xs : List A) (a : A) (b : B)
    → Memᴰ a xs
    → f a ≡ some b
    → Memᴰ b (filter_map f xs)
unfolding filter_map
Memᴰ-filter_map f [] a b m h = absurd (Memᴰ.not-nil m)
Memᴰ-filter_map f (x ∷ xs) a b m h = elim (Memᴰ.cases_cons m) [
  | inl same ↦ put-here (f x) (filter_map f xs) b (sym (ap f same) ∙ h)
  | inr below ↦ put-later (f x) (filter_map f xs) b (Memᴰ-filter_map f xs a b below h)
]

Memᴰ-values :
    {A : Type 0} (id : String) (m : Map A) (a : A) → Map.get id m ≡ some a → Memᴰ a (Map.values m)
unfolding Map.get
Memᴰ-values id [] a h = cc
Memᴰ-values id ((k, own) ∷ m) a h = elim (Bool-cases (k == id)) [
  | inl same ↦ Memᴰ.head (ground arith)
  | inr other ↦ Memᴰ.tail (Memᴰ-values id m a (ground arith))
]

refresh_waits :
    {V : Type 0} (s s' : TaskSnapshot V)
    → refresh s ≡ ok s'
    → (children : List WaitingReason) × (goals : List WaitingReason) × (s'.waiting
        ≡ (filter_map (λ (attempt : AttemptSnapshot). attempt.waiting) (Map.values s.attempts)
            ++ children)
          ++ goals)
unfolding refresh refresh_goals
refresh_waits s s' h =
    let (children, _, e) = >>=-ok-eq-ok (child_waits s s.invocations) _ h in
    (children, _, ap (λ w. w.waiting) e)

refresh-Reads : {V : Type 0} (s s' : TaskSnapshot V) → refresh s ≡ ok s' → Reads s'
refresh-Reads s s' h =
    let (_, derived, attempts) = refresh_keeps s s' h in
    let (children, goals, waits) = refresh_waits s s' h in
    let m = s'.invocations in
    let w = s'.waiting in
    let needs = InvocationState.recovery_required in
    let runs = InvocationState.running in
    record {
      recovery = λ t. (
        λ e. has_state-HasState needs m (reads_recovery m w (sym (derived t) ∙ e)),
        λ there. derived t ∙ derives_recovery m w (HasState-has_state needs m there),
      );
      active = λ t. (
        λ e.
            let (a, b) = reads_active m w (sym (derived t) ∙ e) in
            (no_state needs m a, has_state-HasState runs m b),
        λ p.
            derived t
            ∙ derives_active m w (has_state-false needs m p.0) (HasState-has_state runs m p.1),
      );
      waiting = λ t. (
        λ e.
            let (a, b, c) = reads_waiting m w (sym (derived t) ∙ e) in
            (no_state needs m a, no_state runs m b, c),
        λ p.
            derived t
            ∙ derives_waiting m w (has_state-false needs m p.0) (has_state-false runs m p.1) p.2,
      );
      ready = λ t. (
        λ e.
            let (a, b, c) = reads_ready m w (sym (derived t) ∙ e) in
            (no_state needs m a, no_state runs m b, c),
        λ p.
            derived t
            ∙ derives_ready m w (has_state-false needs m p.0) (has_state-false runs m p.1) p.2,
      );
      attempt_waits = λ id attempt reason found why.
          let there : Map.get id s.attempts ≡ some attempt =
            ap (Map.get id) (sym attempts) ∙ found in
          subst (Memᴰ reason) (sym waits) (
            Memᴰ.append_left goals (
              Memᴰ.append_left children (
                Memᴰ-filter_map (λ (a : AttemptSnapshot). a.waiting) (Map.values s.attempts) attempt
                  reason (Memᴰ-values id s.attempts attempt there) why)));
    }

-- After an event that a registered task takes, the task stands at the position of the record and its
-- definition is the one that it was registered with. Where it has not ended, it needs recovery just
-- if an invocation does; otherwise it is active just if an invocation runs; otherwise it waits or is
-- ready just as there is something to wait for or not. What an attempt waits for, the task waits
-- for.
pub apply-Reads :
    {V : Type 0} (serde : Serde V) (s : TaskSnapshot V) (event : TaskEvent V) (fact : FactRecord V)
    (s' : TaskSnapshot V)
    → apply serde (some s) event fact ≡ ok s'
    → Reads s' × (s'.position ≡ fact.position) × (s'.definition ≡ s.definition)
apply-Reads serde s event fact s' h =
    let (_, next, dispatched, refreshed) =
      transition_task-eq-ok serde s event fact s' (apply_next serde s event fact s' h) in
    let at : TaskSnapshot _ = record next { position = fact.position } in
    (
      refresh-Reads at s' refreshed,
      (refresh_keeps at s' refreshed).0,
      refresh-definition at s' refreshed ∙ dispatch-definition s serde event fact next dispatched,
    )

-- ===== src/Tasks/Reducer/Shape.antt =====
-- Writes that leave the topology of a task as it is.
use kolyan.Prelude.{
  ◌≡◌, refl, String, String-Eq, Bool, true, false, some, List, [], ◌∷◌, length, if◌then◌else◌, ok,
  unwrap, >>=-eq-ok, unwrap-eq-ok, ◌∙◌, arith,
}
use kolyan.Prelude.Map
use kolyan.Prelude.Map.{Map, get-update, length-update}
use kolyan.Tasks.Types.{CancellationPolicy, AttemptSnapshot, InvocationSnapshot, TaskSnapshot}
use kolyan.Tasks.Topology.{Topology, node_of, binding_of, topology}
use kolyan.Tasks.Dependencies.{with_invocation}
use kolyan.Tasks.Completion.{cancel_attempts, cancel_selected, cancel_invocations, cancelled_task}

pub Topology_eq :
    {t t' : Topology}
    → t'.size ≡ t.size
    → ((id : String) → t'.node id ≡ t.node id)
    → ((id : String) → t'.attempt id ≡ t.attempt id)
    → t' ≡ t
Topology_eq p q r = λ i. record { size = p i; node = λ id. q id i; attempt = λ id. r id i }

pub node-update :
    (id j : String) (inv inv' : InvocationSnapshot) (m : Map InvocationSnapshot)
    → Map.get id m ≡ some inv
    → inv'.definition ≡ inv.definition
    → inv'.attempts ≡ inv.attempts
    → node_of (Map.get j (Map.update id inv' m)) ≡ node_of (Map.get j m)
node-update id j inv inv' m found d a = ground (arith, get-update id j inv' m)

pub binding-update :
    (id j : String) (attempt attempt' : AttemptSnapshot) (m : Map AttemptSnapshot)
    → Map.get id m ≡ some attempt
    → attempt'.binding ≡ attempt.binding
    → binding_of (Map.get j (Map.update id attempt' m)) ≡ binding_of (Map.get j m)
binding-update id j attempt attempt' m found b = ground (arith, get-update id j attempt' m)

module _ {V : Type 0} (s : TaskSnapshot V) where
  pub topology-with_invocation :
      (id : String) (inv inv' : InvocationSnapshot)
      → Map.get id s.invocations ≡ some inv
      → inv'.definition ≡ inv.definition
      → inv'.attempts ≡ inv.attempts
      → topology (with_invocation s id inv') ≡ topology s
  topology-with_invocation id inv inv' found d a =
      Topology_eq (length-update id inv' s.invocations)
        (λ j. node-update id j inv inv' s.invocations found d a) (λ j. refl)

  -- An attempt and its invocation are written, and the binding and the definition stay.
  pub topology-write :
      (id : String) (attempt attempt' : AttemptSnapshot) (inv inv' : InvocationSnapshot)
      (s' : TaskSnapshot V)
      → Map.get id s.attempts ≡ some attempt
      → Map.get attempt.binding.invocation_id s.invocations ≡ some inv
      → attempt'.binding ≡ attempt.binding
      → inv'.definition ≡ inv.definition
      → inv'.attempts ≡ inv.attempts
      → s'.attempts ≡ Map.update id attempt' s.attempts
      → s'.invocations ≡ Map.update attempt.binding.invocation_id inv' s.invocations
      → topology s' ≡ topology s
  topology-write id attempt attempt' inv inv' s' fa fi b d a ea ei =
      Topology_eq (rw ei (length-update attempt.binding.invocation_id inv' s.invocations))
        (λ j. rw ei (node-update attempt.binding.invocation_id j inv inv' s.invocations fi d a))
        (λ j. rw ea (binding-update id j attempt attempt' s.attempts fa b))

-- The loops of `cancel`.
pub binding-cancel_attempts :
    (ids : List String) (m m' : Map AttemptSnapshot)
    → cancel_attempts ids m ≡ ok m'
    → (j : String) → binding_of (Map.get j m') ≡ binding_of (Map.get j m)
unfolding cancel_attempts
binding-cancel_attempts [] m m' h j = cc
binding-cancel_attempts (id ∷ ids) m m' h j =
    let (attempt, found, rest) = >>=-eq-ok (unwrap (Map.get id m)) _ h in
    let next : AttemptSnapshot = record attempt { cancellation_requested = true } in
    binding-cancel_attempts ids (Map.update id next m) m' rest j
    ∙ binding-update id j attempt next m (unwrap-eq-ok _ found) refl

abbrev pub Maps : Type 0
Maps = Map InvocationSnapshot × Map AttemptSnapshot

-- What stays as it is: the names, the definitions and the bindings.
record Kept (m : Maps) (m' : Maps) : Type 0 where
  size : length m'.0 ≡ length m.0
  node : (j : String) → node_of (Map.get j m'.0) ≡ node_of (Map.get j m.0)
  attempt : (j : String) → binding_of (Map.get j m'.1) ≡ binding_of (Map.get j m.1)

pub binding_first :
    (b : Bool) (ids : List String) (m m' : Map AttemptSnapshot)
    → (if b then cancel_attempts ids m else ok m) ≡ ok m'
    → (j : String) → binding_of (Map.get j m') ≡ binding_of (Map.get j m)
binding_first true ids m m' h j = binding-cancel_attempts ids m m' h j
binding_first false ids m m' h j = cc

Kept-cancel_invocations :
    (policy : CancellationPolicy) (invs : Map InvocationSnapshot) (m : Map AttemptSnapshot)
    (found : Maps)
    → cancel_invocations policy invs m ≡ ok found
    → Kept (invs, m) found
unfolding cancel_invocations Map.get
Kept-cancel_invocations policy [] m found h = record {
  size = cc;
  node = λ j. cc;
  attempt = λ j. cc;
}
Kept-cancel_invocations policy ((id, inv) ∷ invs) m found h =
    let (m', first, then') =
      >>=-eq-ok (if cancel_selected policy inv then cancel_attempts inv.attempts m else ok m) _ h in
    let (rest, second, last) = >>=-eq-ok (cancel_invocations policy invs m') _ then' in
    let ih = Kept-cancel_invocations policy invs m' rest second in
    record {
      size = ground (arith, ih.size);
      node = λ j. ground (arith, ih.node j);
      attempt = λ j. ground (
        arith,
        ih.attempt j,
        binding_first (cancel_selected policy inv) inv.attempts m m' first j,
      );
    }

pub topology-cancelled :
    {V : Type 0} (s : TaskSnapshot V) (found : Maps)
    → cancel_invocations s.definition.cancellation_policy s.invocations s.attempts ≡ ok found
    → topology (cancelled_task s found) ≡ topology s
topology-cancelled s found h =
    let kept =
      Kept-cancel_invocations s.definition.cancellation_policy s.invocations s.attempts found h in
    Topology_eq kept.size kept.node kept.attempt

-- ===== src/Tasks/Topology.antt =====
-- The abstract view of a task: its invocations with their definitions and attempts, and which
-- execution each attempt is bound to. The states, the observations and the results are forgotten.
-- `Step` says how one command may change it, and `IsValid` what holds between two commands.
pub mod Paths
pub mod Valid
use kolyan.Prelude.{
  ℕ, suc, ◌+◌, ◌<◌, ◌≡◌, ◌≢◌, String, String-Eq, ◌==◌, Bool, true, false, Option, none, some, List,
  [], ◌∷◌, ◌++◌, length, contains, is_some, if◌then◌else◌,
}
use kolyan.Prelude.Map
use kolyan.Tasks.Types.{
  InvocationDefinition, AttemptBinding, AttemptSnapshot, InvocationSnapshot, TaskSnapshot,
  InvocationRole,
}

-- An invocation: its definition and its attempts, oldest first.
pub record Node : Type 0 where
  pub definition : InvocationDefinition
  pub attempts : List String

pub record Topology : Type 0 where
  pub size : ℕ
  pub node : String → Option Node
  pub attempt : String → Option AttemptBinding

abbrev pub node_of : Option InvocationSnapshot → Option Node
node_of none = none
node_of (some inv) = some (record { definition = inv.definition; attempts = inv.attempts })

abbrev pub binding_of : Option AttemptSnapshot → Option AttemptBinding
binding_of none = none
binding_of (some attempt) = some attempt.binding

abbrev pub topology : {V : Type 0} → TaskSnapshot V → Topology
topology state = record {
  size = length state.invocations;
  node = λ id. node_of (Map.get id state.invocations);
  attempt = λ id. binding_of (Map.get id state.attempts);
}

module _ (t : Topology) where
  -- `b` is among the dependencies of `a`.
  pub record Edge (a b : String) : Type 0 where
    pub source : Node
    pub found : t.node a ≡ some source
    pub listed : contains source.definition.dependencies b ≡ true

  pub data Reaches : String → String → Type 0 where
    here : (a : String) → Reaches a a
    step : {a b c : String} → Edge a b → Reaches b c → Reaches a c

  abbrev pub add_node : InvocationDefinition → Topology
  add_node d = record t {
    size = t.size + 1;
    node = λ id.
        if d.invocation_id == id
        then some (record { definition = d; attempts = [] })
        else t.node id;
  }

  abbrev pub add_attempt : AttemptBinding → Node → Topology
  add_attempt b n = record t {
    node = λ id.
        if b.invocation_id == id
        then some (record n { attempts = n.attempts ++ b.attempt_id ∷ [] })
        else t.node id;
    attempt = λ id. if b.attempt_id == id then some b else t.attempt id;
  }

  abbrev pub add_edge : String → String → Node → Topology
  add_edge a b n =
      let d = n.definition in
      record t {
        node = λ id.
            if a == id
            then some
                (record n { definition = record d { dependencies = d.dependencies ++ b ∷ [] } })
            else t.node id;
      }

  -- What a new invocation needs: a fresh name, a parent that is there, known dependencies, and, for
  -- a root, that there is no root yet.
  pub record Admits (d : InvocationDefinition) : Type 0 where
    pub fresh : t.node d.invocation_id ≡ none
    pub parent_known : (p : String) → d.parent_invocation_id ≡ some p → is_some (t.node p) ≡ true
    pub dependencies_known :
        (b : String) → contains d.dependencies b ≡ true → is_some (t.node b) ≡ true
    pub no_root :
        d.role ≡ InvocationRole.root
        → (id : String) (n : Node) → t.node id ≡ some n
        → n.definition.role ≢ InvocationRole.root

-- One command, as it shows in the topology.
pub data Step (t t' : Topology) : Type 0 where
  same : t' ≡ t → Step t t'
  admits : (d : InvocationDefinition) → Admits t d → t' ≡ add_node t d → Step t t'
  starts :
      (b : AttemptBinding) (n : Node)
      → t.node b.invocation_id ≡ some n
      → t.attempt b.attempt_id ≡ none
      → t' ≡ add_attempt t b n
      → Step t t'
  depends :
      (a b : String) (n : Node)
      → t.node a ≡ some n
      → is_some (t.node b) ≡ true
      → ¬ Reaches t b a
      → t' ≡ add_edge t a b n
      → Step t t'

-- The attempt is one of the invocation's.
abbrev pub has_attempt : Option Node → String → Bool
has_attempt none a = false
has_attempt (some n) a = contains n.attempts a

-- The invocation that an attempt belongs to.
abbrev pub owner_of : Option AttemptBinding → Option String
owner_of none = none
owner_of (some b) = some b.invocation_id

-- What every command keeps.
pub record IsValid (t : Topology) : Type 0 where
  pub named : (id : String) (n : Node) → t.node id ≡ some n → n.definition.invocation_id ≡ id
  pub owned :
      (id : String) (b : AttemptBinding)
      → t.attempt id ≡ some b
      → (b.attempt_id ≡ id) × (has_attempt (t.node b.invocation_id) id ≡ true)
  pub listed :
      (id : String) (n : Node) (a : String)
      → t.node id ≡ some n
      → contains n.attempts a ≡ true
      → owner_of (t.attempt a) ≡ some id
  pub parents_known :
      (id : String) (n : Node) (p : String)
      → t.node id ≡ some n
      → n.definition.parent_invocation_id ≡ some p
      → is_some (t.node p) ≡ true
  pub rank : String → ℕ
  pub rank_bounded : (id : String) → is_some (t.node id) ≡ true → rank id < t.size
  pub rank_falls :
      (id : String) (n : Node) (p : String)
      → t.node id ≡ some n
      → n.definition.parent_invocation_id ≡ some p
      → rank p < rank id
  pub one_root :
      (i j : String) (x y : Node)
      → t.node i ≡ some x
      → t.node j ≡ some y
      → x.definition.role ≡ InvocationRole.root
      → y.definition.role ≡ InvocationRole.root
      → i ≡ j
  pub dependencies_known : (a b : String) → Edge t a b → is_some (t.node b) ≡ true
  pub acyclic : (a b : String) → Edge t a b → ¬ Reaches t b a

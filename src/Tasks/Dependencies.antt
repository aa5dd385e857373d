-- ===== src/Tasks/Dependencies.antt =====
-- Dependencies between invocations, from tasks/reducer/topology.rs: `add_dependency`, `reaches`,
-- `required_results` and `has_consumed`.
pub mod Steps
pub mod Search
pub mod Fuel
pub mod Decides
use kolyan.Prelude.{
  ℕ, zero, suc, String, Bool, true, false, not, ◌||◌, ◌&&◌, Option, none, some, List, [], ◌∷◌, ◌++◌,
  map, if◌then◌else◌, ◌==◌, String-Eq, Option-Eq, length, contains, filter, ok, ◌>>=◌, ◌>>◌,
  reject_if, ok_or, unwrap,
}
use kolyan.Prelude.Map
use kolyan.Prelude.Map.{Map}
use kolyan.Prelude.Set
use kolyan.Tasks.Types.{
  InvocationRole, InvocationRole-Eq, InvocationState, InvocationSnapshot, TaskSnapshot, invalid,
  transition, TaskResult,
}

unfoldable pub has_consumed : InvocationSnapshot → String → Bool
has_consumed inv child =
    Map.contains_key child inv.consumed_results
    || Map.contains_key child inv.terminal_consumed_results

-- `Completed | Cancelled | Failed`
unfoldable pub is_stopped : InvocationState → Bool
is_stopped InvocationState.completed = true
is_stopped InvocationState.cancelled = true
is_stopped InvocationState.failed = true
is_stopped _ = false

-- `Admitted | Running | Suspended`
unfoldable pub takes_dependencies : InvocationState → Bool
takes_dependencies InvocationState.admitted = true
takes_dependencies InvocationState.running = true
takes_dependencies InvocationState.suspended = true
takes_dependencies _ = false

-- The answer of a search with the set of the nodes seen; `none`: the fuel ran out.
abbrev pub Search : Type 0
Search = Option (Bool × List String)

-- What follows a visit in `any`: the first hit ends the loop.
abbrev pub or_else : Search → (List String → Search) → Search
or_else none rest = none
or_else (some (true, seen)) rest = some (true, seen)
or_else (some (false, seen)) rest = rest seen

-- `dependencies.iter().any(|id| visit(id, seen))`
unfoldable pub any_reaches : (String → List String → Search) → List String → List String → Search
any_reaches visit [] seen = some (false, seen)
any_reaches visit (id ∷ ids) seen = or_else (visit id seen) (λ seen'. any_reaches visit ids seen')

unfoldable pub reaches :
    ℕ → Map InvocationSnapshot → (from target : String) (seen : List String) → Search
reaches zero invocations from target seen = none
reaches (suc fuel) invocations from target seen =
    let visit = λ (id : String) (seen' : List String). reaches fuel invocations id target seen' in
    if from == target
    then some (true, seen)
    else if contains seen from
    then some (false, seen)
    else elim (Map.get from invocations) [
      | none ↦ some (false, Set.insert from seen)
      | some inv ↦ any_reaches visit inv.definition.dependencies (Set.insert from seen)
    ]

-- A search reads each invocation once, so this fuel is enough.
abbrev pub search_fuel : Map InvocationSnapshot → ℕ
search_fuel invocations = suc (length invocations)

-- `push` on the dependencies of an invocation
abbrev pub with_dependency : InvocationSnapshot → String → InvocationSnapshot
with_dependency inv dependency =
    let definition = inv.definition in
    record inv {
      definition = record definition { dependencies = definition.dependencies ++ dependency ∷ [] };
    }

-- A child of the invocation that is no continuation.
unfoldable pub is_child_of : String → InvocationSnapshot → Bool
is_child_of invocation inv =
    inv.definition.parent_invocation_id == some invocation
    && not (inv.definition.role == InvocationRole.continuation)

-- The results that an invocation with these dependencies has to take.
unfoldable pub results_of : Map InvocationSnapshot → String → InvocationSnapshot → List String
results_of invocations invocation inv =
    Set.extend (Set.extend [] inv.definition.dependencies)
      (map (λ e. e.0) (filter (λ e. is_child_of invocation e.1) invocations))

module _ {V : Type 0} where
  unfoldable pub required_results : TaskSnapshot V → String → TaskResult (List String)
  required_results state invocation = do
    inv ← unwrap (Map.get invocation state.invocations)
    ok (results_of state.invocations invocation inv)

  unfoldable pub check_dependency :
      TaskSnapshot V → (invocation dependency : String) → TaskResult InvocationSnapshot
  check_dependency state invocation dependency = do
    owner ← ok_or (Map.get invocation state.invocations) (invalid "unknown invocation")
    reject_if
        (not (takes_dependencies owner.state)
          || not (Map.contains_key dependency state.invocations)
          || contains owner.definition.dependencies dependency)
        (transition "invalid dependency or cyclic result topology")
    found ←
        unwrap (reaches (search_fuel state.invocations) state.invocations dependency invocation [])
    reject_if found.0 (transition "invalid dependency or cyclic result topology")
    ok owner

  -- A write to one invocation.
  abbrev pub with_invocation : TaskSnapshot V → String → InvocationSnapshot → TaskSnapshot V
  with_invocation state id inv = record state { invocations = Map.update id inv state.invocations }

  unfoldable pub add_dependency :
      TaskSnapshot V → (invocation dependency : String) → TaskResult (TaskSnapshot V)
  add_dependency state invocation dependency = do
    owner ← check_dependency state invocation dependency
    ok (with_invocation state invocation (with_dependency owner dependency))

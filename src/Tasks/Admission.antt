-- ===== src/Tasks/Admission.antt =====
-- `admit` of tasks/reducer/topology.rs: a new invocation, its role, its depth and its dependencies.
use kolyan.Prelude.{
  ℕ, zero, suc, ◌+◌, String, Bool, true, false, not, ◌||◌, ◌&&◌, Option, none, some, List, [], ◌∷◌,
  ltb, leb, if◌then◌else◌, ◌==◌, String-Eq, length, any, contains, is_some, and_then, ok, ◌>>=◌,
  ◌>>◌, reject_if, ok_or, unwrap,
}
use kolyan.Prelude.Map
use kolyan.Prelude.Map.{Map}
use kolyan.Tasks.Types.{
  AgentIdentity-Eq, InvocationRole, InvocationRole-Eq, InvocationInputSource, InvocationDefinition,
  CompletionCriterion, InvocationState, InvocationState-Eq, InvocationSnapshot, TaskSnapshot,
  invalid, transition, TaskResult,
}
use kolyan.Tasks.Validation.{available_id, agent, digest}
use kolyan.Tasks.Dependencies.{is_stopped}

unfoldable pub source_fits : InvocationRole → InvocationInputSource → Bool
source_fits InvocationRole.root (InvocationInputSource.standalone _) = true
source_fits InvocationRole.root (InvocationInputSource.derived _) = false
source_fits _ (InvocationInputSource.derived _) = true
source_fits _ (InvocationInputSource.standalone _) = false

unfoldable pub is_foreign_goal : {V : Type 0} → String → CompletionCriterion V → Bool
is_foreign_goal invocation_id (CompletionCriterion.goal goal) =
    not (goal.invocation_id == invocation_id)
is_foreign_goal invocation_id _ = false

unfoldable pub is_root : InvocationSnapshot → Bool
is_root inv = inv.definition.role == InvocationRole.root

-- What an ancestor adds to the depth.
unfoldable pub depth_step : InvocationSnapshot → ℕ
depth_step inv =
    if is_some inv.definition.parent_invocation_id
      && not (inv.definition.role == InvocationRole.continuation)
    then 1
    else 0

-- The `while let` loop over the ancestors. `none`: the fuel ran out.
unfoldable pub ancestor_depth :
    ℕ → Map InvocationSnapshot → Option InvocationSnapshot → ℕ → Option ℕ
ancestor_depth fuel invocations none depth = some depth
ancestor_depth zero invocations (some inv) depth = none
ancestor_depth (suc fuel) invocations (some inv) depth =
    ancestor_depth fuel invocations
      (and_then inv.definition.parent_invocation_id (λ id. Map.get id invocations))
      (depth + depth_step inv)

unfoldable pub dependencies_valid : Map InvocationSnapshot → List String → List String → Bool
dependencies_valid invocations seen [] = true
dependencies_valid invocations seen (id ∷ ids) =
    Map.contains_key id invocations
    && not (contains seen id)
    && dependencies_valid invocations (id ∷ seen) ids

unfoldable pub parent_allows : InvocationDefinition → String → InvocationSnapshot → TaskResult Unit
parent_allows definition parent owner =
    if definition.role == InvocationRole.continuation
    then reject_if
        (not (owner.state == InvocationState.completed)
          || not (contains definition.dependencies parent))
        (transition "continuation requires a completed predecessor and explicit result dependency")
    else reject_if (is_stopped owner.state) (transition "parent is terminal")

abbrev pub admitted_invocation : InvocationDefinition → InvocationSnapshot
admitted_invocation definition = record {
  definition = definition;
  state = InvocationState.admitted;
  attempts = [];
  consumed_results = [];
  terminal_consumed_results = [];
  terminal_fact = none;
  completion_fact = none;
  cancellation_requested = false;
}

module _ {V : Type 0} where
  unfoldable pub admit_root : TaskSnapshot V → InvocationDefinition → TaskResult Unit
  admit_root state definition = do
    reject_if (any (is_foreign_goal definition.invocation_id) state.definition.criteria)
        (invalid "Goal anchor must be the unique actual root invocation")
    reject_if
        (is_some definition.parent_invocation_id
          || any is_root (Map.values state.invocations)
          || not (definition.agent == state.definition.agent)
          || not (definition.constraints_digest == state.definition.constraints_digest))
        (invalid "root identity/constraints mismatch or duplicate root")

  unfoldable pub admit_child : TaskSnapshot V → InvocationDefinition → TaskResult Unit
  admit_child state definition = do
    parent ← ok_or definition.parent_invocation_id (invalid "non-root requires explicit parent")
    owner ← ok_or (Map.get parent state.invocations) (invalid "unknown parent")
    parent_allows definition parent owner
    reject_if
        (definition.role == InvocationRole.self_call
          && not (definition.agent.definition_id == owner.definition.agent.definition_id))
        (invalid "self-call must use the same agent definition")
    let own = if definition.role == InvocationRole.continuation then 0 else 1
    depth ← unwrap (ancestor_depth (length state.invocations) state.invocations (some owner) own)
    reject_if (ltb state.definition.limits.max_depth depth)
        (transition "recursion budget exhausted")

  unfoldable pub admit_role :
      InvocationRole → TaskSnapshot V → InvocationDefinition → TaskResult Unit
  unfolding admit_root admit_child
  admit_role InvocationRole.root state definition = admit_root state definition
  admit_role _ state definition = admit_child state definition

  unfoldable pub check_admit : TaskSnapshot V → InvocationDefinition → TaskResult Unit
  check_admit state definition = do
    available_id state definition.invocation_id
    agent definition.agent
    digest definition.constraints_digest
    reject_if (not (source_fits definition.role definition.input_source))
        (invalid "invocation role and required input source differ")
    reject_if (leb state.definition.limits.max_invocations (length state.invocations))
        (transition "shared invocation budget exhausted")
    admit_role definition.role state definition
    reject_if (not (dependencies_valid state.invocations [] definition.dependencies))
        (invalid "missing or duplicate dependency")

  abbrev pub admitted : TaskSnapshot V → InvocationDefinition → TaskSnapshot V
  admitted state definition = record state {
    invocations =
        Map.insert definition.invocation_id (admitted_invocation definition) state.invocations;
  }

  unfoldable pub admit : TaskSnapshot V → InvocationDefinition → TaskResult (TaskSnapshot V)
  admit state definition = do _ ← check_admit state definition; ok (admitted state definition)

-- ===== src/Tasks/Types/Identity.antt =====
-- Identities, limits and definitions: the first half of tasks/types.rs, with `ExecutionRef` of
-- lib.rs, `InvocationInputSource` of tasks/input.rs and `GoalCriterion` of tasks/goals/types.rs.
-- `V` stands for `serde_json::Value`.
use kolyan.Prelude.{ℕ, String, List, Option, Eq, String-discrete}
use kolyan.Ledger.{FactRef, FactRef-discrete}

pub record ExecutionRef : Type 0 where
  pub session_id : String
  pub turn_id : String
  pub execution_id : String

pub record AgentIdentity : Type 0 where
  pub definition_id : String
  pub revision : String
  pub instance_id : String

pub record TaskLimits : Type 0 where
  pub max_depth : ℕ  -- u32
  pub max_invocations : ℕ  -- u64
  pub max_attempts : ℕ  -- u64
  pub max_tokens : Option ℕ  -- u64
  pub max_steps_per_turn : ℕ  -- u32

pub record GoalCheckerKey : Type 0 where
  pub kind : String
  pub revision : String

pub record GoalCriterion (V : Type 0) : Type 0 where
  pub id : String
  pub invocation_id : String
  pub checker : GoalCheckerKey
  pub predicate : V
  pub predicate_digest : String

pub data CompletionCriterion (V : Type 0) : Type 0 where
  goal : GoalCriterion V → CompletionCriterion V
  execution_completed : (id invocation_id : String) → CompletionCriterion V
  artifact_digest : (id invocation_id sha256 : String) → CompletionCriterion V

abbrev pub criterion_id : {V : Type 0} → CompletionCriterion V → String
criterion_id (goal g) = g.id
criterion_id (execution_completed id _) = id
criterion_id (artifact_digest id _ _) = id

abbrev pub criterion_invocation_id : {V : Type 0} → CompletionCriterion V → String
criterion_invocation_id (goal g) = g.invocation_id
criterion_invocation_id (execution_completed _ invocation_id) = invocation_id
criterion_invocation_id (artifact_digest _ invocation_id _) = invocation_id

pub data CancellationPolicy : Type 0 where
  all_invocations root_only : CancellationPolicy

pub record TaskDefinition (V : Type 0) : Type 0 where
  pub task_id : String
  pub objective : String
  pub criteria : List (CompletionCriterion V)
  pub agent : AgentIdentity
  pub constraints_digest : String
  pub limits : TaskLimits
  pub cancellation_policy : CancellationPolicy

pub data InvocationRole : Type 0 where
  root self_call delegation continuation : InvocationRole

pub data InvocationInputSource : Type 0 where
  standalone : (fact : FactRef) → InvocationInputSource
  derived : (fact : FactRef) → InvocationInputSource

pub record InvocationDefinition : Type 0 where
  pub invocation_id : String
  pub agent : AgentIdentity
  pub constraints_digest : String
  pub role : InvocationRole
  pub parent_invocation_id : Option String
  pub dependencies : List String
  pub input_source : InvocationInputSource

pub record AttemptBinding : Type 0 where
  pub attempt_id : String
  pub invocation_id : String
  pub execution : ExecutionRef
  pub agent : AgentIdentity
  pub constraints_digest : String
  pub input_source : InvocationInputSource

unfoldable pub ExecutionRef-discrete : Discrete ExecutionRef
ExecutionRef-discrete = hlevel String-discrete

instance abbrev pub ExecutionRef-Eq : Eq ExecutionRef
ExecutionRef-Eq = record { discrete = ExecutionRef-discrete }

unfoldable pub AgentIdentity-discrete : Discrete AgentIdentity
AgentIdentity-discrete = hlevel String-discrete

instance abbrev pub AgentIdentity-Eq : Eq AgentIdentity
AgentIdentity-Eq = record { discrete = AgentIdentity-discrete }

unfoldable pub GoalCheckerKey-discrete : Discrete GoalCheckerKey
GoalCheckerKey-discrete = hlevel String-discrete

instance abbrev pub GoalCheckerKey-Eq : Eq GoalCheckerKey
GoalCheckerKey-Eq = record { discrete = GoalCheckerKey-discrete }

unfoldable pub CancellationPolicy-discrete : Discrete CancellationPolicy
CancellationPolicy-discrete = hlevel

instance abbrev pub CancellationPolicy-Eq : Eq CancellationPolicy
CancellationPolicy-Eq = record { discrete = CancellationPolicy-discrete }

unfoldable pub InvocationRole-discrete : Discrete InvocationRole
InvocationRole-discrete = hlevel

instance abbrev pub InvocationRole-Eq : Eq InvocationRole
InvocationRole-Eq = record { discrete = InvocationRole-discrete }

unfoldable pub InvocationInputSource-discrete : Discrete InvocationInputSource
InvocationInputSource-discrete = hlevel FactRef-discrete

instance abbrev pub InvocationInputSource-Eq : Eq InvocationInputSource
InvocationInputSource-Eq = record { discrete = InvocationInputSource-discrete }

unfoldable pub AttemptBinding-discrete : Discrete AttemptBinding
AttemptBinding-discrete =
    hlevel (
      String-discrete, ExecutionRef-discrete, AgentIdentity-discrete,
      InvocationInputSource-discrete,
    )

instance abbrev pub AttemptBinding-Eq : Eq AttemptBinding
AttemptBinding-Eq = record { discrete = AttemptBinding-discrete }

-- ===== src/Tasks/Attempts/Starts.antt =====
-- What a start needs, and what it makes.
use kolyan.Prelude.{◌<◌, ◌≡◌, ◌≢◌, String, String-Eq, false, not, none, some, any, length, ok, ◌==◌}
use kolyan.Prelude.Map
use kolyan.Prelude.Map.{Map}
use kolyan.Tasks.Types.{AttemptBinding, AttemptSnapshot, InvocationSnapshot, TaskSnapshot}
use kolyan.Tasks.Validation.{identity}
use kolyan.Tasks.Dependencies.{has_consumed}
use kolyan.Tasks.Attempts.Evidence.{tokens_exhausted}

module _ {V : Type 0} where
  -- A well-formed name that nothing of the task has.
  pub record IsFree (s : TaskSnapshot V) (id : String) : Type 0 where
    pub well_formed : identity id ≡ ok tt
    pub no_task : s.definition.task_id ≢ id
    pub no_invocation : Map.get id s.invocations ≡ none
    pub no_attempt : Map.get id s.attempts ≡ none
    pub no_execution :
        any
          (λ (a : AttemptSnapshot). a.binding.execution.execution_id == id)
          (Map.values s.attempts)
        ≡ false

  -- What is there before a start.
  pub record MayStart (s : TaskSnapshot V) (b : AttemptBinding) (inv : InvocationSnapshot)
      : Type 0 where
    pub found : Map.get b.invocation_id s.invocations ≡ some inv
    pub attempt_free : IsFree s b.attempt_id
    pub execution_free : IsFree s b.execution.execution_id
    pub distinct : b.attempt_id ≢ b.execution.execution_id
    pub session : identity b.execution.session_id ≡ ok tt
    pub turn : identity b.execution.turn_id ≡ ok tt
    pub agent : inv.definition.agent ≡ b.agent
    pub constraints : inv.definition.constraints_digest ≡ b.constraints_digest
    pub input_source : inv.definition.input_source ≡ b.input_source
    pub attempts_left : length s.attempts < s.definition.limits.max_attempts
    pub tokens_left : tokens_exhausted s ≡ false
    pub results_taken : any (λ id. not (has_consumed inv id)) inv.definition.dependencies ≡ false

-- ===== src/Tasks/Safety/Commands.antt =====
-- Every command on a valid task returns a state or an error.
use kolyan.Prelude.{
  Option-cases, inl, inr, ℕ, ◌≡◌, ◌≢◌, String, String-Eq, List, [], ◌∷◌, true, some, contains, last,
  is_some, panic, arith,
}
use kolyan.Prelude.Map
use kolyan.Prelude.Map.{Map, keys}
use kolyan.Ledger.{FactRecord}
use kolyan.Tasks.Types.{
  AttemptBinding, AttemptSnapshot, InvocationSnapshot, TaskSnapshot, AttemptObservation,
  AttemptOutcome, ConsumedResult, ConsumedTerminalResult, ExecutionEvidence, CompletionEvidence,
  TaskExecutionBudgetPolicy, TaskStepReservation, GoalAssessment, Serde,
}
use kolyan.Tasks.Topology.{topology, IsValid}
use kolyan.Tasks.Validation.{identity, reason, available_id}
use kolyan.Tasks.Dependencies.{required_results, check_dependency}
use kolyan.Tasks.Dependencies.Fuel.{search-Returns}
use kolyan.Tasks.Results.{
  last_observation, completed_evidence, disposition_of, check_consume, check_terminal,
}
use kolyan.Tasks.Budget.{
  policy_validate, reserved_from, remaining_steps, check_configure, check_reserve,
}
use kolyan.Tasks.Attempts.Evidence.{validate_source}
use kolyan.Tasks.Attempts.Start.{startable, check_start, check_retry, check_resume}
use kolyan.Tasks.Attempts.Observe.{
  check_merge, check_suspension, check_observation, next_state, add_usage, check_observe,
}
use kolyan.Tasks.Goals.{find_goal, assessment_owner, apply_assessment}
use kolyan.Tasks.Completion.{check_complete}
use kolyan.Tasks.Reducer.{check_recovery}
use kolyan.Tasks.Safety.Checks.{
  goal_validate_returns, assessment_digest_returns, validate_evidence_returns,
  validate_waiting_returns,
}

reserved_from_returns :
    (sum : ℕ) (slots : List TaskStepReservation) → reserved_from sum slots ≢ panic
unfolding reserved_from
reserved_from_returns sum [] = ground arith
reserved_from_returns sum (slot ∷ slots) = grind (arith, λ (n : ℕ). reserved_from_returns n slots)

last-contains : (xs : List String) (x : String) → last xs ≡ some x → contains xs x ≡ true
unfolding contains
last-contains [] x h = cc
last-contains (y ∷ []) x h = ground arith
last-contains (y ∷ z ∷ xs) x h = grind (arith, last-contains (z ∷ xs) x h)

module _ {V : Type 0} (s : TaskSnapshot V) (v : IsValid (topology s)) where
  pub owner_known :
      (id : String) (a : AttemptSnapshot)
      → Map.get id s.attempts ≡ some a
      → is_some (Map.get a.binding.invocation_id s.invocations) ≡ true
  owner_known id a h = ground (arith, v.owned id a.binding)

  pub attempt_known :
      (id a : String) (inv : InvocationSnapshot)
      → Map.get id s.invocations ≡ some inv
      → contains inv.attempts a ≡ true
      → is_some (Map.get a s.attempts) ≡ true
  attempt_known id a inv h c =
      ground
        (arith, v.listed id (record { definition = inv.definition; attempts = inv.attempts }) a)

  last_observation_returns :
      (id : String) (inv : InvocationSnapshot)
      → Map.get id s.invocations ≡ some inv
      → last_observation s inv ≢ panic
  unfolding last_observation
  last_observation_returns id inv h =
      grind (arith, last-contains inv.attempts, λ (a : String). attempt_known id a inv h)

  pub check_consume_returns :
      (id : String) (r : ConsumedResult) (fact : FactRecord V) → check_consume s id r fact ≢ panic
  unfolding check_consume required_results completed_evidence
  check_consume_returns id r fact = grind (arith, last_observation_returns r.child_invocation_id)

  pub check_terminal_returns :
      (id : String) (r : ConsumedTerminalResult) (fact : FactRecord V)
      → check_terminal s id r fact ≢ panic
  unfolding check_terminal required_results disposition_of
  check_terminal_returns id r fact = ground arith

  pub check_dependency_returns : (a b : String) → check_dependency s a b ≢ panic
  unfolding check_dependency
  check_dependency_returns a b =
      let r = search-Returns s.invocations a b in ground (arith, r.result)

  pub check_start_returns : (b : AttemptBinding) → check_start s b ≢ panic
  unfolding check_start available_id identity startable
  check_start_returns b = ground arith

  pub check_retry_returns :
      (id : String) (e : ExecutionEvidence) (why : String) → check_retry s id e why ≢ panic
  unfolding check_retry reason identity validate_source
  check_retry_returns id e why = grind (arith, owner_known id)

  pub check_resume_returns : (b : AttemptBinding) (c : String) → check_resume s b c ≢ panic
  unfolding check_resume identity
  check_resume_returns b c = grind (arith, owner_known b.attempt_id)

  pub check_recovery_returns : (id why : String) → check_recovery s id why ≢ panic
  unfolding check_recovery reason
  check_recovery_returns id why = grind (arith, owner_known id)

  pub check_observation_returns :
      (a : AttemptSnapshot) (o : AttemptObservation) → check_observation a o ≢ panic
  unfolding check_observation validate_source identity check_suspension check_merge
  check_observation_returns a o = ground arith

  next_state_returns :
      (a : AttemptSnapshot) (o : AttemptObservation) (outcome : AttemptOutcome)
      → is_some (Map.get a.binding.invocation_id s.invocations) ≡ true
      → next_state s a o outcome ≢ panic
  unfolding next_state required_results reason
  next_state_returns a o (AttemptOutcome.completed evidence) known =
      ground (arith, validate_evidence_returns s evidence a.binding)
  next_state_returns a o (AttemptOutcome.suspended w) known =
      ground (arith, validate_waiting_returns w)
  next_state_returns a o outcome known = ground arith

  pub check_observe_returns : (o : AttemptObservation) → check_observe s o ≢ panic
  unfolding check_observe add_usage
  check_observe_returns o = grind (
    arith,
    owner_known o.attempt_id,
    λ (a : AttemptSnapshot). check_observation_returns a o,
    λ (a : AttemptSnapshot). next_state_returns a o o.outcome,
  )

  pub check_configure_returns : (p : TaskExecutionBudgetPolicy) → check_configure s p ≢ panic
  unfolding check_configure policy_validate identity
  check_configure_returns p = ground arith

  pub check_reserve_returns :
      (b : AttemptBinding) (n : ℕ) (fact : FactRecord V) → check_reserve s b n fact ≢ panic
  unfolding check_reserve remaining_steps policy_validate identity
  check_reserve_returns b n fact = grind (arith, reserved_from_returns 0)

  assessment_owner_returns :
      (serde : Serde V) (a : GoalAssessment V) → assessment_owner serde s a ≢ panic
  unfolding assessment_owner
  assessment_owner_returns serde a =
      elim (Option-cases (find_goal a.criterion_id s.definition.criteria)) [
        | inl h ↦ ground arith
        | inr (goal, h) ↦ ground (arith, goal_validate_returns serde goal)
      ]

  pub apply_assessment_returns :
      (serde : Serde V) (a : GoalAssessment V) (fact : FactRecord V)
      → apply_assessment serde s a fact ≢ panic
  unfolding apply_assessment
  apply_assessment_returns serde a fact =
      ground (arith, assessment_owner_returns serde a, assessment_digest_returns serde a)

  pub check_complete_returns :
      (evidence : List CompletionEvidence) → check_complete s evidence ≢ panic
  unfolding check_complete
  check_complete_returns evidence = ground arith

-- ===== src/Tasks/Goals/Verify/Causes.antt =====
-- What an event that `verify_event` and `apply` both accept rests on.
use kolyan.Prelude.{
  ◌≤◌, ◌≡◌, subst, is_some, is_some-eq-true, String, String-Eq, true, Option, some, List, [], ◌∷◌,
  any, contains, last, ok, >>=-eq-ok, >>-eq-ok, ok_or, arith, ok_or-eq-ok, ok-injective,
}
use kolyan.Prelude.Map
use kolyan.Ledger.{FactRef, FactRef-Eq, FactRecord}
use kolyan.Tasks.Types.{
  GoalCriterion, CompletionCriterion, TaskSnapshot, TaskEvent, GoalAssessment, Serde, invalid,
  InvocationSnapshot, AttemptSnapshot, AttemptObservation, InvocationState,
}
use kolyan.Tasks.Goals.{find_goal, assessment_owner, apply_assessment}
use kolyan.Tasks.Goals.Verify.{
  TaskGoalVerifier, is_goal, goal_causes, verify_causes, ask_host, verify_task, verify_event,
}
use kolyan.Tasks.Reducer.{dispatch, apply}
use kolyan.Tasks.Reducer.Reachable.{apply_next, transition_task-eq-ok}

verify_causes_lem :
    {V : Type 0} (causes : List FactRef) (fact : FactRecord V) (cause : FactRef)
    → verify_causes causes fact ≡ ok tt
    → contains causes cause ≡ true
    → contains fact.draft.causes cause ≡ true
unfolding verify_causes contains
verify_causes_lem [] fact cause h c = cc
verify_causes_lem (first ∷ causes) fact cause h c =
    ground (arith, verify_causes_lem causes fact cause)

assessment_owner_facts :
    {V : Type 0} (serde : Serde V) (s : TaskSnapshot V) (a : GoalAssessment V)
    (goal : GoalCriterion V) (stopped : FactRef)
    → assessment_owner serde s a ≡ ok (goal, stopped)
    → (find_goal a.criterion_id s.definition.criteria ≡ some goal)
      × (a.predicate_digest ≡ goal.predicate_digest)
      × (a.checker ≡ goal.checker)
      × (stopped.position ≤ s.position)
unfolding assessment_owner
assessment_owner_facts serde s a goal stopped h = ground arith

-- The completion of the goal's root: its last attempt is the one that was assessed, and it stopped
-- with the assessed source in the record that `stopped` names.
pub record StoppedBy {V : Type 0} (s : TaskSnapshot V) (a : GoalAssessment V)
    (goal : GoalCriterion V) (stopped : FactRef) : Type 0 where
  pub invocation : InvocationSnapshot
  pub attempt : AttemptSnapshot
  pub found : Map.get goal.invocation_id s.invocations ≡ some invocation
  pub completed : invocation.state ≡ InvocationState.completed
  pub completion : invocation.completion_fact ≡ some stopped
  pub latest : last invocation.attempts ≡ some a.attempt.attempt_id
  pub attempted : Map.get a.attempt.attempt_id s.attempts ≡ some attempt
  pub bound : attempt.binding ≡ a.attempt
  pub observed :
      (observation : AttemptObservation) × (attempt.observation ≡ some observation)
      × (observation.source ≡ a.source)
  pub own_stream : stopped.stream_id ≡ s.definition.task_id

module _ {V : Type 0} (serde : Serde V) (s : TaskSnapshot V) (a : GoalAssessment V)
    (goal : GoalCriterion V) (stopped : FactRef)
    (h : assessment_owner serde s a ≡ ok (goal, stopped)) where
  owner-invocation : is_some (Map.get goal.invocation_id s.invocations) ≡ true
  unfolding assessment_owner
  owner-invocation = ground arith

  owner-attempt : is_some (Map.get a.attempt.attempt_id s.attempts) ≡ true
  unfolding assessment_owner
  owner-attempt = ground arith

  owner-observation :
      (attempt : AttemptSnapshot)
      → Map.get a.attempt.attempt_id s.attempts ≡ some attempt
      → is_some attempt.observation ≡ true
  unfolding assessment_owner
  owner-observation attempt e = ground arith

  owner_fits :
      (invocation : InvocationSnapshot) (attempt : AttemptSnapshot)
      (observation : AttemptObservation)
      → Map.get goal.invocation_id s.invocations ≡ some invocation
      → Map.get a.attempt.attempt_id s.attempts ≡ some attempt
      → attempt.observation ≡ some observation
      → (invocation.state ≡ InvocationState.completed)
        × (invocation.completion_fact ≡ some stopped)
        × (last invocation.attempts ≡ some a.attempt.attempt_id)
        × (attempt.binding ≡ a.attempt)
        × (observation.source ≡ a.source)
        × (stopped.stream_id ≡ s.definition.task_id)
  unfolding assessment_owner
  owner_fits invocation attempt observation found attempted observed = ground arith

  assessment_owner-StoppedBy : StoppedBy s a goal stopped
  assessment_owner-StoppedBy =
      let (invocation, found) = is_some-eq-true _ owner-invocation in
      let (attempt, attempted) = is_some-eq-true _ owner-attempt in
      let (observation, observed) = is_some-eq-true _ (owner-observation attempt attempted) in
      let (completed, completion, latest, bound, source, stream) =
        owner_fits invocation attempt observation found attempted observed in
      record {
        invocation = invocation;
        attempt = attempt;
        found = found;
        completed = completed;
        completion = completion;
        latest = latest;
        attempted = attempted;
        bound = bound;
        observed = (observation, observed, source);
        own_stream = stream;
      }

find_goal-is_goal :
    {V : Type 0} (id : String) (criteria : List (CompletionCriterion V)) (goal : GoalCriterion V)
    → find_goal id criteria ≡ some goal
    → (any is_goal criteria ≡ true) × (goal.id ≡ id)
unfolding find_goal any is_goal
find_goal-is_goal id [] goal h = cc
find_goal-is_goal id (CompletionCriterion.goal g ∷ criteria) goal h =
    ground (arith, find_goal-is_goal id criteria goal)
find_goal-is_goal id (CompletionCriterion.execution_completed i j ∷ criteria) goal h =
    ground (arith, find_goal-is_goal id criteria goal)
find_goal-is_goal id (CompletionCriterion.artifact_digest i j k ∷ criteria) goal h =
    ground (arith, find_goal-is_goal id criteria goal)

contains_only :
    (cause : FactRef) (causes : List FactRef) → cause ∷ [] ≡ causes → contains causes cause ≡ true
unfolding contains
contains_only cause causes e = subst (λ w. contains w cause ≡ true) e (ground arith)

module _ {V : Type 0} (serde : Serde V) (verifier : Option (TaskGoalVerifier V))
    (s : TaskSnapshot V) (a : GoalAssessment V) (fact : FactRecord V) where
  verify_assessed :
      any is_goal s.definition.criteria ≡ true
      → verify_event serde verifier (some s) (TaskEvent.goal_assessed a) fact ≡ ok tt
      → (host : TaskGoalVerifier V) × (goal : GoalCriterion V) × (stopped : FactRef) × (verifier
          ≡ some host)
        × (host.verify_assessment s a ≡ ok tt)
        × (assessment_owner serde s a ≡ ok (goal, stopped))
        × (contains fact.draft.causes stopped ≡ true)
  unfolding verify_event verify_task goal_causes ask_host
  verify_assessed g h =
      let checked : verify_task serde verifier s (TaskEvent.goal_assessed a) fact ≡ ok tt =
        ground arith in
      let (host, there, then1) =
        >>=-eq-ok (ok_or verifier (invalid "goal verifier unavailable on replay")) _ checked in
      let (causes, caused, then2) =
        >>=-eq-ok (goal_causes serde (some s) (TaskEvent.goal_assessed a)) _ then1 in
      let (named, asked) = >>-eq-ok (verify_causes causes fact) _ then2 in
      let (owner, owned, rest) = >>=-eq-ok (assessment_owner serde s a) _ caused in
      (
        host,
        owner.0,
        owner.1,
        ok_or-eq-ok _ _ there,
        asked,
        owned,
        verify_causes_lem causes fact owner.1 named
            (contains_only owner.1 causes (ok-injective rest)),
      )

  apply_assessed :
      (s' : TaskSnapshot V)
      → apply serde (some s) (TaskEvent.goal_assessed a) fact ≡ ok s'
      → any is_goal s.definition.criteria ≡ true
  unfolding dispatch apply_assessment
  apply_assessed s' h =
      let (_, next, dispatched, _) =
        transition_task-eq-ok serde s (TaskEvent.goal_assessed a) fact s'
          (apply_next serde s (TaskEvent.goal_assessed a) fact s' h) in
      let (owner, owned, _) = >>=-eq-ok (assessment_owner serde s a) _ dispatched in
      let (found, _, _, _) = assessment_owner_facts serde s a owner.0 owner.1 owned in
      (find_goal-is_goal a.criterion_id s.definition.criteria owner.0 found).0

  -- An assessment that the verification lets pass and that the task takes is one that the host's
  -- verifier confirmed for this state, with the predicate and the checker of a goal of the task; the
  -- goal's invocation has completed, its last attempt is the one that was assessed and has been
  -- observed with the assessed source, and the record of the assessment names, among its causes, the
  -- record that completed the invocation, which is of the task and not after the state.
  pub goal_assessed_verified :
      (s' : TaskSnapshot V)
      → verify_event serde verifier (some s) (TaskEvent.goal_assessed a) fact ≡ ok tt
      → apply serde (some s) (TaskEvent.goal_assessed a) fact ≡ ok s'
      → (host : TaskGoalVerifier V) × (goal : GoalCriterion V) × (stopped : FactRef) × (verifier
          ≡ some host)
        × (host.verify_assessment s a ≡ ok tt)
        × (find_goal a.criterion_id s.definition.criteria ≡ some goal)
        × (a.predicate_digest ≡ goal.predicate_digest)
        × (a.checker ≡ goal.checker)
        × StoppedBy s a goal stopped
        × (contains fact.draft.causes stopped ≡ true)
        × (stopped.position ≤ s.position)
  goal_assessed_verified s' passed h =
      let (host, goal, stopped, there, asked, owned, named) =
        verify_assessed (apply_assessed s' h) passed in
      let (found, predicate, checker, before) =
        assessment_owner_facts serde s a goal stopped owned in
      (
        host,
        goal,
        stopped,
        there,
        asked,
        found,
        predicate,
        checker,
        assessment_owner-StoppedBy serde s a goal stopped owned,
        named,
        before,
      )

-- ===== src/Tasks/Reducer/Limits.antt =====
-- The limits of a task definition hold in every state that the task can be in.
use kolyan.Prelude.{
  ℕ, ◌≤◌, ◌≡◌, refl, sym, subst, String, String-Eq, true, List, [], ◌∷◌, is_some, length, ok,
  >>=-eq-ok, if◌then◌else◌, arith,
}
use kolyan.Prelude.Map.{Map, length-insert, length-update}
use kolyan.Ledger.{FactRecord}
use kolyan.Tasks.Types.{
  CancellationPolicy, InvocationDefinition, AttemptBinding, AttemptSnapshot, InvocationSnapshot,
  TaskSnapshot, TaskEvent, Serde, total, TaskDefinition,
}
use kolyan.Tasks.Validation.{available_id, validate_definition, validate_limits}
use kolyan.Tasks.Dependencies.{add_dependency}
use kolyan.Tasks.Admission.{check_admit, admitted_invocation, admit}
use kolyan.Tasks.Results.{consume, consume_terminal}
use kolyan.Tasks.Budget.{configure, reserve}
use kolyan.Tasks.Attempts.Start.{authorize_retry, resume, fresh_attempt, check_start, start}
use kolyan.Tasks.Attempts.Observe.{check_observe, observe}
use kolyan.Tasks.Completion.{cancel_attempts, cancel_selected, cancel_invocations, complete, cancel}
use kolyan.Tasks.Goals.{apply_assessment, refresh_goals}
use kolyan.Tasks.Reducer.{require_recovery, dispatch, refresh, registered_task}
use kolyan.Tasks.Reducer.Reachable.{
  Reachable, registers, takes, skips, apply_first, apply_next, transition_task-eq-ok,
}
use kolyan.Tasks.Reducer.Keeps.{dispatch-definition}

-- The numbers of invocations and attempts stay within the limits, which are themselves bounded, and
-- the tokens used fit a `u64`.
pub record WithinLimits {V : Type 0} (s : TaskSnapshot V) : Type 0 where
  pub invocations : length s.invocations ≤ s.definition.limits.max_invocations
  pub attempts : length s.attempts ≤ s.definition.limits.max_attempts
  pub invocations_bounded : s.definition.limits.max_invocations ≤ 4096
  pub attempts_bounded : s.definition.limits.max_attempts ≤ 16384
  pub depth_bounded : s.definition.limits.max_depth ≤ 128
  pub usage : is_some (total s.usage) ≡ true

length-cancel_attempts :
    (ids : List String) (m m' : Map AttemptSnapshot)
    → cancel_attempts ids m ≡ ok m'
    → length m' ≡ length m
unfolding cancel_attempts
length-cancel_attempts [] m m' h = ground arith
length-cancel_attempts (id ∷ ids) m m' h = grind (
  arith,
  length-update {V = AttemptSnapshot} id,
  λ (n : Map AttemptSnapshot). length-cancel_attempts ids n m',
)

length-cancel_invocations :
    (policy : CancellationPolicy) (invs : Map InvocationSnapshot) (m : Map AttemptSnapshot)
    (found : Map InvocationSnapshot × Map AttemptSnapshot)
    → cancel_invocations policy invs m ≡ ok found
    → (length found.0 ≡ length invs) × (length found.1 ≡ length m)
unfolding cancel_invocations
length-cancel_invocations policy [] m found h = ground arith
length-cancel_invocations policy ((id, inv) ∷ invs) m found h =
    let (m', first, then1) =
      >>=-eq-ok (if cancel_selected policy inv then cancel_attempts inv.attempts m else ok m) _ h in
    let (rest, second, last) = >>=-eq-ok (cancel_invocations policy invs m') _ then1 in
    ground (
      arith,
      length-cancel_attempts inv.attempts m m',
      length-cancel_invocations policy invs m' rest second,
    )

start_limits :
    {V : Type 0} (s : TaskSnapshot V) (b : AttemptBinding) (s' : TaskSnapshot V)
    → start s b ≡ ok s'
    → (length s'.attempts ≤ s.definition.limits.max_attempts)
      × (length s'.invocations ≡ length s.invocations)
unfolding start check_start available_id
start_limits s b s' h = grind (
  arith,
  length-insert b.attempt_id (fresh_attempt b) s.attempts,
  length-update {V = InvocationSnapshot},
)

module _ {V : Type 0} (s : TaskSnapshot V) (w : WithinLimits s) where
  admit_limits :
      (d : InvocationDefinition) (s' : TaskSnapshot V)
      → admit s d ≡ ok s'
      → length s'.invocations ≤ s.definition.limits.max_invocations
  unfolding admit check_admit available_id
  admit_limits d s' h =
      ground (arith, length-insert d.invocation_id (admitted_invocation d) s.invocations)

  admit-attempts :
      (d : InvocationDefinition) (s' : TaskSnapshot V)
      → admit s d ≡ ok s'
      → s'.attempts ≡ s.attempts
  unfolding admit
  admit-attempts d s' h = ground arith

  cancel_limits :
      (why : String) (s' : TaskSnapshot V)
      → cancel s why ≡ ok s'
      → (length s'.attempts ≡ length s.attempts) × (length s'.invocations ≡ length s.invocations)
  unfolding cancel
  cancel_limits why s' h =
      grind
        (arith, length-cancel_invocations s.definition.cancellation_policy s.invocations s.attempts)

  reserve_limits :
      (b : AttemptBinding) (n : ℕ) (fact : FactRecord V) (t : TaskSnapshot V)
      → reserve s b n fact ≡ ok t
      → (t.attempts ≡ s.attempts) × (t.invocations ≡ s.invocations) × (t.definition ≡ s.definition)
  unfolding reserve
  reserve_limits b n fact t h = ground arith

  -- The commands other than a start and a cancellation.
  sizes_kept :
      (serde : Serde V) (event : TaskEvent V) (fact : FactRecord V) (s' : TaskSnapshot V)
      → dispatch serde s event fact ≡ ok s'
      → (length s'.invocations ≤ s.definition.limits.max_invocations)
        × (length s'.attempts ≤ s.definition.limits.max_attempts)
  unfolding dispatch configure apply_assessment add_dependency observe resume require_recovery
      authorize_retry consume consume_terminal complete
  sizes_kept serde (TaskEvent.invocation_admitted d) fact s' h =
      (admit_limits d s' h, ground (arith, w.attempts, admit-attempts d s' h))
  sizes_kept serde (TaskEvent.attempt_started b) fact s' h =
      ground (arith, start_limits s b s', w.invocations)
  sizes_kept serde (TaskEvent.budgeted_attempt_started b n) fact s' h =
      let (t, first, second) = >>=-eq-ok (reserve s b n fact) _ h in
      let (a, i, d) = reserve_limits b n fact t first in
      ground (arith, start_limits t b s' second, w.invocations)
  sizes_kept serde (TaskEvent.cancelled why) fact s' h =
      ground (arith, cancel_limits why s' h, w.invocations, w.attempts)
  sizes_kept serde event fact s' h = grind (
    arith,
    length-update {V = AttemptSnapshot},
    length-update {V = InvocationSnapshot},
    w.invocations,
    w.attempts,
  )

  usage_kept :
      (serde : Serde V) (event : TaskEvent V) (fact : FactRecord V) (s' : TaskSnapshot V)
      → dispatch serde s event fact ≡ ok s'
      → is_some (total s'.usage) ≡ true
  unfolding dispatch configure apply_assessment add_dependency observe resume require_recovery
      authorize_retry consume consume_terminal complete check_observe admit start reserve cancel
  usage_kept serde event fact s' h = ground (arith, w.usage)

limits_first :
    {V : Type 0} (serde : Serde V) (d : TaskDefinition V) (fact : FactRecord V)
    → validate_definition serde d ≡ ok tt
    → WithinLimits (registered_task d fact)
unfolding validate_definition validate_limits
limits_first serde d fact h = record {
  invocations = omega arith;
  attempts = omega arith;
  invocations_bounded = ground arith;
  attempts_bounded = ground arith;
  depth_bounded = ground arith;
  usage = refl;
}

limits_refresh :
    {V : Type 0} (s s' : TaskSnapshot V) → refresh s ≡ ok s' → WithinLimits s → WithinLimits s'
unfolding refresh refresh_goals
limits_refresh s s' h w = ground (arith, w.invocations, w.attempts, w.usage)

-- In every state that a task can be in, the numbers of its invocations and of its attempts are at
-- most the limits of its definition, which are bounded by 4096, 16384 and 128, and the tokens that
-- it has used sum up to a `u64`.
pub Reachable-WithinLimits :
    {V : Type 0} (serde : Serde V) (s : TaskSnapshot V) → Reachable serde s → WithinLimits s
Reachable-WithinLimits serde s (registers d fact _ h) =
    let (valid, e) = apply_first serde d fact s h in
    subst WithinLimits (sym e) (limits_first serde d fact valid)
Reachable-WithinLimits serde s (takes {s = before} event fact _ r h) =
    let w = Reachable-WithinLimits serde before r in
    let (_, next, dispatched, refreshed) =
      transition_task-eq-ok serde before event fact s (apply_next serde before event fact s h) in
    let sizes = sizes_kept before w serde event fact next dispatched in
    let same = dispatch-definition before serde event fact next dispatched in
    limits_refresh (record next { position = fact.position }) s refreshed
      (record {
        invocations = ground (arith, sizes.0);
        attempts = ground (arith, sizes.1);
        invocations_bounded = ground (arith, w.invocations_bounded);
        attempts_bounded = ground (arith, w.attempts_bounded);
        depth_bounded = ground (arith, w.depth_bounded);
        usage = usage_kept before w serde event fact next dispatched;
      })
Reachable-WithinLimits serde _ (skips {s = s} position r) =
    let w = Reachable-WithinLimits serde s r in
    record {
      invocations = w.invocations;
      attempts = w.attempts;
      invocations_bounded = w.invocations_bounded;
      attempts_bounded = w.attempts_bounded;
      depth_bounded = w.depth_bounded;
      usage = w.usage;
    }

-- ===== src/Tasks/Completion/Cancels.antt =====
-- What a cancellation reaches.
use kolyan.Prelude.{
  ◌≡◌, ◌≢◌, ◌⊎◌, inl, inr, Bool-cases, refl, ◌∙◌, String, String-Eq, true, false, some, contains,
  ok, >>-eq-ok, >>=-ok-eq-ok, if◌then◌else◌, arith, ap,
}
use kolyan.Prelude.Map
use kolyan.Prelude.Map.{Map, get-update}
use kolyan.Prelude.Sorted.{is_sorted}
use kolyan.Tasks.Types.{
  CancellationPolicy, InvocationRole, InvocationState, InvocationSnapshot, TaskSnapshot, TaskState,
}
use kolyan.Tasks.Validation.{reason}
use kolyan.Tasks.Admission.{is_root}
use kolyan.Tasks.Completion.{
  cancel_selected, cancelled_invocation, cancel_invocations, cancelled_task, cancel,
}
use kolyan.Tasks.Completion.Reached.{
  is_requested, cancel_invocations_requests, cancel_invocations_states, cancel_invocations_leaves,
}

-- Whom a cancellation is for: everybody, or the root.
abbrev pub IsSelected : CancellationPolicy → InvocationSnapshot → Type 0
IsSelected policy inv =
    (policy ≡ CancellationPolicy.all_invocations) ⊎ (inv.definition.role ≡ InvocationRole.root)

-- What a cancellation makes of an invocation that it is for.
pub record IsCancelled (inv inv' : InvocationSnapshot) : Type 0 where
  pub requested : inv'.cancellation_requested ≡ true
  pub never_started : inv.state ≡ InvocationState.admitted → inv'.state ≡ InvocationState.cancelled
  pub goes_on : inv.state ≢ InvocationState.admitted → inv'.state ≡ inv.state
  pub same_definition : inv'.definition ≡ inv.definition
  pub same_attempts : inv'.attempts ≡ inv.attempts
  pub same_results :
      (inv'.consumed_results ≡ inv.consumed_results)
      × (inv'.terminal_consumed_results ≡ inv.terminal_consumed_results)

IsSelected-cancel_selected :
    (policy : CancellationPolicy) (inv : InvocationSnapshot)
    → IsSelected policy inv
    → cancel_selected policy inv ≡ true
unfolding cancel_selected is_root
IsSelected-cancel_selected policy inv (inl e) = ground arith
IsSelected-cancel_selected policy inv (inr e) = ground arith

cancel_selected-IsSelected :
    (policy : CancellationPolicy) (inv : InvocationSnapshot)
    → cancel_selected policy inv ≡ true
    → IsSelected policy inv
unfolding cancel_selected is_root
cancel_selected-IsSelected policy inv h = ground arith

cancelled_invocation-IsCancelled :
    (inv : InvocationSnapshot) → IsCancelled inv (cancelled_invocation inv)
cancelled_invocation-IsCancelled inv = record {
  requested = refl;
  never_started = λ e. ground arith;
  goes_on = λ d. ground arith;
  same_definition = refl;
  same_attempts = refl;
  same_results = (refl, refl);
}

-- A cancellation ends the task. It is for every invocation where the policy is to cancel all, and
-- for the root alone otherwise. An invocation that it is for is to be cancelled, and is cancelled at
-- once where it never started; every other one stays as it is. The attempts of the invocations that
-- it is for are to be cancelled, and an attempt of none of them stays as it is.
pub cancel_reaches :
    {V : Type 0} (s : TaskSnapshot V) (why : String) (s' : TaskSnapshot V)
    → is_sorted s.invocations ≡ true
    → cancel s why ≡ ok s'
    → (s'.state ≡ TaskState.cancelled)
      × ((id : String) (inv : InvocationSnapshot)
          → Map.get id s.invocations ≡ some inv
          → IsSelected s.definition.cancellation_policy inv
          → (inv' : InvocationSnapshot) × (Map.get id s'.invocations ≡ some inv')
            × IsCancelled inv inv')
      × ((id : String) (inv : InvocationSnapshot)
          → Map.get id s.invocations ≡ some inv
          → ¬ IsSelected s.definition.cancellation_policy inv
          → Map.get id s'.invocations ≡ some inv)
      × ((id a : String) (inv : InvocationSnapshot)
          → Map.get id s.invocations ≡ some inv
          → IsSelected s.definition.cancellation_policy inv
          → contains inv.attempts a ≡ true
          → is_requested s'.attempts a ≡ true)
      × ((a : String)
          → ((id : String) (inv : InvocationSnapshot)
              → Map.get id s.invocations ≡ some inv
              → IsSelected s.definition.cancellation_policy inv
              → contains inv.attempts a ≡ false)
          → Map.get a s'.attempts ≡ Map.get a s.attempts)
unfolding cancel
cancel_reaches s why s' o h =
    let policy = s.definition.cancellation_policy in
    let (_, then1) = >>-eq-ok (reason why) _ h in
    let (found, second, e) =
      >>=-ok-eq-ok (cancel_invocations policy s.invocations s.attempts) (cancelled_task s) then1 in
    let states : (id : String) (inv : InvocationSnapshot)
        → Map.get id s.invocations ≡ some inv
        → Map.get id s'.invocations
          ≡ some (if cancel_selected policy inv then cancelled_invocation inv else inv) =
      λ id inv f.
        ap (λ w. Map.get id w.invocations) e
        ∙ cancel_invocations_states policy id s.invocations s.attempts found inv second f in
    (
      ap (λ w. w.state) e,
      λ id inv f t. (
        cancelled_invocation inv,
        states id inv f ∙ rw (IsSelected-cancel_selected policy inv t),
        cancelled_invocation-IsCancelled inv,
      ),
      λ id inv f other. states id inv f ∙ elim (Bool-cases (cancel_selected policy inv)) [
        | inl t ↦ absurd (other (cancel_selected-IsSelected policy inv t))
        | inr e ↦ rw (e)
      ],
      λ id a inv f t c.
          ap (λ w. is_requested w.attempts a) e
          ∙ cancel_invocations_requests a policy id inv s.invocations s.attempts found second f
              (IsSelected-cancel_selected policy inv t) c,
      λ a other.
          ap (λ w. Map.get a w.attempts) e
          ∙ cancel_invocations_leaves policy a s.invocations s.attempts found second o
              (λ id inv f t. other id inv f (cancel_selected-IsSelected policy inv t)),
    )

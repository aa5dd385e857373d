-- ===== src/Tasks/Reducer/States.antt =====
-- The state of a task that has not ended, and what its invocations and its waits say.
use kolyan.Prelude.{
  ◌≡◌, ◌≢◌, sym, Bool-cases, List, String-Eq, refl, ap, inl, inr, ◌∙◌, String, Bool, true, false,
  [], ◌∷◌, any, is_empty, ◌==◌, arith,
}
use mathlib.Core.List.{Memᴰ}
use mathlib.Core.List.Memᴰ
use kolyan.Prelude.Map
use kolyan.Prelude.Map.{Map}
use kolyan.Tasks.Types.{
  InvocationState, InvocationState-Eq, InvocationState-discrete, WaitingReason, InvocationSnapshot,
  TaskState,
}
use kolyan.Tasks.Reducer.{derived_state}

abbrev pub has_state : InvocationState → Map InvocationSnapshot → Bool
has_state state m = any (λ inv. inv.state == state) (Map.values m)

-- An invocation of the state is there.
abbrev pub HasState : InvocationState → Map InvocationSnapshot → Type 0
HasState state m =
    (id : String) × (inv : InvocationSnapshot) × (Memᴰ (id, inv) m) × (inv.state ≡ state)

pub has_state-HasState :
    (state : InvocationState) (m : Map InvocationSnapshot)
    → has_state state m ≡ true
    → HasState state m
unfolding any
has_state-HasState state [] h = cc
has_state-HasState state ((id, inv) ∷ m) h = elim (InvocationState-discrete inv.state state) [
  | yes e ↦ (id, inv, Memᴰ.head refl, e)
  | no d ↦
      let (j, own, there, e) = has_state-HasState state m (ground arith) in
      (j, own, Memᴰ.tail there, e)
]

pub HasState-has_state :
    (state : InvocationState) (m : Map InvocationSnapshot)
    → HasState state m
    → has_state state m ≡ true
unfolding any
HasState-has_state state [] (id, inv, there, e) = absurd (Memᴰ.not-nil there)
HasState-has_state state ((id, inv) ∷ m) (j, own, there, e) = elim (Memᴰ.cases_cons there) [
  | inl same ↦ let first : own ≡ inv = ap (λ w. w.1) same in ground (arith, ap (λ w. w.state) first)
  | inr below ↦ ground (arith, HasState-has_state state m (j, own, below, e))
]

pub no_state :
    (state : InvocationState) (m : Map InvocationSnapshot)
    → has_state state m ≡ false
    → ¬ HasState state m
no_state state m h there = cc (sym (HasState-has_state state m there) ∙ h)

pub has_state-false :
    (state : InvocationState) (m : Map InvocationSnapshot)
    → ¬ HasState state m
    → has_state state m ≡ false
has_state-false state m nobody = elim (Bool-cases (has_state state m)) [
  | inl there ↦ absurd (nobody (has_state-HasState state m there))
  | inr e ↦ e
]

empty-nil : (waits : List WaitingReason) → waits ≢ [] → is_empty waits ≡ false
empty-nil [] d = absurd (d refl)
empty-nil (w ∷ ws) d = refl

module _ (m : Map InvocationSnapshot) (waits : List WaitingReason) where
  pub reads_recovery :
      derived_state m waits ≡ TaskState.recovery_required
      → has_state InvocationState.recovery_required m ≡ true
  unfolding derived_state
  reads_recovery h = ground arith

  pub reads_active :
      derived_state m waits ≡ TaskState.active
      → (has_state InvocationState.recovery_required m ≡ false)
        × (has_state InvocationState.running m ≡ true)
  unfolding derived_state
  reads_active h = ground arith

  pub reads_waiting :
      derived_state m waits ≡ TaskState.waiting
      → (has_state InvocationState.recovery_required m ≡ false)
        × (has_state InvocationState.running m ≡ false)
        × (waits ≢ [])
  unfolding derived_state
  reads_waiting h = (ground arith, ground arith, λ e. ground (arith, ap is_empty e))

  pub reads_ready :
      derived_state m waits ≡ TaskState.ready
      → (has_state InvocationState.recovery_required m ≡ false)
        × (has_state InvocationState.running m ≡ false)
        × (waits ≡ [])
  unfolding derived_state
  reads_ready h = ground arith

  pub derives_recovery :
      has_state InvocationState.recovery_required m ≡ true
      → derived_state m waits ≡ TaskState.recovery_required
  unfolding derived_state
  derives_recovery h = ground arith

  pub derives_active :
      has_state InvocationState.recovery_required m ≡ false
      → has_state InvocationState.running m ≡ true
      → derived_state m waits ≡ TaskState.active
  unfolding derived_state
  derives_active h k = ground arith

  pub derives_waiting :
      has_state InvocationState.recovery_required m ≡ false
      → has_state InvocationState.running m ≡ false
      → waits ≢ []
      → derived_state m waits ≡ TaskState.waiting
  unfolding derived_state
  derives_waiting h k d = ground (arith, empty-nil waits d)

  pub derives_ready :
      has_state InvocationState.recovery_required m ≡ false
      → has_state InvocationState.running m ≡ false
      → waits ≡ []
      → derived_state m waits ≡ TaskState.ready
  unfolding derived_state
  derives_ready h k e = ground (arith, ap is_empty e)

-- ===== src/Tasks/Budget/Ceiling.antt =====
-- The ceiling on the steps that the attempts of a task reserve.
use kolyan.Prelude.{
  ℕ, ◌+◌, ◌-◌, ◌<◌, ◌≤◌, ◌≡◌, refl, subst, ap, ◌∙◌, String, String-Eq, ℕ-Eq, none, some, List, [],
  ◌∷◌, ok, reject_if, ok_or, >>=-ok-eq-ok, arith, >>=-eq-ok, >>-eq-ok, ok_or-eq-ok, ok-injective,
}
use text.Mathlib.TextEquality.{path_by_compare}
use kolyan.Prelude.Map
use kolyan.Prelude.Map.{Map, get-insert}
use kolyan.Ledger.{FactRecord}
use kolyan.Tasks.Types.{
  AttemptBinding, TaskStepReservation, TaskExecutionBudgetState, TaskSnapshot, u64_limit,
}
use kolyan.Tasks.Budget.{
  policy_validate, reserved_from, remaining_steps, with_reservation, check_reserve, reserved,
  reserve,
}

-- The sum of the reservations, on unbounded numbers.
abbrev pub sum_steps : List TaskStepReservation → ℕ
sum_steps [] = 0
sum_steps (slot ∷ slots) = slot.max_steps + sum_steps slots

reserved_from_sums :
    (sum n : ℕ) (slots : List TaskStepReservation)
    → reserved_from sum slots ≡ ok n
    → n ≡ sum + sum_steps slots
unfolding reserved_from
reserved_from_sums sum n [] h = ground arith
reserved_from_sums sum n (slot ∷ slots) h =
    ground (arith, reserved_from_sums (sum + slot.max_steps) n slots)

reserved_from_fits :
    (sum : ℕ) (slots : List TaskStepReservation)
    → sum + sum_steps slots < u64_limit
    → reserved_from sum slots ≡ ok (sum + sum_steps slots)
unfolding reserved_from
reserved_from_fits sum [] h = ground arith
reserved_from_fits sum (slot ∷ slots) h =
    ground (arith, reserved_from_fits (sum + slot.max_steps) slots)

pub sum_steps-insert :
    (id : String) (slot : TaskStepReservation) (slots : Map TaskStepReservation)
    → Map.get id slots ≡ none
    → sum_steps (Map.values (Map.insert id slot slots))
      ≡ slot.max_steps + sum_steps (Map.values slots)
unfolding Map.get Map.insert
sum_steps-insert id slot [] h = refl
sum_steps-insert id slot ((j, other) ∷ slots) h =
    ground (arith, path_by_compare id j, sum_steps-insert id slot slots)

-- What remains is the ceiling less the sum of the reservations, and the reservations are within the
-- ceiling.
pub remaining_steps_exact :
    (budget : TaskExecutionBudgetState) (n : ℕ)
    → remaining_steps budget ≡ ok n
    → n + sum_steps (Map.values budget.reservations) ≡ budget.policy.max_reserved_steps
unfolding remaining_steps
remaining_steps_exact budget n h =
    let slots = Map.values budget.reservations in
    grind (arith, λ (m : ℕ). reserved_from_sums 0 m slots)

module _ {V : Type 0} (s : TaskSnapshot V) (b : AttemptBinding) (max_steps : ℕ)
    (fact : FactRecord V) where
  check_reserve_facts :
      (budget : TaskExecutionBudgetState) (n : ℕ)
      → s.execution_budget ≡ some budget
      → remaining_steps budget ≡ ok n
      → check_reserve s b max_steps fact ≡ ok budget
      → (max_steps ≤ n) × (Map.get b.attempt_id budget.reservations ≡ none)
  unfolding check_reserve
  check_reserve_facts budget n e r h = ground arith

  check_reserve_remaining :
      (budget : TaskExecutionBudgetState)
      → check_reserve s b max_steps fact ≡ ok budget
      → (n : ℕ) × (s.execution_budget ≡ some budget) × (remaining_steps budget ≡ ok n)
  unfolding check_reserve
  check_reserve_remaining budget h =
      let (owner, found, then1) = >>=-eq-ok (ok_or s.execution_budget _) _ h in
      let (_, then2) = >>-eq-ok (reject_if _ _) _ then1 in
      let (n, left, then3) = >>=-eq-ok (remaining_steps owner) _ then2 in
      let (_, last) = >>-eq-ok (reject_if _ _) _ then3 in
      let same : owner ≡ budget = ok-injective last in
      (n, ok_or-eq-ok _ _ found ∙ ap some same, subst (λ w. remaining_steps w ≡ ok n) same left)

remaining_steps_sum :
    (budget : TaskExecutionBudgetState) (n : ℕ)
    → policy_validate budget.policy ≡ ok tt
    → budget.policy.max_reserved_steps < u64_limit
    → n + sum_steps (Map.values budget.reservations) ≡ budget.policy.max_reserved_steps
    → remaining_steps budget ≡ ok n
unfolding remaining_steps
remaining_steps_sum budget n valid fits e =
    ground (arith, reserved_from_fits 0 (Map.values budget.reservations))

remaining_steps_valid :
    (budget : TaskExecutionBudgetState) (n : ℕ)
    → remaining_steps budget ≡ ok n
    → policy_validate budget.policy ≡ ok tt
unfolding remaining_steps
remaining_steps_valid budget n h = ground arith

-- A reservation is taken only where its steps remain under the ceiling of the budget, a `u64`. Then
-- exactly so many steps fewer remain, and the attempt had no reservation before.
pub reserve_lowers :
    {V : Type 0} (s : TaskSnapshot V) (b : AttemptBinding) (max_steps : ℕ) (fact : FactRecord V)
    (budget : TaskExecutionBudgetState) (s' : TaskSnapshot V)
    → s.execution_budget ≡ some budget
    → budget.policy.max_reserved_steps < u64_limit
    → reserve s b max_steps fact ≡ ok s'
    → (left : ℕ) × (s'.execution_budget ≡ some (with_reservation budget b max_steps))
      × (Map.get b.attempt_id budget.reservations ≡ none)
      × (remaining_steps budget ≡ ok (left + max_steps))
      × (remaining_steps (with_reservation budget b max_steps) ≡ ok left)
unfolding reserve
reserve_lowers s b max_steps fact budget s' configured fits h =
    let (own, checked, e) =
      >>=-ok-eq-ok (check_reserve s b max_steps fact) (reserved s b max_steps) h in
    let (n, found, left) = check_reserve_remaining s b max_steps fact own checked in
    let same : own ≡ budget = cc in
    let left' = subst (λ w. remaining_steps w ≡ ok n) same left in
    let (enough, free) =
      check_reserve_facts s b max_steps fact budget n configured left'
        (subst (λ w. check_reserve s b max_steps fact ≡ ok w) same checked) in
    let slot : TaskStepReservation = record { binding = b; max_steps = max_steps } in
    let sum = sum_steps-insert b.attempt_id slot budget.reservations free in
    let before = remaining_steps_exact budget n left' in
    (
      n - max_steps,
      ground arith,
      free,
      ground arith,
      remaining_steps_sum (with_reservation budget b max_steps) (n - max_steps)
          (remaining_steps_valid budget n left') fits (omega arith),
    )

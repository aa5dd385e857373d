-- ===== src/Tasks/Goals/Registry/Keys.antt =====
-- The keys of the registry of tasks/goals/registry.rs.
use kolyan.Prelude.{
  ◌≡◌, sym, ok-injective, ap, subst, ◌∙◌, true, false, ◌||◌, some, List, [], ◌∷◌, ◌==◌, ltb,
  ==_refl, length, is_empty, Bool-cases, inl, inr, ok, reject_if, reject_if-eq-ok, >>=-ok-eq-ok,
  >>-eq-ok, arith,
}
use mathlib.Core.List.{Memᴰ}
use mathlib.Core.List.Memᴰ
use kolyan.Tasks.Types.{GoalCheckerKey, GoalCheckerKey-Eq, invalid}
use kolyan.Tasks.Validation.{checker_validate}
use kolyan.Tasks.Goals.Registry.{
  GoalChecker, GoalCheckerRegistry, find_checker, is_found, add_checkers, new_registry, get_checker,
}

module _ {S V : Type 0} where
  found-not-new :
      (key : GoalCheckerKey) (first : GoalChecker S V)
      (entries : List (GoalCheckerKey × GoalChecker S V)) (found : GoalChecker S V)
      → is_found (find_checker first.key entries) ≡ false
      → find_checker key entries ≡ some found
      → find_checker key ((first.key, first) ∷ entries) ≡ some found
  unfolding find_checker
  found-not-new key first entries found fresh h = elim (Bool-cases (first.key == key)) [
    | inl same ↦
        let e : first.key ≡ key = ground arith in
        let there : is_found (find_checker first.key entries) ≡ true =
          ap is_found (ap (λ k. find_checker k entries) e ∙ h) in
        cc
    | inr other ↦ rw (other, h)
  ]

  found_first :
      (first : GoalChecker S V) (entries : List (GoalCheckerKey × GoalChecker S V))
      → find_checker first.key ((first.key, first) ∷ entries) ≡ some first
  unfolding find_checker
  found_first first entries = rw (==_refl first.key)

  -- Adding checkers keeps the ones that are there and adds each under its own key.
  add_checkers-found :
      (entries entries' : List (GoalCheckerKey × GoalChecker S V))
      (checkers : List (GoalChecker S V))
      → add_checkers entries checkers ≡ ok entries'
      → ((key : GoalCheckerKey) (found : GoalChecker S V)
          → find_checker key entries ≡ some found
          → find_checker key entries' ≡ some found)
        × ((checker : GoalChecker S V)
            → Memᴰ checker checkers
            → find_checker checker.key entries' ≡ some checker)
  unfolding add_checkers
  add_checkers-found entries entries' [] h = (
    (λ key found there. subst (λ m. find_checker key m ≡ some found) (ok-injective h) there),
    (λ checker m. absurd (Memᴰ.not-nil m)),
  )
  add_checkers-found entries entries' (first ∷ checkers) h =
      let (_, then1) = >>-eq-ok (checker_validate first.key) _ h in
      let (fresh, then2) =
        >>-eq-ok
          (reject_if (is_found (find_checker first.key entries)) (invalid "duplicate checker key"))
          _ then1 in
      let (kept, added) =
        add_checkers-found ((first.key, first) ∷ entries) entries' checkers then2 in
      (
        (λ key found there.
            kept key found
              (found-not-new key first entries found (reject_if-eq-ok _ _ fresh) there)),
        (λ checker m. elim (Memᴰ.cases_cons m) [
          | inl same ↦
              subst (λ c. find_checker c.key entries' ≡ some c) (sym same)
                (kept first.key first (found_first first entries))
          | inr below ↦ added checker below
        ]),
      )

  -- Every checker that a registry was made of is the one that the registry gives for its key.
  pub new_registry_gets :
      (checkers : List (GoalChecker S V)) (registry : GoalCheckerRegistry S V)
      (checker : GoalChecker S V)
      → new_registry checkers ≡ ok registry
      → Memᴰ checker checkers
      → get_checker registry checker.key ≡ ok checker
  unfolding new_registry get_checker
  new_registry_gets checkers registry checker h m =
      let (_, then1) =
        >>-eq-ok
          (reject_if (is_empty checkers || ltb 128 (length checkers))
            (invalid "checker count must be 1..128"))
          _ h in
      let (entries, made, e) =
        >>=-ok-eq-ok (add_checkers [] checkers) (λ entries. record { entries = entries }) then1 in
      let found = (add_checkers-found [] entries checkers made).1 checker m in
      rw (e, found, ==_refl checker.key)

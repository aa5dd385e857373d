-- ===== src/Prelude/Latest.antt =====
-- `iter().rev().find(p)`: the last item that passes.
use mathlib.Core.Path.{◌≡◌, ap, sym, ◌∙◌}
use mathlib.Core.Logic.{◌⊎◌, inl, inr}
use mathlib.Core.Bool.{Bool, true, false}
use mathlib.Core.Option.{some}
use mathlib.Core.List.{List, [], ◌∷◌, ◌++◌, reverse_aux, reverse, Memᴰ}
use mathlib.Core.List.Memᴰ
use native.Mathlib.Omega.{arith}
use kolyan.Prelude.Tests.{Bool-cases}
use kolyan.Prelude.Lists.{find}

module _ {A : Type 0} (p : A → Bool) where
  -- No item passes.
  abbrev pub Fails : List A → Type 0
  Fails xs = (other : A) → Memᴰ other xs → p other ≡ false

  -- The item passes and none after it does.
  abbrev pub IsLatest : A → List A → Type 0
  IsLatest a xs =
      (before : List A) × (later : List A) × (xs ≡ before ++ a ∷ later) × (p a ≡ true) × Fails later

  Fails-cons : (x : A) (xs : List A) → p x ≡ false → Fails xs → Fails (x ∷ xs)
  Fails-cons x xs e fails other m = elim (Memᴰ.cases_cons m) [
    | inl same ↦ ap p same ∙ e
    | inr below ↦ fails other below
  ]

  find-reverse_aux :
      (xs acc : List A) (a : A)
      → find p (reverse_aux xs acc) ≡ some a
      → IsLatest a xs ⊎ (Fails xs × (find p acc ≡ some a))
  unfolding find
  find-reverse_aux [] acc a h = inr ((λ other m. absurd (Memᴰ.not-nil m)), h)
  find-reverse_aux (x ∷ xs) acc a h = elim (find-reverse_aux xs (x ∷ acc) a h) [
    | inl (before, later, e, passes, fails) ↦
        inl (x ∷ before, later, ap (λ w. x ∷ w) e, passes, fails)
    | inr (fails, here) ↦ elim (Bool-cases (p x)) [
      | inl passes ↦
          let e : x ≡ a = ground arith in
          inl ([], xs, ap (λ w. w ∷ xs) e, (sym (ap p e) ∙ passes), fails)
      | inr not ↦ inr (Fails-cons x xs not fails, ground arith)
    ]
  ]

  pub find-reverse : (xs : List A) (a : A) → find p (reverse xs) ≡ some a → IsLatest a xs
  unfolding find
  find-reverse xs a h = elim (find-reverse_aux xs [] a h) [
    | inl latest ↦ latest
    | inr (_, nothing) ↦ cc
  ]

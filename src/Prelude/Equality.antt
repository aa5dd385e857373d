-- ===== src/Prelude/Equality.antt =====
-- Equality tests: `==` of a type with an instance, as Rust's derived `PartialEq`.
use Prim.Native.Nat.{ℕ}
use Prim.Native.String.{String}
use mathlib.Core.Path.{◌≡◌, refl}
use mathlib.Core.Bool.{Bool, true, false}
use mathlib.Core.Option.{Option}
use mathlib.Core.List.{List}
use native.Mathlib.Decide.{ℕ_discrete}
use native.Mathlib.Omega.{arith}
use text.Mathlib.Text.{◌==◌ as str_eq}
use text.Mathlib.TextEquality.{eq_iff}

pub record Eq {ℓ} (A : Type ℓ) : Type ℓ where
  pub discrete : Discrete A

abbrev pub is_yes {ℓ} : {A : Type ℓ} → Dec A → Bool
is_yes (yes _) = true
is_yes (no _) = false

infix 50 ◌==◌
abbrev pub ◌==◌ {ℓ} : {A : Type ℓ} ⦃e : Eq A⦄ → A → A → Bool
◌==◌ ⦃e⦄ x y = is_yes (e.discrete x y)

String-dec : (s t : String) (b : Bool) → str_eq s t ≡ b → Dec (s ≡ t)
String-dec s t true e = yes ((eq_iff s t).0 e)
String-dec s t false e = no (λ p. cc (e, (eq_iff s t).1 p))

unfoldable pub String-discrete : Discrete String
unfolding String-dec
String-discrete s t = String-dec s t (str_eq s t) refl

instance abbrev pub String-Eq : Eq String
String-Eq = record { discrete = String-discrete }

unfoldable pub Bool-discrete : Discrete Bool
Bool-discrete = hlevel

instance abbrev pub Bool-Eq : Eq Bool
Bool-Eq = record { discrete = Bool-discrete }

instance abbrev pub ℕ-Eq : Eq ℕ
ℕ-Eq = record { discrete = ℕ_discrete }

pub ==_refl {ℓ} : {A : Type ℓ} ⦃e : Eq A⦄ (x : A) → (x == x) ≡ true
==_refl x = ground arith

-- Options and lists of a type with a test.
unfoldable pub Option-discrete {ℓ} : {A : Type ℓ} → Discrete A → Discrete (Option A)
Option-discrete d = hlevel d

unfoldable pub List-discrete {ℓ} : {A : Type ℓ} → Discrete A → Discrete (List A)
List-discrete d = hlevel d

instance abbrev pub Option-Eq {ℓ} : {A : Type ℓ} ⦃e : Eq A⦄ → Eq (Option A)
Option-Eq ⦃e⦄ = record { discrete = Option-discrete e.discrete }

instance abbrev pub List-Eq {ℓ} : {A : Type ℓ} ⦃e : Eq A⦄ → Eq (List A)
List-Eq ⦃e⦄ = record { discrete = List-discrete e.discrete }

-- ===== src/Prelude/Errors.antt =====
-- Fallible code: a value, an error, or a panic (an `unwrap` of `None`, an index out of range).
use mathlib.Core.Path.{◌≡◌, refl}
use mathlib.Core.Logic.{◌≢◌}
use mathlib.Core.Bool.{Bool, true, false}
use mathlib.Core.Option.{Option, none, some}

pub data Result {ℓ} (E : Type 0) (A : Type ℓ) : Type ℓ where
  panic : Result E A
  err : E → Result E A
  ok : A → Result E A

module _ {E : Type 0} where
  -- `if test { return Err(e) }`
  abbrev pub reject_if : Bool → E → Result E (Unit {0})
  reject_if true e = err e
  reject_if false e = ok tt

  pub reject_if-eq-ok : (test : Bool) (e : E) → reject_if test e ≡ ok tt → test ≡ false
  reject_if-eq-ok true e passed = cc
  reject_if-eq-ok false e passed = refl

module _ {ℓ} {E : Type 0} {A : Type ℓ} where
  -- `o.ok_or_else(|| e)?`
  abbrev pub ok_or : Option A → E → Result E A
  ok_or none e = err e
  ok_or (some a) e = ok a

  -- `o.unwrap()`, `map[key]`
  abbrev pub unwrap : Option A → Result E A
  unwrap none = panic
  unwrap (some a) = ok a

  pub ok_or-eq-ok : (o : Option A) (e : E) {a : A} → ok_or o e ≡ ok a → o ≡ some a
  ok_or-eq-ok none e found = cc
  ok_or-eq-ok (some a) e found = cc

  pub unwrap-eq-ok : (o : Option A) {a : A} → unwrap o ≡ ok a → o ≡ some a
  unwrap-eq-ok none found = cc
  unwrap-eq-ok (some a) found = cc

  pub ok-injective : {a b : A} → ◌≡◌ {A = Result E A} (ok a) (ok b) → a ≡ b
  ok-injective same = cc

  -- `?`: what follows is run on the value.
  infixl 5 ◌>>=◌
  abbrev pub ◌>>=◌ {κ} : {B : Type κ} → Result E A → (A → Result E B) → Result E B
  panic >>= next = panic
  err e >>= next = err e
  ok a >>= next = next a

  module _ {κ} {B : Type κ} where
    pub >>=-same :
        (r : Result E A) (f g : A → Result E B) → ((a : A) → f a ≡ g a) → (r >>= f) ≡ (r >>= g)
    >>=-same panic f g same = refl
    >>=-same (err e) f g same = refl
    >>=-same (ok a) f g same = same a

    pub >>=-eq-ok :
        (first : Result E A) (next : A → Result E B) {b : B}
        → (first >>= next) ≡ ok b
        → (a : A) × (first ≡ ok a) × (next a ≡ ok b)
    >>=-eq-ok panic next passed = cc
    >>=-eq-ok (err e) next passed = cc
    >>=-eq-ok (ok a) next passed = (a, refl, passed)

    -- A check, and what is computed from its value.
    pub >>=-ok-eq-ok :
        (check : Result E A) (write : A → B) {b : B}
        → (check >>= λ a. ok (write a)) ≡ ok b
        → (a : A) × (check ≡ ok a) × (b ≡ write a)
    >>=-ok-eq-ok panic write passed = cc
    >>=-ok-eq-ok (err e) write passed = cc
    >>=-ok-eq-ok (ok a) write passed = (a, refl, cc)

    pub >>=_returns :
        (first : Result E A) (next : A → Result E B)
        → first ≢ panic
        → ((a : A) → first ≡ ok a → next a ≢ panic)
        → (first >>= next) ≢ panic
    >>=_returns panic next there rest = λ p. there refl
    >>=_returns (err e) next there rest = λ p. cc
    >>=_returns (ok a) next there rest = rest a refl

module _ {ℓ} {E : Type 0} {B : Type ℓ} where
  infixl 5 ◌>>◌
  abbrev pub ◌>>◌ {κ} : {A : Type κ} → Result E A → Result E B → Result E B
  check >> rest = check >>= λ _. rest

  pub >>-eq-ok :
      (check : Result E (Unit {0})) (rest : Result E B) {b : B}
      → (check >> rest) ≡ ok b
      → (check ≡ ok tt) × (rest ≡ ok b)
  >>-eq-ok panic rest passed = cc
  >>-eq-ok (err e) rest passed = cc
  >>-eq-ok (ok tt) rest passed = (refl, passed)

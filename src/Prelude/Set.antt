-- ===== src/Prelude/Set.antt =====
-- `BTreeSet<String>`: a list in the order of its items.
use Prim.Native.Nat.{Ordering}
use Prim.Native.String.{String, compare}
use mathlib.Core.Path.{◌≡◌}
use mathlib.Core.Bool.{◌||◌}
use mathlib.Core.List.{List, [], ◌∷◌}
use native.Mathlib.Omega.{arith}
use text.Mathlib.TextEquality.{path_by_compare}
use kolyan.Prelude.Equality.{◌==◌, String-Eq}
use kolyan.Prelude.Lists.{contains}

unfoldable pub insert : String → List String → List String
insert x [] = x ∷ []
insert x (y ∷ s) =
    let rest = y ∷ insert x s in
    elim (compare x y) [ Ordering.lt ↦ x ∷ y ∷ s | Ordering.eq ↦ y ∷ s | Ordering.gt ↦ rest ]

-- `iter().collect()` and `extend`
unfoldable pub extend : List String → List String → List String
extend s [] = s
extend s (x ∷ xs) = extend (insert x s) xs

pub contains-insert :
    (x y : String) (s : List String) → contains (insert x s) y ≡ (x == y || contains s y)
unfolding insert contains
contains-insert x y [] = ground arith
contains-insert x y (z ∷ s) = ground (arith, path_by_compare x z, contains-insert x y s)

pub contains-extend :
    (y : String) (s xs : List String) → contains (extend s xs) y ≡ (contains xs y || contains s y)
unfolding extend contains
contains-extend y s [] = ground arith
contains-extend y s (x ∷ xs) =
    ground (arith, contains-extend y (insert x s) xs, contains-insert x y s)

-- ===== src/Prelude/Map.antt =====
-- `BTreeMap<String, V>`: an association list in the order of the keys.
use Prim.Native.Nat.{◌+◌, Ordering}
use Prim.Native.String.{String, compare}
use mathlib.Core.Path.{◌≡◌, refl}
use mathlib.Core.Bool.{Bool}
use mathlib.Core.Option.{Option, none, some}
use mathlib.Core.List.{List, [], ◌∷◌, map}
use native.Mathlib.Omega.{arith}
use text.Mathlib.TextEquality.{path_by_compare}
use text.Mathlib.TextPositions.{compare_refl}
use kolyan.Prelude.Tests.{if◌then◌else◌}
use kolyan.Prelude.Equality.{◌==◌, String-Eq}
use kolyan.Prelude.Lists.{length, is_some}

abbrev pub Map {ℓ} : Type ℓ → Type ℓ
Map V = List (String × V)

module _ {ℓ} {V : Type ℓ} where
  -- `get`
  unfoldable pub get : String → Map V → Option V
  get k [] = none
  get k ((j, v) ∷ m) = if j == k then some v else get k m

  abbrev pub contains_key : String → Map V → Bool
  contains_key k m = is_some (get k m)

  unfoldable pub insert : String → V → Map V → Map V
  insert k v [] = (k, v) ∷ []
  insert k v ((j, w) ∷ m) =
      let rest = (j, w) ∷ insert k v m in
      elim (compare k j) [
        | Ordering.lt ↦ (k, v) ∷ (j, w) ∷ m
        | Ordering.eq ↦ (k, v) ∷ m
        | Ordering.gt ↦ rest
      ]

  -- A write through `get_mut`: the entry of a key that is there.
  unfoldable pub update : String → V → Map V → Map V
  update k v [] = []
  update k v ((j, w) ∷ m) = if j == k then (j, v) ∷ m else (j, w) ∷ update k v m

  abbrev pub keys : Map V → List String
  keys m = map (λ e. e.0) m

  abbrev pub values : Map V → List V
  values m = map (λ e. e.1) m

  pub get-insert :
      (k j : String) (v : V) (m : Map V)
      → get j (insert k v m) ≡ (if k == j then some v else get j m)
  unfolding get insert
  get-insert k j v [] = ground arith
  get-insert k j v ((i, w) ∷ m) =
      ground (arith, path_by_compare k i, compare_refl k, get-insert k j v m)

  pub get-update :
      (k j : String) (v : V) (m : Map V)
      → get j (update k v m)
        ≡ (if k == j then (if is_some (get k m) then some v else none) else get j m)
  unfolding get update
  get-update k j v [] = ground arith
  get-update k j v ((i, w) ∷ m) = ground (arith, get-update k j v m)

  pub length-insert :
      (k : String) (v : V) (m : Map V) → get k m ≡ none → length (insert k v m) ≡ length m + 1
  unfolding get insert
  length-insert k v [] h = omega arith
  length-insert k v ((i, w) ∷ m) h = ground (arith, path_by_compare k i, length-insert k v m)

  pub length-update : (k : String) (v : V) (m : Map V) → length (update k v m) ≡ length m
  unfolding update
  length-update k v [] = refl
  length-update k v ((i, w) ∷ m) = ground (arith, length-update k v m)

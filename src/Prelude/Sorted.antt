-- ===== src/Prelude/Sorted.antt =====
-- Maps whose keys stand in order: what a `BTreeMap` keeps, and with it that a key has one entry.
use Prim.Native.Nat.{Ordering}
use Prim.Native.String.{String, compare}
use mathlib.Core.Path.{◌≡◌, refl}
use mathlib.Core.Bool.{Bool, true, false, ◌&&◌}
use mathlib.Core.Option.{none}
use mathlib.Core.List.{[], ◌∷◌}
use native.Mathlib.Omega.{arith}
use text.Mathlib.TextEquality.{path_by_compare}
use text.Mathlib.TextPositions.{compare_refl}
use kolyan.Prelude.Equality.{String-Eq}
use kolyan.Prelude.Lists.{contains, is_some}
use kolyan.Prelude.Map.{Map, get, insert, update, keys}
use kolyan.Prelude.Order.{compare_trans, compare_flip}

unfoldable pub is_below : String → String → Bool
is_below k j = elim (compare k j) [ Ordering.lt ↦ true | _ ↦ false ]

module _ {ℓ} {V : Type ℓ} where
  -- The key is below the first of the map.
  unfoldable pub starts_above : String → Map V → Bool
  starts_above k [] = true
  starts_above k ((j, w) ∷ m) = is_below k j

  unfoldable pub is_sorted : Map V → Bool
  is_sorted [] = true
  is_sorted ((k, v) ∷ m) = starts_above k m && is_sorted m

  pub get-below :
      (k : String) (m : Map V) → starts_above k m ≡ true → is_sorted m ≡ true → get k m ≡ none
  unfolding get is_sorted starts_above is_below
  get-below k [] h o = refl
  get-below k ((j, w) ∷ []) h o = ground (arith, compare_refl k)
  get-below k ((j, w) ∷ (i, u) ∷ m) h o =
      ground (arith, compare_refl k, compare_trans k j i, get-below k ((i, u) ∷ m))

  starts_above-insert :
      (i k : String) (v : V) (m : Map V)
      → starts_above i m ≡ true
      → is_below i k ≡ true
      → starts_above i (insert k v m) ≡ true
  unfolding insert starts_above
  starts_above-insert i k v [] h o = ground arith
  starts_above-insert i k v ((j, w) ∷ m) h o = ground arith

  pub is_sorted-insert :
      (k : String) (v : V) (m : Map V) → is_sorted m ≡ true → is_sorted (insert k v m) ≡ true
  unfolding insert is_sorted starts_above is_below
  is_sorted-insert k v [] h = refl
  is_sorted-insert k v ((j, w) ∷ m) h = ground (
    arith,
    path_by_compare k j,
    compare_flip k j,
    starts_above-insert j k v m,
    is_sorted-insert k v m,
  )

  starts_above-update :
      (i k : String) (v : V) (m : Map V) → starts_above i (update k v m) ≡ starts_above i m
  unfolding update starts_above
  starts_above-update i k v [] = refl
  starts_above-update i k v ((j, w) ∷ m) = ground arith

  pub is_sorted-update : (k : String) (v : V) (m : Map V) → is_sorted (update k v m) ≡ is_sorted m
  unfolding update is_sorted
  is_sorted-update k v [] = refl
  is_sorted-update k v ((j, w) ∷ m) =
      ground (arith, starts_above-update j k v m, is_sorted-update k v m)

  pub get-key : (k : String) (m : Map V) → contains (keys m) k ≡ true → is_some (get k m) ≡ true
  unfolding get contains
  get-key k [] h = cc
  get-key k ((j, w) ∷ m) h = ground (arith, get-key k m)

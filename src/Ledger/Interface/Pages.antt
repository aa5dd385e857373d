-- ===== src/Ledger/Interface/Pages.antt =====
-- A stream is read in pages: what a page holds of the records after a position.
use kolyan.Prelude.{
  ℕ, zero, suc, ◌+◌, ◌≤◌, ◌<◌, ◌≡◌, refl, ap, subst, String, List, [], ◌∷◌, ◌++◌, length, filter,
  ltb, arith,
}
use kolyan.Ledger.{FactRecord}
use kolyan.Ledger.Journal.{take_first}
use kolyan.Ledger.Interface.Laws.{IsNumbered, page}

module _ {V : Type 0} where
  filter-IsNumbered :
      (stream : String) (m n : ℕ) (rows : List (FactRecord V))
      → IsNumbered stream n rows
      → m ≤ n
      → filter (λ r. ltb m r.position) rows ≡ rows
  unfolding filter
  filter-IsNumbered stream m n [] h low = refl
  filter-IsNumbered stream m n (r ∷ rows) h low =
      ground (arith, filter-IsNumbered stream m (n + 1) rows h.2)

  pub filter-append :
      (stream : String) (n m : ℕ) (before rest : List (FactRecord V))
      → IsNumbered stream n (before ++ rest)
      → n + length before ≡ m
      → filter (λ r. ltb m r.position) (before ++ rest) ≡ rest
  unfolding filter
  filter-append stream n m [] rest h e = filter-IsNumbered stream m n rest h (omega arith)
  filter-append stream n m (r ∷ before) rest h e =
      ground (arith, filter-append stream (n + 1) m before rest h.2)

  -- The page after the records `before` is the first part of the rest.
  pub page-append :
      (stream : String) (limit m : ℕ) (before rest : List (FactRecord V))
      → IsNumbered stream 0 (before ++ rest)
      → length before ≡ m
      → page limit m (before ++ rest) ≡ take_first limit rest
  page-append stream limit m before rest h e =
      ap (take_first limit) (filter-append stream 0 m before rest h (omega arith))

  pub IsNumbered-right :
      (stream : String) (n m : ℕ) (before rest : List (FactRecord V))
      → IsNumbered stream n (before ++ rest)
      → n + length before ≡ m
      → IsNumbered stream m rest
  IsNumbered-right stream n m [] rest h e = subst (λ k. IsNumbered stream k rest) (omega arith) h
  IsNumbered-right stream n m (r ∷ before) rest h e =
      IsNumbered-right stream (n + 1) m before rest h.2 (omega arith)

  pub IsNumbered-left :
      (stream : String) (n : ℕ) (before rest : List (FactRecord V))
      → IsNumbered stream n (before ++ rest)
      → IsNumbered stream n before
  IsNumbered-left stream n [] rest h = tt
  IsNumbered-left stream n (r ∷ before) rest h =
      (h.0, h.1, IsNumbered-left stream (n + 1) before rest h.2)

  pub drop_first : ℕ → List (FactRecord V) → List (FactRecord V)
  drop_first zero rows = rows
  drop_first (suc n) [] = []
  drop_first (suc n) (r ∷ rows) = drop_first n rows

  pub take_first-drop_first :
      (n : ℕ) (rows : List (FactRecord V)) → take_first n rows ++ drop_first n rows ≡ rows
  unfolding take_first drop_first
  take_first-drop_first zero rows = refl
  take_first-drop_first (suc n) [] = refl
  take_first-drop_first (suc n) (r ∷ rows) = ap (λ w. r ∷ w) (take_first-drop_first n rows)

  pub length-take_first : (n : ℕ) (rows : List (FactRecord V)) → length (take_first n rows) ≤ n
  unfolding take_first
  length-take_first zero rows = omega arith
  length-take_first (suc n) [] = omega arith
  length-take_first (suc n) (r ∷ rows) = omega (arith, length-take_first n rows)

  -- What a page leaves is shorter.
  pub length-drop_first :
      (n : ℕ) (rows : List (FactRecord V))
      → 0 < n
      → 0 < length rows
      → length (drop_first n rows) < length rows
  unfolding drop_first
  length-drop_first zero rows p q = elim p [ ]
  length-drop_first (suc zero) (r ∷ rows) p q = omega arith
  length-drop_first (suc (suc n)) (r ∷ []) p q = omega arith
  length-drop_first (suc (suc n)) (r ∷ x ∷ rows) p q =
      ground (arith, length-drop_first (suc n) (x ∷ rows))
  length-drop_first (suc n) [] p q = elim q [ ]

  -- A page of one record, on a stream that grows.
  pub page_one-append :
      (n after : ℕ) (rows more : List (FactRecord V)) (found : FactRecord V)
      → n ≡ 1
      → page n after rows ≡ found ∷ []
      → page n after (rows ++ more) ≡ found ∷ []
  unfolding filter take_first
  page_one-append n after [] more found e h = ground arith
  page_one-append n after (r ∷ rows) more found e h =
      ground (arith, page_one-append n after rows more found e)

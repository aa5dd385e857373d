-- ===== src/Tasks/Dependencies/Fuel.antt =====
-- The search of `reaches` ends: each call of it enters another invocation into the set.
use kolyan.Prelude.{
  ℕ, zero, suc, ◌≤◌, ◌<◌, ◌≡◌, refl, ◌∙◌, inl, inr, String, String-Eq, String-discrete, Bool, true,
  false, Bool-cases, Option-cases, some, List, [], ◌∷◌, length, contains, if◌then◌else◌, arith,
}
use kolyan.Prelude.Map
use kolyan.Prelude.Map.{Map}
use kolyan.Prelude.Set
use kolyan.Prelude.Set.{contains-insert}
use kolyan.Tasks.Types.{InvocationSnapshot}
use kolyan.Tasks.Dependencies.{Search, or_else, any_reaches, reaches, search_fuel}
use kolyan.Tasks.Dependencies.Steps.{
  visit_with, reaches_target, reaches_seen, reaches_unknown, reaches_known,
}

-- The invocations that a search has not seen.
unseen : Map InvocationSnapshot → List String → ℕ
unseen [] seen = 0
unseen ((k, inv) ∷ m) seen = let rest = unseen m seen in if contains seen k then rest else suc rest

-- A larger set has seen more.
abbrev pub Grows : List String → List String → Type 0
Grows seen seen' = (x : String) → contains seen x ≡ true → contains seen' x ≡ true

unseen_mono :
    (m : Map InvocationSnapshot) (seen seen' : List String)
    → Grows seen seen'
    → unseen m seen' ≤ unseen m seen
unfolding unseen
unseen_mono [] seen seen' g = omega arith
unseen_mono ((k, inv) ∷ m) seen seen' g = ground (arith, unseen_mono m seen seen' g, g k)

unseen-insert :
    (m : Map InvocationSnapshot) (x : String) (seen : List String) (inv : InvocationSnapshot)
    → Map.get x m ≡ some inv
    → contains seen x ≡ false
    → unseen m (Set.insert x seen) < unseen m seen
unfolding unseen Map.get
unseen-insert [] x seen inv h n = cc
unseen-insert ((k, w) ∷ m) x seen inv h n = ground (
  arith,
  unseen-insert m x seen inv,
  contains-insert x k seen,
  unseen_mono m seen (Set.insert x seen) (λ y e. ground (arith, contains-insert x y seen)),
)

unseen-nil : (m : Map InvocationSnapshot) → unseen m [] ≤ length m
unfolding unseen contains
unseen-nil [] = omega arith
unseen-nil ((k, inv) ∷ m) = omega (arith, unseen-nil m)

-- The search returns, and its set has grown.
pub record Returns (r : Search) (seen : List String) : Type 0 where
  pub hit : Bool
  pub after : List String
  pub result : r ≡ some (hit, after)
  pub grown : Grows seen after

module _ (invocations : Map InvocationSnapshot) (target : String) where
  abbrev Answers : (String → List String → Search) → ℕ → Type 0
  Answers visit fuel =
      (x : String) (seen : List String)
      → unseen invocations seen < fuel
      → Returns (visit x seen) seen

  any_reaches-Returns :
      (visit : String → List String → Search) (fuel : ℕ) (ids seen : List String)
      → Answers visit fuel
      → unseen invocations seen < fuel
      → Returns (any_reaches visit ids seen) seen
  unfolding any_reaches
  any_reaches-Returns visit fuel [] seen v h = record {
    hit = false;
    after = seen;
    result = refl;
    grown = λ x e. e;
  }
  any_reaches-Returns visit fuel (i ∷ ids) seen v h = go (v i seen h) (λ s g.
      any_reaches-Returns visit fuel ids s v (omega (arith, unseen_mono invocations seen s g)))
    where
      after_first :
          (b : Bool) (s : List String)
          → visit i seen ≡ some (b, s)
          → Grows seen s
          → Returns (any_reaches visit ids s) s
          → Returns (or_else (visit i seen) (λ s'. any_reaches visit ids s')) seen
      after_first true s e g r = record { hit = true; after = s; result = rw e refl; grown = g }
      after_first false s e g r = record {
        hit = r.hit;
        after = r.after;
        result = rw e r.result;
        grown = λ x m. r.grown x (g x m);
      }

      go :
          Returns (visit i seen) seen
          → ((s : List String) → Grows seen s → Returns (any_reaches visit ids s) s)
          → Returns (or_else (visit i seen) (λ s'. any_reaches visit ids s')) seen
      go r ih = after_first r.hit r.after r.result r.grown (ih r.after r.grown)

  reaches_returns : (fuel : ℕ) → Answers (visit_with invocations target fuel) fuel
  reaches_returns zero x seen h = absurd (omega arith)
  reaches_returns (suc fuel) x seen h = elim (String-discrete x target) [
    | yes same ↦ record {
      hit = true;
      after = seen;
      result = reaches_target invocations target fuel x seen same;
      grown = λ y e. e;
    }
    | no ne ↦ elim (Bool-cases (contains seen x)) [
      | inl old ↦ record {
        hit = false;
        after = seen;
        result = reaches_seen invocations target fuel x seen ne old;
        grown = λ y e. e;
      }
      | inr new ↦ elim (Option-cases (Map.get x invocations)) [
        | inl absent ↦ record {
          hit = false;
          after = Set.insert x seen;
          result = reaches_unknown invocations target fuel x seen ne new absent;
          grown = λ y e. ground (arith, contains-insert x y seen);
        }
        | inr (inv, found) ↦
            let r =
              any_reaches-Returns (visit_with invocations target fuel) fuel
                inv.definition.dependencies (Set.insert x seen) (reaches_returns fuel)
                (omega (arith, unseen-insert invocations x seen inv found new)) in
            record {
              hit = r.hit;
              after = r.after;
              result = reaches_known invocations target fuel x seen inv ne new found ∙ r.result;
              grown = λ y e. r.grown y (ground (arith, contains-insert x y seen));
            }
      ]
    ]
  ]

  pub search-Returns :
      (x : String) → Returns (reaches (search_fuel invocations) invocations x target []) []
  search-Returns x =
      reaches_returns (search_fuel invocations) x [] (omega (arith, unseen-nil invocations))

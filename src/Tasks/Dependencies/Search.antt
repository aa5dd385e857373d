-- ===== src/Tasks/Dependencies/Search.antt =====
-- `reaches` of tasks/reducer/topology.rs finds exactly the paths along dependencies, and ends.
use kolyan.Prelude.{
  ℕ, zero, suc, ◌≡◌, refl, sym, subst, ◌∙◌, ◌≢◌, ◌⊎◌, inl, inr, String, String-Eq, String-discrete,
  true, false, Bool-cases, Option-cases, none, some, List, [], ◌∷◌, contains, arith,
}
use kolyan.Prelude.Map
use kolyan.Prelude.Map.{Map}
use kolyan.Prelude.Set
use kolyan.Prelude.Set.{contains-insert}
use kolyan.Tasks.Types.{InvocationSnapshot}
use kolyan.Tasks.Topology.{Topology, node_of, Edge, Reaches, here, step}
use kolyan.Tasks.Dependencies.{Search, or_else, any_reaches, reaches}
use kolyan.Tasks.Dependencies.Steps.{
  visit_with, reaches_target, reaches_seen, reaches_unknown, reaches_known,
}

-- What a search without a hit leaves: a larger set, the new part of it closed and free of the target.
pub record Explored (t : Topology) (target : String) (seen seen' : List String) : Type 0 where
  pub grows : (x : String) → contains seen x ≡ true → contains seen' x ≡ true
  pub avoids : (x : String) → contains seen' x ≡ true → (contains seen x ≡ true) ⊎ (x ≢ target)
  pub closed :
      (x y : String)
      → contains seen' x ≡ true
      → Edge t x y
      → (contains seen x ≡ true) ⊎ (contains seen' y ≡ true)

module _ (t : Topology) (target : String) where
  abbrev Visits : (String → List String → Search) → Type 0
  Visits visit =
      (id : String) (seen seen' : List String)
      → visit id seen ≡ some (false, seen')
      → Explored t target seen seen' × (contains seen' id ≡ true)

  -- All of `ids` are visited on the way from `seen` to `seen'`.
  abbrev Covers : List String → List String → List String → Type 0
  Covers ids seen seen' =
      Explored t target seen seen'
      × ((id : String) → contains ids id ≡ true → contains seen' id ≡ true)

  Explored-refl : (seen : List String) → Explored t target seen seen
  Explored-refl seen = record { grows = λ x h. h; avoids = λ x h. inl h; closed = λ x y h e. inl h }

  Explored-trans :
      {r s u : List String} → Explored t target r s → Explored t target s u → Explored t target r u
  Explored-trans p q = record {
    grows = λ x h. q.grows x (p.grows x h);
    avoids = λ x h. elim (q.avoids x h) [ inl old ↦ p.avoids x old | inr ne ↦ inr ne ];
    closed = λ x y h e. elim (q.closed x y h e) [
      | inl old ↦ elim (p.closed x y old e) [ inl older ↦ inl older | inr z ↦ inr (q.grows y z) ]
      | inr z ↦ inr z
    ];
  }

  Covers-cons :
      (i : String) (ids r s u : List String)
      → Explored t target r s × (contains s i ≡ true)
      → Covers ids s u
      → Covers (i ∷ ids) r u
  unfolding contains
  Covers-cons i ids r s u (p, has) (q, all) =
      (Explored-trans p q, λ id m. ground (arith, q.grows i has, all id))

  any_reaches-Covers :
      (visit : String → List String → Search) (ids seen seen' : List String)
      → Visits visit
      → any_reaches visit ids seen ≡ some (false, seen')
      → Covers ids seen seen'
  unfolding any_reaches contains
  any_reaches-Covers visit [] seen seen' v h =
      let e : seen ≡ seen' = cc in
      (subst (Explored t target seen) e (Explored-refl seen), λ id m. cc)
  any_reaches-Covers visit (i ∷ ids) seen seen' v h =
      go (visit i seen) refl h (λ s. any_reaches-Covers visit ids s seen' v)
    where
      go :
          (r : Search)
          → visit i seen ≡ r
          → or_else r (λ s. any_reaches visit ids s) ≡ some (false, seen')
          → ((s : List String) → any_reaches visit ids s ≡ some (false, seen') → Covers ids s seen')
          → Covers (i ∷ ids) seen seen'
      go none e k ih = cc
      go (some (true, s)) e k ih = cc
      go (some (false, s)) e k ih = Covers-cons i ids seen s seen' (v i seen s e) (ih s k)

  -- A hit comes from one of the dependencies.
  any_reaches_hit :
      (visit : String → List String → Search) (ids seen seen' : List String)
      → any_reaches visit ids seen ≡ some (true, seen')
      → (id : String) × (s : List String) × (contains ids id ≡ true)
        × (visit id s ≡ some (true, seen'))
  unfolding any_reaches contains
  any_reaches_hit visit [] seen seen' h = cc
  any_reaches_hit visit (i ∷ ids) seen seen' h =
      go (visit i seen) refl h (λ s. any_reaches_hit visit ids s seen')
    where
      go :
          (r : Search)
          → visit i seen ≡ r
          → or_else r (λ s. any_reaches visit ids s) ≡ some (true, seen')
          → ((s : List String)
              → any_reaches visit ids s ≡ some (true, seen')
              → (id : String) × (s : List String) × (contains ids id ≡ true)
                × (visit id s ≡ some (true, seen')))
          → (id : String) × (s : List String) × (contains (i ∷ ids) id ≡ true)
            × (visit id s ≡ some (true, seen'))
      go none e k ih = cc
      go (some (true, s)) e k ih = (i, seen, ground arith, cc)
      go (some (false, s)) e k ih = let (id, s', has, hit) = ih s k in (id, s', ground arith, hit)

module _ (invocations : Map InvocationSnapshot) (t : Topology)
    (shows : (id : String) → t.node id ≡ node_of (Map.get id invocations)) (target : String) where
  -- A new node of the search, whose dependencies are all in the set at the end.
  Explored-insert :
      (x : String) (seen seen' : List String)
      → x ≢ target
      → Explored t target (Set.insert x seen) seen'
      → ((y : String) → Edge t x y → contains seen' y ≡ true)
      → Explored t target seen seen' × (contains seen' x ≡ true)
  Explored-insert x seen seen' ne p all = (
    record {
      grows = λ z h. p.grows z (ground (arith, contains-insert x z seen));
      avoids = λ z h. elim (p.avoids z h) [
        | inl m ↦ ground (arith, contains-insert x z seen)
        | inr n ↦ inr n
      ];
      closed = λ z y h e. elim (p.closed z y h e) [
        | inl m ↦ elim (String-discrete x z) [
          | yes same ↦ inr (all y (subst (λ w. Edge t w y) (sym same) e))
          | no other ↦ inl (ground (arith, contains-insert x z seen))
        ]
        | inr n ↦ inr n
      ];
    },
    p.grows x (ground (arith, contains-insert x x seen)),
  )

  -- The dependencies of `x`, as the topology has them.
  Edge-source :
      (x y : String) (inv : InvocationSnapshot)
      → Map.get x invocations ≡ some inv
      → Edge t x y
      → contains inv.definition.dependencies y ≡ true
  Edge-source x y inv found e = ground (arith, shows x, e.found, e.listed)

  Edge-of_dependency :
      (x y : String) (inv : InvocationSnapshot)
      → Map.get x invocations ≡ some inv
      → contains inv.definition.dependencies y ≡ true
      → Edge t x y
  Edge-of_dependency x y inv found has = record {
    source = record { definition = inv.definition; attempts = inv.attempts };
    found = ground (arith, shows x);
    listed = has;
  }

  not-Edge_of_none : (x y : String) → Map.get x invocations ≡ none → ¬ Edge t x y
  not-Edge_of_none x y absent e = ground (arith, shows x, e.found)

  pub reaches-Visits : (fuel : ℕ) → Visits t target (visit_with invocations target fuel)
  unfolding reaches
  reaches-Visits zero x seen seen' h = cc
  reaches-Visits (suc fuel) x seen seen' h = elim (String-discrete x target) [
    | yes same ↦ cc (reaches_target invocations target fuel x seen same, h)
    | no ne ↦ elim (Bool-cases (contains seen x)) [
      | inl old ↦
          let e : seen ≡ seen' = cc (reaches_seen invocations target fuel x seen ne old, h) in
          (
            subst (Explored t target seen) e (Explored-refl t target seen),
            subst (λ w. contains w x ≡ true) e old,
          )
      | inr new ↦ elim (Option-cases (Map.get x invocations)) [
        | inl absent ↦
            let e : Set.insert x seen ≡ seen' =
              cc (reaches_unknown invocations target fuel x seen ne new absent, h) in
            Explored-insert x seen seen' ne
              (subst (Explored t target (Set.insert x seen)) e
                (Explored-refl t target (Set.insert x seen)))
              (λ y edge. absurd (not-Edge_of_none x y absent edge))
        | inr (inv, found) ↦
            let covers =
              any_reaches-Covers t target (visit_with invocations target fuel)
                inv.definition.dependencies (Set.insert x seen) seen' (reaches-Visits fuel)
                (sym (reaches_known invocations target fuel x seen inv ne new found) ∙ h) in
            Explored-insert x seen seen' ne covers.0
              (λ y edge. covers.1 y (Edge-source x y inv found edge))
      ]
    ]
  ]

  pub reaches_sound :
      (fuel : ℕ) (x : String) (seen seen' : List String)
      → reaches fuel invocations x target seen ≡ some (true, seen')
      → Reaches t x target
  unfolding reaches
  reaches_sound zero x seen seen' h = cc
  reaches_sound (suc fuel) x seen seen' h = elim (String-discrete x target) [
    | yes same ↦ subst (λ w. Reaches t x w) same (here x)
    | no ne ↦ elim (Bool-cases (contains seen x)) [
      | inl old ↦ cc (reaches_seen invocations target fuel x seen ne old, h)
      | inr new ↦ elim (Option-cases (Map.get x invocations)) [
        | inl absent ↦ cc (reaches_unknown invocations target fuel x seen ne new absent, h)
        | inr (inv, found) ↦
            let (y, s, has, hit) =
              any_reaches_hit t target (visit_with invocations target fuel)
                inv.definition.dependencies (Set.insert x seen) seen'
                (sym (reaches_known invocations target fuel x seen inv ne new found) ∙ h) in
            step (Edge-of_dependency x y inv found has) (reaches_sound fuel y s seen' hit)
      ]
    ]
  ]

  -- A search from nothing that fails has seen all that can be reached, and not the target.
  stays_in :
      {seen' : List String} {x y : String}
      → Explored t target [] seen'
      → contains seen' x ≡ true
      → Reaches t x y
      → contains seen' y ≡ true
  unfolding contains
  stays_in p has (here x) = has
  stays_in p has (step {a = x} {b = y} e path) = elim (p.closed x y has e) [
    | inl h ↦ cc
    | inr h ↦ stays_in p h path
  ]

  pub reaches_complete :
      (fuel : ℕ) (x : String) (seen' : List String)
      → reaches fuel invocations x target [] ≡ some (false, seen')
      → ¬ Reaches t x target
  unfolding contains
  reaches_complete fuel x seen' h path =
      let (p, has) = reaches-Visits fuel x [] seen' h in
      elim (p.avoids target (stays_in p has path)) [ inl h' ↦ cc | inr ne ↦ absurd (ne refl) ]

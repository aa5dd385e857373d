-- ===== src/Tasks/Topology/Paths.antt =====
-- Paths along dependencies, and what a new edge or a new invocation does to them.
use kolyan.Prelude.{
  ◌≡◌, refl, sym, subst, ◌∙◌, ◌≢◌, ◌⊎◌, inl, inr, String, String-Eq, String-discrete, true,
  Bool-cases, ◌||◌, some, [], ◌∷◌, ◌++◌, contains, contains-append, is_some, arith,
}
use kolyan.Tasks.Types.{InvocationDefinition}
use kolyan.Tasks.Topology.{Node, Topology, Edge, Reaches, here, step, add_node, add_edge, Admits}

pub Reaches-trans : {t : Topology} {a b c : String} → Reaches t a b → Reaches t b c → Reaches t a c
Reaches-trans (here _) q = q
Reaches-trans (step e p) q = step e (Reaches-trans p q)

pub Reaches-of_Edge : {t : Topology} {a b : String} → Edge t a b → Reaches t a b
Reaches-of_Edge {b = b} e = step e (here b)

-- A new invocation, on which none depends.
module _ (t : Topology) (d : InvocationDefinition) (fits : Admits t d)
    (known : (a b : String) → Edge t a b → is_some (t.node b) ≡ true) where
  pub Edge-cases :
      (a b : String)
      → Edge (add_node t d) a b
      → (a ≡ d.invocation_id) × (contains d.dependencies b ≡ true) ⊎ Edge t a b
  Edge-cases a b e = elim (String-discrete d.invocation_id a) [
    | yes p ↦ inl (sym p, ground (arith, e.found, e.listed))
    | no q ↦ inr (record { source = e.source; found = ground (arith, e.found); listed = e.listed })
  ]

  pub not-Edge_new : (a : String) → ¬ Edge (add_node t d) a d.invocation_id
  not-Edge_new a e = elim (Edge-cases a d.invocation_id e) [
    | inl (_, listed) ↦ cc (fits.fresh, fits.dependencies_known d.invocation_id listed)
    | inr old ↦ cc (fits.fresh, known a d.invocation_id old)
  ]

  pub Reaches-new : {a b : String} → Reaches (add_node t d) a b → b ≡ d.invocation_id → a ≡ b
  Reaches-new (here a) e = refl
  Reaches-new (step {a} {b} {c} s p) e =
      absurd (not-Edge_new a (subst (Edge (add_node t d) a) (Reaches-new p e ∙ e) s))

  pub Reaches-old :
      {a b : String} → Reaches (add_node t d) a b → a ≢ d.invocation_id → Reaches t a b
  Reaches-old (here a) ne = here a
  Reaches-old (step {a} {b} {c} s p) ne = elim (Edge-cases a b s) [
    | inl (e, _) ↦ absurd (ne e)
    | inr old ↦ step old (Reaches-old p (λ e. not-Edge_new a (subst (Edge (add_node t d) a) e s)))
  ]

  pub acyclic-add_node :
      ((a b : String) → Edge t a b → ¬ Reaches t b a)
      → (a b : String) → Edge (add_node t d) a b
      → ¬ Reaches (add_node t d) b a
  acyclic-add_node old a b e p = elim (Edge-cases a b e) [
    | inl (new, _) ↦ not-Edge_new a (subst (Edge (add_node t d) a) (Reaches-new p new ∙ new) e)
    | inr kept ↦
        old a b kept (Reaches-old p (λ i. not-Edge_new a (subst (Edge (add_node t d) a) i e)))
  ]

-- A new edge from `a` to `b`.
module _ (t : Topology) (a b : String) (n : Node) (found : t.node a ≡ some n) where
  into_new :
      {x y : String}
      → contains (n.definition.dependencies ++ b ∷ []) y
        ≡ (contains n.definition.dependencies y || contains (b ∷ []) y)
      → x ≡ a
      → Edge (add_edge t a b n) x y
      → (x ≡ a) × (y ≡ b) ⊎ Edge t x y
  unfolding contains
  into_new {x} {y} split p e = elim (Bool-cases (contains n.definition.dependencies y)) [
    | inl old ↦
        inr (record {
          source = n;
          found = subst (λ w. t.node w ≡ some n) (sym p) found;
          listed = old;
        })
    | inr new ↦ inl (p, ground (arith, e.found, e.listed))
  ]

  pub Edge-split : (x y : String) → Edge (add_edge t a b n) x y → (x ≡ a) × (y ≡ b) ⊎ Edge t x y
  Edge-split x y e = elim (String-discrete a x) [
    | yes p ↦ into_new (contains-append n.definition.dependencies (b ∷ []) y) (sym p) e
    | no q ↦ inr (record { source = e.source; found = ground (arith, e.found); listed = e.listed })
  ]

  Reaches-split :
      {x y : String}
      → Reaches (add_edge t a b n) x y
      → Reaches t x y ⊎ Reaches t x a × Reaches t b y
  Reaches-split (here x) = inl (here x)
  Reaches-split (step {a = x} {b = z} {c = y} s p) = elim (Edge-split x z s) [
    | inl (from, to) ↦ elim (Reaches-split p) [
      | inl q ↦ inr (subst (Reaches t x) from (here x), subst (λ w. Reaches t w y) to q)
      | inr (_, q) ↦ inr (subst (Reaches t x) from (here x), q)
    ]
    | inr old ↦ elim (Reaches-split p) [
      | inl q ↦ inl (step old q)
      | inr (q, r) ↦ inr (step old q, r)
    ]
  ]

  pub acyclic-add_edge :
      ((x y : String) → Edge t x y → ¬ Reaches t y x)
      → ¬ Reaches t b a
      → (x y : String) → Edge (add_edge t a b n) x y
      → ¬ Reaches (add_edge t a b n) y x
  acyclic-add_edge old no_path x y e p = elim (Edge-split x y e) [
    | inl (from, to) ↦ elim (Reaches-split p) [
      | inl q ↦ no_path (subst (λ w. Reaches t w a) to (subst (Reaches t y) from q))
      | inr (q, r) ↦ no_path (subst (Reaches t b) from r)
    ]
    | inr kept ↦ elim (Reaches-split p) [
      | inl q ↦ old x y kept q
      | inr (q, r) ↦ no_path (Reaches-trans r (step kept q))
    ]
  ]

-- ===== src/Tasks/Topology/Valid.antt =====
-- A step keeps the validity of a topology.
use kolyan.Prelude.{
  ℕ, ◌≡◌, sym, subst, inl, inr, String, String-Eq, String-discrete, ◌==◌, true, none, some, [], ◌∷◌,
  contains, contains-append, is_some, arith, if◌then◌else◌,
}
use kolyan.Tasks.Types.{InvocationDefinition, AttemptBinding, InvocationRole}
use kolyan.Tasks.Topology.{
  Node, Topology, Edge, Reaches, here, step, add_node, add_edge, add_attempt, Admits, Step, same,
  admits, starts, depends, IsValid,
}
use kolyan.Tasks.Topology.Paths.{acyclic-add_node, acyclic-add_edge, Edge-split, Edge-cases}

module _ (t : Topology) (v : IsValid t) where
  -- The ranks of the invocations, the new one's above all.
  abbrev rank_with : String → String → ℕ
  rank_with new id = if new == id then t.size else v.rank id

  module _ (d : InvocationDefinition) (fits : Admits t d) where
    add_node-IsValid : IsValid (add_node t d)
    unfolding contains
    add_node-IsValid = record {
      named = λ id n h. ground (arith, v.named id n);
      owned = λ id b h. ground (arith, v.owned id b, fits.fresh);
      listed = λ id n a h l. ground (arith, v.listed id n a);
      parents_known = λ id n p h e. ground (arith, v.parents_known id n p, fits.parent_known p);
      rank = rank_with d.invocation_id;
      rank_bounded = λ id h. ground (arith, v.rank_bounded id);
      rank_falls = λ id n p h e. ground (
        arith,
        v.rank_falls id n p,
        fits.parent_known p,
        v.rank_bounded p,
        v.parents_known id n p,
        fits.fresh,
      );
      one_root = λ i j x y f g p q. ground (
        arith,
        v.one_root i j x y,
        λ (e : d.role ≡ InvocationRole.root). fits.no_root e i x,
        λ (e : d.role ≡ InvocationRole.root). fits.no_root e j y,
      );
      dependencies_known = λ a b e. elim (Edge-cases t d fits v.dependencies_known a b e) [
        | inl (_, has) ↦ ground (arith, fits.dependencies_known b has)
        | inr old ↦ ground (arith, v.dependencies_known a b old)
      ];
      acyclic = acyclic-add_node t d fits v.dependencies_known v.acyclic;
    }

  module _ (b : AttemptBinding) (n : Node) (found : t.node b.invocation_id ≡ some n)
      (fresh : t.attempt b.attempt_id ≡ none) where
    Edge-kept : {x y : String} → Edge (add_attempt t b n) x y → Edge t x y
    Edge-kept {x} e = elim (String-discrete b.invocation_id x) [
      | yes p ↦ record {
        source = n;
        found = subst (λ w. t.node w ≡ some n) p found;
        listed = ground (arith, e.found, e.listed);
      }
      | no q ↦ record { source = e.source; found = ground (arith, e.found); listed = e.listed }
    ]

    Reaches-kept : {x y : String} → Reaches (add_attempt t b n) x y → Reaches t x y
    Reaches-kept (here x) = here x
    Reaches-kept (step e p) = step (Edge-kept e) (Reaches-kept p)

    add_attempt-IsValid : IsValid (add_attempt t b n)
    unfolding contains
    add_attempt-IsValid = record {
      named = λ id m h. ground (arith, v.named id m, v.named id n);
      owned = λ id c h. ground (
        arith,
        v.owned id c,
        contains-append n.attempts (b.attempt_id ∷ []) id,
        contains-append n.attempts (b.attempt_id ∷ []) b.attempt_id,
      );
      listed = λ id m a h l. ground (
        arith,
        v.listed id m a,
        v.listed id n a,
        contains-append n.attempts (b.attempt_id ∷ []) a,
      );
      parents_known = λ id m p h e. ground (arith, v.parents_known id m p, v.parents_known id n p);
      rank = v.rank;
      rank_bounded = λ id h. ground (arith, v.rank_bounded id);
      rank_falls = λ id m p h e. ground (arith, v.rank_falls id m p, v.rank_falls id n p);
      one_root = λ i j x y f g p q.
          ground (arith, v.one_root i j x y, v.one_root i j n y, v.one_root i j x n);
      dependencies_known = λ x y e. ground (arith, v.dependencies_known x y (Edge-kept e));
      acyclic = λ x y e p. v.acyclic x y (Edge-kept e) (Reaches-kept p);
    }

  module _ (a b : String) (n : Node) (found : t.node a ≡ some n) (known : is_some (t.node b) ≡ true)
      (no_path : ¬ Reaches t b a) where
    add_edge-IsValid : IsValid (add_edge t a b n)
    add_edge-IsValid = record {
      named = λ id m h. ground (arith, v.named id m, v.named id n);
      owned = λ id c h. ground (arith, v.owned id c);
      listed = λ id m x h l. ground (arith, v.listed id m x, v.listed id n x);
      parents_known = λ id m p h e. ground (arith, v.parents_known id m p, v.parents_known id n p);
      rank = v.rank;
      rank_bounded = λ id h. ground (arith, v.rank_bounded id);
      rank_falls = λ id m p h e. ground (arith, v.rank_falls id m p, v.rank_falls id n p);
      one_root = λ i j x y f g p q.
          ground (arith, v.one_root i j x y, v.one_root i j n y, v.one_root i j x n);
      dependencies_known = λ x y e. elim (Edge-split t a b n found x y e) [
        | inl (_, to) ↦ ground arith
        | inr old ↦ ground (arith, v.dependencies_known x y old)
      ];
      acyclic = acyclic-add_edge t a b n found v.acyclic no_path;
    }

pub Step-IsValid : {t t' : Topology} → Step t t' → IsValid t → IsValid t'
Step-IsValid (same e) v = subst IsValid (sym e) v
Step-IsValid {t} (admits d fits e) v = subst IsValid (sym e) (add_node-IsValid t v d fits)
Step-IsValid {t} (starts b n found fresh e) v =
    subst IsValid (sym e) (add_attempt-IsValid t v b n found fresh)
Step-IsValid {t} (depends a b n found known no_path e) v =
    subst IsValid (sym e) (add_edge-IsValid t v a b n found known no_path)

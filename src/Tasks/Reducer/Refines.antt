-- ===== src/Tasks/Reducer/Refines.antt =====
-- Every command that the reducer takes is a step of the abstract view.
use kolyan.Prelude.{
  ◌≡◌, refl, sym, subst, ◌∙◌, String, String-Eq, true, false, ap, ok_or, ok_or-eq-ok, unwrap,
  unwrap-eq-ok, none, some, List, [], ◌∷◌, ◌||◌, not, contains, is_some, ok, reject_if, >>=-eq-ok,
  >>-eq-ok, >>=-ok-eq-ok, reject_if-eq-ok, arith, any, inl, inr, ◌≢◌, Option-cases,
}
use kolyan.Prelude.Map
use kolyan.Prelude.Map.{Map, contains_key, get-insert, get-update, length-insert, length-update}
use kolyan.Tasks.Types.{
  InvocationDefinition, InvocationRole, AttemptBinding, InvocationSnapshot, TaskSnapshot, invalid,
  transition,
}
use kolyan.Tasks.Topology.{
  node_of, topology, add_node, add_attempt, add_edge, Admits, Step, admits, starts, depends, Node,
}
use kolyan.Tasks.Validation.{available_id}
use kolyan.Tasks.Dependencies.{
  takes_dependencies, check_dependency, add_dependency, with_invocation, with_dependency,
}
use kolyan.Tasks.Dependencies.Decides.{search, hit_iff}
use kolyan.Tasks.Admission.{
  dependencies_valid, admit_root, admit_child, admit_role, check_admit, admitted_invocation,
  admitted, admit, is_root,
}
use kolyan.Tasks.Attempts.Start.{check_start, started, running_invocation, fresh_attempt, start}
use kolyan.Tasks.Reducer.Shape.{Topology_eq}

module _ {V : Type 0} (s : TaskSnapshot V) where
  pub available_id-eq-ok :
      (id : String)
      → available_id s id ≡ ok tt
      → (Map.get id s.invocations ≡ none) × (Map.get id s.attempts ≡ none)
  unfolding available_id
  available_id-eq-ok id h = ground arith

  -- A new invocation.
  parent_known :
      (role : InvocationRole) (d : InvocationDefinition) (p : String)
      → admit_role role s d ≡ ok tt
      → d.parent_invocation_id ≡ some p
      → is_some (node_of (Map.get p s.invocations)) ≡ true
  unfolding admit_role admit_root admit_child
  parent_known InvocationRole.root d p h e = ground arith
  parent_known _ d p h e = ground arith

  dependency_known :
      (m : Map InvocationSnapshot) (seen ids : List String) (b : String)
      → dependencies_valid m seen ids ≡ true
      → contains ids b ≡ true
      → is_some (node_of (Map.get b m)) ≡ true
  unfolding dependencies_valid contains
  dependency_known m seen [] b h c = cc
  dependency_known m seen (id ∷ ids) b h c = ground (arith, dependency_known m (id ∷ seen) ids b)

  not_root_any :
      (m : Map InvocationSnapshot) (id : String) (inv : InvocationSnapshot)
      → any is_root (Map.values m) ≡ false
      → Map.get id m ≡ some inv
      → is_root inv ≡ false
  unfolding any Map.get
  not_root_any [] id inv h f = cc
  not_root_any ((j, other) ∷ m) id inv h f = ground (arith, not_root_any m id inv)

  no_root :
      (role : InvocationRole) (d : InvocationDefinition) (id : String) (n : Node)
      → admit_role role s d ≡ ok tt
      → role ≡ InvocationRole.root
      → node_of (Map.get id s.invocations) ≡ some n
      → n.definition.role ≢ InvocationRole.root
  unfolding admit_role admit_root is_root
  no_root InvocationRole.root d id n h e f r = elim (Option-cases (Map.get id s.invocations)) [
    | inl g ↦ cc
    | inr (inv, g) ↦ ground (arith, not_root_any s.invocations id inv)
  ]
  no_root _ d id n h e f r = cc

  check_admit_facts :
      (d : InvocationDefinition)
      → check_admit s d ≡ ok tt
      → (available_id s d.invocation_id ≡ ok tt)
        × (admit_role d.role s d ≡ ok tt)
        × (dependencies_valid s.invocations [] d.dependencies ≡ true)
  unfolding check_admit
  check_admit_facts d h = ground arith

  Admits-of_check : (d : InvocationDefinition) → check_admit s d ≡ ok tt → Admits (topology s) d
  Admits-of_check d h =
      let (free, role, deps) = check_admit_facts d h in
      record {
        fresh = ground (arith, available_id-eq-ok d.invocation_id free);
        parent_known = λ p e. parent_known d.role d p role e;
        dependencies_known = λ b c. dependency_known s.invocations [] d.dependencies b deps c;
        no_root = λ e id n f. no_root d.role d id n role e f;
      }

  topology-admitted :
      (d : InvocationDefinition)
      → Map.get d.invocation_id s.invocations ≡ none
      → topology (admitted s d) ≡ add_node (topology s) d
  topology-admitted d free =
      Topology_eq (length-insert d.invocation_id (admitted_invocation d) s.invocations free)
        (λ id. ground (arith, get-insert d.invocation_id id (admitted_invocation d) s.invocations))
        (λ id. refl)

  pub admit-Step :
      (d : InvocationDefinition) (s' : TaskSnapshot V)
      → admit s d ≡ ok s'
      → Step (topology s) (topology s')
  unfolding admit
  admit-Step d s' h =
      let (_, checked, e) = >>=-ok-eq-ok (check_admit s d) (λ _. admitted s d) h in
      let (free, _, _) = check_admit_facts d checked in
      subst (λ w. Step (topology s) (topology w)) (sym e)
        (admits d (Admits-of_check d checked)
          (topology-admitted d (available_id-eq-ok d.invocation_id free).0))

  -- A new attempt.
  pub check_start_found :
      (b : AttemptBinding) (inv : InvocationSnapshot)
      → check_start s b ≡ ok inv
      → (Map.get b.invocation_id s.invocations ≡ some inv) × (available_id s b.attempt_id ≡ ok tt)
  unfolding check_start
  check_start_found b inv h = ground arith

  topology-started :
      (b : AttemptBinding) (inv : InvocationSnapshot)
      → Map.get b.invocation_id s.invocations ≡ some inv
      → topology (started s b inv)
        ≡ add_attempt
            (topology s)
            b
            (record { definition = inv.definition; attempts = inv.attempts })
  topology-started b inv found =
      let next : InvocationSnapshot = running_invocation inv b.attempt_id in
      Topology_eq (length-update b.invocation_id next s.invocations)
        (λ id. ground (arith, get-update b.invocation_id id next s.invocations))
        (λ id. ground (arith, get-insert b.attempt_id id (fresh_attempt b) s.attempts))

  pub start-Step :
      (b : AttemptBinding) (s' : TaskSnapshot V)
      → start s b ≡ ok s'
      → Step (topology s) (topology s')
  unfolding start
  start-Step b s' h =
      let (inv, checked, e) = >>=-ok-eq-ok (check_start s b) (started s b) h in
      let (found, free) = check_start_found b inv checked in
      subst (λ w. Step (topology s) (topology w)) (sym e)
        (starts b (record { definition = inv.definition; attempts = inv.attempts }) (ground arith)
          (ground (arith, available_id-eq-ok b.attempt_id free)) (topology-started b inv found))

  -- A new dependency.
  check_dependency_facts :
      (a b : String) (inv : InvocationSnapshot)
      → check_dependency s a b ≡ ok inv
      → (Map.get a s.invocations ≡ some inv)
        × (is_some (node_of (Map.get b s.invocations)) ≡ true)
        × (seen : List String) × (search s b a ≡ some (false, seen))
  unfolding check_dependency
  check_dependency_facts a b inv h =
      let (owner, o, then1) =
        >>=-eq-ok (ok_or (Map.get a s.invocations) (invalid "unknown invocation")) _ h in
      let (accepted, then2) =
        >>-eq-ok
          (reject_if
            (not (takes_dependencies owner.state)
              || not (Map.contains_key b s.invocations)
              || contains owner.definition.dependencies b)
            (transition "invalid dependency or cyclic result topology"))
          _ then1 in
      let (found, r, then3) = >>=-eq-ok (unwrap (search s b a)) _ then2 in
      let (missed, then4) =
        >>-eq-ok (reject_if found.0 (transition "invalid dependency or cyclic result topology")) _
          then3 in
      let same : owner ≡ inv = cc in
      let miss = reject_if-eq-ok found.0 _ missed in
      let known = reject_if-eq-ok _ _ accepted in
      (
        subst (λ w. Map.get a s.invocations ≡ some w) same (ok_or-eq-ok _ _ o),
        ground (arith),
        found.1,
        unwrap-eq-ok (search s b a) r ∙ ap (λ h. some (h, found.1)) miss,
      )

  topology-depends :
      (a b : String) (inv : InvocationSnapshot)
      → Map.get a s.invocations ≡ some inv
      → topology (with_invocation s a (with_dependency inv b))
        ≡ add_edge
            (topology s)
            a
            b
            (record { definition = inv.definition; attempts = inv.attempts })
  topology-depends a b inv found =
      Topology_eq (length-update a (with_dependency inv b) s.invocations)
        (λ id. ground (arith, get-update a id (with_dependency inv b) s.invocations)) (λ id. refl)

  pub add_dependency-Step :
      (a b : String) (s' : TaskSnapshot V)
      → add_dependency s a b ≡ ok s'
      → Step (topology s) (topology s')
  unfolding add_dependency
  add_dependency-Step a b s' h =
      let (inv, checked, e) =
        >>=-ok-eq-ok (check_dependency s a b)
          (λ owner. with_invocation s a (with_dependency owner b)) h in
      let (found, known, seen, missed) = check_dependency_facts a b inv checked in
      subst (λ w. Step (topology s) (topology w)) (sym e)
        (depends a b (record { definition = inv.definition; attempts = inv.attempts })
          (ground arith) known (λ path. cc ((hit_iff s b a false seen missed).1 path))
          (topology-depends a b inv found))

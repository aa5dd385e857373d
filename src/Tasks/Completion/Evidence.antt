-- ===== src/Tasks/Completion/Evidence.antt =====
-- What a task that succeeds rests on.
use kolyan.Prelude.{
  ◌≡◌, refl, String, String-Eq, ℕ-Eq, true, false, not, some, List, [], ◌∷◌, contains, any, find,
  map, is_some, length, ok, >>=-ok-eq-ok, ◌==◌, arith,
}
use kolyan.Prelude.Map
use kolyan.Prelude.Map.{Map}
use kolyan.Prelude.Set
use kolyan.Prelude.Set.{contains-extend}
use kolyan.Tasks.Types.{
  criterion_id, CompletionEvidence, CompletionEvidence-Eq, evidence_criterion_id,
  InvocationSnapshot, InvocationState, TaskSnapshot, TaskState, InvocationState-Eq,
}
use kolyan.Tasks.Admission.{is_root}
use kolyan.Tasks.Completion.{available_evidence, check_complete, complete}

-- No item fails the test: every item's name is among the names.
named-all {ℓ} :
    {A : Type ℓ} (name : A → String) (ids : List String) (xs : List A) (id : String)
    → any (λ x. not (contains ids (name x))) xs ≡ false
    → contains (map name xs) id ≡ true
    → contains ids id ≡ true
unfolding any contains
named-all name ids [] id h c = cc
named-all name ids (x ∷ xs) id h c = ground (arith, named-all name ids xs id)

listed-all :
    (known items : List CompletionEvidence) (item : CompletionEvidence)
    → any (λ x. not (contains known x)) items ≡ false
    → contains items item ≡ true
    → contains known item ≡ true
unfolding any contains
listed-all known [] item h c = cc
listed-all known (x ∷ xs) item h c = ground (arith, listed-all known xs item)

completed-all :
    (m : Map InvocationSnapshot) (id : String) (inv : InvocationSnapshot)
    → any (λ i. not (i.state == InvocationState.completed)) (Map.values m) ≡ false
    → Map.get id m ≡ some inv
    → inv.state ≡ InvocationState.completed
unfolding any Map.get
completed-all [] id inv h f = cc
completed-all ((j, other) ∷ m) id inv h f = ground (arith, completed-all m id inv)

contains_nil : (id : String) → contains [] id ≡ false
unfolding contains
contains_nil id = refl

module _ {V : Type 0} (s : TaskSnapshot V) (evidence : List CompletionEvidence) where
  -- What holds where a task succeeds.
  pub record Rests : Type 0 where
    pub root_there : is_some (find is_root (Map.values s.invocations)) ≡ true
    pub all_completed :
        (id : String) (inv : InvocationSnapshot)
        → Map.get id s.invocations ≡ some inv
        → inv.state ≡ InvocationState.completed
    pub one_each : length evidence ≡ length s.definition.criteria
    pub criteria_covered :
        (id : String)
        → contains (map criterion_id s.definition.criteria) id ≡ true
        → contains (map evidence_criterion_id evidence) id ≡ true
    pub observed :
        (item : CompletionEvidence)
        → contains evidence item ≡ true
        → contains (available_evidence s) item ≡ true

  check_complete_tests :
      check_complete s evidence ≡ ok tt
      → (is_some (find is_root (Map.values s.invocations)) ≡ true)
        × (any (λ inv. not (inv.state == InvocationState.completed)) (Map.values s.invocations)
            ≡ false)
        × (length evidence ≡ length s.definition.criteria)
        × (any
              (λ c.
                not
                  (contains (Set.extend [] (map evidence_criterion_id evidence)) (criterion_id c)))
              s.definition.criteria
            ≡ false)
        × (any (λ item. not (contains (available_evidence s) item)) evidence ≡ false)
  unfolding check_complete
  check_complete_tests h = ground arith

  -- A task succeeds only where its root is there, all its invocations have completed, and the
  -- evidence has one item for each criterion of the definition, all of them recorded before by an
  -- observation or a satisfied goal. Then the evidence is kept, and nothing but the state changes
  -- with it.
  pub complete_rests :
      (s' : TaskSnapshot V)
      → complete s evidence ≡ ok s'
      → Rests × (s' ≡ record s { success_evidence = evidence; state = TaskState.completed })
  unfolding complete
  complete_rests s' h =
      let (_, checked, e) = >>=-ok-eq-ok (check_complete s evidence) _ h in
      let (root, done, one, covered, known) = check_complete_tests checked in
      let ids = Set.extend [] (map evidence_criterion_id evidence) in
      (
        record {
          root_there = root;
          all_completed = λ id inv. completed-all s.invocations id inv done;
          one_each = one;
          criteria_covered = λ id c. ground (
            arith,
            named-all criterion_id ids s.definition.criteria id covered c,
            contains-extend id [] (map evidence_criterion_id evidence),
            contains_nil id,
          );
          observed = λ item. listed-all (available_evidence s) evidence item known;
        },
        e,
      )

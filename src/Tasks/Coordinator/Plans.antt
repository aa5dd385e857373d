-- ===== src/Tasks/Coordinator/Plans.antt =====
-- What `command` has found out by the time that it appends.
use kolyan.Prelude.{
  ℕ, ◌+◌, ◌≡◌, refl, sym, ap, subst, ◌∙◌, ◌⊎◌, inl, inr, String, String-Eq, ℕ-Eq, true, false,
  Option, none, some, List, [], ◌∷◌, last, find, contains, contains-append, ◌==◌, ==_refl, ok,
  reject_if, ok_or, >>=-eq-ok, >>-eq-ok, >>=-ok-eq-ok, reject_if-eq-ok, ok_or-eq-ok, arith,
}
use kolyan.Ledger.{FactRef, FactRef-Eq, FactRecord}
use kolyan.Tasks.Types.{TaskSnapshot, TaskEvent, invalid, checked_add}
use kolyan.Tasks.Validation.{identity, reference}
use kolyan.Tasks.Goals.Verify.{goal_causes}
use kolyan.Tasks.Inputs.{decoded}
use kolyan.Tasks.Coordinator.{TaskCoordinator, records, take_event, replay}
use kolyan.Tasks.Coordinator.Command.{
  add_cause, add_causes, add_found, source_cause, result_cause, add_policy, last_cause,
  last_position, validate_content, is_other_command, causes_of, draft_of, candidate_of, Plan,
  Prepared, decide, plan_command, retry_command, prepare,
}

checked_add_one : (n m : ℕ) → checked_add n 1 ≡ some m → m ≡ n + 1
checked_add_one n m h = ground arith

-- Causes are only added.
contains-add_cause :
    (cause kept : FactRef) (causes : List FactRef)
    → contains causes kept ≡ true
    → contains (add_cause cause causes) kept ≡ true
unfolding add_cause
contains-add_cause cause kept causes h = ground (arith, contains-append causes (cause ∷ []) kept)

contains-add_causes :
    (more : List FactRef) (kept : FactRef) (causes : List FactRef)
    → contains causes kept ≡ true
    → contains (add_causes more causes) kept ≡ true
unfolding add_causes
contains-add_causes [] kept causes h = h
contains-add_causes (cause ∷ more) kept causes h =
    contains-add_causes more kept (add_cause cause causes) (contains-add_cause cause kept causes h)

contains-add_found :
    (found : Option FactRef) (kept : FactRef) (causes : List FactRef)
    → contains causes kept ≡ true
    → contains (add_found found causes) kept ≡ true
contains-add_found none kept causes h = h
contains-add_found (some cause) kept causes h = contains-add_cause cause kept causes h

module _ {V : Type 0} where
  contains-add_policy :
      (snapshot : Option (TaskSnapshot V)) (event : TaskEvent V) (kept : FactRef)
      (causes all : List FactRef)
      → contains causes kept ≡ true
      → add_policy snapshot event causes ≡ ok all
      → contains all kept ≡ true
  unfolding add_policy
  contains-add_policy snapshot event kept causes all h p =
      grind (arith, λ (cause : FactRef). contains-add_cause cause kept causes h)

module _ {J V : Type 0} (c : TaskCoordinator J V) where
  contains-causes_of :
      (snapshot : Option (TaskSnapshot V)) (event : TaskEvent V) (facts : List (FactRecord V))
      (causes : List FactRef) (r : FactRecord V)
      → causes_of c snapshot event facts ≡ ok causes
      → last facts ≡ some r
      → contains causes (reference r) ≡ true
  unfolding causes_of contains
  contains-causes_of snapshot event facts causes r h e =
      let (goals, _, added) = >>=-eq-ok (goal_causes c.json.serde snapshot event) _ h in
      contains-add_policy snapshot event (reference r) _ causes
        (contains-add_causes goals (reference r) _ (
          contains-add_found (result_cause event) (reference r) _ (
            contains-add_found (source_cause event) (reference r) (last_cause (last facts))
              (rw e (ground (arith, ==_refl (reference r)))))))
        added

  -- A plan: what it was made of.
  pub record Planned (j : J) (task_id fact_id : String) (event : TaskEvent V) (plan : Plan V)
      : Type 0 where
    pub facts : List (FactRecord V)
    pub snapshot : Option (TaskSnapshot V)
    pub payload : V
    pub causes : List FactRef
    pub read : records c j task_id ≡ ok facts
    pub replayed : replay c j task_id facts ≡ ok snapshot
    pub fresh : find (λ r. r.draft.fact_id == fact_id) facts ≡ none
    pub encoded : c.json.event_value event ≡ inr payload
    pub caused : (r : FactRecord V) → last facts ≡ some r → contains causes (reference r) ≡ true
    pub head : plan.expected ≡ last_position (last facts)
    pub candidate :
        plan.candidate
        ≡ candidate_of task_id (plan.expected + 1) (draft_of task_id fact_id event payload causes)
    pub taken : take_event c j task_id snapshot event plan.candidate ≡ ok plan.next
    pub content : validate_content c event ≡ ok tt
    pub named : identity fact_id ≡ ok tt

  pub record Stood (j : J) (task_id fact_id : String) (event : TaskEvent V) (state : TaskSnapshot V)
      : Type 0 where
    pub facts : List (FactRecord V)
    pub existing : FactRecord V
    pub payload : V
    pub read : records c j task_id ≡ ok facts
    pub replayed : replay c j task_id facts ≡ ok (some state)
    pub there : find (λ r. r.draft.fact_id == fact_id) facts ≡ some existing
    pub encoded : c.json.event_value event ≡ inr payload
    pub same : is_other_command c task_id event payload existing ≡ false
    pub content : validate_content c event ≡ ok tt
    pub named : identity fact_id ≡ ok tt

  decoded-eq-ok : {A : Type 0} (found : String ⊎ A) {a : A} → decoded found ≡ ok a → found ≡ inr a
  decoded-eq-ok (inl message) h = cc
  decoded-eq-ok (inr a) h = cc

  -- What `prepare` answers.
  pub data Answers (j : J) (task_id fact_id : String) (event : TaskEvent V)
      : Prepared V → Type 0 where
    planned :
        (plan : Plan V)
        → Planned j task_id fact_id event plan
        → Answers j task_id fact_id event (Prepared.writes plan)
    stood :
        (state : TaskSnapshot V)
        → Stood j task_id fact_id event state
        → Answers j task_id fact_id event (Prepared.stands state)

  decide-Answers :
      (j : J) (task_id fact_id : String) (event : TaskEvent V) (payload : V)
      (facts : List (FactRecord V)) (snapshot : Option (TaskSnapshot V))
      (found : Option (FactRecord V)) (prepared : Prepared V)
      → identity fact_id ≡ ok tt
      → records c j task_id ≡ ok facts
      → replay c j task_id facts ≡ ok snapshot
      → validate_content c event ≡ ok tt
      → c.json.event_value event ≡ inr payload
      → find (λ r. r.draft.fact_id == fact_id) facts ≡ found
      → decide c j task_id fact_id event payload facts snapshot found ≡ ok prepared
      → Answers j task_id fact_id event prepared
  unfolding decide plan_command retry_command
  decide-Answers j task_id fact_id event payload facts snapshot none prepared n r p v e f h =
      let (plan, made, e1) =
        >>=-ok-eq-ok (plan_command c j task_id fact_id event payload facts snapshot) Prepared.writes
          h in
      let (causes, caused, then1) = >>=-eq-ok (causes_of c snapshot event facts) _ made in
      let expected = last_position (last facts) in
      let (position, next_position, then2) =
        >>=-eq-ok (ok_or (checked_add expected 1) (invalid "position overflow")) _ then1 in
      let candidate =
        candidate_of task_id position (draft_of task_id fact_id event payload causes) in
      let (next, taken, e2) =
        >>=-ok-eq-ok (take_event c j task_id snapshot event candidate)
          (λ s. record { expected = expected; candidate = candidate; next = s }) then2 in
      let at : position ≡ plan.expected + 1 =
        checked_add_one expected position (ok_or-eq-ok (checked_add expected 1) _ next_position)
        ∙ ap (λ w. w.expected + 1) (sym e2) in
      subst (Answers j task_id fact_id event) (sym e1) (
        planned plan (record {
          facts = facts;
          snapshot = snapshot;
          payload = payload;
          causes = causes;
          read = r;
          replayed = p;
          fresh = f;
          encoded = e;
          caused = λ q l. contains-causes_of snapshot event facts causes q caused l;
          head = ap (λ w. w.expected) e2;
          candidate =
              ap (λ w. w.candidate) e2
              ∙ ap (λ n. candidate_of task_id n (draft_of task_id fact_id event payload causes)) at;
          taken =
              subst (λ w. take_event c j task_id snapshot event w.candidate ≡ ok w.next) (sym e2)
                taken;
          content = v;
          named = n;
        }))
  decide-Answers j task_id fact_id event payload facts snapshot (some existing) prepared n r p v e f
        h =
      let (state, retried, e1) =
        >>=-ok-eq-ok (retry_command c task_id event payload existing snapshot) Prepared.stands h in
      let (accepted, there) = >>-eq-ok (reject_if _ _) _ retried in
      subst (Answers j task_id fact_id event) (sym e1) (
        stood state (record {
          facts = facts;
          existing = existing;
          payload = payload;
          read = r;
          replayed = p ∙ ap ok (ok_or-eq-ok snapshot _ there);
          there = f;
          encoded = e;
          same = reject_if-eq-ok _ _ accepted;
          content = v;
          named = n;
        }))

  pub prepare-Answers :
      (j : J) (task_id fact_id : String) (event : TaskEvent V) (prepared : Prepared V)
      → prepare c j task_id fact_id event ≡ ok prepared
      → Answers j task_id fact_id event prepared
  unfolding prepare
  prepare-Answers j task_id fact_id event prepared h =
      let (named, then1) = >>-eq-ok (identity fact_id) _ h in
      let (facts, read, then2) = >>=-eq-ok (records c j task_id) _ then1 in
      let (snapshot, replayed, then3) = >>=-eq-ok (replay c j task_id facts) _ then2 in
      let (content, then4) = >>-eq-ok (validate_content c event) _ then3 in
      let (payload, encoded, then5) = >>=-eq-ok (decoded (c.json.event_value event)) _ then4 in
      decide-Answers j task_id fact_id event payload facts snapshot
        (find (λ r. r.draft.fact_id == fact_id) facts) prepared named read replayed content
        (decoded-eq-ok (c.json.event_value event) encoded) refl then5

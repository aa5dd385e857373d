-- ===== src/Tasks/Inputs/Walk/Closed.antt =====
-- What a walk that succeeds has found: everything that the causes rest on.
use kolyan.Prelude.{
  ℕ, zero, suc, ◌+◌, ◌-◌, ◌≡◌, refl, sym, ap, subst, ◌∙◌, inl, inr, String, String-Eq, ℕ-Eq, true,
  ◌||◌, List, [], ◌∷◌, ◌==◌, ==_refl, length, contains, leb, ok, reject_if, >>=-eq-ok, >>-eq-ok,
  >>=-ok-eq-ok, Bool-cases, ok-injective, arith,
}
use kolyan.Ledger.{FactRef, FactRef-discrete, FactRef-Eq, FactRecord}
use kolyan.Ledger.Interface.{FactJournal}
use kolyan.Tasks.Types.{invalid, from_journal}
use kolyan.Tasks.Inputs.{Json, max_causal_records, only}
use kolyan.Tasks.Inputs.Walk.{
  Walk, Scan, expanded, weigh, expand, step, walk, walk_fuel, first_scan, validate_input_causes,
  left,
}
use kolyan.Tasks.Inputs.Walk.Sets.{contains-insert_key, contains-remove_key}
use kolyan.Tasks.Inputs.Stable.{from_journal-eq-ok, only-eq-ok}
use kolyan.Tasks.Inputs.Walk.Fuel.{walk_more}
use kolyan.Tasks.Inputs.Walk.Stack.{
  due, leaves, seen, known, due-map, leaves-map, due-append, leaves-append,
}
use kolyan.Tasks.Inputs.Walk.Rests.{Rests, Ancestor, listed, cited, weigh_rests}

module _ {J V : Type 0} (json : Json V) (journal : FactJournal J V) (j : J) (stream : String) where
  record Opened (scan : Scan) (key : FactRef) : Type 0 where
    found : FactRecord V
    rests : Rests journal j stream key found
    followed :
        (cause : FactRef) → contains found.draft.causes cause ≡ true → known scan cause ≡ true

  record Closed (causes : List FactRef) (scan : Scan) : Type 0 where
    opened : (key : FactRef) → seen scan key ≡ true → Opened scan key
    exits : (key : FactRef) → leaves scan.stack key ≡ true → seen scan key ≡ true
    roots : (cause : FactRef) → contains causes cause ≡ true → known scan cause ≡ true

  known-Opened :
      (scan next : Scan) (key : FactRef)
      → ((k : FactRef) → known scan k ≡ true → known next k ≡ true)
      → Opened scan key
      → Opened next key
  known-Opened scan next key keeps o = record {
    found = o.found;
    rests = o.rests;
    followed = λ cause there. keeps cause (o.followed cause there);
  }

  exit-seen :
      (scan : Scan) (rest : List Walk) (key k : FactRef)
      → seen (left scan rest key) k ≡ (key == k || seen scan k)
  exit-seen scan rest key k =
      ground (arith, contains-insert_key key k scan.black, contains-remove_key key k scan.gray)

  exit_back :
      (scan : Scan) (rest : List Walk) (key k : FactRef)
      → seen scan key ≡ true
      → seen (left scan rest key) k ≡ true
      → seen scan k ≡ true
  exit_back scan rest key k own h = elim (FactRef-discrete key k) [
    | yes e ↦ subst (λ w. seen scan w ≡ true) e own
    | no d ↦ ground (arith, exit-seen scan rest key k)
  ]

  exit-Closed :
      (causes : List FactRef) (scan : Scan) (rest : List Walk) (key : FactRef)
      → scan.stack ≡ Walk.exit key ∷ rest
      → Closed causes scan
      → Closed causes (left scan rest key)
  exit-Closed causes scan rest key e closed =
      let own : seen scan key ≡ true =
        closed.exits key (ap (λ w. leaves w key) e ∙ ground (arith, ==_refl key)) in
      let back : (k : FactRef) → seen (left scan rest key) k ≡ true → seen scan k ≡ true =
        λ k h. exit_back scan rest key k own h in
      let keeps : (k : FactRef) → known scan k ≡ true → known (left scan rest key) k ≡ true =
        λ k h. ground (arith, exit-seen scan rest key k, ap (λ w. due w k) e) in
      record {
        opened = λ k h. known-Opened scan (left scan rest key) k keeps (closed.opened k (back k h));
        exits = λ k h.
            ground (arith, closed.exits k, ap (λ w. leaves w k) e, exit-seen scan rest key k);
        roots = λ k h. keeps k (closed.roots k h);
      }

  expand_opens :
      (scan : Scan) (rest : List Walk) (reference : FactRef) (next : Scan)
      → expand json journal j scan rest reference ≡ ok next
      → (found : FactRecord V) × (total : ℕ) × (next ≡ expanded scan rest reference found total)
        × (journal.read j reference.stream_id (reference.position - 1) 1 ≡ ok (found ∷ []))
        × (weigh json journal scan.bytes reference found ≡ ok total)
  unfolding expand
  expand_opens scan rest reference next h =
      let (_, then1) =
        >>-eq-ok
          (reject_if (leb max_causal_records (length scan.black + length scan.gray))
            (invalid "input causal scan count exceeded"))
          _ h in
      let (rows, read, then2) =
        >>=-eq-ok (from_journal (journal.read j reference.stream_id (reference.position - 1) 1)) _
          then1 in
      let (found, one, then3) = >>=-eq-ok (only rows "missing or ambiguous input cause") _ then2 in
      let (total, weighed, e) =
        >>=-ok-eq-ok (weigh json journal scan.bytes reference found)
          (expanded scan rest reference found) then3 in
      (found, total, e, from_journal-eq-ok _ read ∙ ap ok (only-eq-ok rows _ one), weighed)

  pop-known :
      (scan : Scan) (rest : List Walk) (reference k : FactRef)
      → scan.stack ≡ Walk.enter reference ∷ rest
      → contains scan.black reference ≡ true
      → known scan k ≡ true
      → known (record scan { stack = rest }) k ≡ true
  pop-known scan rest reference k e done h = elim (FactRef-discrete reference k) [
    | yes same ↦
        let black : contains scan.black k ≡ true =
          subst (λ w. contains scan.black w ≡ true) same done in
        ground (arith, black)
    | no d ↦ ground (arith, ap (λ w. due w k) e)
  ]

  pop-Closed :
      (causes : List FactRef) (scan : Scan) (rest : List Walk) (reference : FactRef)
      → scan.stack ≡ Walk.enter reference ∷ rest
      → contains scan.black reference ≡ true
      → Closed causes scan
      → Closed causes (record scan { stack = rest })
  pop-Closed causes scan rest reference e done closed = record {
    opened = λ k h.
        known-Opened scan (record scan { stack = rest }) k
          (λ c there. pop-known scan rest reference c e done there) (closed.opened k h);
    exits = λ k h. closed.exits k (ap (λ w. leaves w k) e ∙ h);
    roots = λ k h. pop-known scan rest reference k e done (closed.roots k h);
  }

  module _ (causes : List FactRef) (scan : Scan) (rest : List Walk) (reference : FactRef)
      (found : FactRecord V) (total : ℕ) (e : scan.stack ≡ Walk.enter reference ∷ rest)
      (rests : Rests journal j stream reference found) (closed : Closed causes scan) where
    abbrev next : Scan
    next = expanded scan rest reference found total

    next-seen : (k : FactRef) → seen next k ≡ (reference == k || seen scan k)
    next-seen k = ground (arith, contains-insert_key reference k scan.gray)

    next-due : (k : FactRef) → due next.stack k ≡ (contains found.draft.causes k || due rest k)
    next-due k = due-append found.draft.causes (Walk.exit reference ∷ rest) k

    next-known : (k : FactRef) → known scan k ≡ true → known next k ≡ true
    next-known k h = ground (arith, next-seen k, next-due k, ap (λ w. due w k) e)

    next-Opened : (k : FactRef) → seen next k ≡ true → Opened next k
    next-Opened k h = elim (FactRef-discrete reference k) [
      | yes same ↦ subst (Opened next) same (record {
        found = found;
        rests = rests;
        followed = λ cause there. ground (arith, next-due cause);
      })
      | no d ↦
          let before : seen scan k ≡ true = ground (arith, next-seen k) in
          known-Opened scan next k next-known (closed.opened k before)
    ]

    expand-Closed : Closed causes next
    expand-Closed = record {
      opened = next-Opened;
      exits = λ k h. ground (
        arith,
        next-seen k,
        leaves-append found.draft.causes (Walk.exit reference ∷ rest) k,
        closed.exits k,
        ap (λ w. leaves w k) e,
      );
      roots = λ k h. next-known k (closed.roots k h);
    }

  step-Closed :
      (causes : List FactRef) (scan next : Scan) (rest : List Walk) (action : Walk)
      → scan.stack ≡ action ∷ rest
      → Closed causes scan
      → step json journal j stream scan rest action ≡ ok next
      → Closed causes next
  unfolding step
  step-Closed causes scan next rest (Walk.exit key) e closed h =
      subst (Closed causes) (ok-injective h) (exit-Closed causes scan rest key e closed)
  step-Closed causes scan next rest (Walk.enter reference) e closed h =
      elim (Bool-cases (contains scan.black reference)) [
        | inl done ↦
            let popped : next ≡ record scan { stack = rest } = ground arith in
            subst (Closed causes) (sym popped) (pop-Closed causes scan rest reference e done closed)
        | inr fresh ↦
            let opened : expand json journal j scan rest reference ≡ ok next = ground arith in
            let (found, total, same, read, weighed) =
              expand_opens scan rest reference next opened in
            let rests =
              weigh_rests json journal j stream scan.bytes reference found total weighed read
                (ground arith) (λ own. ground arith) in
            subst (Closed causes) (sym same)
              (expand-Closed causes scan rest reference found total e rests closed)
      ]

  walk_zero : {P : Type 0} (scan : Scan) → walk json journal zero j stream scan ≡ ok tt → P
  unfolding walk
  walk_zero scan h = absurd (cc h)

  first-Closed : (causes : List FactRef) → Closed causes (first_scan causes)
  unfolding contains
  first-Closed causes = record {
    opened = λ key h. cc h;
    exits = λ key h. cc (sym (leaves-map causes key) ∙ h);
    roots = λ cause h. due-map causes cause ∙ h;
  }

  walk_ends :
      (fuel : ℕ) (causes : List FactRef) (scan : Scan)
      → Closed causes scan
      → walk json journal fuel j stream scan ≡ ok tt
      → (last : Scan) × Closed causes last × (last.stack ≡ [])
  walk_ends zero causes scan closed h = walk_zero scan h
  walk_ends (suc fuel) causes scan closed h =
      round (λ next c m. walk_ends fuel causes next c m) scan.stack refl
    where
      round :
          ((next : Scan)
            → Closed causes next
            → walk json journal fuel j stream next ≡ ok tt
            → (last : Scan) × Closed causes last × (last.stack ≡ []))
          → (stack : List Walk) → scan.stack ≡ stack
          → (last : Scan) × Closed causes last × (last.stack ≡ [])
      round more [] e = (scan, closed, e)
      round more (action ∷ rest) e =
          let (next, stepped, then1) =
            >>=-eq-ok (step json journal j stream scan rest action)
              (walk json journal fuel j stream)
              (sym (walk_more json journal fuel j stream scan rest action e) ∙ h) in
          more next (step-Closed causes scan next rest action e closed stepped) then1

  -- At the end everything that the causes rest on was seen.
  Ancestor-seen :
      (causes : List FactRef) (last : Scan)
      → Closed causes last
      → last.stack ≡ []
      → {key : FactRef} → Ancestor journal j causes key
      → seen last key ≡ true
  Ancestor-seen causes last closed e (listed key h) =
      ground (arith, closed.roots key h, ap (λ w. due w key) e)
  Ancestor-seen causes last closed e (cited {key = key} found cause a read there) =
      let o = closed.opened key (Ancestor-seen causes last closed e a) in
      let rests = o.rests in
      let same : o.found ≡ found = cc (rests.read, read) in
      let there' = ap (λ w. contains w.draft.causes cause) same ∙ there in
      ground (arith, o.followed cause there', ap (λ w. due w cause) e)

  -- Causes that pass the walk are backed by the journal all the way down: each reference that they
  -- rest on, however far, names a record that is there, is the very fact that it names, is critical,
  -- stands in another stream than the input's, and is later than its causes in its own stream.
  pub validate_input_causes_lem :
      (causes : List FactRef) (key : FactRef)
      → validate_input_causes json journal j causes stream ≡ ok tt
      → Ancestor journal j causes key
      → (found : FactRecord V) × Rests journal j stream key found
  unfolding validate_input_causes contains
  validate_input_causes_lem causes key h a =
      let walked : walk json journal walk_fuel j stream (first_scan causes) ≡ ok tt =
        ground arith in
      let (last, closed, e) =
        walk_ends walk_fuel causes (first_scan causes) (first-Closed causes) walked in
      let o = closed.opened key (Ancestor-seen causes last closed e a) in (o.found, o.rests)

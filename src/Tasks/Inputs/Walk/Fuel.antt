-- ===== src/Tasks/Inputs/Walk/Fuel.antt =====
-- The walk ends: every round pops an action, and at most 1024 of them open a record.
use kolyan.Prelude.{
  ℕ, zero, suc, ◌+◌, ◌-◌, ◌*◌, ◌≡◌, ◌≢◌, ◌≤◌, ◌<◌, refl, sym, ap, String, String-Eq, ℕ-Eq, Bool,
  true, false, List, [], ◌∷◌, ◌++◌, map, length, length-append, contains, ltb, leb, ok, err, panic,
  reject_if, ◌>>=◌, >>=-eq-ok, >>-eq-ok, >>=-ok-eq-ok, >>=_returns, Bool-cases, ok-injective, subst,
  inl, inr, ◌∙◌, arith,
}
use kolyan.Ledger.{FactRef, FactRef-Eq, FactRecord}
use kolyan.Ledger.Interface.{FactJournal}
use kolyan.Tasks.Types.{TaskError, invalid, from_journal}
use kolyan.Tasks.Validation.{identity, to_vec}
use kolyan.Tasks.Inputs.{Json, max_causal_records, only}
use kolyan.Tasks.Inputs.Walk.{
  CausalKey, Walk, Scan, insert_key, check_repeats, check_history, is_foreign, expanded, expand,
  step, walk, walk_fuel, first_scan, validate_input_causes, weigh, left,
}
use kolyan.Tasks.Inputs.Walk.Sets.{
  is_distinct, contains-insert_key, length-insert_key, is_distinct-insert_key, contains-remove_key,
  length-remove_key, is_distinct-remove_key,
}
use kolyan.Ledger.Journal.{FactResult}

abbrev seen_count : Scan → ℕ
seen_count scan = length scan.black + length scan.gray

-- What is left to do.
abbrev measure : Scan → ℕ
measure scan = length scan.stack + 33 * (max_causal_records - seen_count scan)

-- A key stands in one of the two sets, and there once.
record Separate (scan : Scan) : Type 0 where
  distinct : is_distinct scan.gray ≡ true
  apart : (key : CausalKey) → contains scan.gray key ≡ true → contains scan.black key ≡ false

length-map : {A B : Type 0} (f : A → B) (xs : List A) → length (map f xs) ≡ length xs
length-map f [] = refl
length-map f (x ∷ xs) = ap suc (length-map f xs)

exit-Separate :
    (scan : Scan) (rest : List Walk) (key : CausalKey)
    → Separate scan
    → Separate (left scan rest key)
exit-Separate scan rest key s = record {
  distinct = is_distinct-remove_key key scan.gray s.distinct;
  apart = λ k h.
      ground (
        arith,
        contains-remove_key key k scan.gray,
        contains-insert_key key k scan.black,
        s.apart k,
      );
}

exit-seen_count :
    (scan : Scan) (rest : List Walk) (key : CausalKey)
    → Separate scan
    → seen_count scan ≤ seen_count (left scan rest key)
unfolding insert_key
exit-seen_count scan rest key s =
    ground (arith, length-remove_key key scan.gray s.distinct, s.apart key)

only_returns : {A : Type 0} (items : List A) (message : String) → only items message ≢ panic
only_returns [] message = λ p. cc
only_returns (a ∷ []) message = λ p. cc
only_returns (a ∷ b ∷ items) message = λ p. cc

module _ {J V : Type 0} (json : Json V) (journal : FactJournal J V) where
  pub walk_more :
      (fuel : ℕ) (j : J) (stream : String) (scan : Scan) (rest : List Walk) (action : Walk)
      → scan.stack ≡ action ∷ rest
      → walk json journal (suc fuel) j stream scan
        ≡ (step json journal j stream scan rest action >>= walk json journal fuel j stream)
  unfolding walk
  walk_more fuel j stream scan rest action e = rw e

module _ {J V : Type 0} (json : Json V) (journal : FactJournal J V)
    (reads : (j : J) (stream : String) (after limit : ℕ)
      → journal.read j stream after limit ≢ panic) where
  weigh_causes :
      (bytes : ℕ) (reference : FactRef) (found : FactRecord V) (total : ℕ)
      → weigh json journal bytes reference found ≡ ok total
      → length found.draft.causes ≤ 32
  unfolding weigh is_foreign
  weigh_causes bytes reference found total h = ground arith

  -- What opening a record adds.
  expand_facts :
      (j : J) (scan : Scan) (rest : List Walk) (reference : FactRef) (next : Scan)
      → expand json journal j scan rest reference ≡ ok next
      → (found : FactRecord V) × (total : ℕ) × (next ≡ expanded scan rest reference found total)
        × (length found.draft.causes ≤ 32)
        × (seen_count scan < max_causal_records)
  unfolding expand
  expand_facts j scan rest reference next h =
      let (room, then1) =
        >>-eq-ok
          (reject_if (leb max_causal_records (length scan.black + length scan.gray))
            (invalid "input causal scan count exceeded"))
          _ h in
      let (rows, _, then2) =
        >>=-eq-ok (from_journal (journal.read j reference.stream_id (reference.position - 1) 1)) _
          then1 in
      let (found, _, then3) = >>=-eq-ok (only rows "missing or ambiguous input cause") _ then2 in
      let (total, weighed, e) =
        >>=-ok-eq-ok (weigh json journal scan.bytes reference found)
          (expanded scan rest reference found) then3 in
      (found, total, e, weigh_causes scan.bytes reference found total weighed, ground arith)

  check_history_returns :
      (found : FactRecord V) (before causes : List FactRef)
      → check_history found before causes ≢ panic
  unfolding check_history
  check_history_returns found before [] = λ p. cc
  check_history_returns found before (cause ∷ causes) =
      λ p. ground (arith, check_history_returns found (before ++ cause ∷ []) causes)

  weigh_returns :
      (bytes : ℕ) (reference : FactRef) (found : FactRecord V)
      → weigh json journal bytes reference found ≢ panic
  unfolding weigh to_vec
  weigh_returns bytes reference found =
      λ p. ground (arith, check_history_returns found [] found.draft.causes)

  reject_if_returns : (test : Bool) (e : TaskError) → reject_if test e ≢ panic
  reject_if_returns true e = λ p. cc
  reject_if_returns false e = λ p. cc

  from_journal_returns :
      {A : Type 0} (found : FactResult A) → found ≢ panic → from_journal found ≢ panic
  from_journal_returns panic there = λ p. there refl
  from_journal_returns (err e) there = λ p. cc
  from_journal_returns (ok a) there = λ p. cc

  expand_returns :
      (j : J) (scan : Scan) (rest : List Walk) (reference : FactRef)
      → expand json journal j scan rest reference ≢ panic
  unfolding expand
  expand_returns j scan rest reference p =
      let full = leb max_causal_records (length scan.black + length scan.gray) in
      let message : TaskError = invalid "input causal scan count exceeded" in
      >>=_returns (reject_if full message) _ (reject_if_returns full message)
        (λ _ _.
          >>=_returns (from_journal (journal.read j reference.stream_id (reference.position - 1) 1))
            _ (from_journal_returns _ (reads j reference.stream_id (reference.position - 1) 1))
            (λ rows _.
              >>=_returns (only rows "missing or ambiguous input cause") _ (only_returns rows _)
                (λ found _.
                  >>=_returns (weigh json journal scan.bytes reference found) _
                    (weigh_returns scan.bytes reference found) (λ total _ q. cc))))
        p

  step_returns :
      (j : J) (stream : String) (scan : Scan) (rest : List Walk) (action : Walk)
      → step json journal j stream scan rest action ≢ panic
  unfolding step identity
  step_returns j stream scan rest (Walk.exit key) = λ p. cc
  step_returns j stream scan rest (Walk.enter reference) =
      λ p. ground (arith, expand_returns j scan rest reference)

  -- A round keeps the sets apart, and leaves less to do.
  record Falls (scan next : Scan) : Type 0 where
    separate : Separate next
    smaller : measure next < measure scan

  expanded-Falls :
      (scan : Scan) (rest : List Walk) (reference : FactRef) (found : FactRecord V) (total : ℕ)
      → scan.stack ≡ Walk.enter reference ∷ rest
      → Separate scan
      → contains scan.gray reference ≡ false
      → contains scan.black reference ≡ false
      → length found.draft.causes ≤ 32
      → seen_count scan < max_causal_records
      → Falls scan (expanded scan rest reference found total)
  expanded-Falls scan rest reference found total e s gray black few room = record {
    separate = record {
      distinct = is_distinct-insert_key reference scan.gray s.distinct;
      apart = λ k h. ground (arith, contains-insert_key reference k scan.gray, s.apart k);
    };
    smaller = omega (
      arith,
      ap length e,
      length-insert_key reference scan.gray gray,
      length-append (map Walk.enter found.draft.causes) (Walk.exit reference ∷ rest),
      length-map Walk.enter found.draft.causes,
    );
  }

  step-Falls :
      (j : J) (stream : String) (scan : Scan) (rest : List Walk) (action : Walk) (next : Scan)
      → scan.stack ≡ action ∷ rest
      → Separate scan
      → step json journal j stream scan rest action ≡ ok next
      → Falls scan next
  unfolding step
  step-Falls j stream scan rest (Walk.exit key) next e s h =
      subst (Falls scan) (ok-injective h) (record {
        separate = exit-Separate scan rest key s;
        smaller = omega (arith, ap length e, exit-seen_count scan rest key s);
      })
  step-Falls j stream scan rest (Walk.enter reference) next e s h =
      elim (Bool-cases (contains scan.black reference)) [
        | inl done ↦
            let popped : next ≡ record scan { stack = rest } = ground arith in
            subst (Falls scan) (sym popped) (record {
              separate = record { distinct = s.distinct; apart = s.apart };
              smaller = omega (arith, ap length e);
            })
        | inr fresh ↦
            let opened : expand json journal j scan rest reference ≡ ok next = ground arith in
            let white : contains scan.gray reference ≡ false = ground arith in
            let (found, total, same, few, room) = expand_facts j scan rest reference next opened in
            subst (Falls scan) (sym same)
              (expanded-Falls scan rest reference found total e s white fresh few room)
      ]

  walk_empty :
      (fuel : ℕ) (j : J) (stream : String) (scan : Scan)
      → scan.stack ≡ []
      → walk json journal (suc fuel) j stream scan ≢ panic
  unfolding walk
  walk_empty fuel j stream scan e = λ p. ground arith

  walk_returns :
      (fuel : ℕ) (j : J) (stream : String) (scan : Scan)
      → Separate scan
      → measure scan < fuel
      → walk json journal fuel j stream scan ≢ panic
  walk_returns zero j stream scan s enough = elim enough [ ]
  walk_returns (suc fuel) j stream scan s enough =
      round (λ next t less. walk_returns fuel j stream next t less) scan.stack refl
    where
      round :
          ((next : Scan)
            → Separate next
            → measure next < fuel
            → walk json journal fuel j stream next ≢ panic)
          → (stack : List Walk) → scan.stack ≡ stack
          → walk json journal (suc fuel) j stream scan ≢ panic
      round rest_returns [] e = walk_empty fuel j stream scan e
      round rest_returns (action ∷ rest) e = λ p.
          >>=_returns (step json journal j stream scan rest action)
            (walk json journal fuel j stream) (step_returns j stream scan rest action)
            (λ next stepped.
              let falls = step-Falls j stream scan rest action next e s stepped in
              rest_returns next falls.separate (omega (arith, falls.smaller)))
            (sym (walk_more json journal fuel j stream scan rest action e) ∙ p)

  first_returns :
      (j : J) (causes : List FactRef) (stream : String)
      → length causes ≤ 32
      → walk json journal walk_fuel j stream (first_scan causes) ≢ panic
  unfolding contains
  first_returns j causes stream few =
      walk_returns walk_fuel j stream (first_scan causes)
        (record { distinct = refl; apart = λ key h. refl })
        (omega (arith, length-map Walk.enter causes))

  check_repeats_returns : (before causes : List FactRef) → check_repeats before causes ≢ panic
  unfolding check_repeats
  check_repeats_returns before [] = λ p. cc
  check_repeats_returns before (cause ∷ causes) =
      λ p. ground (arith, check_repeats_returns (before ++ cause ∷ []) causes)

  -- Over a journal whose reads return, the walk has fuel enough whatever the causes and the records
  -- are: it answers, with success or with an error.
  pub validate_input_causes_returns :
      (j : J) (causes : List FactRef) (stream : String)
      → validate_input_causes json journal j causes stream ≢ panic
  unfolding validate_input_causes
  validate_input_causes_returns j causes stream = elim (Bool-cases (ltb 32 (length causes))) [
    | inl many ↦ λ p. ground arith
    | inr few ↦
        let ends = first_returns j causes stream (ground arith) in
        λ p. ground (arith, ends, check_repeats_returns [] causes)
  ]

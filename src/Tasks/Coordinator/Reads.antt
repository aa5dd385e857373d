-- ===== src/Tasks/Coordinator/Reads.antt =====
-- The loop of `records` reads a stream page by page until it is empty.
use mathlib.Core.List.{append_assoc, append-nil}
use kolyan.Prelude.{
  ℕ, zero, suc, ◌+◌, ◌^◌, ◌≤◌, ◌<◌, ◌≡◌, refl, sym, ap, subst, ◌∙◌, ◌⊎◌, inl, inr, String,
  String-Eq, ℕ-Eq, Bool, true, false, List, [], ◌∷◌, ◌++◌, length, length-append, is_empty, leb,
  if◌then◌else◌, ok, ◌>>=◌, arith, ok-injective, >>=-ok-eq-ok, >>-eq-ok,
}
use kolyan.Ledger.{FactRecord}
use kolyan.Ledger.Journal.{fact_identity, take_first}
use kolyan.Ledger.Interface.Laws.{IsNumbered, page, Laws}
use kolyan.Ledger.Interface.Pages.{
  page-append, IsNumbered-right, IsNumbered-left, drop_first, take_first-drop_first,
  length-take_first, length-drop_first,
}
use kolyan.Tasks.Validation.{identity}
use kolyan.Tasks.Coordinator.{
  TaskCoordinator, page_size, take_page, advances, read_round, read_rounds, records,
}

pub identity-fact_identity : (value : String) → identity value ≡ ok tt → fact_identity value ≡ ok tt
unfolding identity fact_identity
identity-fact_identity value h = ground arith

module _ {V : Type 0} where
  list_cases :
      (facts : List (FactRecord V)) → (facts ≡ []) ⊎ ((is_empty facts ≡ false) × (0 < length facts))
  list_cases [] = inl refl
  list_cases (r ∷ facts) = inr (refl, omega arith)

  take_page_all :
      (task_id : String) (after : ℕ) (facts : List (FactRecord V))
      → IsNumbered task_id after facts
      → after + length facts < 2 ^ 63
      → take_page task_id after facts ≡ ok (facts, after + length facts)
  unfolding take_page
  take_page_all task_id after [] h low = ground arith
  take_page_all task_id after (r ∷ facts) h low =
      ground (
        arith,
        take_page_all task_id (after + 1) facts h.2,
        ap (λ w. take_page task_id w facts) h.1,
      )

  advances_first :
      (task_id : String) (after : ℕ) (r : FactRecord V)
      → r.stream_id ≡ task_id
      → r.position ≡ after + 1
      → after < 2 ^ 63
      → advances task_id after (r ∷ []) ≡ true
  unfolding advances
  advances_first task_id after r e f low = ground arith

module _ {J V : Type 0} (c : TaskCoordinator J V) {rows : J → String → List (FactRecord V)}
    {IsWell : J → Type 0} {cap : ℕ} (laws : Laws c.journal rows IsWell cap) where
  abbrev limit : ℕ
  limit = if leb page_size cap then page_size else cap

  limit_bounds : (0 < limit) × (limit ≤ page_size)
  limit_bounds = ground (arith, laws.cap_positive)

  read-eq :
      (j : J) (stream : String) (after n : ℕ) (before rest : List (FactRecord V))
      → IsWell j
      → fact_identity stream ≡ ok tt
      → rows j stream ≡ before ++ rest
      → length before ≡ after
      → 0 < n
      → n ≤ 1024
      → c.journal.read j stream after n ≡ ok (take_first (if leb n cap then n else cap) rest)
  read-eq j stream after n before rest well named split e low high =
      let (found, answered) = laws.answers j stream after n named low high in
      let shown = laws.reads j stream after n found answered in
      let numbers = subst (IsNumbered stream 0) split (laws.rows_numbered j stream well) in
      answered
      ∙ ap ok (
          shown
          ∙ ap (page (if leb n cap then n else cap) after) split
          ∙ page-append stream (if leb n cap then n else cap) after before rest numbers e)

  -- The round, once its two reads are known.
  round_of :
      (j : J) (task_id : String) (after m : ℕ) (taken later : List (FactRecord V))
      → c.journal.read j task_id after page_size ≡ ok taken
      → length taken ≤ page_size
      → take_page task_id after taken ≡ ok (taken, m)
      → c.journal.read j task_id m 1 ≡ ok (take_first (if leb 1 cap then 1 else cap) later)
      → IsNumbered task_id m later
      → m < 2 ^ 63
      → read_round c j task_id after ≡ ok (taken, m, is_empty later)
  unfolding read_round take_first
  round_of j task_id after m taken [] p short q t numbers low = ground (arith, laws.cap_positive)
  round_of j task_id after m taken (r ∷ later) p short q t numbers low =
      ground (arith, laws.cap_positive, advances_first task_id m r numbers.0 numbers.1)

  read_round_lem :
      (j : J) (task_id : String) (after : ℕ) (before rest : List (FactRecord V))
      → IsWell j
      → fact_identity task_id ≡ ok tt
      → rows j task_id ≡ before ++ rest
      → length before ≡ after
      → read_round c j task_id after
        ≡ ok (
          take_first limit rest,
          after + length (take_first limit rest),
          is_empty (drop_first limit rest),
        )
  read_round_lem j task_id after before rest well named split e =
      let taken = take_first limit rest in
      let later = drop_first limit rest in
      let parts = take_first-drop_first limit rest in
      let numbers =
        IsNumbered-right task_id 0 after before rest
          (subst (IsNumbered task_id 0) split (laws.rows_numbered j task_id well)) (omega arith) in
      let numbers' = subst (IsNumbered task_id after) (sym parts) numbers in
      let split' : rows j task_id ≡ (before ++ taken) ++ later =
        split ∙ ap (λ w. before ++ w) (sym parts) ∙ sym (append_assoc before taken later) in
      let total : length (rows j task_id) ≡ after + length taken + length later =
        ap length split'
        ∙ omega (arith, length-append (before ++ taken) later, length-append before taken) in
      let low = laws.rows_bounded j task_id well in
      round_of j task_id after (after + length taken) taken later
        (read-eq j task_id after page_size before rest well named split e (omega arith)
          (omega arith))
        (omega (arith, length-take_first limit rest, limit_bounds.1))
        (take_page_all task_id after taken (IsNumbered-left task_id after taken later numbers')
          (omega arith))
        (read-eq j task_id (after + length taken) 1 (before ++ taken) later well named split'
          (omega (arith, length-append before taken)) (omega arith) (omega arith))
        (IsNumbered-right task_id after (after + length taken) taken later numbers' refl)
        (omega arith)

  round_then :
      (rounds : ℕ) (j : J) (task_id : String) (after m : ℕ) (taken : List (FactRecord V))
      (ends : Bool)
      → read_round c j task_id after ≡ ok (taken, m, ends)
      → read_rounds c (suc rounds) j task_id after ≡ (
          if ends
          then ok taken
          else (read_rounds c rounds j task_id m >>= λ more. ok (taken ++ more)))
  unfolding read_rounds
  round_then rounds j task_id after m taken true p = rw p
  round_then rounds j task_id after m taken false p = rw p

  -- The rest of the stream is read in as many rounds as it has records, or fewer.
  read_rounds_all :
      (rounds : ℕ) (j : J) (task_id : String) (after : ℕ) (before rest : List (FactRecord V))
      → IsWell j
      → fact_identity task_id ≡ ok tt
      → rows j task_id ≡ before ++ rest
      → length before ≡ after
      → length rest < rounds
      → read_rounds c rounds j task_id after ≡ ok rest
  read_rounds_all zero j task_id after before rest well named split e enough = elim enough [ ]
  read_rounds_all (suc rounds) j task_id after before rest well named split e enough =
      let taken = take_first limit rest in
      let later = drop_first limit rest in
      let parts = take_first-drop_first limit rest in
      let first =
        round_then rounds j task_id after (after + length taken) taken (is_empty later)
          (read_round_lem j task_id after before rest well named split e) in
      let split' : rows j task_id ≡ (before ++ taken) ++ later =
        split ∙ ap (λ w. before ++ w) (sym parts) ∙ sym (append_assoc before taken later) in
      elim (list_cases later) [
        | inl done ↦
            let whole = sym (append-nil taken) ∙ ap (λ w. taken ++ w) (sym done) ∙ parts in
            first ∙ (rw done) ∙ ap ok whole
        | inr more ↦
            let shorter : length later < length rest =
              length-drop_first limit rest limit_bounds.0
                (omega (arith, more.1, ap length parts, length-append taken later)) in
            let next =
              read_rounds_all rounds j task_id (after + length taken) (before ++ taken) later well
                named split' (omega (arith, length-append before taken)) (omega arith) in
            first ∙ (rw (more.0, next) (ap ok parts))
      ]

  read_rounds_sound :
      (rounds : ℕ) (j : J) (task_id : String) (after : ℕ) (before rest : List (FactRecord V))
      (found : List (FactRecord V))
      → IsWell j
      → fact_identity task_id ≡ ok tt
      → rows j task_id ≡ before ++ rest
      → length before ≡ after
      → read_rounds c rounds j task_id after ≡ ok found
      → found ≡ rest
  unfolding read_rounds
  read_rounds_sound zero j task_id after before rest found well named split e h = cc
  read_rounds_sound (suc rounds) j task_id after before rest found well named split e h =
      let taken = take_first limit rest in
      let later = drop_first limit rest in
      let parts = take_first-drop_first limit rest in
      let first =
        round_then rounds j task_id after (after + length taken) taken (is_empty later)
          (read_round_lem j task_id after before rest well named split e) in
      let split' : rows j task_id ≡ (before ++ taken) ++ later =
        split ∙ ap (λ w. before ++ w) (sym parts) ∙ sym (append_assoc before taken later) in
      elim (list_cases later) [
        | inl done ↦
            let whole = sym (append-nil taken) ∙ ap (λ w. taken ++ w) (sym done) ∙ parts in
            ok-injective (sym h ∙ first ∙ (rw done)) ∙ whole
        | inr more ↦
            let (others, read, last) =
              >>=-ok-eq-ok (read_rounds c rounds j task_id (after + length taken)) (λ w. taken ++ w)
                (sym (first ∙ (rw more.0)) ∙ h) in
            let next =
              read_rounds_sound rounds j task_id (after + length taken) (before ++ taken) later
                others well named split' (omega (arith, length-append before taken)) read in
            last ∙ ap (λ w. taken ++ w) next ∙ parts
      ]

  -- With more rounds than the stream has records, the loop over its pages ends, and what it has
  -- read are the records of the stream, all of them and in their order.
  pub records_returns :
      (j : J) (task_id : String)
      → IsWell j
      → identity task_id ≡ ok tt
      → length (rows j task_id) < c.rounds
      → records c j task_id ≡ ok (rows j task_id)
  unfolding records
  records_returns j task_id well named enough =
      let all =
        read_rounds_all c.rounds j task_id 0 [] (rows j task_id) well
          (identity-fact_identity task_id named) refl refl enough in
      (rw named) ∙ all

  -- Whatever the number of rounds, records that are returned are those of the stream.
  pub records_sound :
      (j : J) (task_id : String) (found : List (FactRecord V))
      → IsWell j
      → records c j task_id ≡ ok found
      → (identity task_id ≡ ok tt) × (found ≡ rows j task_id)
  unfolding records
  records_sound j task_id found well h =
      let (named, read) = >>-eq-ok (identity task_id) (read_rounds c c.rounds j task_id 0) h in
      (
        named,
        read_rounds_sound c.rounds j task_id 0 [] (rows j task_id) found well
            (identity-fact_identity task_id named) refl refl read,
      )

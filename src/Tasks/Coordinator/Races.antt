-- ===== src/Tasks/Coordinator/Races.antt =====
-- A command that another writer overtakes, and a command that fails.
use kolyan.Prelude.{
  ℕ, ◌≡◌, ◌≢◌, refl, sym, ap, ◌∙◌, inl, inr, String, String-Eq, ℕ-Eq, true, List, [], ◌∷◌, ◌++◌,
  length, length-append, ==_refl, ok, err, panic, Bool-Eq, List-Eq, arith,
}
use mathlib.Core.List.{append_assoc, append-nil}
use kolyan.Ledger.{FactRef-Eq, FactDraft, FactRecord}
use kolyan.Ledger.Journal.{FactResult, Payload, same_draft}
use kolyan.Ledger.Interface.{same_record, same_records}
use kolyan.Ledger.Interface.Laws.{Stands, Laws}
use kolyan.Tasks.Types.{TaskSnapshot, TaskEvent, TaskError, TaskResult}
use kolyan.Tasks.Coordinator.{TaskCoordinator}
use kolyan.Tasks.Coordinator.Command.{Plan, Prepared, prepare, accept, commit, finish, command}
use kolyan.Tasks.Coordinator.Plans.{Planned, Answers, planned, stood, prepare-Answers}
use kolyan.Tasks.Coordinator.Durable.{commit-eq-ok, Planned-length, numbered-candidate}

append_prefix :
    {A : Type 0} (xs xs' ys ys' : List A)
    → length xs ≡ length xs'
    → xs ++ ys ≡ xs' ++ ys'
    → (xs ≡ xs') × (ys ≡ ys')
append_prefix [] [] ys ys' n e = (refl, e)
append_prefix [] (x ∷ xs') ys ys' n e = absurd (omega (arith, n))
append_prefix (x ∷ xs) [] ys ys' n e = absurd (omega (arith, n))
append_prefix (x ∷ xs) (x' ∷ xs') ys ys' n e =
    let (same, rest) = append_prefix xs xs' ys ys' (omega (arith, n)) (cc e) in
    let first : x ≡ x' = cc e in (ap (λ w. w ∷ xs) first ∙ ap (λ w. x' ∷ w) same, rest)

one_record :
    {V : Type 0} (values : Payload V) (committed : List (FactRecord V)) (r : FactRecord V)
    → same_records values committed (r ∷ []) ≡ true
    → (q : FactRecord V) × (committed ≡ q ∷ []) × (same_record values q r ≡ true)
unfolding same_records
one_record values [] r h = cc
one_record values (q ∷ []) r h = (q, refl, ground arith)
one_record values (q ∷ p ∷ qs) r h = absurd (ground arith)

same_records_refl :
    {V : Type 0} (values : Payload V) (r : FactRecord V)
    → ((v : V) → values.equals v v ≡ true)
    → same_records values (r ∷ []) (r ∷ []) ≡ true
unfolding same_records same_record same_draft
same_records_refl values r equals_refl = ground (
  arith,
  ==_refl r.stream_id,
  ==_refl r.position,
  ==_refl r.draft.fact_id,
  ==_refl r.draft.subject.kind,
  ==_refl r.draft.subject.id,
  ==_refl r.draft.kind,
  ==_refl r.draft.schema_version,
  ==_refl r.draft.critical,
  ==_refl r.draft.causes,
  equals_refl r.draft.payload,
)

module _ {J V : Type 0} (c : TaskCoordinator J V) {rows : J → String → List (FactRecord V)}
    {IsWell : J → Type 0} {cap : ℕ} (laws : Laws c.journal rows IsWell cap) where
  -- No batch stands at the head of a stream.
  Stands-head :
      (j : J) (task_id : String) (expected : ℕ) (committed : List (FactRecord V))
      → expected ≡ length (rows j task_id)
      → Stands (rows j task_id) expected committed
      → ⊥
  Stands-head j task_id expected committed at stands = omega (
    arith,
    ap length stands.split,
    length-append (stands.before ++ committed) stands.later,
    length-append stands.before committed,
    stands.starts,
    stands.nonempty,
    at,
  )

  prepare-Planned :
      (j : J) (task_id fact_id : String) (event : TaskEvent V) (plan : Plan V)
      → prepare c j task_id fact_id event ≡ ok (Prepared.writes plan)
      → Planned c j task_id fact_id event plan
  prepare-Planned j task_id fact_id event plan h =
      inverted (prepare-Answers c j task_id fact_id event (Prepared.writes plan) h)
    where
      inverted :
          Answers c j task_id fact_id event (Prepared.writes plan)
          → Planned c j task_id fact_id event plan
      inverted (planned _ p) = p

  -- A command is planned on what it has read. Others may write to the stream of its task before it
  -- appends. If it succeeds all the same, then the record right after those that it was planned on
  -- is its own, so it has lost no update of others and was itself not lost.
  pub commit_races :
      (j before k : J) (task_id fact_id : String) (event : TaskEvent V) (plan : Plan V)
      (more : List (FactRecord V)) (s : TaskSnapshot V)
      → IsWell j
      → prepare c j task_id fact_id event ≡ ok (Prepared.writes plan)
      → IsWell before
      → rows before task_id ≡ rows j task_id ++ more
      → commit c before task_id (Prepared.writes plan) ≡ (ok s, k)
      → (s ≡ plan.next)
        × (own : FactRecord V) × (later : List (FactRecord V)) × (rows k task_id
            ≡ rows j task_id ++ own ∷ later)
        × (same_record c.json.values own plan.candidate ≡ true)
  commit_races j before k task_id fact_id event plan more s well prepared well' grown h =
      let p = prepare-Planned j task_id fact_id event plan prepared in
      let (committed, appended, next, same) = commit-eq-ok c before k task_id plan s h in
      let (own, one, same_own) = one_record c.json.values committed plan.candidate same in
      let at = Planned-length c laws j task_id fact_id event plan well p in
      let (_, how) =
        laws.appends before task_id plan.expected (plan.candidate.draft ∷ []) committed k well'
          appended in
      elim how [
        | inl (head, _, written, _) ↦
            let none_more : length more ≡ 0 =
              omega (arith, at, head, ap length grown, length-append (rows j task_id) more) in
            let empty = nil_of more none_more in
            (
              next,
              own,
              [],
              written
                  ∙ ap (λ w. w ++ committed) (grown ∙ ap (λ w. rows j task_id ++ w) empty)
                  ∙ ap (λ w. w ++ committed) (append-nil (rows j task_id))
                  ∙ ap (λ w. rows j task_id ++ w) one,
              same_own,
            )
        | inr (stands, kept) ↦
            let split =
              sym grown ∙ stands.split ∙ append_assoc stands.before committed stands.later in
            let (prefix, _) =
              append_prefix (rows j task_id) stands.before more (committed ++ stands.later)
                (omega (arith, at, stands.starts)) split in
            (
              next,
              own,
              stands.later,
              kept task_id
                  ∙ stands.split
                  ∙ append_assoc stands.before committed stands.later
                  ∙ ap (λ w. w ++ (committed ++ stands.later)) (sym prefix)
                  ∙ ap (λ w. rows j task_id ++ (w ++ stands.later)) one,
              same_own,
            )
      ]
    where
      nil_of : {A : Type 0} (xs : List A) → length xs ≡ 0 → xs ≡ []
      nil_of [] e = refl
      nil_of (x ∷ xs) e = absurd (omega (arith, e))

  module _
      (fails : (j k : J) (stream : String) (expected : ℕ) (batch : List (FactDraft V))
          (result : FactResult (List (FactRecord V)))
        → c.journal.append j stream expected batch ≡ (result, k)
        → ((records : List (FactRecord V)) → result ≢ ok records)
        → k ≡ j)
      (equals_refl : (v : V) → c.json.values.equals v v ≡ true) where
    -- An append at the head that was read is the plan's record, which is accepted.
    commit_fails :
        (j k : J) (task_id fact_id : String) (event : TaskEvent V) (plan : Plan V)
        (appended : FactResult (List (FactRecord V)) × J) (e : TaskError)
        → IsWell j
        → Planned c j task_id fact_id event plan
        → c.journal.append j task_id plan.expected (plan.candidate.draft ∷ []) ≡ appended
        → accept c plan appended.0 ≡ err e
        → appended.1 ≡ j
    unfolding accept
    commit_fails j k task_id fact_id event plan (panic, m) e well p made h =
        fails j m task_id plan.expected (plan.candidate.draft ∷ []) panic made λ rs q. cc
    commit_fails j k task_id fact_id event plan (err f, m) e well p made h =
        fails j m task_id plan.expected (plan.candidate.draft ∷ []) (err f) made λ rs q. cc
    commit_fails j k task_id fact_id event plan (ok committed, m) e well p made h =
        let at = Planned-length c laws j task_id fact_id event plan well p in
        let (_, how) =
          laws.appends j task_id plan.expected (plan.candidate.draft ∷ []) committed m well made in
        elim how [
          | inl (_, written, _, _) ↦
              let one = written ∙ numbered-candidate c j task_id fact_id event plan p in
              let same =
                ap (λ w. same_records c.json.values w (plan.candidate ∷ [])) one
                ∙ same_records_refl c.json.values plan.candidate equals_refl in
              absurd (ground arith)
          | inr (stands, _) ↦ absurd (Stands-head j task_id plan.expected committed at stands)
        ]

    answered_fails :
        (j k : J) (task_id fact_id : String) (event : TaskEvent V) (prepared : Prepared V)
        (e : TaskError)
        → IsWell j
        → Answers c j task_id fact_id event prepared
        → commit c j task_id prepared ≡ (err e, k)
        → k ≡ j
    unfolding commit
    answered_fails j k task_id fact_id event _ e well (planned plan p) h =
        sym (ap (λ w. w.1) h)
        ∙ commit_fails j k task_id fact_id event plan
            (c.journal.append j task_id plan.expected (plan.candidate.draft ∷ [])) e well p refl
            (ap (λ w. w.0) h)
    answered_fails j k task_id fact_id event _ e well (stood state p) h = sym (ap (λ w. w.1) h)

    finish_fails :
        (j k : J) (task_id fact_id : String) (event : TaskEvent V)
        (prepared : TaskResult (Prepared V)) (e : TaskError)
        → IsWell j
        → prepare c j task_id fact_id event ≡ prepared
        → finish c j task_id prepared ≡ (err e, k)
        → k ≡ j
    unfolding finish
    finish_fails j k task_id fact_id event panic e well made h = sym (ap (λ w. w.1) h)
    finish_fails j k task_id fact_id event (err f) e well made h = sym (ap (λ w. w.1) h)
    finish_fails j k task_id fact_id event (ok prepared) e well made h =
        answered_fails j k task_id fact_id event prepared e well
          (prepare-Answers c j task_id fact_id event prepared made) h

    -- Over a journal whose appends leave it as it is when they fail, and where a value equals
    -- itself, a command that answers an error has written nothing.
    pub command_fails :
        (j k : J) (task_id fact_id : String) (event : TaskEvent V) (e : TaskError)
        → IsWell j
        → command c j task_id fact_id event ≡ (err e, k)
        → k ≡ j
    unfolding command
    command_fails j k task_id fact_id event e well h =
        finish_fails j k task_id fact_id event (prepare c j task_id fact_id event) e well refl h

-- ===== src/Tasks/Coordinator/Durable.antt =====
-- A command that succeeds is durable: a replay of the journal gives the state that it answered.
use kolyan.Prelude.{
  ℕ, ◌+◌, ◌≡◌, ◌≢◌, ◌<◌, refl, sym, ap, subst, ◌∙◌, inl, inr, String, String-Eq, ℕ-Eq, true, false,
  none, some, List, [], ◌∷◌, ◌++◌, length, length-append, last, ok, err, panic, ok-injective, arith,
}
use kolyan.Ledger.{FactRef-Eq, FactRecord}
use kolyan.Ledger.Journal.{FactResult, numbered}
use kolyan.Ledger.Interface.{same_records}
use kolyan.Ledger.Interface.Laws.{Laws}
use kolyan.Tasks.Types.{TaskSnapshot, TaskEvent, TaskResult}
use kolyan.Tasks.Coordinator.{
  TaskCoordinator, is_elsewhere, records, replay_record, replay, snapshot_of,
}
use kolyan.Tasks.Coordinator.Reads.{records_returns, records_sound}
use kolyan.Tasks.Coordinator.Replays.{previous_of, replay_from-append}
use kolyan.Tasks.Coordinator.Grows.{replay_again, take_event_again}
use kolyan.Tasks.Coordinator.Command.{
  last_position, candidate_of, Plan, Prepared, prepare, accept, commit, finish, command,
}
use kolyan.Tasks.Coordinator.Plans.{Planned, Stood, Answers, planned, stood, prepare-Answers}
use kolyan.Tasks.Coordinator.Candidate.{last_position-length, candidate_replays}

module _ {J V : Type 0} (c : TaskCoordinator J V) where
  pub numbered-candidate :
      (j : J) (task_id fact_id : String) (event : TaskEvent V) (plan : Plan V)
      → Planned c j task_id fact_id event plan
      → numbered task_id plan.expected (plan.candidate.draft ∷ []) ≡ plan.candidate ∷ []
  unfolding numbered
  numbered-candidate j task_id fact_id event plan p = sym (
      ap (λ w. w ∷ []) p.candidate
      ∙ ap (λ d. candidate_of task_id (plan.expected + 1) d ∷ [])
          (ap (λ w. w.draft) (sym p.candidate)))

  -- The answer of a commit that appends.
  accept-eq-ok :
      (plan : Plan V) (appended : FactResult (List (FactRecord V))) (s : TaskSnapshot V)
      → accept c plan appended ≡ ok s
      → (committed : List (FactRecord V)) × (appended ≡ ok committed)
        × (s ≡ plan.next)
        × (same_records c.json.values committed (plan.candidate ∷ []) ≡ true)
  unfolding accept
  accept-eq-ok plan panic s h = cc
  accept-eq-ok plan (err e) s h = cc
  accept-eq-ok plan (ok committed) s h = (committed, refl, ground arith, ground arith)

  pub commit-eq-ok :
      (j k : J) (task_id : String) (plan : Plan V) (s : TaskSnapshot V)
      → commit c j task_id (Prepared.writes plan) ≡ (ok s, k)
      → (committed : List (FactRecord V)) × (c.journal.append j task_id plan.expected
            (plan.candidate.draft ∷ [])
          ≡ (ok committed, k))
        × (s ≡ plan.next)
        × (same_records c.json.values committed (plan.candidate ∷ []) ≡ true)
  unfolding commit
  commit-eq-ok j k task_id plan s h =
      let appended = c.journal.append j task_id plan.expected (plan.candidate.draft ∷ []) in
      let (committed, e, next, same) = accept-eq-ok plan appended.0 s (ap (λ w. w.0) h) in
      (committed, ap (λ w. (w, appended.1)) e ∙ ap (λ w. (ok committed, w.1)) h, next, same)

  stands-eq-ok :
      (j k : J) (task_id : String) (state s : TaskSnapshot V)
      → commit c j task_id (Prepared.stands state) ≡ (ok s, k)
      → (s ≡ state) × (k ≡ j)
  unfolding commit
  stands-eq-ok j k task_id state s h = (sym (ok-injective (ap (λ w. w.0) h)), sym (ap (λ w. w.1) h))

  finish-eq-ok :
      (j k : J) (task_id : String) (prepared : TaskResult (Prepared V)) (s : TaskSnapshot V)
      → finish c j task_id prepared ≡ (ok s, k)
      → (p : Prepared V) × (prepared ≡ ok p) × (commit c j task_id p ≡ (ok s, k))
  unfolding finish
  finish-eq-ok j k task_id panic s h = absurd (cc (ap (λ w. w.0) h))
  finish-eq-ok j k task_id (err e) s h = absurd (cc (ap (λ w. w.0) h))
  finish-eq-ok j k task_id (ok p) s h = (p, refl, h)

  snapshot_of-eq :
      (j : J) (task_id : String) (facts : List (FactRecord V)) (s : TaskSnapshot V)
      → records c j task_id ≡ ok facts
      → replay c j task_id facts ≡ ok (some s)
      → snapshot_of c j task_id ≡ ok s
  unfolding snapshot_of
  snapshot_of-eq j task_id facts s read replayed = rw (read, replayed)

  module _ {rows : J → String → List (FactRecord V)} {IsWell : J → Type 0} {cap : ℕ}
      (laws : Laws c.journal rows IsWell cap) where
    -- What a command that answers a state has done to the journal: nothing, or one record more in
    -- the stream of its task.
    pub data Written (j k : J) (task_id fact_id : String) (event : TaskEvent V) (s : TaskSnapshot V)
        : Type 0 where
      nothing : k ≡ j → Stood c j task_id fact_id event s → Written j k task_id fact_id event s
      one_more :
          (plan : Plan V) (p : Planned c j task_id fact_id event plan)
          → s ≡ plan.next
          → IsWell k
          → rows k task_id ≡ rows j task_id ++ plan.candidate ∷ []
          → ((stream : String) → task_id ≢ stream → rows k stream ≡ rows j stream)
          → Written j k task_id fact_id event s

    pub Planned-length :
        (j : J) (task_id fact_id : String) (event : TaskEvent V) (plan : Plan V)
        → IsWell j
        → Planned c j task_id fact_id event plan
        → plan.expected ≡ length (rows j task_id)
    Planned-length j task_id fact_id event plan well p =
        let (_, all) = records_sound c laws j task_id p.facts well p.read in
        p.head
        ∙ ap (λ w. last_position (last w)) all
        ∙ last_position-length task_id (rows j task_id) (laws.rows_numbered j task_id well)

    -- At the head that was read, the append is new.
    Planned-Written :
        (j k : J) (task_id fact_id : String) (event : TaskEvent V) (plan : Plan V)
        (s : TaskSnapshot V)
        → IsWell j
        → Planned c j task_id fact_id event plan
        → commit c j task_id (Prepared.writes plan) ≡ (ok s, k)
        → Written j k task_id fact_id event s
    Planned-Written j k task_id fact_id event plan s well p h =
        let (committed, appended, next, _) = commit-eq-ok j k task_id plan s h in
        let (well', how) =
          laws.appends j task_id plan.expected (plan.candidate.draft ∷ []) committed k well
            appended in
        let at = Planned-length j task_id fact_id event plan well p in
        elim how [
          | inl (_, e, grown, others) ↦
              let one = e ∙ numbered-candidate j task_id fact_id event plan p in
              one_more plan p next well' (grown ∙ ap (λ w. rows j task_id ++ w) one) others
          | inr (stands, _) ↦ absurd (
              omega (
                arith,
                ap length stands.split,
                length-append (stands.before ++ committed) stands.later,
                length-append stands.before committed,
                stands.starts,
                stands.nonempty,
                at,
              ))
        ]

    pub command_writes :
        (j k : J) (task_id fact_id : String) (event : TaskEvent V) (s : TaskSnapshot V)
        → IsWell j
        → command c j task_id fact_id event ≡ (ok s, k)
        → Written j k task_id fact_id event s
    unfolding command
    command_writes j k task_id fact_id event s well h =
        let (prepared, made, committed) =
          finish-eq-ok j k task_id (prepare c j task_id fact_id event) s h in
        answered_writes prepared (prepare-Answers c j task_id fact_id event prepared made) committed
      where
        answered_writes :
            (prepared : Prepared V)
            → Answers c j task_id fact_id event prepared
            → commit c j task_id prepared ≡ (ok s, k)
            → Written j k task_id fact_id event s
        answered_writes _ (planned plan p) e =
            Planned-Written j k task_id fact_id event plan s well p e
        answered_writes _ (stood state p) e =
            let (same, kept) = stands-eq-ok j k task_id state s e in
            nothing kept (subst (Stood c j task_id fact_id event) (sym same) p)

    -- The record of a plan, replayed after the records that the plan was made on.
    pub Planned-replays :
        (j k : J) (task_id fact_id : String) (event : TaskEvent V) (plan : Plan V)
        (p : Planned c j task_id fact_id event plan)
        → ((e : TaskEvent V) (v : V) → c.json.event_value e ≡ inr v → c.json.value_event v ≡ inr e)
        → is_elsewhere task_id event ≡ false
        → IsWell j
        → rows k task_id ≡ rows j task_id ++ plan.candidate ∷ []
        → ((stream : String) → task_id ≢ stream → rows k stream ≡ rows j stream)
        → replay c k task_id (rows k task_id) ≡ ok (some plan.next)
    unfolding replay
    Planned-replays j k task_id fact_id event plan p round_trip here well grown others =
        let (named, all) = records_sound c laws j task_id p.facts well p.read in
        let replayed = subst (λ w. replay c j task_id w ≡ ok p.snapshot) all p.replayed in
        let again =
          replay_again c laws j k task_id well (plan.candidate ∷ []) grown others p.snapshot
            replayed in
        let taken =
          take_event_again c laws j k task_id well (plan.candidate ∷ []) grown others p.snapshot
            replayed p.snapshot event plan.candidate plan.next p.taken in
        ap (replay c k task_id) grown
        ∙ replay_from-append c k task_id none none (rows j task_id) plan.candidate p.snapshot again
        ∙ ap (λ w. replay_record c k task_id p.snapshot (previous_of none w) plan.candidate)
            (sym all)
        ∙ candidate_replays c j k task_id fact_id event plan p round_trip here taken

    pub Written-replays :
        (j k : J) (task_id fact_id : String) (event : TaskEvent V) (s : TaskSnapshot V)
        → ((e : TaskEvent V) (v : V) → c.json.event_value e ≡ inr v → c.json.value_event v ≡ inr e)
        → is_elsewhere task_id event ≡ false
        → IsWell j
        → Written j k task_id fact_id event s
        → length (rows k task_id) < c.rounds
        → snapshot_of c k task_id ≡ ok s
    Written-replays j k task_id fact_id event s round_trip here well (nothing kept st) enough =
        ap (λ w. snapshot_of c w task_id) kept
        ∙ snapshot_of-eq j task_id st.facts s st.read st.replayed
    Written-replays j k task_id fact_id event s round_trip here well
          (one_more plan p next well' grown others) enough =
        let (named, _) = records_sound c laws j task_id p.facts well p.read in
        snapshot_of-eq k task_id (rows k task_id) plan.next
          (records_returns c laws k task_id well' named enough)
          (Planned-replays j k task_id fact_id event plan p round_trip here well grown others)
        ∙ ap ok (sym next)

    pub Written-IsWell :
        (j k : J) (task_id fact_id : String) (event : TaskEvent V) (s : TaskSnapshot V)
        → IsWell j
        → Written j k task_id fact_id event s
        → IsWell k
    Written-IsWell j k task_id fact_id event s well (nothing kept st) = subst IsWell (sym kept) well
    Written-IsWell j k task_id fact_id event s well (one_more plan p next well' grown others) =
        well'

    -- Where an event is read back from its value as it was, a command that succeeds is durable: the
    -- replay of the journal that it leaves gives the very state that it answered.
    pub command_replays :
        (j k : J) (task_id fact_id : String) (event : TaskEvent V) (s : TaskSnapshot V)
        → ((e : TaskEvent V) (v : V) → c.json.event_value e ≡ inr v → c.json.value_event v ≡ inr e)
        → is_elsewhere task_id event ≡ false
        → IsWell j
        → command c j task_id fact_id event ≡ (ok s, k)
        → length (rows k task_id) < c.rounds
        → snapshot_of c k task_id ≡ ok s
    command_replays j k task_id fact_id event s round_trip here well h enough =
        Written-replays j k task_id fact_id event s round_trip here well
          (command_writes j k task_id fact_id event s well h) enough

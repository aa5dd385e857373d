-- ===== src/Tasks/Coordinator/Again.antt =====
-- A command that is sent again, and another command under the same fact.
use kolyan.Prelude.{
  ℕ, ◌≡◌, ◌≢◌, ◌<◌, sym, ap, subst, ◌∙◌, inl, inr, String, String-Eq, ℕ-Eq, Bool, true, false, none,
  some, List, [], ◌∷◌, ◌++◌, length, find, ◌==◌, ==_refl, ok, err, Bool-cases, arith,
}
use kolyan.Ledger.{FactRecord}
use kolyan.Ledger.Interface.Laws.{Laws}
use kolyan.Tasks.Types.{TaskSnapshot, TaskEvent, invalid}
use kolyan.Tasks.Coordinator.{TaskCoordinator, is_elsewhere}
use kolyan.Tasks.Coordinator.Envelope.{event_kind, event_subject}
use kolyan.Tasks.Coordinator.Reads.{records_returns, records_sound}
use kolyan.Tasks.Coordinator.Command.{
  validate_content, is_other_command, Plan, decide, retry_command, prepare, commit, finish, command,
}
use kolyan.Tasks.Coordinator.Plans.{Planned, Stood}
use kolyan.Tasks.Coordinator.Candidate.{same_subject_refl}
use kolyan.Tasks.Coordinator.Durable.{Written, nothing, one_more, command_writes, Planned-replays}

find-append :
    {A : Type 0} (test : A → Bool) (items : List A) (item : A)
    → find test items ≡ none
    → test item ≡ true
    → find test (items ++ item ∷ []) ≡ some item
unfolding find
find-append test [] item h e = ground arith
find-append test (x ∷ items) item h e = ground (arith, find-append test items item)

module _ {J V : Type 0} (c : TaskCoordinator J V) where
  is_other_command-candidate :
      (j : J) (task_id fact_id : String) (event : TaskEvent V) (plan : Plan V)
      (p : Planned c j task_id fact_id event plan)
      → c.json.values.equals p.payload p.payload ≡ true
      → is_other_command c task_id event p.payload plan.candidate ≡ false
  unfolding is_other_command
  is_other_command-candidate j task_id fact_id event plan p same =
      ap (is_other_command c task_id event p.payload) p.candidate
      ∙ ground (arith, ==_refl (event_kind event), same_subject_refl (event_subject task_id event))

  -- The fact stands: the same command gets the state of the task and writes nothing.
  command_stands :
      (j : J) (task_id fact_id : String) (event : TaskEvent V) (s : TaskSnapshot V)
      → Stood c j task_id fact_id event s
      → command c j task_id fact_id event ≡ (ok s, j)
  unfolding command finish commit prepare decide retry_command
  command_stands j task_id fact_id event s st =
      rw (st.named, st.read, st.replayed, st.content, st.encoded, st.there, st.same)

  -- Another command under the fact is refused and writes nothing.
  command_refuses :
      (j : J) (task_id fact_id : String) (event other : TaskEvent V) (s : TaskSnapshot V) (v : V)
      (st : Stood c j task_id fact_id event s)
      → validate_content c other ≡ ok tt
      → c.json.event_value other ≡ inr v
      → is_other_command c task_id other v st.existing ≡ true
      → command c j task_id fact_id other
        ≡ (err (invalid "fact identity reused with a different command"), j)
  unfolding command finish commit prepare decide retry_command
  command_refuses j task_id fact_id event other s v st content encoded differs =
      rw (st.named, st.read, st.replayed, content, encoded, st.there, differs)

  other_value_differs :
      (j : J) (task_id fact_id : String) (event other : TaskEvent V) (s : TaskSnapshot V) (v w : V)
      → ((x y : V) → c.json.values.equals x y ≡ true → x ≡ y)
      → (st : Stood c j task_id fact_id event s) → c.json.event_value event ≡ inr v
      → v ≢ w
      → is_other_command c task_id other w st.existing ≡ true
  unfolding is_other_command
  other_value_differs j task_id fact_id event other s v w equals_path st encoded differs =
      elim (Bool-cases (c.json.values.equals st.existing.draft.payload w)) [
        | inl equal ↦
            let own : c.json.values.equals st.existing.draft.payload st.payload ≡ true =
              let same = st.same in ground arith in
            let first : st.payload ≡ v = cc (st.encoded, encoded) in
            absurd (
              differs (
                sym first
                ∙ sym (equals_path st.existing.draft.payload st.payload own)
                ∙ equals_path st.existing.draft.payload w equal))
        | inr unequal ↦ ground arith
      ]

  module _ {rows : J → String → List (FactRecord V)} {IsWell : J → Type 0} {cap : ℕ}
      (laws : Laws c.journal rows IsWell cap)
      (round_trip : (e : TaskEvent V) (v : V)
        → c.json.event_value e ≡ inr v
        → c.json.value_event v ≡ inr e)
      (equals_refl : (v : V) → c.json.values.equals v v ≡ true) where
    -- After a command that succeeds its fact stands in the journal.
    Written-Stood :
        (j k : J) (task_id fact_id : String) (event : TaskEvent V) (s : TaskSnapshot V)
        → is_elsewhere task_id event ≡ false
        → IsWell j
        → Written c laws j k task_id fact_id event s
        → length (rows k task_id) < c.rounds
        → Stood c k task_id fact_id event s
    Written-Stood j k task_id fact_id event s here well (nothing kept st) enough =
        subst (λ w. Stood c w task_id fact_id event s) (sym kept) st
    Written-Stood j k task_id fact_id event s here well (one_more plan p next well' grown others)
          enough =
        let (named, all) = records_sound c laws j task_id p.facts well p.read in
        let own : (plan.candidate.draft.fact_id == fact_id) ≡ true =
          ap (λ w. w.draft.fact_id == fact_id) p.candidate ∙ ==_refl fact_id in
        record {
          facts = rows k task_id;
          existing = plan.candidate;
          payload = p.payload;
          read = records_returns c laws k task_id well' named enough;
          replayed =
              Planned-replays c laws j k task_id fact_id event plan p round_trip here well grown
                others
              ∙ ap (λ w. ok (some w)) (sym next);
          there =
              ap (find (λ r. r.draft.fact_id == fact_id)) grown
              ∙ find-append (λ r. r.draft.fact_id == fact_id) (rows j task_id) plan.candidate
                  (ap (find (λ r. r.draft.fact_id == fact_id)) (sym all) ∙ p.fresh) own;
          encoded = p.encoded;
          same = is_other_command-candidate j task_id fact_id event plan p (equals_refl p.payload);
          content = p.content;
          named = p.named;
        }

    -- Where an event is read back from its value as it was, and a value equals itself, a command
    -- that succeeded can be sent again: it answers the same state and leaves the journal as it is.
    pub command_again :
        (j k : J) (task_id fact_id : String) (event : TaskEvent V) (s : TaskSnapshot V)
        → is_elsewhere task_id event ≡ false
        → IsWell j
        → command c j task_id fact_id event ≡ (ok s, k)
        → length (rows k task_id) < c.rounds
        → command c k task_id fact_id event ≡ (ok s, k)
    command_again j k task_id fact_id event s here well h enough =
        command_stands k task_id fact_id event s (
          Written-Stood j k task_id fact_id event s here well
            (command_writes c laws j k task_id fact_id event s well h) enough)

    -- Under the fact of a command that succeeded, a command of another content, that is valid and
    -- has another value, is refused, and the journal stays as it is.
    pub fact_reused :
        (j k : J) (task_id fact_id : String) (event other : TaskEvent V) (s : TaskSnapshot V)
        (v w : V)
        → ((x y : V) → c.json.values.equals x y ≡ true → x ≡ y)
        → is_elsewhere task_id event ≡ false
        → IsWell j
        → command c j task_id fact_id event ≡ (ok s, k)
        → length (rows k task_id) < c.rounds
        → c.json.event_value event ≡ inr v
        → c.json.event_value other ≡ inr w
        → v ≢ w
        → validate_content c other ≡ ok tt
        → command c k task_id fact_id other
          ≡ (err (invalid "fact identity reused with a different command"), k)
    fact_reused j k task_id fact_id event other s v w equals_path here well h enough encoded
          encoded' differs content =
        let st =
          Written-Stood j k task_id fact_id event s here well
            (command_writes c laws j k task_id fact_id event s well h) enough in
        command_refuses k task_id fact_id event other s w st content encoded'
          (other_value_differs k task_id fact_id event other s v w equals_path st encoded differs)

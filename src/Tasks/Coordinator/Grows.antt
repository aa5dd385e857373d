-- ===== src/Tasks/Coordinator/Grows.antt =====
-- A journal with more records of one task: what was read of it for the task is read again.
use kolyan.Prelude.{
  ℕ, zero, suc, ◌≡◌, ◌≢◌, refl, sym, ap, subst, ◌∙◌, String, String-Eq, ℕ-Eq, true, false, Option,
  none, List, [], ◌∷◌, ◌++◌, contains, ok, >>=-eq-ok, arith, String-discrete,
}
use kolyan.Ledger.{FactRecord}
use kolyan.Ledger.Journal.{take_first}
use kolyan.Ledger.Interface.Laws.{page, Laws}
use kolyan.Ledger.Interface.Pages.{page-append}
use kolyan.Ledger.Interface.Again.{capped, reads_again, one_again}
use kolyan.Tasks.Types.{TaskSnapshot, TaskEvent}
use kolyan.Tasks.Inputs.{InvocationInputScope, input_source_kind}
use kolyan.Tasks.Inputs.Source.{is_source_record}
use kolyan.Tasks.Coordinator.{TaskCoordinator, take_event, replay_record, replay_from, replay}
use kolyan.Tasks.Coordinator.Envelope.{is_known}
use kolyan.Tasks.Coordinator.Replays.{replay_from_stable, take_event_stable}

input_source-is_known : is_known input_source_kind ≡ false
unfolding is_known contains String-discrete
input_source-is_known = refl

is_source_record_facts :
    {V : Type 0} (found : FactRecord V) (stream : String) (expected : InvocationInputScope)
    → is_source_record found stream expected ≡ true
    → (found.draft.kind ≡ input_source_kind) × (found.draft.critical ≡ true)
unfolding is_source_record
is_source_record_facts found stream expected h = ground arith

module _ {J V : Type 0} (c : TaskCoordinator J V) where
  -- The evidence of an input is no record of a task: a replay refuses it.
  replay_record-source :
      (j : J) (task_id stream : String) (expected : InvocationInputScope) (found : FactRecord V)
      (next : Option (TaskSnapshot V))
      → is_source_record found stream expected ≡ true
      → replay_record c j task_id none none found ≢ ok next
  unfolding replay_record
  replay_record-source j task_id stream expected found next h p =
      let (kind, critical) = is_source_record_facts found stream expected h in
      let unknown = ap is_known kind ∙ input_source-is_known in ground arith

  -- So no input's stream is the stream of a task that is replayed.
  replay-source :
      (j : J) (task_id stream : String) (n : ℕ) (expected : InvocationInputScope)
      (found : FactRecord V) (facts : List (FactRecord V)) (snapshot : Option (TaskSnapshot V))
      → is_source_record found stream expected ≡ true
      → take_first n facts ≡ found ∷ []
      → replay c j task_id facts ≢ ok snapshot
  unfolding replay replay_from take_first
  replay-source j task_id stream zero expected found facts snapshot h e p = cc
  replay-source j task_id stream (suc n) expected found [] snapshot h e p = cc
  replay-source j task_id stream (suc n) expected found (r ∷ facts) snapshot h e p =
      let (next, first, _) = >>=-eq-ok (replay_record c j task_id none none r) _ p in
      let same : r ≡ found = cc e in
      replay_record-source j task_id stream expected r next
        (subst (λ w. is_source_record w stream expected ≡ true) (sym same) h) first

  module _ {rows : J → String → List (FactRecord V)} {IsWell : J → Type 0} {cap : ℕ}
      (laws : Laws c.journal rows IsWell cap) (j k : J) (task_id : String) (well : IsWell j)
      (more : List (FactRecord V)) (grown : rows k task_id ≡ rows j task_id ++ more)
      (others : (stream : String) → task_id ≢ stream → rows k stream ≡ rows j stream) where
    module _ (snapshot : Option (TaskSnapshot V))
        (replayed : replay c j task_id (rows j task_id) ≡ ok snapshot) where
      source_again :
          (stream : String) (found : FactRecord V) (expected : InvocationInputScope)
          → is_source_record found stream expected ≡ true
          → c.journal.read j stream 0 2 ≡ ok (found ∷ [])
          → c.journal.read k stream 0 2 ≡ ok (found ∷ [])
      source_again stream found expected h read =
          let shown = laws.reads j stream 0 2 (found ∷ []) read in
          elim (String-discrete task_id stream) [
            | yes e ↦ absurd (
                replay-source j task_id stream (capped cap 2) expected found (rows j task_id)
                  snapshot h
                  (sym (
                    shown
                    ∙ ap (λ w. page (capped cap 2) 0 (rows j w)) (sym e)
                    ∙ page-append task_id (capped cap 2) 0 [] (rows j task_id)
                        (laws.rows_numbered j task_id well) refl))
                  replayed)
            | no d ↦
                reads_again laws j k stream 0 2 (found ∷ []) (omega arith) (omega arith)
                  (ap (page (capped cap 2) 0) (sym (others stream d))) read
          ]

      pub replay_again : replay c k task_id (rows j task_id) ≡ ok snapshot
      unfolding replay
      replay_again =
          replay_from_stable c j k task_id (one_again laws j k task_id more grown others)
            source_again none none (rows j task_id) snapshot replayed

      pub take_event_again :
          (before : Option (TaskSnapshot V)) (event : TaskEvent V) (fact : FactRecord V)
          (next : TaskSnapshot V)
          → take_event c j task_id before event fact ≡ ok next
          → take_event c k task_id before event fact ≡ ok next
      take_event_again =
          take_event_stable c j k task_id (one_again laws j k task_id more grown others)
            source_again

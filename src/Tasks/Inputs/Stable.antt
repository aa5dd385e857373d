-- ===== src/Tasks/Inputs/Stable.antt =====
-- What was accepted of an input stays accepted while the journal grows: the tests read single
-- records by position, and the one record of the input's stream.
use kolyan.Prelude.{
  ℕ, zero, suc, ◌-◌, ◌≡◌, refl, ap, ◌∙◌, true, String, Option, List, [], ◌∷◌, ok, err, panic,
  reject_if, >>=-eq-ok, >>-eq-ok, contains, arith, ltb, ◌||◌, ◌==◌, ℕ-Eq, not,
}
use kolyan.Ledger.{FactRef, FactRef-Eq, FactRecord}
use kolyan.Ledger.Journal.{FactResult}
use kolyan.Ledger.Interface.{FactJournal}
use kolyan.Tasks.Types.{TaskEvent, TaskSnapshot, from_journal, InvocationInputSource, invalid}
use kolyan.Tasks.Inputs.{
  Json, InvocationInputScope, VerifiedInvocationInputSource, only, coordinate, validate_scope,
  max_bytes, source_fact,
}
use kolyan.Tasks.Inputs.Walk.{
  Walk, Scan, expand, step, walk, walk_fuel, first_scan, validate_input_causes, check_repeats,
}
use kolyan.Tasks.Inputs.Source.{
  is_source_record, verify_source, load_verified_invocation_input_source, verify_source_event,
  verify_input_event, event_scope, source_reference,
}

pub from_journal-eq-ok :
    {A : Type 0} (found : FactResult A) {a : A} → from_journal found ≡ ok a → found ≡ ok a
from_journal-eq-ok panic h = cc
from_journal-eq-ok (err e) h = cc
from_journal-eq-ok (ok a) h = cc

pub only-eq-ok :
    {A : Type 0} (items : List A) (message : String) {a : A}
    → only items message ≡ ok a
    → items ≡ a ∷ []
only-eq-ok [] message h = cc
only-eq-ok (a ∷ []) message h = cc
only-eq-ok (a ∷ b ∷ items) message h = cc

module _ {J V : Type 0} (json : Json V) (journal : FactJournal J V) (j k : J)
    (ones : (stream : String) (after : ℕ) (found : FactRecord V)
      → journal.read j stream after 1 ≡ ok (found ∷ [])
      → journal.read k stream after 1 ≡ ok (found ∷ [])) where
  expand_reads :
      (scan : Scan) (rest : List Walk) (reference : FactRef) (next : Scan)
      → expand json journal j scan rest reference ≡ ok next
      → (found : FactRecord V) × (journal.read j reference.stream_id (reference.position - 1) 1
          ≡ ok (found ∷ []))
  unfolding expand
  expand_reads scan rest reference next h =
      let (_, then1) = >>-eq-ok (reject_if _ _) _ h in
      let (rows, read, then2) =
        >>=-eq-ok (from_journal (journal.read j reference.stream_id (reference.position - 1) 1)) _
          then1 in
      let (found, one, _) = >>=-eq-ok (only rows "missing or ambiguous input cause") _ then2 in
      (found, from_journal-eq-ok _ read ∙ ap ok (only-eq-ok rows _ one))

  expand_stable :
      (scan : Scan) (rest : List Walk) (reference : FactRef) (next : Scan)
      → expand json journal j scan rest reference ≡ ok next
      → expand json journal k scan rest reference ≡ ok next
  unfolding expand
  expand_stable scan rest reference next h =
      let (found, read) = expand_reads scan rest reference next h in
      let again = ones reference.stream_id (reference.position - 1) found read in
      rw again (rw read at h)

  step_stable :
      (stream : String) (scan : Scan) (rest : List Walk) (action : Walk) (next : Scan)
      → step json journal j stream scan rest action ≡ ok next
      → step json journal k stream scan rest action ≡ ok next
  unfolding step
  step_stable stream scan rest (Walk.exit key) next h = h
  step_stable stream scan rest (Walk.enter reference) next h =
      ground (arith, expand_stable scan rest reference next)

  walk_round :
      (fuel : ℕ) (stream : String) (scan : Scan) (stack : List Walk)
      → scan.stack ≡ stack
      → ((next : Scan)
          → walk json journal fuel j stream next ≡ ok tt
          → walk json journal fuel k stream next ≡ ok tt)
      → walk json journal (suc fuel) j stream scan ≡ ok tt
      → walk json journal (suc fuel) k stream scan ≡ ok tt
  unfolding walk
  walk_round fuel stream scan [] e more h = rw e
  walk_round fuel stream scan (action ∷ rest) e more h =
      let opened : Scan = record scan { stack = action ∷ rest } in
      let (next, stepped, then1) =
        >>=-eq-ok (step json journal j stream opened rest action) _ (rw e at h) in
      rw (e, step_stable stream opened rest action next stepped) (more next then1)

  walk_stable :
      (fuel : ℕ) (stream : String) (scan : Scan)
      → walk json journal fuel j stream scan ≡ ok tt
      → walk json journal fuel k stream scan ≡ ok tt
  unfolding walk
  walk_stable zero stream scan h = cc
  walk_stable (suc fuel) stream scan h =
      walk_round fuel stream scan scan.stack refl (walk_stable fuel stream) h

  pub validate_stable :
      (causes : List FactRef) (stream : String)
      → validate_input_causes json journal j causes stream ≡ ok tt
      → validate_input_causes json journal k causes stream ≡ ok tt
  unfolding validate_input_causes
  validate_stable causes stream h =
      let (_, then1) = >>-eq-ok (reject_if _ _) _ h in
      let (_, walked) = >>-eq-ok (check_repeats [] causes) _ then1 in
      let again = walk_stable walk_fuel stream (first_scan causes) walked in
      rw again (rw walked at h)

  verify_source_stable :
      (source : InvocationInputSource) (expected : InvocationInputScope) (stream : String)
      (found : FactRecord V) (limit : ℕ) (v : VerifiedInvocationInputSource V)
      → verify_source json journal j source expected stream found limit ≡ ok v
      → verify_source json journal k source expected stream found limit ≡ ok v
  unfolding verify_source
  verify_source_stable source expected stream found limit v h =
      ground (arith, validate_stable found.draft.causes stream)

  verify_source_record :
      (source : InvocationInputSource) (expected : InvocationInputScope) (stream : String)
      (found : FactRecord V) (limit : ℕ) (v : VerifiedInvocationInputSource V)
      → verify_source json journal j source expected stream found limit ≡ ok v
      → is_source_record found stream expected ≡ true
  unfolding verify_source
  verify_source_record source expected stream found limit v h = ground arith

  -- The record that `load` reads is the source's record, and it is read again.
  module _ (task_id : String)
      (source_again : (stream : String) (found : FactRecord V) (expected : InvocationInputScope)
        → is_source_record found stream expected ≡ true
        → journal.read j stream 0 2 ≡ ok (found ∷ [])
        → journal.read k stream 0 2 ≡ ok (found ∷ [])) where
    load_stable :
        (source : InvocationInputSource) (expected : InvocationInputScope) (limit : ℕ)
        (v : VerifiedInvocationInputSource V)
        → load_verified_invocation_input_source json journal j source expected limit ≡ ok v
        → load_verified_invocation_input_source json journal k source expected limit ≡ ok v
    unfolding load_verified_invocation_input_source
    load_stable source expected limit v h =
        let (_, then1) =
          >>-eq-ok
            (reject_if (limit == 0 || ltb max_bytes limit)
              (invalid "invalid input source host ceiling"))
            _ h in
        let (_, then2) = >>-eq-ok (validate_scope expected) _ then1 in
        let (stream, at, then3) = >>=-eq-ok (coordinate json expected) _ then2 in
        let (_, then4) =
          >>-eq-ok
            (reject_if (not (source_fact source == source_reference stream))
              (invalid "foreign input source coordinate"))
            _ then3 in
        let (rows, read, then5) = >>=-eq-ok (from_journal (journal.read j stream 0 2)) _ then4 in
        let (found, one, verified) =
          >>=-eq-ok (only rows "missing or ambiguous input source") _ then5 in
        let read' = from_journal-eq-ok _ read ∙ ap ok (only-eq-ok rows _ one) in
        let again =
          source_again stream found expected
            (verify_source_record source expected stream found limit v verified) read' in
        ground (arith, verify_source_stable source expected stream found limit v)

    event_stable :
        (event : TaskEvent V) (fact : FactRecord V) (snapshot : Option (TaskSnapshot V))
        (source : InvocationInputSource)
        → verify_source_event json journal j task_id event fact snapshot source ≡ ok tt
        → verify_source_event json journal k task_id event fact snapshot source ≡ ok tt
    unfolding verify_source_event
    event_stable event fact snapshot source h =
        let (scope, named, then1) = >>=-eq-ok (event_scope task_id event) _ h in
        let (_, then2) =
          >>-eq-ok
            (reject_if (not (contains fact.draft.causes (source_fact source)))
              (invalid "Task input source causal binding is missing"))
            _ then1 in
        let (v, loaded, _) =
          >>=-eq-ok (load_verified_invocation_input_source json journal j source scope max_bytes) _
            then2 in
        let again = load_stable source scope max_bytes v loaded in ground (arith, again)

    pub verify_input_event_stable :
        (event : TaskEvent V) (fact : FactRecord V) (snapshot : Option (TaskSnapshot V))
        → verify_input_event json journal j task_id event fact snapshot ≡ ok tt
        → verify_input_event json journal k task_id event fact snapshot ≡ ok tt
    unfolding verify_input_event verify_source_event
    verify_input_event_stable (TaskEvent.invocation_admitted definition) fact snapshot h =
        event_stable (TaskEvent.invocation_admitted definition) fact snapshot
          definition.input_source h
    verify_input_event_stable (TaskEvent.attempt_started binding) fact snapshot h =
        event_stable (TaskEvent.attempt_started binding) fact snapshot binding.input_source h
    verify_input_event_stable (TaskEvent.budgeted_attempt_started binding n) fact snapshot h =
        event_stable (TaskEvent.budgeted_attempt_started binding n) fact snapshot
          binding.input_source h
    verify_input_event_stable event fact snapshot h = refl

-- ===== src/Tasks/Inputs/Publish.antt =====
-- The publication of an input's evidence: it can be made again.
use mathlib.Core.List.{append-nil}
use kolyan.Prelude.{
  ℕ, ◌≡◌, ◌≢◌, refl, sym, ap, subst, ◌∙◌, inl, inr, String, List, [], ◌∷◌, is_empty, ok, err, panic,
  ◌>>=◌, >>=-eq-ok, >>-eq-ok, >>=-ok-eq-ok, arith, ◌⊎◌, false,
}
use kolyan.Ledger.{FactRef, FactDraft, FactRecord}
use kolyan.Ledger.Journal.{FactResult}
use kolyan.Ledger.Interface.{FactJournal}
use kolyan.Ledger.Interface.Laws.{Laws}
use kolyan.Ledger.Interface.Again.{one_again}
use kolyan.Tasks.Types.{TaskResult, from_journal}
use kolyan.Tasks.Inputs.{
  Json, InvocationInputEnvelope, VerifiedInvocationInputSource, validate_scope, coordinate,
}
use kolyan.Tasks.Inputs.Walk.{validate_input_causes}
use kolyan.Tasks.Inputs.Stable.{validate_stable, from_journal-eq-ok}
use kolyan.Tasks.Inputs.Source.{
  prepare_source, accept_source, settle_source, write_source, read_source,
  publish_invocation_input_source, finish_source,
}

module _ {J V : Type 0} (json : Json V) (journal : FactJournal J V) where
  prepare_source_stable :
      (j k : J) (envelope : InvocationInputEnvelope V) (causes : List FactRef)
      (prepared : String × FactDraft V)
      → ((stream : String) (after : ℕ) (found : FactRecord V)
          → journal.read j stream after 1 ≡ ok (found ∷ [])
          → journal.read k stream after 1 ≡ ok (found ∷ []))
      → prepare_source json journal j envelope causes ≡ ok prepared
      → prepare_source json journal k envelope causes ≡ ok prepared
  unfolding prepare_source
  prepare_source_stable j k envelope causes prepared ones h =
      let (_, then1) = >>-eq-ok (validate_scope envelope.scope) _ h in
      let (stream, _, then2) = >>=-eq-ok (coordinate json envelope.scope) _ then1 in
      let (valid, _) = >>-eq-ok (validate_input_causes json journal j causes stream) _ then2 in
      let again = validate_stable json journal j k ones causes stream valid in ground (arith, again)

  -- A publication in a stream that holds a record.
  published_again :
      (j : J) (envelope : InvocationInputEnvelope V) (causes : List FactRef)
      (prepared : String × FactDraft V) (rows : List (FactRecord V))
      (v : VerifiedInvocationInputSource V)
      → prepare_source json journal j envelope causes ≡ ok prepared
      → journal.read j prepared.0 0 2 ≡ ok rows
      → is_empty rows ≡ false
      → accept_source json journal j envelope prepared.0 prepared.1 rows ≡ ok v
      → publish_invocation_input_source json journal j envelope causes ≡ (ok v, j)
  unfolding publish_invocation_input_source finish_source read_source write_source
  published_again j envelope causes prepared [] v p read some_row accepted = cc
  published_again j envelope causes prepared (r ∷ rows) v p read some_row accepted =
      rw (p, read, accepted)

  -- What a publication that succeeds has found and left.
  record Settled (j k : J) (envelope : InvocationInputEnvelope V) (causes : List FactRef)
      (v : VerifiedInvocationInputSource V) : Type 0 where
    prepared : String × FactDraft V
    rows : List (FactRecord V)
    valid : prepare_source json journal j envelope causes ≡ ok prepared
    read : journal.read k prepared.0 0 2 ≡ ok rows
    there : is_empty rows ≡ false
    accepted : accept_source json journal k envelope prepared.0 prepared.1 rows ≡ ok v
    appended : FactResult (List (FactRecord V))
    how : (k ≡ j) ⊎ (journal.append j prepared.0 0 (prepared.1 ∷ []) ≡ (appended, k))

  settle_source-eq-ok :
      (k : J) (envelope : InvocationInputEnvelope V) (stream : String) (draft : FactDraft V)
      (appended : FactResult (List (FactRecord V))) (v : VerifiedInvocationInputSource V)
      → settle_source json journal k envelope stream draft appended ≡ ok v
      → (rows : List (FactRecord V)) × (journal.read k stream 0 2 ≡ ok rows)
        × (is_empty rows ≡ false)
        × (accept_source json journal k envelope stream draft rows ≡ ok v)
  unfolding settle_source
  settle_source-eq-ok k envelope stream draft appended v h =
      let (rows, read, then1) = >>=-eq-ok (from_journal (journal.read k stream 0 2)) _ h in
      (rows, from_journal-eq-ok _ read, ground arith, ground arith)

  finish_source-eq-ok :
      (j k : J) (envelope : InvocationInputEnvelope V)
      (found : TaskResult ((String × FactDraft V) × List (FactRecord V)))
      (v : VerifiedInvocationInputSource V)
      → finish_source json journal j envelope found ≡ (ok v, k)
      → (prepared : String × FactDraft V) × (rows : List (FactRecord V)) × (found
          ≡ ok (prepared, rows))
        × (write_source json journal j envelope prepared.0 prepared.1 rows ≡ (ok v, k))
  unfolding finish_source
  finish_source-eq-ok j k envelope panic v h = absurd (cc (ap (λ w. w.0) h))
  finish_source-eq-ok j k envelope (err e) v h = absurd (cc (ap (λ w. w.0) h))
  finish_source-eq-ok j k envelope (ok (prepared, rows)) v h = (prepared, rows, refl, h)

  write_source-Settled :
      (j k : J) (envelope : InvocationInputEnvelope V) (causes : List FactRef)
      (prepared : String × FactDraft V) (rows : List (FactRecord V))
      (v : VerifiedInvocationInputSource V)
      → prepare_source json journal j envelope causes ≡ ok prepared
      → journal.read j prepared.0 0 2 ≡ ok rows
      → write_source json journal j envelope prepared.0 prepared.1 rows ≡ (ok v, k)
      → Settled j k envelope causes v
  unfolding write_source
  write_source-Settled j k envelope causes prepared [] v p read h =
      let attempt = journal.append j prepared.0 0 (prepared.1 ∷ []) in
      let left : attempt.1 ≡ k = ap (λ w. w.1) h in
      let (rows, read', there, accepted) =
        settle_source-eq-ok attempt.1 envelope prepared.0 prepared.1 attempt.0 v
          (ap (λ w. w.0) h) in
      record {
        prepared = prepared;
        rows = rows;
        valid = p;
        read = subst (λ w. journal.read w prepared.0 0 2 ≡ ok rows) left read';
        there = there;
        accepted =
            subst (λ w. accept_source json journal w envelope prepared.0 prepared.1 rows ≡ ok v)
              left accepted;
        appended = attempt.0;
        how = inr (ap (λ w. (attempt.0, w)) left);
      }
  write_source-Settled j k envelope causes prepared (r ∷ rows) v p read h =
      let left : j ≡ k = ap (λ w. w.1) h in
      record {
        prepared = prepared;
        rows = r ∷ rows;
        valid = p;
        read = subst (λ w. journal.read w prepared.0 0 2 ≡ ok (r ∷ rows)) left read;
        there = refl;
        accepted =
            subst
              (λ w. accept_source json journal w envelope prepared.0 prepared.1 (r ∷ rows) ≡ ok v)
              left (ap (λ w. w.0) h);
        appended = panic;
        how = inl (sym left);
      }

  publish-Settled :
      (j k : J) (envelope : InvocationInputEnvelope V) (causes : List FactRef)
      (v : VerifiedInvocationInputSource V)
      → publish_invocation_input_source json journal j envelope causes ≡ (ok v, k)
      → Settled j k envelope causes v
  unfolding publish_invocation_input_source read_source
  publish-Settled j k envelope causes v h =
      let (prepared, rows, found, written) =
        finish_source-eq-ok j k envelope
          (prepare_source json journal j envelope causes >>= read_source json journal j) v h in
      let (prepared', p, then1) =
        >>=-eq-ok (prepare_source json journal j envelope causes) _ found in
      let (rows', read, e) =
        >>=-ok-eq-ok (from_journal (journal.read j prepared'.0 0 2)) (λ w. (prepared', w)) then1 in
      let same : prepared' ≡ prepared = sym (ap (λ w. w.0) e) in
      let same_rows : rows' ≡ rows = sym (ap (λ w. w.1) e) in
      write_source-Settled j k envelope causes prepared rows v (p ∙ ap ok same)
        (subst (λ w. journal.read j w.0 0 2 ≡ ok rows) same
          (from_journal-eq-ok _ read ∙ ap ok same_rows))
        written

  module _ {rows : J → String → List (FactRecord V)} {IsWell : J → Type 0} {cap : ℕ}
      (laws : Laws journal rows IsWell cap)
      (fails : (j k : J) (stream : String) (expected : ℕ) (batch : List (FactDraft V))
          (result : FactResult (List (FactRecord V)))
        → journal.append j stream expected batch ≡ (result, k)
        → ((records : List (FactRecord V)) → result ≢ ok records)
        → k ≡ j) where
    -- An append leaves what single reads have found.
    append_ones :
        (j k : J) (stream : String) (expected : ℕ) (batch : List (FactDraft V))
        (result : FactResult (List (FactRecord V)))
        → IsWell j
        → journal.append j stream expected batch ≡ (result, k)
        → (other : String) (after : ℕ) (found : FactRecord V)
        → journal.read j other after 1 ≡ ok (found ∷ [])
        → journal.read k other after 1 ≡ ok (found ∷ [])
    append_ones j k stream expected batch panic well h other after found read =
        let same = fails j k stream expected batch panic h (λ rs q. cc q) in
        subst (λ w. journal.read w other after 1 ≡ ok (found ∷ [])) (sym same) read
    append_ones j k stream expected batch (err e) well h other after found read =
        let same = fails j k stream expected batch (err e) h (λ rs q. cc q) in
        subst (λ w. journal.read w other after 1 ≡ ok (found ∷ [])) (sym same) read
    append_ones j k stream expected batch (ok records) well h other after found read =
        let (_, how) = laws.appends j stream expected batch records k well h in
        elim how [
          | inl (_, _, grown, others) ↦
              one_again laws j k stream records grown others other after found read
          | inr (_, kept) ↦
              one_again laws j k stream [] (kept stream ∙ sym (append-nil (rows j stream)))
                (λ s d. kept s) other after found read
        ]

    -- Over a journal whose appends leave it as it is when they fail, a publication that succeeded
    -- can be made again: it answers the same source and leaves the journal as it is.
    pub publish_again :
        (j k : J) (envelope : InvocationInputEnvelope V) (causes : List FactRef)
        (v : VerifiedInvocationInputSource V)
        → IsWell j
        → publish_invocation_input_source json journal j envelope causes ≡ (ok v, k)
        → publish_invocation_input_source json journal k envelope causes ≡ (ok v, k)
    publish_again j k envelope causes v well h =
        let s = publish-Settled j k envelope causes v h in
        let valid : prepare_source json journal k envelope causes ≡ ok s.prepared = elim s.how [
          | inl same ↦
              subst (λ w. prepare_source json journal w envelope causes ≡ ok s.prepared) (sym same)
                s.valid
          | inr appended ↦
              prepare_source_stable j k envelope causes s.prepared
                (append_ones j k s.prepared.0 0 (s.prepared.1 ∷ []) s.appended well appended)
                s.valid
        ] in
        published_again k envelope causes s.prepared s.rows v valid s.read s.there s.accepted

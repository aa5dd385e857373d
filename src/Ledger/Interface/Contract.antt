-- ===== src/Ledger/Interface/Contract.antt =====
-- What the comment on the trait `FactJournal` of kolyan-ledger/src/facts.rs promises besides: a batch
-- is sent again with the same content or not at all, and what fails writes nothing.
use kolyan.Prelude.{
  ℕ, ◌≡◌, ◌≢◌, inl, inr, sym, subst, ◌∙◌, String, String-Eq, ℕ-Eq, true, List, [], ◌∷◌, length, ok,
  arith, Option-cases,
}
use kolyan.Prelude.Map
use kolyan.Ledger.{FactRef-Eq, FactDraft, FactRecord}
use kolyan.Ledger.Journal.{
  Payload, MemoryState, FactResult, same_draft, same_batch, find_batch, append,
}
use kolyan.Ledger.Journal.Retries.{append_known_eq, append_new_facts, append_new_eq}
use kolyan.Ledger.Interface.{FactJournal, memory_journal}
use kolyan.Ledger.Interface.Laws.{Stands, Laws}
use kolyan.Ledger.Interface.Streams.{memory_rows, IsWell, head-eq-length}
use kolyan.Ledger.Interface.Memory.{committed-eq-ok, memory_fails, memory_journal-Laws}

module _ {V : Type 0} (payload : Payload V) where
  -- A record holds the draft that is sent, with a payload that tests equal.
  pub record HoldsDraft (r : FactRecord V) (d : FactDraft V) : Type 0 where
    pub fact_id : r.draft.fact_id ≡ d.fact_id
    pub subject_kind : r.draft.subject.kind ≡ d.subject.kind
    pub subject_id : r.draft.subject.id ≡ d.subject.id
    pub kind : r.draft.kind ≡ d.kind
    pub schema_version : r.draft.schema_version ≡ d.schema_version
    pub critical : r.draft.critical ≡ d.critical
    pub causes : r.draft.causes ≡ d.causes
    pub same_payload : payload.equals r.draft.payload d.payload ≡ true

  -- The records hold the drafts of a batch, all of them and in their order.
  abbrev pub HoldsBatch : List (FactRecord V) → List (FactDraft V) → Type 0
  HoldsBatch [] [] = Unit
  HoldsBatch (r ∷ rs) (d ∷ ds) = HoldsDraft r d × HoldsBatch rs ds
  HoldsBatch _ _ = ⊥

  -- The laws of a journal; an append that is not at the head answers records that stand there and
  -- hold the very batch; and an append that fails leaves the journal as it is.
  pub record Contract {J : Type 0} (journal : FactJournal J V)
      (rows : J → String → List (FactRecord V)) (IsSound : J → Type 0) (cap : ℕ) : Type 0 where
    pub laws : Laws journal rows IsSound cap
    pub retries :
        (j k : J) (stream : String) (expected : ℕ) (batch : List (FactDraft V))
        (records : List (FactRecord V))
        → IsSound j
        → journal.append j stream expected batch ≡ (ok records, k)
        → expected ≢ length (rows j stream)
        → Stands (rows j stream) expected records × HoldsBatch records batch × (k ≡ j)
    pub fails :
        (j k : J) (stream : String) (expected : ℕ) (batch : List (FactDraft V))
        (result : FactResult (List (FactRecord V)))
        → journal.append j stream expected batch ≡ (result, k)
        → ((records : List (FactRecord V)) → result ≢ ok records)
        → k ≡ j

  same_draft-HoldsDraft :
      (r : FactRecord V) (d : FactDraft V) → same_draft payload r.draft d ≡ true → HoldsDraft r d
  unfolding same_draft
  same_draft-HoldsDraft r d h = record {
    fact_id = ground arith;
    subject_kind = ground arith;
    subject_id = ground arith;
    kind = ground arith;
    schema_version = ground arith;
    critical = ground arith;
    causes = ground arith;
    same_payload = ground arith;
  }

  same_batch-HoldsBatch :
      (rs : List (FactRecord V)) (ds : List (FactDraft V))
      → same_batch payload rs ds ≡ true
      → HoldsBatch rs ds
  unfolding same_batch
  same_batch-HoldsBatch [] [] h = tt
  same_batch-HoldsBatch [] (d ∷ ds) h = cc
  same_batch-HoldsBatch (r ∷ rs) [] h = cc
  same_batch-HoldsBatch (r ∷ rs) (d ∷ ds) h =
      (same_draft-HoldsDraft r d (ground arith), same_batch-HoldsBatch rs ds (ground arith))

  memory_retries :
      (s k : MemoryState V) (stream : String) (expected : ℕ) (batch : List (FactDraft V))
      (records : List (FactRecord V))
      → IsWell s
      → append payload s stream expected batch ≡ ok (records, k)
      → expected ≢ length (memory_rows s stream)
      → Stands (memory_rows s stream) expected records × HoldsBatch records batch × (k ≡ s)
  memory_retries s k stream expected batch records well h behind =
      elim (Option-cases (find_batch stream expected s.batches)) [
        | inl fresh ↦
            let (_, b, _, _) =
              append_new_facts s stream expected batch (records, k)
                (append_new_eq payload s stream expected batch (records, k) fresh h) in
            absurd (
              behind
                (b ∙ head-eq-length stream (Map.get stream s.streams) (well.all_numbered stream)))
        | inr (original, there) ↦
            let (a, b, c) =
              append_known_eq payload s stream expected batch (records, k) original there h in
            (
              subst (λ w. Stands (memory_rows s stream) expected w) (sym a)
                  (well.batches_stand stream expected original there),
              subst (λ w. HoldsBatch w batch) (sym a) (same_batch-HoldsBatch original batch c),
              b,
            )
      ]

  -- The journal in memory keeps the contract of a journal, with pages of up to 1024 records: its
  -- streams are numbered from one on, a read gives the next page, an append adds the batch at the
  -- head of its stream, or it answers records that stand at its position, hold the very batch, and
  -- are all of it, and then the journal stays as it is, as it does where an append fails.
  pub memory_journal-Contract : Contract (memory_journal payload) memory_rows IsWell 1024
  memory_journal-Contract = record {
    laws = memory_journal-Laws payload;
    retries = λ s k stream expected batch records well h.
        memory_retries s k stream expected batch records well
          (committed-eq-ok payload s (append payload s stream expected batch) records k h);
    fails = memory_fails payload;
  }

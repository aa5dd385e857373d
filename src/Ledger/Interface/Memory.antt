-- ===== src/Ledger/Interface/Memory.antt =====
-- The journal in memory keeps the laws.
use kolyan.Prelude.{
  ℕ, ◌+◌, ◌≤◌, ◌<◌, ◌≡◌, ◌≢◌, sym, ap, subst, ◌∙◌, ◌⊎◌, inl, inr, String, String-Eq, List, ◌++◌,
  length, leb, if◌then◌else◌, ok, err, panic, arith, Option-cases, ==_refl, ℕ-Eq, ◌^◌,
}
use kolyan.Prelude.Map
use kolyan.Prelude.Map.{Map, get-insert}
use kolyan.Ledger.{FactDraft, FactRecord}
use kolyan.Ledger.Journal.{
  FactResult, Payload, MemoryState, fact_identity, validate_batch, numbered, find_batch, appended,
  append, read,
}
use kolyan.Ledger.Journal.Retries.{append_new_facts, append_new_eq, append_known_eq, append_valid}
use kolyan.Ledger.Interface.{memory_journal, committed}
use kolyan.Ledger.Interface.Laws.{page, Stands, Laws}
use kolyan.Ledger.Interface.Streams.{
  memory_rows, IsWell, head-eq-length, appended-rows, appended-IsWell,
}

module _ {V : Type 0} (payload : Payload V) where
  pub committed-eq-ok :
      (s : MemoryState V) (found : FactResult (List (FactRecord V) × MemoryState V))
      (records : List (FactRecord V)) (k : MemoryState V)
      → committed s found ≡ (ok records, k)
      → found ≡ ok (records, k)
  committed-eq-ok s panic records k h = cc
  committed-eq-ok s (err e) records k h = cc
  committed-eq-ok s (ok _) records k h = cc

  committed_fails :
      (s : MemoryState V) (found : FactResult (List (FactRecord V) × MemoryState V))
      (result : FactResult (List (FactRecord V))) (k : MemoryState V)
      → committed s found ≡ (result, k)
      → ((records : List (FactRecord V)) → result ≢ ok records)
      → k ≡ s
  committed_fails s panic result k h fails = sym (ap (λ w. w.1) h)
  committed_fails s (err e) result k h fails = sym (ap (λ w. w.1) h)
  committed_fails s (ok found) result k h fails = absurd (fails found.0 (sym (ap (λ w. w.0) h)))

  validate_batch_bounds :
      (stream : String) (expected : ℕ) (batch : List (FactDraft V))
      → validate_batch payload stream expected batch ≡ ok tt
      → (0 < length batch) × (expected + length batch < 2 ^ 63)
  unfolding validate_batch
  validate_batch_bounds stream expected batch h = ground arith

  memory_appends :
      (s : MemoryState V) (stream : String) (expected : ℕ) (batch : List (FactDraft V))
      (records : List (FactRecord V)) (k : MemoryState V)
      → IsWell s
      → append payload s stream expected batch ≡ ok (records, k)
      → IsWell k
        × ((expected ≡ length (memory_rows s stream))
              × (records ≡ numbered stream expected batch)
              × (memory_rows k stream ≡ memory_rows s stream ++ records)
              × ((other : String) → stream ≢ other → memory_rows k other ≡ memory_rows s other)
            ⊎ Stands (memory_rows s stream) expected records
              × ((other : String) → memory_rows k other ≡ memory_rows s other))
  memory_appends s stream expected batch records k well h =
      elim (Option-cases (find_batch stream expected s.batches)) [
        | inl fresh ↦
            let (a, b, _, e) =
              append_new_facts s stream expected batch (records, k)
                (append_new_eq payload s stream expected batch (records, k) fresh h) in
            let at : expected ≡ length (memory_rows s stream) =
              b ∙ head-eq-length stream (Map.get stream s.streams) (well.all_numbered stream) in
            let e' : k ≡ appended s stream expected (numbered stream expected batch) =
              e ∙ ap (appended s stream expected) a in
            let valid =
              validate_batch_bounds stream expected batch
                (append_valid payload s stream expected batch (records, k) h) in
            (
              subst IsWell (sym e')
                  (appended-IsWell s stream expected batch well at valid.0 valid.1),
              inl (
                at,
                a,
                ap (λ w. memory_rows w stream) e
                    ∙ appended-rows s stream stream expected records
                    ∙ (rw (==_refl stream)),
                λ other differs.
                    ap (λ w. memory_rows w other) e
                    ∙ appended-rows s stream other expected records
                    ∙ ground arith,
              ),
            )
        | inr (original, there) ↦
            let (a, b, _) =
              append_known_eq payload s stream expected batch (records, k) original there h in
            (
              subst IsWell (sym b) well,
              inr (
                subst (λ w. Stands (memory_rows s stream) expected w) (sym a)
                    (well.batches_stand stream expected original there),
                λ other. ap (λ w. memory_rows w other) b,
              ),
            )
      ]

  memory_reads :
      (s : MemoryState V) (stream : String) (after limit : ℕ) (found : List (FactRecord V))
      → read s stream after limit ≡ ok found
      → found ≡ page (if leb limit 1024 then limit else 1024) after (memory_rows s stream)
  unfolding read
  memory_reads s stream after limit found h = ground arith

  memory_read_names :
      (s : MemoryState V) (stream : String) (after limit : ℕ) (found : List (FactRecord V))
      → read s stream after limit ≡ ok found
      → fact_identity stream ≡ ok tt
  unfolding read
  memory_read_names s stream after limit found h = ground arith

  memory_read_returns :
      (s : MemoryState V) (stream : String) (after limit : ℕ) → read s stream after limit ≢ panic
  unfolding read fact_identity
  memory_read_returns s stream after limit = λ p. ground arith

  memory_answers :
      (s : MemoryState V) (stream : String) (after limit : ℕ)
      → fact_identity stream ≡ ok tt
      → 0 < limit
      → limit ≤ 1024
      → (found : List (FactRecord V)) × (read s stream after limit ≡ ok found)
  unfolding read
  memory_answers s stream after limit named low high =
      (page limit after (memory_rows s stream), ground arith)

  -- An append to the journal in memory that fails leaves it as it is.
  pub memory_fails :
      (s k : MemoryState V) (stream : String) (expected : ℕ) (batch : List (FactDraft V))
      (result : FactResult (List (FactRecord V)))
      → (memory_journal payload).append s stream expected batch ≡ (result, k)
      → ((records : List (FactRecord V)) → result ≢ ok records)
      → k ≡ s
  memory_fails s k stream expected batch result h fails =
      committed_fails s (append payload s stream expected batch) result k h fails

  -- The journal in memory keeps every law of a journal, with pages of up to 1024 records.
  pub memory_journal-Laws : Laws (memory_journal payload) memory_rows IsWell 1024
  memory_journal-Laws = record {
    cap_positive = omega arith;
    rows_numbered = λ s stream well. well.all_numbered stream;
    rows_bounded = λ s stream well. well.bounded stream;
    read_names = memory_read_names;
    reads = memory_reads;
    read_returns = memory_read_returns;
    answers = memory_answers;
    appends = λ s stream expected batch records k well h.
        memory_appends s stream expected batch records k well
          (committed-eq-ok s (append payload s stream expected batch) records k h);
  }

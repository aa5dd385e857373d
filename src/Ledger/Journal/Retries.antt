-- ===== src/Ledger/Journal/Retries.antt =====
-- What an append writes, and that it can be sent again.
use kolyan.Prelude.{
  ℕ, ◌+◌, ◌≡◌, ◌≢◌, refl, sym, subst, ap, ◌∙◌, String, String-Eq, ℕ-Eq, Bool-Eq, List-Eq, true,
  false, none, some, inl, inr, List, [], ◌∷◌, ◌++◌, any, ok, Option-cases, >>=-ok-eq-ok, ==_refl,
  arith,
}
use kolyan.Prelude.Map
use kolyan.Prelude.Map.{Map, get-insert}
use kolyan.Ledger.{FactRef-Eq, FactDraft, FactRecord}
use kolyan.Ledger.Journal.{
  Payload, MemoryState, validate_batch, same_draft, same_batch, retry, numbered, plan_append,
  find_batch, head_of, rows_of, appended, append_new, append,
}

module _ {V : Type 0} (payload : Payload V)
    (equals_refl : (v : V) → payload.equals v v ≡ true) where
  same_batch-numbered :
      (stream : String) (position : ℕ) (batch : List (FactDraft V))
      → same_batch payload (numbered stream position batch) batch ≡ true
  unfolding same_batch numbered same_draft
  same_batch-numbered stream position [] = refl
  same_batch-numbered stream position (d ∷ ds) = ground (
    arith,
    same_batch-numbered stream (position + 1) ds,
    equals_refl d.payload,
    ==_refl d.causes,
    ==_refl d.fact_id,
    ==_refl d.subject.kind,
    ==_refl d.subject.id,
    ==_refl d.kind,
    ==_refl d.schema_version,
    ==_refl d.critical,
  )

module _ {V : Type 0} where
  plan_append_facts :
      (stream : String) (expected head : ℕ) (batch : List (FactDraft V))
      (identities : Map (FactRecord V)) (records : List (FactRecord V))
      → plan_append stream expected head batch identities ≡ ok records
      → (records ≡ numbered stream expected batch)
        × (expected ≡ head)
        × (any (λ r. Map.contains_key r.draft.fact_id identities) records ≡ false)
  unfolding plan_append
  plan_append_facts stream expected head batch identities records h = ground arith

  pub append_new_facts :
      (s : MemoryState V) (stream : String) (expected : ℕ) (batch : List (FactDraft V))
      (found : List (FactRecord V) × MemoryState V)
      → append_new s stream expected batch ≡ ok found
      → (found.0 ≡ numbered stream expected batch)
        × (expected ≡ head_of (Map.get stream s.streams))
        × (any (λ r. Map.contains_key r.draft.fact_id s.identities) found.0 ≡ false)
        × (found.1 ≡ appended s stream expected found.0)
  unfolding append_new
  append_new_facts s stream expected batch found h =
      let (records, planned, e) =
        >>=-ok-eq-ok
          (plan_append stream expected (head_of (Map.get stream s.streams)) batch s.identities)
          (λ r. (r, appended s stream expected r)) h in
      let (a, b, c) =
        plan_append_facts stream expected (head_of (Map.get stream s.streams)) batch s.identities
          records planned in
      subst
        (λ w.
          (w.0 ≡ numbered stream expected batch)
          × (expected ≡ head_of (Map.get stream s.streams))
          × (any (λ r. Map.contains_key r.draft.fact_id s.identities) w.0 ≡ false)
          × (w.1 ≡ appended s stream expected w.0))
        (sym e) (a, b, c, refl)

module _ {V : Type 0} (payload : Payload V) where
  pub append_new_eq :
      (s : MemoryState V) (stream : String) (expected : ℕ) (batch : List (FactDraft V))
      (found : List (FactRecord V) × MemoryState V)
      → find_batch stream expected s.batches ≡ none
      → append payload s stream expected batch ≡ ok found
      → append_new s stream expected batch ≡ ok found
  unfolding append
  append_new_eq s stream expected batch found fresh h = ground arith

  pub append_known_eq :
      (s : MemoryState V) (stream : String) (expected : ℕ) (batch : List (FactDraft V))
      (found : List (FactRecord V) × MemoryState V) (original : List (FactRecord V))
      → find_batch stream expected s.batches ≡ some original
      → append payload s stream expected batch ≡ ok found
      → (found.0 ≡ original) × (found.1 ≡ s) × (same_batch payload original batch ≡ true)
  unfolding append retry
  append_known_eq s stream expected batch found original known h = ground arith

  -- An append at a position that the journal has no batch for is taken only at the head of its
  -- stream, and where no fact of the batch is known. Then the records of the batch, numbered from
  -- the head on, stand at the end of the stream, and every other stream stays as it is.
  pub append_extends :
      (s : MemoryState V) (stream : String) (expected : ℕ) (batch : List (FactDraft V))
      (records : List (FactRecord V)) (s' : MemoryState V)
      → find_batch stream expected s.batches ≡ none
      → append payload s stream expected batch ≡ ok (records, s')
      → (expected ≡ head_of (Map.get stream s.streams))
        × (records ≡ numbered stream expected batch)
        × (any (λ r. Map.contains_key r.draft.fact_id s.identities) records ≡ false)
        × (Map.get stream s'.streams ≡ some (rows_of (Map.get stream s.streams) ++ records))
        × ((other : String) → stream ≢ other → Map.get other s'.streams ≡ Map.get other s.streams)
  append_extends s stream expected batch records s' fresh h =
      let (a, b, c, e) =
        append_new_facts s stream expected batch (records, s')
          (append_new_eq s stream expected batch (records, s') fresh h) in
      let rows = rows_of (Map.get stream s.streams) ++ records in
      (
        b,
        a,
        c,
        ap (λ w. Map.get stream w.streams) e
            ∙ ground (arith, get-insert stream stream rows s.streams),
        λ other differs.
            ap (λ w. Map.get other w.streams) e
            ∙ ground (arith, get-insert stream other rows s.streams),
      )

  -- The states that later appends lead to.
  pub data Later (s : MemoryState V) : MemoryState V → Type 0 where
    now : Later s s
    then_append :
        {t : MemoryState V} (stream : String) (expected : ℕ) (batch : List (FactDraft V))
        (records : List (FactRecord V)) (u : MemoryState V)
        → Later s t
        → append payload t stream expected batch ≡ ok (records, u)
        → Later s u

  find_batch-kept :
      (s : MemoryState V) (stream i : String) (expected j : ℕ) (batch : List (FactDraft V))
      (found : List (FactRecord V) × MemoryState V) (original : List (FactRecord V))
      → append payload s i j batch ≡ ok found
      → find_batch stream expected s.batches ≡ some original
      → find_batch stream expected found.1.batches ≡ some original
  unfolding find_batch
  find_batch-kept s stream i expected j batch found original h known =
      elim (Option-cases (find_batch i j s.batches)) [
        | inl fresh ↦
            let (_, _, _, e) =
              append_new_facts s i j batch found (append_new_eq s i j batch found fresh h) in
            ap (λ w. find_batch stream expected w.batches) e ∙ ground arith
        | inr (other, there) ↦
            let (_, e, _) = append_known_eq s i j batch found other there h in
            ap (λ w. find_batch stream expected w.batches) e ∙ known
      ]

  Later-find_batch :
      (s t : MemoryState V) (stream : String) (expected : ℕ) (original : List (FactRecord V))
      → Later s t
      → find_batch stream expected s.batches ≡ some original
      → find_batch stream expected t.batches ≡ some original
  Later-find_batch s _ stream expected original now known = known
  Later-find_batch s _ stream expected original (then_append {t = t} i j batch records u l h)
        known =
      find_batch-kept t stream i expected j batch (records, u) original h
        (Later-find_batch s t stream expected original l known)

  pub append_valid :
      (s : MemoryState V) (stream : String) (expected : ℕ) (batch : List (FactDraft V))
      (found : List (FactRecord V) × MemoryState V)
      → append payload s stream expected batch ≡ ok found
      → validate_batch payload stream expected batch ≡ ok tt
  unfolding append
  append_valid s stream expected batch found h = ground arith

  append_known :
      (s : MemoryState V) (stream : String) (expected : ℕ) (batch : List (FactDraft V))
      (original : List (FactRecord V))
      → validate_batch payload stream expected batch ≡ ok tt
      → find_batch stream expected s.batches ≡ some original
      → same_batch payload original batch ≡ true
      → append payload s stream expected batch ≡ ok (original, s)
  unfolding append retry
  append_known s stream expected batch original valid known same = ground arith

  module _ (equals_refl : (v : V) → payload.equals v v ≡ true) where
    -- What the first append leaves for a second one.
    append_leaves :
        (s : MemoryState V) (stream : String) (expected : ℕ) (batch : List (FactDraft V))
        (records : List (FactRecord V)) (t : MemoryState V)
        → append payload s stream expected batch ≡ ok (records, t)
        → (find_batch stream expected t.batches ≡ some records)
          × (same_batch payload records batch ≡ true)
    unfolding find_batch
    append_leaves s stream expected batch records t h =
        elim (Option-cases (find_batch stream expected s.batches)) [
          | inl fresh ↦
              let (a, _, _, e) =
                append_new_facts s stream expected batch (records, t)
                  (append_new_eq s stream expected batch (records, t) fresh h) in
              (
                ap (λ w. find_batch stream expected w.batches) e
                    ∙ ground (arith, ==_refl stream, ==_refl expected),
                subst (λ w. same_batch payload w batch ≡ true) (sym a)
                    (same_batch-numbered payload equals_refl stream expected batch),
              )
          | inr (original, there) ↦
              let (a, b, c) =
                append_known_eq s stream expected batch (records, t) original there h in
              (
                ap (λ w. find_batch stream expected w.batches) b ∙ there ∙ ap some (sym a),
                subst (λ w. same_batch payload w batch ≡ true) (sym a) c,
              )
        ]

    -- Where the test of two payloads holds of a payload and itself, a batch that was appended can be
    -- sent again at its position, after any later appends: the answer is the original records, and
    -- the journal stays as it is.
    pub append_again :
        (s : MemoryState V) (stream : String) (expected : ℕ) (batch : List (FactDraft V))
        (records : List (FactRecord V)) (t u : MemoryState V)
        → append payload s stream expected batch ≡ ok (records, t)
        → Later t u
        → append payload u stream expected batch ≡ ok (records, u)
    append_again s stream expected batch records t u h l =
        let (known, same) = append_leaves s stream expected batch records t h in
        append_known u stream expected batch records
          (append_valid s stream expected batch (records, t) h)
          (Later-find_batch t u stream expected records l known) same

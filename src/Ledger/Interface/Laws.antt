-- ===== src/Ledger/Interface/Laws.antt =====
-- What a client of a journal relies on: streams of records numbered from one on, reads of a stream
-- in pages, and appends at the head of a stream.
use kolyan.Prelude.{
  ℕ, ◌+◌, ◌^◌, ◌≤◌, ◌<◌, ◌≡◌, ◌≢◌, ◌⊎◌, String, List, [], ◌∷◌, ◌++◌, length, filter, ltb, leb,
  if◌then◌else◌, panic, ok,
}
use kolyan.Ledger.{FactDraft, FactRecord}
use kolyan.Ledger.Journal.{fact_identity, numbered, take_first}
use kolyan.Ledger.Interface.{FactJournal}

module _ {V : Type 0} where
  -- The records of a stream after a position, each with the next position.
  abbrev pub IsNumbered : String → ℕ → List (FactRecord V) → Type 0
  IsNumbered stream position [] = Unit
  IsNumbered stream position (r ∷ rs) =
      (r.stream_id ≡ stream) × (r.position ≡ position + 1) × IsNumbered stream (position + 1) rs

  abbrev pub page : (limit after : ℕ) → List (FactRecord V) → List (FactRecord V)
  page limit after rows = take_first limit (filter (λ r. ltb after r.position) rows)

  -- A batch that was appended before: its records stand in the stream from its position on.
  pub record Stands (rows : List (FactRecord V)) (expected : ℕ) (records : List (FactRecord V))
      : Type 0 where
    pub before : List (FactRecord V)
    pub later : List (FactRecord V)
    pub split : rows ≡ before ++ records ++ later
    pub starts : length before ≡ expected
    pub nonempty : 0 < length records

-- `rows` is the view of a journal as streams, `IsWell` its invariant, and `cap` the length of the
-- longest page that it gives.
pub record Laws {J V : Type 0} (journal : FactJournal J V) (rows : J → String → List (FactRecord V))
    (IsWell : J → Type 0) (cap : ℕ) : Type 0 where
  pub cap_positive : 0 < cap
  pub rows_numbered : (j : J) (stream : String) → IsWell j → IsNumbered stream 0 (rows j stream)
  pub rows_bounded : (j : J) (stream : String) → IsWell j → length (rows j stream) < 2 ^ 63
  -- A read gives the next page, and fails only by what its arguments are.
  pub reads :
      (j : J) (stream : String) (after limit : ℕ) (found : List (FactRecord V))
      → journal.read j stream after limit ≡ ok found
      → found ≡ page (if leb limit cap then limit else cap) after (rows j stream)
  pub read_names :
      (j : J) (stream : String) (after limit : ℕ) (found : List (FactRecord V))
      → journal.read j stream after limit ≡ ok found
      → fact_identity stream ≡ ok tt
  pub read_returns :
      (j : J) (stream : String) (after limit : ℕ) → journal.read j stream after limit ≢ panic
  pub answers :
      (j : J) (stream : String) (after limit : ℕ)
      → fact_identity stream ≡ ok tt
      → 0 < limit
      → limit ≤ 1024
      → (found : List (FactRecord V)) × (journal.read j stream after limit ≡ ok found)
  -- An append is new, at the head of its stream, or it is the retry of one that stands there.
  pub appends :
      (j : J) (stream : String) (expected : ℕ) (batch : List (FactDraft V))
      (records : List (FactRecord V)) (k : J)
      → IsWell j
      → journal.append j stream expected batch ≡ (ok records, k)
      → IsWell k
        × ((expected ≡ length (rows j stream))
              × (records ≡ numbered stream expected batch)
              × (rows k stream ≡ rows j stream ++ records)
              × ((other : String) → stream ≢ other → rows k other ≡ rows j other)
            ⊎ Stands (rows j stream) expected records
              × ((other : String) → rows k other ≡ rows j other))

-- ===== src/Ledger/Journal.antt =====
-- The journal of crates/kolyan-ledger/src/facts.rs that stands in memory. One lock guards the whole
-- of each operation, so an operation is a function of the state that it finds.
pub mod Retries
use Prim.Native.Char.{code}
use kolyan.Prelude.{
  ℕ, suc, ◌+◌, ◌^◌, String, Bool, true, false, not, ◌||◌, ◌&&◌, Option, none, some, List, [], ◌∷◌,
  ◌++◌, map, length, last, is_empty, is_none_or, is_some, is_some_and, any, find, filter, contains,
  ltb, leb, ◌==◌, ℕ-Eq, String-Eq, is_blank, byte_len, Bool-Eq, List-Eq, ◌⊎◌, inl, inr,
  if◌then◌else◌, Result, ok, err, ◌>>=◌, ◌>>◌, reject_if, ok_or, zero,
}
use kolyan.Prelude.Map
use kolyan.Prelude.Map.{Map}
use kolyan.Ledger.{FactRef, FactRef-Eq, FactSubject, FactDraft, FactRecord}

pub data FactError : Type 0 where
  invalid conflict missing_cause storage : String → FactError
  stale_position : (expected actual : ℕ) → FactError

abbrev pub FactResult : Type 0 → Type 0
FactResult A = Result FactError A

-- What the crate serde_json gives: the bytes of a value or an error's message, and the test of two
-- values.
pub record Payload (V : Type 0) : Type 0 where
  pub to_vec : V → String ⊎ List ℕ
  pub equals : V → V → Bool

-- The entries of a `HashMap<(String, u64), _>`.
pub record Batch (V : Type 0) : Type 0 where
  pub stream : String
  pub expected : ℕ
  pub records : List (FactRecord V)

pub record MemoryState (V : Type 0) : Type 0 where
  pub streams : Map (List (FactRecord V))
  pub identities : Map (FactRecord V)
  pub batches : List (Batch V)

unfoldable pub fact_identity : String → FactResult Unit
fact_identity value =
    reject_if (is_blank value || ltb 256 (byte_len value))
      (FactError.invalid "identity must be nonempty and at most 256 bytes")

-- `value.split('.')`
abbrev add_char : ℕ → List (List ℕ) → List (List ℕ)
add_char c [] = (c ∷ []) ∷ []
add_char c (part ∷ parts) = (c ∷ part) ∷ parts

unfoldable pub split_dots : String → List (List ℕ)
split_dots String.[] = [] ∷ []
split_dots (String.◌∷◌ c s) =
    let rest = split_dots s in if code c == 46 then [] ∷ rest else add_char (code c) rest

-- `is_ascii_alphanumeric`, `_` or `-`; a character outside ASCII has no byte that passes.
unfoldable pub is_kind_char : ℕ → Bool
is_kind_char c =
    (leb 48 c && leb c 57)
    || (leb 65 c && leb c 90)
    || (leb 97 c && leb c 122)
    || c == 95
    || c == 45

unfoldable pub kind : String → FactResult Unit
kind value = do
  fact_identity value
  reject_if
      (leb (length (split_dots value)) 1
        || any (λ part. is_empty part || any (λ c. not (is_kind_char c)) part) (split_dots value))
      (FactError.invalid "kind must contain nonempty dotted namespace segments")

unfoldable pub validate_causes : List FactRef → FactResult Unit
validate_causes [] = ok tt
validate_causes (cause ∷ causes) =
    let rest = validate_causes causes in
    do
      fact_identity cause.stream_id
      fact_identity cause.fact_id
      reject_if (cause.position == 0 || ltb 9_223_372_036_854_775_807 cause.position)
          (FactError.invalid "cause position is out of bounds")
      rest

module _ {V : Type 0} (payload : Payload V) where
  unfoldable pub payload_len : V → FactResult ℕ
  payload_len value = elim (payload.to_vec value) [
    | inl message ↦ err (FactError.storage message)
    | inr bytes ↦ ok (length bytes)
  ]

  -- The test stops at the first part that holds, so a payload is only encoded after the others.
  unfoldable pub exceeds : FactDraft V → FactResult Bool
  exceeds draft =
      let encoded = (do bytes ← payload_len draft.payload; ok (ltb 131_072 bytes)) in
      if draft.schema_version == 0 || ltb 32 (length draft.causes) then ok true else encoded

  unfoldable pub validate_drafts : List String → List (FactDraft V) → FactResult Unit
  validate_drafts seen [] = ok tt
  validate_drafts seen (draft ∷ drafts) =
      let rest = validate_drafts (draft.fact_id ∷ seen) drafts in
      do
        fact_identity draft.fact_id
        fact_identity draft.subject.id
        kind draft.subject.kind
        kind draft.kind
        over ← exceeds draft
        reject_if over (FactError.invalid "version, causes or payload exceeds bounds")
        reject_if (contains seen draft.fact_id) (FactError.conflict draft.fact_id)
        validate_causes draft.causes
        rest

  unfoldable pub validate_batch : String → ℕ → List (FactDraft V) → FactResult Unit
  validate_batch stream expected batch = do
    fact_identity stream
    reject_if
        (is_empty batch
          || ltb 64 (length batch)
          || ltb 9_223_372_036_854_775_807 (expected + length batch))
        (FactError.invalid "batch size or position exceeds bounds")
    validate_drafts [] batch

  -- `==` of two drafts, derived.
  unfoldable pub same_draft : FactDraft V → FactDraft V → Bool
  same_draft d e =
      d.fact_id == e.fact_id
      && d.subject.kind == e.subject.kind
      && d.subject.id == e.subject.id
      && d.kind == e.kind
      && d.schema_version == e.schema_version
      && d.critical == e.critical
      && d.causes == e.causes
      && payload.equals d.payload e.payload

  -- The length and the pairs are tested together.
  unfoldable pub same_batch : List (FactRecord V) → List (FactDraft V) → Bool
  same_batch [] [] = true
  same_batch (r ∷ rs) (d ∷ ds) = same_draft r.draft d && same_batch rs ds
  same_batch _ _ = false

  unfoldable pub retry : List (FactRecord V) → List (FactDraft V) → FactResult (List (FactRecord V))
  retry original batch =
      if same_batch original batch
      then ok original
      else err (FactError.conflict "partial or changed batch retry")

module _ {V : Type 0} where
  -- The records of a batch: `expected + offset + 1`.
  unfoldable pub numbered : String → ℕ → List (FactDraft V) → List (FactRecord V)
  numbered stream position [] = []
  numbered stream position (draft ∷ drafts) =
      record { stream_id = stream; position = position + 1; draft = draft }
      ∷ numbered stream (position + 1) drafts

  unfoldable pub resolves : FactRef → Option (FactRecord V) → Bool
  resolves cause found = is_some_and found (λ r.
      r.stream_id == cause.stream_id
      && r.position == cause.position
      && r.draft.fact_id == cause.fact_id)

  abbrev pub or_lookup : Option (FactRecord V) → Option (FactRecord V) → Option (FactRecord V)
  or_lookup none later = later
  or_lookup (some r) later = some r

  -- The causes of one record, over the records before it in the batch, first to last.
  unfoldable pub check_causes :
      Map (FactRecord V) → List (FactRecord V) → List FactRef → FactResult Unit
  check_causes identities before [] = ok tt
  check_causes identities before (cause ∷ causes) =
      let rest = check_causes identities before causes in
      do
        reject_if
            (not (
              resolves cause (
                or_lookup (find (λ r. r.draft.fact_id == cause.fact_id) before)
                  (Map.get cause.fact_id identities))))
            (FactError.missing_cause cause.fact_id)
        rest

  unfoldable pub check_records :
      Map (FactRecord V) → List (FactRecord V) → List (FactRecord V) → FactResult Unit
  check_records identities before [] = ok tt
  check_records identities before (r ∷ rs) =
      let rest = check_records identities (before ++ r ∷ []) rs in
      do check_causes identities before r.draft.causes; rest

  -- `plan_append`, with the look-up in the map of identities, which cannot fail.
  unfoldable pub plan_append :
      String
      → (expected head : ℕ) → List (FactDraft V)
      → Map (FactRecord V)
      → FactResult (List (FactRecord V))
  plan_append stream expected head batch identities =
      let records = numbered stream expected batch in
      do
        reject_if (any (λ r. Map.contains_key r.draft.fact_id identities) records)
            (FactError.conflict "partial or changed batch retry")
        reject_if (not (expected == head)) (FactError.stale_position expected head)
        check_records identities [] records
        ok records

  unfoldable pub find_batch : String → ℕ → List (Batch V) → Option (List (FactRecord V))
  find_batch stream expected [] = none
  find_batch stream expected (b ∷ batches) =
      if b.stream == stream && b.expected == expected
      then some b.records
      else find_batch stream expected batches

  unfoldable pub head_of : Option (List (FactRecord V)) → ℕ
  head_of none = 0
  head_of (some rows) = elim (last rows) [ none ↦ 0 | some r ↦ r.position ]

  abbrev pub rows_of : Option (List (FactRecord V)) → List (FactRecord V)
  rows_of none = []
  rows_of (some rows) = rows

  unfoldable pub add_identities : List (FactRecord V) → Map (FactRecord V) → Map (FactRecord V)
  add_identities [] identities = identities
  add_identities (r ∷ rs) identities = add_identities rs (Map.insert r.draft.fact_id r identities)

  abbrev pub appended : MemoryState V → String → ℕ → List (FactRecord V) → MemoryState V
  appended state stream expected records = record {
    identities = add_identities records state.identities;
    streams = Map.insert stream (rows_of (Map.get stream state.streams) ++ records) state.streams;
    batches = record { stream = stream; expected = expected; records = records } ∷ state.batches;
  }

  unfoldable pub append_new :
      MemoryState V
      → String
      → ℕ
      → List (FactDraft V)
      → FactResult (List (FactRecord V) × MemoryState V)
  append_new state stream expected batch = do
    records ←
        plan_append stream expected (head_of (Map.get stream state.streams)) batch state.identities
    ok (records, appended state stream expected records)

  unfoldable pub append :
      Payload V
      → MemoryState V
      → String
      → ℕ
      → List (FactDraft V)
      → FactResult (List (FactRecord V) × MemoryState V)
  append payload state stream expected batch = do
    validate_batch payload stream expected batch
    elim (find_batch stream expected state.batches) [
      | some original ↦ do records ← retry payload original batch; ok (records, state)
      | none ↦ append_new state stream expected batch
    ]

  unfoldable pub take_first : ℕ → List (FactRecord V) → List (FactRecord V)
  take_first zero rows = []
  take_first (suc n) [] = []
  take_first (suc n) (r ∷ rows) = r ∷ take_first n rows

  unfoldable pub read :
      MemoryState V → String → (after limit : ℕ) → FactResult (List (FactRecord V))
  read state stream after limit = do
    fact_identity stream
    reject_if (not (leb 1 limit && leb limit 1024))
        (FactError.invalid "read limit must be 1..=1024")
    ok (
        take_first limit
          (filter (λ r. ltb after r.position) (rows_of (Map.get stream state.streams))))

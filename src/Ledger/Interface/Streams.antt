-- ===== src/Ledger/Interface/Streams.antt =====
-- The streams of the journal in memory, numbered before and after an append.
use kolyan.Prelude.{
  ℕ, suc, ◌+◌, ◌<◌, ◌≡◌, refl, sym, ap, subst, ◌∙◌, inl, inr, String, String-Eq, Option, none, some,
  List, [], ◌∷◌, ◌++◌, length, if◌then◌else◌, arith, ◌==◌, ==_refl, Bool-cases, ◌&&◌, ℕ-Eq, ◌^◌,
  length-append,
}
use kolyan.Prelude.Map
use kolyan.Prelude.Map.{Map, get-insert}
use kolyan.Ledger.{FactDraft, FactRecord}
use kolyan.Ledger.Journal.{MemoryState, numbered, find_batch, head_of, rows_of, appended}
use mathlib.Core.List.{append_assoc, append-nil}
use kolyan.Ledger.Interface.Laws.{IsNumbered, Stands}

module _ {V : Type 0} where
  abbrev pub memory_rows : MemoryState V → String → List (FactRecord V)
  memory_rows s stream = rows_of (Map.get stream s.streams)

  -- Streams are numbered from one on, and what a batch wrote stands in its stream.
  pub record IsWell (s : MemoryState V) : Type 0 where
    pub all_numbered : (stream : String) → IsNumbered stream 0 (memory_rows s stream)
    pub bounded : (stream : String) → length (memory_rows s stream) < 2 ^ 63
    pub batches_stand :
        (stream : String) (expected : ℕ) (records : List (FactRecord V))
        → find_batch stream expected s.batches ≡ some records
        → Stands (memory_rows s stream) expected records

  IsNumbered-append :
      (stream : String) (n : ℕ) (rows others : List (FactRecord V))
      → IsNumbered stream n rows
      → IsNumbered stream (n + length rows) others
      → IsNumbered stream n (rows ++ others)
  IsNumbered-append stream n [] others h k = subst (λ m. IsNumbered stream m others) (omega arith) k
  IsNumbered-append stream n (r ∷ rows) others h k = (
    h.0,
    h.1,
    IsNumbered-append stream (n + 1) rows others h.2
        (subst (λ m. IsNumbered stream m others) (omega arith) k),
  )

  numbered-IsNumbered :
      (stream : String) (n : ℕ) (batch : List (FactDraft V))
      → IsNumbered stream n (numbered stream n batch)
  unfolding numbered
  numbered-IsNumbered stream n [] = tt
  numbered-IsNumbered stream n (d ∷ ds) = (refl, refl, numbered-IsNumbered stream (n + 1) ds)

  length-numbered :
      (stream : String) (n : ℕ) (batch : List (FactDraft V))
      → length (numbered stream n batch) ≡ length batch
  unfolding numbered
  length-numbered stream n [] = refl
  length-numbered stream n (d ∷ ds) = ap suc (length-numbered stream (n + 1) ds)

  -- The position of the last record is the number of the records.
  last-IsNumbered :
      (stream : String) (n : ℕ) (r : FactRecord V) (rows : List (FactRecord V))
      → IsNumbered stream n (r ∷ rows)
      → head_of (some (r ∷ rows)) ≡ n + length (r ∷ rows)
  unfolding head_of
  last-IsNumbered stream n r [] h = grind arith
  last-IsNumbered stream n r (q ∷ rows) h = grind (arith, last-IsNumbered stream (n + 1) q rows h.2)

  pub head-eq-length :
      (stream : String) (found : Option (List (FactRecord V)))
      → IsNumbered stream 0 (rows_of found)
      → head_of found ≡ length (rows_of found)
  unfolding head_of
  head-eq-length stream none h = refl
  head-eq-length stream (some []) h = refl
  head-eq-length stream (some (r ∷ rows)) h = grind (arith, last-IsNumbered stream 0 r rows h)

  Stands-append :
      (rows more : List (FactRecord V)) (expected : ℕ) (records : List (FactRecord V))
      → Stands rows expected records
      → Stands (rows ++ more) expected records
  Stands-append rows more expected records s = record {
    before = s.before;
    later = s.later ++ more;
    split = ap (λ w. w ++ more) s.split ∙ append_assoc (s.before ++ records) s.later more;
    starts = s.starts;
    nonempty = s.nonempty;
  }

  -- The rows of every stream after an append.
  pub appended-rows :
      (s : MemoryState V) (stream other : String) (expected : ℕ) (records : List (FactRecord V))
      → memory_rows (appended s stream expected records) other
        ≡ (if stream == other then memory_rows s stream ++ records else memory_rows s other)
  appended-rows s stream other expected records =
      ground
        (arith, get-insert stream other (rows_of (Map.get stream s.streams) ++ records) s.streams)

  module _ (s : MemoryState V) (stream : String) (expected : ℕ) (batch : List (FactDraft V))
      (well : IsWell s) (head : expected ≡ length (memory_rows s stream))
      (some_draft : 0 < length batch) (fits : expected + length batch < 2 ^ 63) where
    abbrev new_records : List (FactRecord V)
    new_records = numbered stream expected batch

    appended-IsNumbered :
        (other : String)
        → IsNumbered other 0 (memory_rows (appended s stream expected new_records) other)
    appended-IsNumbered other = elim (Bool-cases (stream == other)) [
      | inl same ↦
          let e : stream ≡ other = ground arith in
          let e0 : expected ≡ 0 + length (memory_rows s stream) = omega arith in
          subst (IsNumbered other 0)
            (sym (appended-rows s stream other expected new_records ∙ (rw same)))
            (subst (λ w. IsNumbered w 0 (memory_rows s stream ++ new_records)) e
              (IsNumbered-append stream 0 (memory_rows s stream) new_records
                (well.all_numbered stream)
                (subst (λ n. IsNumbered stream n new_records) e0
                  (numbered-IsNumbered stream expected batch))))
      | inr differs ↦
          subst (IsNumbered other 0)
            (sym (appended-rows s stream other expected new_records ∙ (rw differs)))
            (well.all_numbered other)
    ]

    kept-Stands :
        (other : String) (at : ℕ) (found : List (FactRecord V))
        → Stands (memory_rows s other) at found
        → Stands (memory_rows (appended s stream expected new_records) other) at found
    kept-Stands other at found h = elim (Bool-cases (stream == other)) [
      | inl same ↦
          let e : stream ≡ other = ground arith in
          subst (λ w. Stands w at found)
            (sym (
              appended-rows s stream other expected new_records
              ∙ (rw same)
              ∙ ap (λ w. memory_rows s w ++ new_records) e))
            (Stands-append (memory_rows s other) new_records at found h)
      | inr differs ↦
          subst (λ w. Stands w at found)
            (sym (appended-rows s stream other expected new_records ∙ (rw differs))) h
    ]

    new-Stands :
        Stands (memory_rows (appended s stream expected new_records) stream) expected new_records
    new-Stands = record {
      before = memory_rows s stream;
      later = [];
      split =
          appended-rows s stream stream expected new_records
          ∙ (rw (==_refl stream))
          ∙ sym (append-nil (memory_rows s stream ++ new_records));
      starts = sym head;
      nonempty = subst (λ n. 0 < n) (sym (length-numbered stream expected batch)) some_draft;
    }

    appended-stand :
        (other : String) (at : ℕ) (found : List (FactRecord V))
        → find_batch other at (appended s stream expected new_records).batches ≡ some found
        → Stands (memory_rows (appended s stream expected new_records) other) at found
    unfolding find_batch
    appended-stand other at found h = elim (Bool-cases (stream == other && expected == at)) [
      | inl both ↦
          let e : stream ≡ other = ground arith in
          let n : expected ≡ at = ground arith in
          let f : new_records ≡ found = ground arith in
          subst (λ w. Stands (memory_rows (appended s stream expected new_records) w) at found) e
            (subst
              (λ w. Stands (memory_rows (appended s stream expected new_records) stream) w found) n
              (subst
                (λ w.
                  Stands (memory_rows (appended s stream expected new_records) stream) expected w)
                f new-Stands))
      | inr other_batch ↦
          kept-Stands other at found (well.batches_stand other at found (ground arith))
    ]

    appended-bounded :
        (other : String)
        → length (memory_rows (appended s stream expected new_records) other) < 2 ^ 63
    appended-bounded other = ground (
      arith,
      appended-rows s stream other expected new_records,
      length-append (memory_rows s stream) new_records,
      length-numbered stream expected batch,
      well.bounded other,
    )

    pub appended-IsWell : IsWell (appended s stream expected new_records)
    appended-IsWell = record {
      all_numbered = appended-IsNumbered;
      bounded = appended-bounded;
      batches_stand = appended-stand;
    }

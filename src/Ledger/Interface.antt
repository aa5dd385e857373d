-- ===== src/Ledger/Interface.antt =====
-- `trait FactJournal` of crates/kolyan-ledger/src/facts.rs, as its clients take it, and the journal
-- in memory as one of them.
pub mod Laws
pub mod Pages
pub mod Again
pub mod Streams
pub mod Memory
pub mod Contract
use kolyan.Prelude.{
  ℕ, suc, ◌+◌, String, String-Eq, ℕ-Eq, Bool, true, false, ◌&&◌, List, [], ◌∷◌, ◌==◌, panic, ok,
  err,
}
use kolyan.Ledger.{FactSubject, FactDraft, FactRecord}
use kolyan.Ledger.Journal.{FactResult, Payload, MemoryState, same_draft}
use kolyan.Ledger.Journal as Journal

-- An append may leave another journal whether it succeeds or not; a read leaves it as it is.
pub record FactJournal (J V : Type 0) : Type 0 where
  pub read : J → String → (after limit : ℕ) → FactResult (List (FactRecord V))
  pub append : J → String → ℕ → List (FactDraft V) → FactResult (List (FactRecord V)) × J

module _ {V : Type 0} where
  -- An append that fails leaves the journal in memory as it was.
  abbrev pub committed :
      MemoryState V
      → FactResult (List (FactRecord V) × MemoryState V)
      → FactResult (List (FactRecord V)) × MemoryState V
  committed state panic = (panic, state)
  committed state (err e) = (err e, state)
  committed state (ok (records, next)) = (ok records, next)

  -- `MemoryFactJournal` as a `FactJournal`.
  abbrev pub memory_journal : Payload V → FactJournal (MemoryState V) V
  memory_journal payload = record {
    read = λ state stream after limit. Journal.read state stream after limit;
    append = λ state stream expected batch.
        committed state (Journal.append payload state stream expected batch);
  }

  -- `==` of two records and of two lists of them, derived.
  unfoldable pub same_record : Payload V → FactRecord V → FactRecord V → Bool
  same_record payload r s =
      r.stream_id == s.stream_id && r.position == s.position && same_draft payload r.draft s.draft

  unfoldable pub same_records : Payload V → List (FactRecord V) → List (FactRecord V) → Bool
  same_records payload [] [] = true
  same_records payload (r ∷ rs) (s ∷ ss) = same_record payload r s && same_records payload rs ss
  same_records payload _ _ = false

unfoldable pub same_subject : FactSubject → FactSubject → Bool
same_subject s t = s.kind == t.kind && s.id == t.id

-- ===== src/Tasks/Inputs/Walk/Rests.antt =====
-- What an input rests on, and the record that each of its references names.
use kolyan.Prelude.{
  ℕ, ◌-◌, ◌≡◌, ◌≢◌, ◌≤◌, ◌<◌, sym, ◌∙◌, String, String-Eq, ℕ-Eq, true, false, ◌&&◌, List, [], ◌∷◌,
  ◌++◌, ◌==◌, length, contains, leb, ok, arith,
}
use kolyan.Ledger.{FactRef, FactRef-Eq, FactRecord}
use kolyan.Ledger.Interface.{FactJournal}
use kolyan.Tasks.Inputs.{Json}
use kolyan.Tasks.Inputs.Walk.{check_history, is_foreign, weigh}

module _ {V : Type 0} where
  check_history_older :
      (found : FactRecord V) (before causes : List FactRef) (cause : FactRef)
      → check_history found before causes ≡ ok tt
      → contains causes cause ≡ true
      → (cause.stream_id == found.stream_id && leb found.position cause.position) ≡ false
  unfolding check_history contains
  check_history_older found before [] cause h there = cc
  check_history_older found before (first ∷ causes) cause h there =
      ground (arith, check_history_older found (before ++ first ∷ []) causes cause)

module _ {J V : Type 0} (journal : FactJournal J V) (j : J) (stream : String) where
  -- The record of a reference: it is there and it is the very fact, it is critical, in another
  -- stream than the input's, and later than each of its causes in its own stream.
  pub record Rests (key : FactRef) (found : FactRecord V) : Type 0 where
    pub read : journal.read j key.stream_id (key.position - 1) 1 ≡ ok (found ∷ [])
    pub same_stream : found.stream_id ≡ key.stream_id
    pub same_position : found.position ≡ key.position
    pub same_fact : found.draft.fact_id ≡ key.fact_id
    pub positive : 0 < key.position
    pub foreign : key.stream_id ≢ stream
    pub critical : found.draft.critical ≡ true
    pub few : length found.draft.causes ≤ 32
    pub older :
        (cause : FactRef)
        → contains found.draft.causes cause ≡ true
        → cause.stream_id ≡ key.stream_id
        → cause.position < key.position

module _ {J V : Type 0} (journal : FactJournal J V) (j : J) where
  -- What an input rests on: its causes, and the causes of the records that it rests on.
  pub data Ancestor (causes : List FactRef) : FactRef → Type 0 where
    listed : (key : FactRef) → contains causes key ≡ true → Ancestor causes key
    cited :
        {key : FactRef} (found : FactRecord V) (cause : FactRef)
        → Ancestor causes key
        → journal.read j key.stream_id (key.position - 1) 1 ≡ ok (found ∷ [])
        → contains found.draft.causes cause ≡ true
        → Ancestor causes cause

module _ {J V : Type 0} (json : Json V) (journal : FactJournal J V) (j : J) (stream : String) where
  pub weigh_rests :
      (bytes : ℕ) (key : FactRef) (found : FactRecord V) (total : ℕ)
      → weigh json journal bytes key found ≡ ok total
      → journal.read j key.stream_id (key.position - 1) 1 ≡ ok (found ∷ [])
      → 0 < key.position
      → key.stream_id ≢ stream
      → Rests journal j stream key found
  unfolding weigh is_foreign
  weigh_rests bytes key found total h read positive foreign = record {
    read = read;
    same_stream = ground arith;
    same_position = ground arith;
    same_fact = ground arith;
    positive = positive;
    foreign = foreign;
    critical = ground arith;
    few = ground arith;
    older = λ cause there e.
        let history : check_history found [] found.draft.causes ≡ ok tt = ground arith in
        let own : found.stream_id ≡ key.stream_id = ground arith in
        let same : found.position ≡ key.position = ground arith in
        let before = check_history_older found [] found.draft.causes cause history there in
        let both : cause.stream_id ≡ found.stream_id = e ∙ sym own in
        ground (arith, before, both, same);
  }

-- ===== src/Tasks/Inputs/Walk.antt =====
-- `validate_causes` of tasks/input.rs: the walk from the causes of an input to all that they rest
-- on, depth first. A stack holds what is left to do, its top first.
pub mod Sets
pub mod Fuel
pub mod Stack
pub mod Rests
pub mod Closed
use kolyan.Prelude.{
  ℕ, zero, suc, ◌+◌, ◌-◌, String, String-Eq, ℕ-Eq, Bool, not, ◌&&◌, ◌||◌, List, [], ◌∷◌, ◌++◌, map,
  ◌==◌, ltb, leb, length, is_empty, contains, filter, if◌then◌else◌, panic, ok, ◌>>=◌, ◌>>◌,
  reject_if, ok_or,
}
use kolyan.Ledger.{FactRef, FactRef-Eq, FactRecord}
use kolyan.Ledger.Interface.{FactJournal}
use kolyan.Tasks.Types.{invalid, TaskResult, from_journal, checked_add}
use kolyan.Tasks.Validation.{identity, to_vec}
use kolyan.Tasks.Inputs.{Json, max_bytes, max_causal_records, only}

-- `CausalKey` is the triple of a reference's parts, so the reference itself.
abbrev pub CausalKey : Type 0
CausalKey = FactRef

pub data Walk : Type 0 where
  enter : FactRef → Walk
  exit : CausalKey → Walk

-- `BTreeSet<CausalKey>`: a list without repetition.
unfoldable pub insert_key : CausalKey → List CausalKey → List CausalKey
insert_key key keys = if contains keys key then keys else key ∷ keys

unfoldable pub remove_key : CausalKey → List CausalKey → List CausalKey
remove_key key keys = filter (λ k. not (k == key)) keys

-- The variables of the loop.
pub record Scan : Type 0 where
  pub black : List CausalKey
  pub gray : List CausalKey
  pub bytes : ℕ
  pub stack : List Walk

unfoldable pub check_repeats : (before causes : List FactRef) → TaskResult Unit
check_repeats before [] = ok tt
check_repeats before (cause ∷ causes) =
    let rest = check_repeats (before ++ cause ∷ []) causes in
    do reject_if (contains before cause) (invalid "duplicate input cause"); rest

-- A key whose causes are done moves from one set to the other.
abbrev pub left : Scan → List Walk → CausalKey → Scan
left scan rest key = record {
  black = insert_key key scan.black;
  gray = remove_key key scan.gray;
  bytes = scan.bytes;
  stack = rest;
}

module _ {V : Type 0} where
  unfoldable pub check_history : FactRecord V → (before causes : List FactRef) → TaskResult Unit
  check_history found before [] = ok tt
  check_history found before (cause ∷ causes) =
      let rest = check_history found (before ++ cause ∷ []) causes in
      do
        reject_if
            (contains before cause
              || (cause.stream_id == found.stream_id && leb found.position cause.position))
            (invalid "duplicate or nonhistorical causal reference")
        rest

  -- The record is not the one that the reference names, or it cannot be a cause.
  unfoldable pub is_foreign : FactRef → FactRecord V → Bool
  is_foreign reference found =
      not (found.stream_id == reference.stream_id)
      || not (found.position == reference.position)
      || not (found.draft.fact_id == reference.fact_id)
      || not found.draft.critical
      || ltb 32 (length found.draft.causes)

  abbrev pub expanded : Scan → List Walk → FactRef → FactRecord V → ℕ → Scan
  expanded scan rest reference found total = record {
    black = scan.black;
    gray = insert_key reference scan.gray;
    bytes = total;
    stack = map Walk.enter found.draft.causes ++ Walk.exit reference ∷ rest;
  }

abbrev pub first_scan : List FactRef → Scan
first_scan causes = record { black = []; gray = []; bytes = 0; stack = map Walk.enter causes }

-- Each of up to 1024 records adds itself and up to 32 causes to the stack.
abbrev pub walk_fuel : ℕ
walk_fuel = 33825

module _ {J V : Type 0} (json : Json V) (journal : FactJournal J V) where
  -- The tests of a record that was read, and the bytes of all records with it.
  unfoldable pub weigh : ℕ → FactRef → FactRecord V → TaskResult ℕ
  weigh bytes reference found = do
    reject_if (is_foreign reference found) (invalid "foreign or noncritical input cause")
    encoded ← to_vec (json.record_vec found)
    total ← ok_or (checked_add bytes (length encoded)) (invalid "input causal byte overflow")
    reject_if (ltb max_bytes total) (invalid "input causal scan byte ceiling exceeded")
    check_history found [] found.draft.causes
    ok total

  -- A reference that is not in either set.
  unfoldable pub expand : J → Scan → List Walk → FactRef → TaskResult Scan
  expand j scan rest reference = do
    reject_if (leb max_causal_records (length scan.black + length scan.gray))
        (invalid "input causal scan count exceeded")
    rows ← from_journal (journal.read j reference.stream_id (reference.position - 1) 1)
    found ← only rows "missing or ambiguous input cause"
    total ← weigh scan.bytes reference found
    ok (expanded scan rest reference found total)

  -- One round of the loop, on the action that was popped.
  unfoldable pub step : J → String → Scan → List Walk → Walk → TaskResult Scan
  step j stream scan rest (Walk.exit key) = ok (left scan rest key)
  step j stream scan rest (Walk.enter reference) =
      let opened = expand j scan rest reference in
      do
        reject_if (reference.position == 0 || reference.stream_id == stream)
            (invalid "cyclic or nonhistorical input cause")
        identity reference.stream_id
        identity reference.fact_id
        reject_if (contains scan.gray reference) (invalid "cyclic input cause")
        if contains scan.black reference then ok (record scan { stack = rest }) else opened

  -- The loop. Fuel that runs out is told apart from every result.
  unfoldable pub walk : ℕ → J → String → Scan → TaskResult Unit
  walk zero j stream scan = panic
  walk (suc fuel) j stream scan = elim scan.stack [
    | [] ↦ ok tt
    | action ∷ rest ↦ do next ← step j stream scan rest action; walk fuel j stream next
  ]

  -- `validate_causes`
  unfoldable pub validate_input_causes : J → List FactRef → String → TaskResult Unit
  validate_input_causes j causes stream = do
    reject_if (is_empty causes || ltb 32 (length causes))
        (invalid "missing or oversized input causes")
    check_repeats [] causes
    walk walk_fuel j stream (first_scan causes)

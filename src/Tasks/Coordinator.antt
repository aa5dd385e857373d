-- ===== src/Tasks/Coordinator.antt =====
-- tasks/coordinator.rs: commands are admitted by the journal's records of the task, and what they
-- write is replayed by the same code.
pub mod Envelope
pub mod Command
pub mod Reads
pub mod Replays
pub mod Grows
pub mod Plans
pub mod Candidate
pub mod Durable
pub mod Again
pub mod States
pub mod Races
use kolyan.Prelude.{
  ℕ, zero, suc, ◌+◌, ◌^◌, ◌%◌, String, String-Eq, ℕ-Eq, Bool, true, false, not, ◌&&◌, ◌||◌, Option,
  none, some, is_some_and, List, [], ◌∷◌, ◌++◌, ◌==◌, ltb, length, contains, if◌then◌else◌, panic,
  ok, err, ◌>>=◌, ◌>>◌, reject_if, ok_or,
}
use kolyan.Ledger.{FactRef, FactRef-Eq, FactDraft, FactRecord}
use kolyan.Ledger.Interface.{FactJournal, same_subject}
use kolyan.Tasks.Types.{
  TaskDefinition, TaskSnapshot, TaskEvent, TaskError, invalid, TaskResult, from_journal,
  checked_add,
}
use kolyan.Tasks.Validation.{identity, reference}
use kolyan.Tasks.Goals.Verify.{TaskGoalVerifier, verify_event}
use kolyan.Tasks.Inputs.{Json, decoded}
use kolyan.Tasks.Inputs.Source.{verify_input_event}
use kolyan.Tasks.Reducer.{apply}
use kolyan.Tasks.Coordinator.Envelope.{version, event_kind, event_subject, is_known}

abbrev pub page_size : ℕ
page_size = 512

-- `TaskCoordinator`, with what it takes from other crates. `rounds` bounds the loop of `records`.
pub record TaskCoordinator (J V : Type 0) : Type 0 where
  pub json : Json V
  pub journal : FactJournal J V
  pub goal_verifier : Option (TaskGoalVerifier V)
  pub rounds : ℕ

module _ {V : Type 0} where
  -- The loop over one page: the records are the next ones of the stream.
  unfoldable pub take_page : String → ℕ → List (FactRecord V) → TaskResult (List (FactRecord V) × ℕ)
  take_page task_id after [] = ok ([], after)
  take_page task_id after (r ∷ rs) =
      let rest = take_page task_id r.position rs in
      do
        let next = checked_add after 1
        reject_if (not (r.stream_id == task_id))
            (invalid "journal returned noncontiguous or foreign records")
        position ← ok_or next (invalid "position overflow")
        reject_if (not (r.position == position))
            (invalid "journal returned noncontiguous or foreign records")
        taken ← rest
        ok (r ∷ taken.0, taken.1)

  -- The test of the record that the journal still has. `after + 1` wraps at 64 bits.
  unfoldable pub advances : String → ℕ → List (FactRecord V) → Bool
  advances task_id after (r ∷ []) = r.stream_id == task_id && r.position == (after + 1) % 2 ^ 64
  advances task_id after _ = false

  -- A registration stands in the stream of its own task.
  unfoldable pub is_elsewhere : String → TaskEvent V → Bool
  is_elsewhere task_id (TaskEvent.registered definition) = not (definition.task_id == task_id)
  is_elsewhere task_id _ = false

  abbrev pub at_position : Option (TaskSnapshot V) → ℕ → Option (TaskSnapshot V)
  at_position none position = none
  at_position (some state) position = some (record state { position = position })

module _ {J V : Type 0} (c : TaskCoordinator J V) where
  -- One round of the loop, up to the test of the tail: what the page holds, the position after it,
  -- and whether the stream ends there.
  unfoldable pub read_round : J → String → ℕ → TaskResult (List (FactRecord V) × ℕ × Bool)
  read_round j task_id after = do
    page ← from_journal (c.journal.read j task_id after page_size)
    reject_if (ltb page_size (length page)) (invalid "journal returned oversized page")
    taken ← take_page task_id after page
    tail ← from_journal (c.journal.read j task_id taken.1 1)
    let more = (do
      reject_if (not (advances task_id taken.1 tail)) (invalid "journal did not advance")
      ok (taken.0, taken.1, false))
    elim tail [ [] ↦ ok (taken.0, taken.1, true) | _ ∷ _ ↦ more ]

  -- The loop. Fuel that runs out is told apart from every result.
  unfoldable pub read_rounds : ℕ → J → String → ℕ → TaskResult (List (FactRecord V))
  read_rounds zero j task_id after = panic
  read_rounds (suc rounds) j task_id after = do
    round ← read_round j task_id after
    let rest = read_rounds rounds j task_id round.1
    elim round.2 [ true ↦ ok round.0 | false ↦ do more ← rest; ok (round.0 ++ more) ]

  unfoldable pub records : J → String → TaskResult (List (FactRecord V))
  records j task_id = do identity task_id; read_rounds c.rounds j task_id 0

  -- What every event passes, when it is written and when it is replayed.
  unfoldable pub take_event :
      J
      → String
      → Option (TaskSnapshot V)
      → TaskEvent V
      → FactRecord V
      → TaskResult (TaskSnapshot V)
  take_event j task_id snapshot event fact = do
    verify_event c.json.serde c.goal_verifier snapshot event fact
    next ← apply c.json.serde snapshot event fact
    verify_input_event c.json c.journal j task_id event fact (some next)
    ok next

  -- A record of a kind and a version that are known.
  unfoldable pub replay_event :
      J
      → String
      → Option (TaskSnapshot V)
      → Option FactRef
      → FactRecord V
      → TaskResult (TaskSnapshot V)
  replay_event j task_id snapshot previous fact = do
    reject_if (not fact.draft.critical) (invalid "task transitions must be critical")
    event ← decoded (c.json.value_event fact.draft.payload)
    reject_if
        (not (event_kind event == fact.draft.kind)
          || not (same_subject (event_subject task_id event) fact.draft.subject)
          || is_some_and previous (λ cause. not (contains fact.draft.causes cause)))
        (invalid "task envelope/subject/causal predecessor mismatch")
    reject_if (is_elsewhere task_id event) (invalid "registration belongs to another task stream")
    take_event j task_id snapshot event fact

  -- One round of the loop of `replay`, with the assignment of the position after it.
  unfoldable pub replay_record :
      J
      → String
      → Option (TaskSnapshot V)
      → Option FactRef
      → FactRecord V
      → TaskResult (Option (TaskSnapshot V))
  replay_record j task_id snapshot previous fact =
      let skipped = (do
        reject_if fact.draft.critical (invalid "unknown critical kind or version")
        ok (at_position snapshot fact.position)) in
      let taken = (do
        state ← replay_event j task_id snapshot previous fact
        ok (at_position (some state) fact.position)) in
      if not (is_known fact.draft.kind) || not (fact.draft.schema_version == version)
      then skipped
      else taken

  unfoldable pub replay_from :
      J
      → String
      → Option (TaskSnapshot V)
      → Option FactRef
      → List (FactRecord V)
      → TaskResult (Option (TaskSnapshot V))
  replay_from j task_id snapshot previous [] = ok snapshot
  replay_from j task_id snapshot previous (fact ∷ facts) = do
    next ← replay_record j task_id snapshot previous fact
    replay_from j task_id next (some (reference fact)) facts

  unfoldable pub replay : J → String → List (FactRecord V) → TaskResult (Option (TaskSnapshot V))
  replay j task_id facts = replay_from j task_id none none facts

  -- `snapshot`
  unfoldable pub snapshot_of : J → String → TaskResult (TaskSnapshot V)
  snapshot_of j task_id = do
    facts ← records j task_id
    state ← replay j task_id facts
    ok_or state (TaskError.not_found task_id)

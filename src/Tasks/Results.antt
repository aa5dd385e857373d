-- ===== src/Tasks/Results.antt =====
-- `consume` and `consume_terminal` of tasks/reducer/topology.rs: one invocation takes the result of
-- another.
pub mod Once
use kolyan.Prelude.{
  String, Bool, not, ◌||◌, Option, none, some, List, ◌==◌, String-Eq, Option-Eq, List-Eq, last,
  contains, is_none_or, ok, err, ◌>>=◌, ◌>>◌, reject_if, ok_or, unwrap,
}
use kolyan.Prelude.Map
use kolyan.Ledger.{FactRef-Eq, FactRecord}
use kolyan.Tasks.Types.{
  AttemptBinding, AttemptBinding-Eq, ExecutionEvidence-Eq, CompletionEvidence,
  CompletionEvidence-Eq, AttemptOutcome, AttemptObservation, TerminalResultDisposition,
  TerminalResultDisposition-Eq, ConsumedResult, ConsumedTerminalResult, AttemptSnapshot,
  InvocationSnapshot, TaskSnapshot, invalid, transition, TaskResult,
}
use kolyan.Tasks.Dependencies.{has_consumed, is_stopped, required_results, with_invocation}

-- `let Some(AttemptObservation { outcome: Completed { evidence }, .. }) = actual else …`
unfoldable pub completed_evidence : Option AttemptObservation → TaskResult (List CompletionEvidence)
completed_evidence none = err (transition "child has no completed attempt")
completed_evidence (some observation) = elim observation.outcome [
  | AttemptOutcome.completed evidence ↦ ok evidence
  | _ ↦ err (transition "child has no completed attempt")
]

unfoldable pub disposition_of : AttemptOutcome → TaskResult TerminalResultDisposition
disposition_of (AttemptOutcome.completed evidence) =
    ok (TerminalResultDisposition.completed evidence)
disposition_of (AttemptOutcome.failed reason _) = ok (TerminalResultDisposition.failed reason)
disposition_of (AttemptOutcome.cancelled reason) = ok (TerminalResultDisposition.cancelled reason)
disposition_of _ = err (transition "child is not terminal")

abbrev pub with_result : InvocationSnapshot → ConsumedResult → InvocationSnapshot
with_result inv result = record inv {
  consumed_results = Map.insert result.child_invocation_id result inv.consumed_results;
}

abbrev pub with_terminal_result : InvocationSnapshot → ConsumedTerminalResult → InvocationSnapshot
with_terminal_result inv result = record inv {
  terminal_consumed_results =
      Map.insert result.child.invocation_id result inv.terminal_consumed_results;
}

-- The closure of `is_none_or`: the attempt is another one, or is to be cancelled.
unfoldable pub differs : AttemptBinding → AttemptSnapshot → Bool
differs binding attempt = not (attempt.binding == binding) || attempt.cancellation_requested

module _ {V : Type 0} where
  -- `child.attempts.last().and_then(|id| state.attempts[id].observation.as_ref())`
  unfoldable pub last_observation :
      TaskSnapshot V → InvocationSnapshot → TaskResult (Option AttemptObservation)
  last_observation state child = elim (last child.attempts) [
    | none ↦ ok none
    | some id ↦ do attempt ← unwrap (Map.get id state.attempts); ok attempt.observation
  ]

  unfoldable pub check_consume :
      TaskSnapshot V → String → ConsumedResult → FactRecord V → TaskResult InvocationSnapshot
  check_consume state invocation result fact = do
    inv ← ok_or (Map.get invocation state.invocations) (invalid "unknown result consumer")
    required ← required_results state invocation
    reject_if
        (is_stopped inv.state
          || not (contains required result.child_invocation_id)
          || has_consumed inv result.child_invocation_id)
        (transition "not an admitted result edge or result already consumed")
    child ← ok_or (Map.get result.child_invocation_id state.invocations) (invalid "unknown child")
    actual ← last_observation state child
    evidence ← completed_evidence actual
    reject_if
        (not (child.completion_fact == some result.completion_fact)
          || not (result.evidence == evidence)
          || not (contains fact.draft.causes result.completion_fact))
        (invalid "result must reference exact child completion and evidence")
    ok inv

  unfoldable pub consume :
      TaskSnapshot V → String → ConsumedResult → FactRecord V → TaskResult (TaskSnapshot V)
  consume state invocation result fact = do
    inv ← check_consume state invocation result fact
    ok (with_invocation state invocation (with_result inv result))

  unfoldable pub check_terminal :
      TaskSnapshot V
      → String
      → ConsumedTerminalResult
      → FactRecord V
      → TaskResult InvocationSnapshot
  check_terminal state invocation result fact = do
    owner ← ok_or (Map.get invocation state.invocations) (invalid "unknown consumer")
    let child_id = result.child.invocation_id
    required ← required_results state invocation
    reject_if
        (owner.cancellation_requested
          || not (result.parent.invocation_id == invocation)
          || not (last owner.attempts == some result.parent.attempt_id)
          || is_none_or (Map.get result.parent.attempt_id state.attempts) (differs result.parent)
          || is_stopped owner.state
          || has_consumed owner child_id
          || not (contains required child_id))
        (transition "terminal result edge is unavailable")
    child ← ok_or (Map.get child_id state.invocations) (invalid "unknown child")
    attempt ←
        ok_or (Map.get result.child.attempt_id state.attempts) (invalid "unknown child attempt")
    observation ← ok_or attempt.observation (invalid "missing terminal observation")
    disposition ← disposition_of observation.outcome
    reject_if
        (not (attempt.binding == result.child)
          || not (last child.attempts == some result.child.attempt_id)
          || not (child.terminal_fact == some result.terminal_fact)
          || not (observation.source == result.source)
          || not (disposition == result.disposition)
          || not (contains fact.draft.causes result.terminal_fact))
        (invalid "terminal disposition differs from exact child proof")
    ok owner

  unfoldable pub consume_terminal :
      TaskSnapshot V → String → ConsumedTerminalResult → FactRecord V → TaskResult (TaskSnapshot V)
  consume_terminal state invocation result fact = do
    owner ← check_terminal state invocation result fact
    ok (with_invocation state invocation (with_terminal_result owner result))

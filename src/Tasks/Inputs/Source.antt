-- ===== src/Tasks/Inputs/Source.antt =====
-- tasks/input.rs: an input's evidence is published once, loaded, and tested against an event.
use kolyan.Prelude.{
  ℕ, String, String-Eq, ℕ-Eq, Option-Eq, Bool, true, not, ◌&&◌, ◌||◌, Option, none, some, and_then,
  List, [], ◌∷◌, ◌==◌, ltb, is_empty, contains, if◌then◌else◌, panic, ok, err, ◌>>=◌, ◌>>◌,
  reject_if, ok_or,
}
use kolyan.Prelude.Map
use kolyan.Ledger.{FactRef, FactRef-Eq, FactSubject, FactDraft, FactRecord}
use kolyan.Ledger.Journal.{FactResult}
use kolyan.Ledger.Interface.{FactJournal, same_record, same_subject}
use kolyan.Tasks.Types.{
  InvocationRole, InvocationRole-Eq, InvocationInputSource, InvocationInputSource-Eq,
  InvocationDefinition, TaskEvent, TaskSnapshot, invalid, TaskResult, from_journal,
}
use kolyan.Tasks.Inputs.{
  Json, InvocationInputKind, InvocationInputKind-Eq, InvocationInputScope, InvocationInputScope-Eq,
  InvocationInputEnvelope, VerifiedInvocationInputSource, max_bytes, input_source_kind,
  invocation_input_source_subject_kind, source_fact, source_kind, event_source, decoded,
  validate_scope, coordinate, bound, only,
}
use kolyan.Tasks.Inputs.Walk.{validate_input_causes}

abbrev pub source_reference : String → FactRef
source_reference stream = record { stream_id = stream; position = 1; fact_id = stream }

abbrev pub source_subject : InvocationInputScope → FactSubject
source_subject scope = record {
  kind = invocation_input_source_subject_kind;
  id = scope.invocation_id;
}

-- `InvocationInputSource` of an envelope's kind
abbrev pub source_of : InvocationInputKind → FactRef → InvocationInputSource
source_of InvocationInputKind.standalone fact = InvocationInputSource.standalone fact
source_of InvocationInputKind.derived fact = InvocationInputSource.derived fact

-- Whose input the event names: the invocation, its agent and the digest of its constraints.
abbrev pub event_scope : {V : Type 0} → String → TaskEvent V → TaskResult InvocationInputScope
event_scope task_id (TaskEvent.invocation_admitted definition) = ok (record {
  task_id = task_id;
  invocation_id = definition.invocation_id;
  agent = definition.agent;
  constraints_digest = definition.constraints_digest;
})
event_scope task_id (TaskEvent.attempt_started binding) = ok (record {
  task_id = task_id;
  invocation_id = binding.invocation_id;
  agent = binding.agent;
  constraints_digest = binding.constraints_digest;
})
event_scope task_id (TaskEvent.budgeted_attempt_started binding _) = ok (record {
  task_id = task_id;
  invocation_id = binding.invocation_id;
  agent = binding.agent;
  constraints_digest = binding.constraints_digest;
})
event_scope task_id _ = err (invalid "unsupported source event")

abbrev pub verified_source :
    {V : Type 0}
    → InvocationInputSource
    → InvocationInputEnvelope V
    → FactRecord V
    → VerifiedInvocationInputSource V
verified_source source envelope found = record {
  reference = source_fact source;
  envelope = envelope;
  causes = found.draft.causes;
}

unfoldable pub is_source_record : {V : Type 0} → FactRecord V → String → InvocationInputScope → Bool
is_source_record found stream expected =
    found.stream_id == stream
    && found.position == 1
    && found.draft.fact_id == stream
    && found.draft.kind == input_source_kind
    && found.draft.schema_version == 1
    && found.draft.critical
    && same_subject found.draft.subject (source_subject expected)

module _ {J V : Type 0} (json : Json V) (journal : FactJournal J V) where
  -- The envelope is encoded again only where its scope and its kind are the expected ones.
  unfoldable pub differs_from_source :
      InvocationInputEnvelope V → InvocationInputScope → InvocationInputKind → V → TaskResult Bool
  differs_from_source envelope expected kind payload =
      let known = (do
        value ← decoded (json.envelope_value envelope)
        ok (not (json.values.equals value payload))) in
      if not (envelope.scope == expected) || not (envelope.kind == kind) then ok true else known

  -- `load_verified_invocation_input_source`, on the one record of the stream.
  unfoldable pub verify_source :
      J
      → InvocationInputSource
      → InvocationInputScope
      → String
      → FactRecord V
      → ℕ
      → TaskResult (VerifiedInvocationInputSource V)
  verify_source j source expected stream found limit = do
    bound (json.record_vec found) limit
    reject_if (not (is_source_record found stream expected))
        (invalid "invalid input source fact envelope")
    envelope ← decoded (json.value_envelope found.draft.payload)
    differs ← differs_from_source envelope expected (source_kind source) found.draft.payload
    reject_if differs (invalid "input source scope/kind or known fields differ")
    validate_input_causes json journal j found.draft.causes stream
    let value = verified_source source envelope found
    bound (json.verified_vec value) limit
    ok value

  unfoldable pub load_verified_invocation_input_source :
      J
      → InvocationInputSource
      → InvocationInputScope
      → ℕ
      → TaskResult (VerifiedInvocationInputSource V)
  load_verified_invocation_input_source j source expected limit = do
    reject_if (limit == 0 || ltb max_bytes limit) (invalid "invalid input source host ceiling")
    validate_scope expected
    stream ← coordinate json expected
    reject_if (not (source_fact source == source_reference stream))
        (invalid "foreign input source coordinate")
    rows ← from_journal (journal.read j stream 0 2)
    found ← only rows "missing or ambiguous input source"
    verify_source j source expected stream found limit

  -- A continuation's input rests on the completion of its predecessor.
  unfoldable pub check_predecessor :
      TaskSnapshot V → InvocationDefinition → List FactRef → TaskResult Unit
  check_predecessor state definition causes =
      let checked = (do
        parent ←
            ok_or (and_then definition.parent_invocation_id (λ id. Map.get id state.invocations))
              (invalid "source predecessor is absent")
        completed ← ok_or parent.completion_fact (invalid "source predecessor completion is absent")
        reject_if (not (contains causes completed))
            (invalid "Continuation source lacks exact predecessor completion cause")) in
      if definition.role == InvocationRole.continuation then checked else ok tt

  -- `verify_input_event`, of an event with a source.
  unfoldable pub verify_source_event :
      J
      → String
      → TaskEvent V
      → FactRecord V
      → Option (TaskSnapshot V)
      → InvocationInputSource
      → TaskResult Unit
  verify_source_event j task_id event fact snapshot source = do
    scope ← event_scope task_id event
    reject_if (not (contains fact.draft.causes (source_fact source)))
        (invalid "Task input source causal binding is missing")
    verified ← load_verified_invocation_input_source j source scope max_bytes
    state ← ok_or snapshot (invalid "input source has no Task state")
    invocation ←
        ok_or (Map.get scope.invocation_id state.invocations)
          (invalid "source invocation is absent")
    reject_if (not (invocation.definition.input_source == source))
        (invalid "attempt source differs from admitted source")
    check_predecessor state invocation.definition verified.causes

  unfoldable pub verify_input_event :
      J → String → TaskEvent V → FactRecord V → Option (TaskSnapshot V) → TaskResult Unit
  verify_input_event j task_id event fact snapshot = elim (event_source event) [
    | none ↦ ok tt
    | some source ↦ verify_source_event j task_id event fact snapshot source
  ]

  abbrev pub source_draft : String → InvocationInputScope → List FactRef → V → FactDraft V
  source_draft stream scope causes payload = record {
    fact_id = stream;
    subject = source_subject scope;
    kind = input_source_kind;
    schema_version = 1;
    critical = true;
    causes = causes;
    payload = payload;
  }

  abbrev pub source_record : String → FactDraft V → FactRecord V
  source_record stream draft = record { stream_id = stream; position = 1; draft = draft }

  -- What is checked before the journal is read.
  unfoldable pub prepare_source :
      J → InvocationInputEnvelope V → List FactRef → TaskResult (String × FactDraft V)
  prepare_source j envelope causes = do
    validate_scope envelope.scope
    stream ← coordinate json envelope.scope
    validate_input_causes json journal j causes stream
    payload ← decoded (json.envelope_value envelope)
    let draft = source_draft stream envelope.scope causes payload
    bound (json.record_vec (source_record stream draft)) max_bytes
    ok (stream, draft)

  -- The rows that stand in the stream in the end.
  unfoldable pub accept_source :
      J
      → InvocationInputEnvelope V
      → String
      → FactDraft V
      → List (FactRecord V)
      → TaskResult (VerifiedInvocationInputSource V)
  accept_source j envelope stream draft rows = do
    found ← only rows "invocation input source content conflicts"
    reject_if (not (same_record json.values found (source_record stream draft)))
        (invalid "invocation input source content conflicts")
    load_verified_invocation_input_source j (source_of envelope.kind (source_reference stream))
        envelope.scope max_bytes

  -- After the append: an error of the append counts only where no record stands.
  unfoldable pub settle_source :
      J
      → InvocationInputEnvelope V
      → String
      → FactDraft V
      → FactResult (List (FactRecord V))
      → TaskResult (VerifiedInvocationInputSource V)
  settle_source j envelope stream draft appended = do
    rows ← from_journal (journal.read j stream 0 2)
    let absent = (do from_journal appended; err (invalid "source append has no durable record"))
    let there = accept_source j envelope stream draft rows
    if is_empty rows then absent else there

  -- Once the stream was read.
  unfoldable pub write_source :
      J
      → InvocationInputEnvelope V
      → String
      → FactDraft V
      → List (FactRecord V)
      → TaskResult (VerifiedInvocationInputSource V) × J
  write_source j envelope stream draft [] =
      let (appended, k) = journal.append j stream 0 (draft ∷ []) in
      (settle_source k envelope stream draft appended, k)
  write_source j envelope stream draft rows = (accept_source j envelope stream draft rows, j)

  unfoldable pub read_source :
      J → String × FactDraft V → TaskResult ((String × FactDraft V) × List (FactRecord V))
  read_source j prepared = do
    rows ← from_journal (journal.read j prepared.0 0 2)
    ok (prepared, rows)

  unfoldable pub finish_source :
      J
      → InvocationInputEnvelope V
      → TaskResult ((String × FactDraft V) × List (FactRecord V))
      → TaskResult (VerifiedInvocationInputSource V) × J
  finish_source j envelope panic = (panic, j)
  finish_source j envelope (err e) = (err e, j)
  finish_source j envelope (ok found) = write_source j envelope found.0.0 found.0.1 found.1

  unfoldable pub publish_invocation_input_source :
      J
      → InvocationInputEnvelope V
      → List FactRef
      → TaskResult (VerifiedInvocationInputSource V) × J
  publish_invocation_input_source j envelope causes =
      finish_source j envelope (prepare_source j envelope causes >>= read_source j)

-- ===== src/Tasks/Samples/Journal.antt =====
-- The coordinator over a journal in memory, for the sample task.
use kolyan.Prelude.{
  ℕ, String, String-Eq, String-discrete, ℕ-Eq, ℕ_discrete, none, List, [], ◌==◌, if◌then◌else◌, ◌⊎◌,
  inl, inr, any, find, filter, contains, is_blank, is_whitespace, Bool-discrete, List-discrete,
  all_lower_hex, is_lower_hex_digit,
}
use kolyan.Prelude.Map
use kolyan.Ledger.{FactRef, FactRef-discrete}
use kolyan.Ledger.Journal as Journal
use kolyan.Ledger.Journal.{Payload, MemoryState}
use kolyan.Ledger.Interface.{memory_journal, same_record, same_records, same_subject}
use kolyan.Tasks.Types.{
  TaskDefinition, AgentIdentity-discrete, GoalCheckerKey-discrete, CancellationPolicy-discrete,
  TaskEvent, TaskSnapshot, TaskResult,
}
use kolyan.Tasks.Goals.Verify.{
  goal_causes, is_goal, verify_goal, verify_goals, verify_causes, ask_host, verify_task,
  verify_next, verify_event, assessment_of,
}
use kolyan.Tasks.Inputs.{
  Json, InvocationInputKind, InvocationInputKind-discrete, InvocationInputScope,
  InvocationInputScope-discrete, InvocationInputEnvelope, VerifiedInvocationInputSource,
  validate_scope, coordinate, bound,
}
use kolyan.Tasks.Inputs.Walk.{
  insert_key, remove_key, check_repeats, check_history, is_foreign, weigh, expand, step, walk,
  validate_input_causes,
}
use kolyan.Tasks.Inputs.Source.{
  is_source_record, differs_from_source, verify_source, load_verified_invocation_input_source,
  check_predecessor, verify_source_event, verify_input_event, prepare_source, accept_source,
  settle_source, write_source, read_source, finish_source, publish_invocation_input_source,
}
use kolyan.Tasks.Coordinator.{
  TaskCoordinator, take_page, advances, read_round, read_rounds, records, is_elsewhere, take_event,
  replay_event, replay_record, replay_from, replay, snapshot_of,
}
use kolyan.Tasks.Coordinator.Envelope.{is_known}
use kolyan.Tasks.Coordinator.Command.{
  add_cause, add_causes, add_policy, validate_goals, validate_content, is_other_command, causes_of,
  Prepared, plan_command, retry_command, decide, prepare, accept, commit, finish, command,
}
use kolyan.Tasks.Samples.{serde, host, hex, two_step}
use kolyan.Tasks.Samples.Run.{run}

unfoldable pub TaskDefinition-discrete : Discrete (TaskDefinition ℕ)
TaskDefinition-discrete = hlevel (
  String-discrete, ℕ_discrete, AgentIdentity-discrete, GoalCheckerKey-discrete,
  CancellationPolicy-discrete,
)

abbrev pub when_yes : {A : Type 0} → Dec A → ℕ → String ⊎ ℕ
when_yes (yes _) n = inr n
when_yes (no _) n = inl "not encoded"

-- Values for two events: the registration of the sample task, and one cancellation.
unfoldable pub event_value : TaskEvent ℕ → String ⊎ ℕ
event_value (TaskEvent.registered d) = when_yes (TaskDefinition-discrete d two_step) 0
event_value (TaskEvent.cancelled why) = when_yes (String-discrete why "stop") 1
event_value _ = inl "not encoded"

abbrev pub value_event : ℕ → String ⊎ TaskEvent ℕ
value_event n =
    if n == 0
    then inr (TaskEvent.registered two_step)
    else if n == 1
    then inr (TaskEvent.cancelled "stop")
    else inl "not decoded"

abbrev pub scope : InvocationInputScope
scope = record { task_id = "task"; invocation_id = "root"; agent = host; constraints_digest = hex }

abbrev pub envelope : InvocationInputEnvelope ℕ
envelope = record { kind = InvocationInputKind.standalone; scope = scope; body = 0 }

abbrev pub values : Payload ℕ
values = record { to_vec = λ v. inr []; equals = λ v w. v == w }

abbrev pub json : Json ℕ
json = record {
  serde = serde;
  values = values;
  record_vec = λ r. inr [];
  verified_vec = λ v. inr [];
  texts_vec = λ texts. inr [];
  envelope_value = λ e. inr 7;
  value_envelope = λ v. inr envelope;
  event_value = event_value;
  value_event = value_event;
}

abbrev pub empty : MemoryState ℕ
empty = record { streams = []; identities = []; batches = [] }

abbrev pub coordinator : TaskCoordinator (MemoryState ℕ) ℕ
coordinator = record {
  json = json;
  journal = memory_journal values;
  goal_verifier = none;
  rounds = 8;
}

-- A command, with every function of the coordinator, the reducer and the journal unfolded.
unfoldable pub commands :
    MemoryState ℕ → String → TaskEvent ℕ → TaskResult (TaskSnapshot ℕ) × MemoryState ℕ
unfolding run Journal.append Journal.append_new Journal.validate_batch Journal.validate_drafts
    Journal.validate_causes Journal.fact_identity Journal.split_dots Journal.is_kind_char
    Journal.kind Journal.payload_len Journal.exceeds Journal.same_draft Journal.same_batch
    Journal.retry Journal.numbered Journal.resolves Journal.check_causes Journal.check_records
    Journal.plan_append Journal.find_batch Journal.head_of Journal.add_identities Journal.take_first
    Journal.read any find filter contains is_blank is_whitespace Bool-discrete List-discrete
    String-discrete ℕ_discrete Map.get Map.insert FactRef-discrete TaskDefinition-discrete
    event_value same_record same_records same_subject assessment_of goal_causes is_goal verify_goal
    verify_goals verify_causes ask_host verify_task verify_next verify_event take_page advances
    read_round read_rounds records is_elsewhere take_event replay_event replay_record replay_from
    replay snapshot_of is_known add_cause add_causes add_policy validate_goals validate_content
    is_other_command causes_of plan_command retry_command decide prepare accept commit finish
    command verify_input_event verify_source_event InvocationInputKind-discrete
    InvocationInputScope-discrete validate_scope coordinate bound all_lower_hex is_lower_hex_digit
    insert_key remove_key check_repeats check_history is_foreign weigh expand step walk
    validate_input_causes is_source_record differs_from_source verify_source
    load_verified_invocation_input_source check_predecessor prepare_source accept_source
    settle_source write_source read_source finish_source publish_invocation_input_source
commands j fact_id event = command coordinator j "task" fact_id event

unfoldable pub prepares : MemoryState ℕ → String → TaskEvent ℕ → TaskResult (Prepared ℕ)
unfolding commands
prepares j fact_id event = prepare coordinator j "task" fact_id event

unfoldable pub publishes :
    MemoryState ℕ → List FactRef → TaskResult (VerifiedInvocationInputSource ℕ) × MemoryState ℕ
unfolding commands
publishes j causes = publish_invocation_input_source json (memory_journal values) j envelope causes

abbrev pub register : TaskEvent ℕ
register = TaskEvent.registered two_step

abbrev pub journal_of : {A : Type 0} → TaskResult A × MemoryState ℕ → MemoryState ℕ
journal_of answer = answer.1

-- The journal with the registration alone.
abbrev pub one_fact : MemoryState ℕ
one_fact = journal_of (commands empty "fact-1" register)

-- ===== src/Tasks/Inputs.antt =====
-- tasks/input.rs: the evidence of an invocation's input. This module has its data and its checks.
pub mod Walk
pub mod Source
pub mod Stable
pub mod Publish
use Prim.Native.String.{◌++◌ as append}
use kolyan.Prelude.{
  ℕ, String, Bool, true, false, not, ◌||◌, Option, none, some, List, [], ◌∷◌, ◌++◌, Eq,
  String-discrete, String-Eq, ℕ-Eq, ◌==◌, ltb, length, byte_len, all_lower_hex, ok, err, ◌⊎◌, inl,
  inr, ◌>>=◌, ◌>>◌, reject_if,
}
use kolyan.Ledger.{FactRef, FactRef-discrete, FactSubject, FactDraft, FactRecord}
use kolyan.Ledger.Journal.{Payload}
use kolyan.Tasks.Types.{
  AgentIdentity, AgentIdentity-discrete, InvocationInputSource, InvocationDefinition,
  AttemptBinding, TaskEvent, invalid, TaskResult, Serde,
}
use kolyan.Tasks.Validation.{identity, to_vec}

abbrev pub max_bytes : ℕ
max_bytes = 16777216

abbrev pub max_causal_records : ℕ
max_causal_records = 1024

abbrev pub input_source_kind : String
input_source_kind = "task.invocation_input_source"

abbrev pub invocation_input_source_subject_kind : String
invocation_input_source_subject_kind = "task.invocation-input-source"

pub data InvocationInputKind : Type 0 where
  standalone derived : InvocationInputKind

unfoldable pub InvocationInputKind-discrete : Discrete InvocationInputKind
InvocationInputKind-discrete = hlevel

instance abbrev pub InvocationInputKind-Eq : Eq InvocationInputKind
InvocationInputKind-Eq = record { discrete = InvocationInputKind-discrete }

-- `InvocationInputSource::fact` and `InvocationInputSource::kind`
abbrev pub source_fact : InvocationInputSource → FactRef
source_fact (InvocationInputSource.standalone fact) = fact
source_fact (InvocationInputSource.derived fact) = fact

abbrev pub source_kind : InvocationInputSource → InvocationInputKind
source_kind (InvocationInputSource.standalone _) = InvocationInputKind.standalone
source_kind (InvocationInputSource.derived _) = InvocationInputKind.derived

pub record InvocationInputScope : Type 0 where
  pub task_id : String
  pub invocation_id : String
  pub agent : AgentIdentity
  pub constraints_digest : String

unfoldable pub InvocationInputScope-discrete : Discrete InvocationInputScope
InvocationInputScope-discrete = hlevel (String-discrete, AgentIdentity-discrete)

instance abbrev pub InvocationInputScope-Eq : Eq InvocationInputScope
InvocationInputScope-Eq = record { discrete = InvocationInputScope-discrete }

pub record InvocationInputEnvelope (V : Type 0) : Type 0 where
  pub kind : InvocationInputKind
  pub scope : InvocationInputScope
  pub body : V

pub record VerifiedInvocationInputSource (V : Type 0) : Type 0 where
  pub reference : FactRef
  pub envelope : InvocationInputEnvelope V
  pub causes : List FactRef

-- What the coordinator takes from the crate serde_json besides `Serde`: the bytes of a record, of
-- a verified source and of a list of texts, and the values of an event and of an envelope. Each
-- gives an error's message or its result; `values` has the test of two values.
pub record Json (V : Type 0) : Type 0 where
  pub serde : Serde V
  pub values : Payload V
  pub record_vec : FactRecord V → String ⊎ List ℕ
  pub verified_vec : VerifiedInvocationInputSource V → String ⊎ List ℕ
  pub texts_vec : List String → String ⊎ List ℕ
  pub envelope_value : InvocationInputEnvelope V → String ⊎ V
  pub value_envelope : V → String ⊎ InvocationInputEnvelope V
  pub event_value : TaskEvent V → String ⊎ V
  pub value_event : V → String ⊎ TaskEvent V

-- `map_err(|error| invalid(error.to_string()))?`
abbrev pub decoded : {A : Type 0} → String ⊎ A → TaskResult A
decoded (inl message) = err (invalid message)
decoded (inr a) = ok a

abbrev pub event_source : {V : Type 0} → TaskEvent V → Option InvocationInputSource
event_source (TaskEvent.invocation_admitted definition) = some definition.input_source
event_source (TaskEvent.attempt_started binding) = some binding.input_source
event_source (TaskEvent.budgeted_attempt_started binding _) = some binding.input_source
event_source _ = none

unfoldable pub validate_scope : InvocationInputScope → TaskResult Unit
validate_scope scope = do
  identity scope.task_id
  identity scope.invocation_id
  identity scope.agent.definition_id
  identity scope.agent.revision
  identity scope.agent.instance_id
  reject_if
      (not (byte_len scope.constraints_digest == 64)
        || not (all_lower_hex scope.constraints_digest))
      (invalid "invalid input constraints digest")

-- `coordinate`, a text put before the digest.
unfoldable pub coordinate : {V : Type 0} → Json V → InvocationInputScope → TaskResult String
coordinate json scope = do
  bytes ← to_vec (
      json.texts_vec
        ("kolyan.server.invocation-input-source.v1" ∷ scope.task_id ∷ scope.invocation_id ∷ []))
  ok (append "task.invocation-input-source." (json.serde.sha256_hex bytes))

-- `bound`, of a value that is encoded
unfoldable pub bound : String ⊎ List ℕ → ℕ → TaskResult Unit
bound encoded limit = do
  bytes ← to_vec encoded
  reject_if (ltb limit (length bytes)) (invalid "input source evidence exceeds host ceiling")

-- `let [record] = rows.as_slice() else { return Err(bad(message)) }`
abbrev pub only : {A : Type 0} → List A → String → TaskResult A
only (a ∷ []) message = ok a
only _ message = err (invalid message)

-- ===== src/Tasks/Scenarios/Inputs.antt =====
-- The evidence of an input over the journal with the task's registration: the theorems about it.
use kolyan.Prelude.{ℕ, ◌≡◌, ◌≢◌, refl, String, true, [], ◌∷◌, ok, panic, contains}
use kolyan.Ledger.{FactRef, FactRecord, FactRef-Eq}
use kolyan.Ledger.Journal.{MemoryState}
use kolyan.Ledger.Interface.{memory_journal}
use kolyan.Ledger.Interface.Memory.{memory_journal-Laws, memory_fails}
use kolyan.Tasks.Types.{TaskResult}
use kolyan.Tasks.Inputs.{VerifiedInvocationInputSource}
use kolyan.Tasks.Inputs.Walk.{validate_input_causes}
use kolyan.Tasks.Inputs.Walk.Fuel.{validate_input_causes_returns}
use kolyan.Tasks.Inputs.Walk.Rests.{Rests, listed}
use kolyan.Tasks.Inputs.Walk.Closed.{validate_input_causes_lem}
use kolyan.Tasks.Inputs.Source.{publish_invocation_input_source}
use kolyan.Tasks.Inputs.Publish.{publish_again}
use kolyan.Tasks.Samples.Journal.{json, values, commands, publishes, journal_of, envelope, one_fact}
use kolyan.Tasks.Scenarios.Commands.{one-IsWell}

abbrev registration : FactRef
registration = record { stream_id = "task"; position = 1; fact_id = "fact-1" }

abbrev stream : String
stream = "task.invocation-input-source.00"

validate_input_causes_returns_example :
    validate_input_causes json (memory_journal values) one_fact (registration ∷ []) stream ≢ panic
validate_input_causes_returns_example =
    validate_input_causes_returns json (memory_journal values)
      (memory_journal-Laws values).read_returns one_fact (registration ∷ []) stream

valid :
    validate_input_causes json (memory_journal values) one_fact (registration ∷ []) stream ≡ ok tt
unfolding commands
valid = refl

there : contains (registration ∷ []) registration ≡ true
unfolding commands
there = refl

validate_input_causes_lem_example :
    (found : FactRecord ℕ) × Rests (memory_journal values) one_fact stream registration found
validate_input_causes_lem_example =
    validate_input_causes_lem json (memory_journal values) one_fact stream (registration ∷ [])
      registration valid (listed registration there)

abbrev source_in :
    TaskResult (VerifiedInvocationInputSource ℕ) × MemoryState ℕ → VerifiedInvocationInputSource ℕ
source_in (ok source, _) = source
source_in _ = record { reference = registration; envelope = envelope; causes = [] }

abbrev published : MemoryState ℕ
published = journal_of (publishes one_fact (registration ∷ []))

abbrev source : VerifiedInvocationInputSource ℕ
source = source_in (publishes one_fact (registration ∷ []))

publishes_once :
    publish_invocation_input_source json
      (memory_journal values)
      one_fact
      envelope
      (registration ∷ [])
    ≡ (ok source, published)
unfolding commands publishes
publishes_once = refl

publish_again_example :
    publish_invocation_input_source json
      (memory_journal values)
      published
      envelope
      (registration ∷ [])
    ≡ (ok source, published)
publish_again_example =
    publish_again json (memory_journal values) (memory_journal-Laws values) (memory_fails values)
      one_fact published envelope (registration ∷ []) source one-IsWell publishes_once

-- ===== src/Ledger/Scenarios.antt =====
-- A journal with an append and one after it: the theorems about the journal at these.
use kolyan.Prelude.{
  ℕ, ◌≡◌, ◌≢◌, refl, String, String-discrete, ℕ_discrete, Bool-discrete, List-discrete, true, none,
  some, List, [], ◌∷◌, ◌++◌, any, ok, inr, find, contains, is_blank, is_whitespace, false,
}
use kolyan.Prelude.Map
use kolyan.Ledger.{FactRef, FactRef-discrete, FactDraft, FactRecord}
use kolyan.Ledger.Journal.{
  FactResult, Payload, MemoryState, fact_identity, split_dots, is_kind_char, kind, validate_causes,
  payload_len, exceeds, validate_drafts, validate_batch, same_draft, same_batch, retry, numbered,
  resolves, check_causes, check_records, plan_append, find_batch, head_of, rows_of, add_identities,
  append_new, append,
}
use kolyan.Ledger.Journal.Retries.{append_extends, now, then_append, append_again}
use kolyan.Ledger.Interface.{memory_journal}
use kolyan.Ledger.Interface.Streams.{memory_rows, IsWell}
use kolyan.Ledger.Interface.Contract.{Contract, memory_journal-Contract}

-- A payload is a unit here, which any two tests find equal.
abbrev unit_payload : Payload (Unit {0})
unit_payload = record { to_vec = λ v. inr []; equals = λ v w. true }

abbrev empty : MemoryState Unit
empty = record { streams = []; identities = []; batches = [] }

abbrev draft : String → List FactRef → FactDraft Unit
draft id causes = record {
  fact_id = id;
  subject = record { kind = "task.task"; id = "task" };
  kind = "task.event";
  schema_version = 1;
  critical = true;
  causes = causes;
  payload = tt;
}

abbrev first_batch : List (FactDraft Unit)
first_batch = draft "fact-1" [] ∷ []

abbrev second_batch : List (FactDraft Unit)
second_batch =
    draft "fact-2" (record { stream_id = "task"; position = 1; fact_id = "fact-1" } ∷ []) ∷ []

-- An append unfolds every function of the journal.
unfoldable appends :
    MemoryState Unit
    → ℕ
    → List (FactDraft Unit)
    → FactResult (List (FactRecord Unit) × MemoryState Unit)
unfolding append append_new validate_batch validate_drafts validate_causes fact_identity split_dots
    is_kind_char kind payload_len exceeds same_draft same_batch retry numbered resolves check_causes
    check_records plan_append find_batch head_of add_identities any find contains is_blank
    is_whitespace Map.get Map.insert String-discrete ℕ_discrete Bool-discrete List-discrete
    FactRef-discrete
appends state expected batch = append unit_payload state "task" expected batch

abbrev records_of : FactResult (List (FactRecord Unit) × MemoryState Unit) → List (FactRecord Unit)
records_of (ok found) = found.0
records_of _ = []

abbrev state_of : FactResult (List (FactRecord Unit) × MemoryState Unit) → MemoryState Unit
state_of (ok found) = found.1
state_of _ = empty

abbrev first_records : List (FactRecord Unit)
first_records = records_of (appends empty 0 first_batch)

abbrev one_fact : MemoryState Unit
one_fact = state_of (appends empty 0 first_batch)

abbrev second_records : List (FactRecord Unit)
second_records = records_of (appends one_fact 1 second_batch)

abbrev two_facts : MemoryState Unit
two_facts = state_of (appends one_fact 1 second_batch)

appends_first : append unit_payload empty "task" 0 first_batch ≡ ok (first_records, one_fact)
unfolding appends
appends_first = refl

appends_second : append unit_payload one_fact "task" 1 second_batch ≡ ok (second_records, two_facts)
unfolding appends
appends_second = refl

second_fresh : find_batch "task" 1 one_fact.batches ≡ none
unfolding appends
second_fresh = refl

append_extends_example :
    (1 ≡ head_of (Map.get "task" one_fact.streams))
    × (second_records ≡ numbered "task" 1 second_batch)
    × (any (λ r. Map.contains_key r.draft.fact_id one_fact.identities) second_records ≡ false)
    × (Map.get "task" two_facts.streams
        ≡ some (rows_of (Map.get "task" one_fact.streams) ++ second_records))
    × ((other : String)
        → "task" ≢ other
        → Map.get other two_facts.streams ≡ Map.get other one_fact.streams)
append_extends_example =
    append_extends unit_payload one_fact "task" 1 second_batch second_records two_facts second_fresh
      appends_second

append_again_example :
    append unit_payload two_facts "task" 0 first_batch ≡ ok (first_records, two_facts)
append_again_example =
    append_again unit_payload (λ v. refl) empty "task" 0 first_batch first_records one_fact
      two_facts appends_first
      (then_append "task" 1 second_batch second_records two_facts now appends_second)

memory_journal-Contract_example :
    Contract unit_payload (memory_journal unit_payload) memory_rows IsWell 1024
memory_journal-Contract_example = memory_journal-Contract unit_payload

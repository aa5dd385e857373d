-- ===== src/Tasks/Scenarios/Commands.antt =====
-- The coordinator over a journal in memory: the theorems about commands at two of them.
use kolyan.Prelude.{
  ℕ, ◌<◌, ◌≡◌, refl, sym, ap, inr, true, false, List, [], ◌∷◌, ◌++◌, length, ok, err, ==_refl,
  arith, String-discrete, ℕ_discrete, ◌∙◌, ℕ-Eq,
}
use kolyan.Prelude.Map
use kolyan.Ledger.{FactRecord}
use kolyan.Ledger.Journal.{MemoryState, find_batch}
use kolyan.Ledger.Interface.{same_record}
use kolyan.Ledger.Interface.Streams.{memory_rows, IsWell}
use kolyan.Ledger.Interface.Memory.{memory_journal-Laws, memory_fails}
use kolyan.Tasks.Types.{TaskEvent, TaskSnapshot, TaskResult, invalid, transition}
use kolyan.Tasks.Validation.{identity}
use kolyan.Tasks.Reducer.Reachable.{Reachable}
use kolyan.Tasks.Coordinator.{is_elsewhere, records, snapshot_of}
use kolyan.Tasks.Coordinator.Command.{Plan, Prepared, prepare, commit, command, validate_content}
use kolyan.Tasks.Coordinator.Reads.{records_returns}
use kolyan.Tasks.Coordinator.Durable.{command_replays, command_writes, Written-IsWell}
use kolyan.Tasks.Coordinator.Again.{command_again, fact_reused}
use kolyan.Tasks.Coordinator.States.{snapshot_of-Reachable, command-Reachable}
use kolyan.Tasks.Coordinator.Races.{commit_races, command_fails}
use kolyan.Tasks.Samples.{serde, two_step, fact_at}
use kolyan.Tasks.Samples.Run.{after}
use kolyan.Tasks.Samples.Journal.{
  event_value, value_event, values, empty, coordinator, commands, journal_of,
  TaskDefinition-discrete, when_yes, prepares, register, one_fact,
}

abbrev stop : TaskEvent ℕ
stop = TaskEvent.cancelled "stop"

abbrev two_facts : MemoryState ℕ
two_facts = journal_of (commands one_fact "fact-2" stop)

abbrev state_in : TaskResult (TaskSnapshot ℕ) × MemoryState ℕ → TaskSnapshot ℕ
state_in (ok state, _) = state
state_in _ = after []

abbrev first_state : TaskSnapshot ℕ
first_state = state_in (commands empty "fact-1" register)

abbrev second_state : TaskSnapshot ℕ
second_state = state_in (commands one_fact "fact-2" stop)

registers : command coordinator empty "task" "fact-1" register ≡ (ok first_state, one_fact)
unfolding commands
registers = refl

stops : command coordinator one_fact "task" "fact-2" stop ≡ (ok second_state, two_facts)
unfolding commands
stops = refl

encoded_yes : {A : Type 0} (decision : Dec A) (n v : ℕ) → when_yes decision n ≡ inr v → A × (v ≡ n)
encoded_yes (yes a) n v h = (a, cc h)
encoded_yes (no _) n v h = cc

round_trip : (e : TaskEvent ℕ) (v : ℕ) → event_value e ≡ inr v → value_event v ≡ inr e
unfolding event_value ℕ_discrete
round_trip (TaskEvent.registered d) v h =
    let (same, zero_value) = encoded_yes (TaskDefinition-discrete d two_step) 0 v h in
    ap value_event zero_value ∙ ap (λ w. inr (TaskEvent.registered w)) (sym same)
round_trip (TaskEvent.cancelled why) v h =
    let (same, one_value) = encoded_yes (String-discrete why "stop") 1 v h in
    ap value_event one_value ∙ ap (λ w. inr (TaskEvent.cancelled w)) (sym same)
round_trip e v h = cc h

empty-IsWell : IsWell empty
unfolding Map.get find_batch
empty-IsWell = record {
  all_numbered = λ stream. tt;
  bounded = λ stream. omega arith;
  batches_stand = λ stream expected found h. cc h;
}

pub one-IsWell : IsWell one_fact
one-IsWell =
    Written-IsWell coordinator (memory_journal-Laws values) empty one_fact "task" "fact-1" register
      first_state empty-IsWell
      (command_writes coordinator (memory_journal-Laws values) empty one_fact "task" "fact-1"
        register first_state empty-IsWell registers)

equal_values : (v w : ℕ) → values.equals v w ≡ true → v ≡ w
equal_values v w h = ground arith

here : is_elsewhere "task" register ≡ false
unfolding commands
here = refl

few : (j : MemoryState ℕ) → length (memory_rows j "task") ≡ 1 → length (memory_rows j "task") < 8
few j h = omega (arith, h)

one_row : length (memory_rows one_fact "task") ≡ 1
unfolding commands
one_row = refl

named : identity "task" ≡ ok tt
unfolding commands
named = refl

records_returns_example : records coordinator one_fact "task" ≡ ok (memory_rows one_fact "task")
records_returns_example =
    records_returns coordinator (memory_journal-Laws values) one_fact "task" one-IsWell named
      (few one_fact one_row)

command_replays_example : snapshot_of coordinator one_fact "task" ≡ ok first_state
command_replays_example =
    command_replays coordinator (memory_journal-Laws values) empty one_fact "task" "fact-1" register
      first_state round_trip here empty-IsWell registers (few one_fact one_row)

command_again_example :
    command coordinator one_fact "task" "fact-1" register ≡ (ok first_state, one_fact)
command_again_example =
    command_again coordinator (memory_journal-Laws values) round_trip (λ v. ==_refl v) empty
      one_fact "task" "fact-1" register first_state here empty-IsWell registers
      (few one_fact one_row)

register_value : event_value register ≡ inr 0
unfolding commands
register_value = refl

stop_value : event_value stop ≡ inr 1
unfolding commands
stop_value = refl

stop_content : validate_content coordinator stop ≡ ok tt
unfolding commands
stop_content = refl

fact_reused_example :
    command coordinator one_fact "task" "fact-1" stop
    ≡ (err (invalid "fact identity reused with a different command"), one_fact)
fact_reused_example =
    fact_reused coordinator (memory_journal-Laws values) round_trip (λ v. ==_refl v) empty one_fact
      "task" "fact-1" register stop first_state 0 1 equal_values here empty-IsWell registers
      (few one_fact one_row) register_value stop_value (λ e. omega (arith, e)) stop_content

replayed : snapshot_of coordinator two_facts "task" ≡ ok second_state
unfolding commands
replayed = refl

snapshot_of-Reachable_example : Reachable serde second_state
snapshot_of-Reachable_example =
    snapshot_of-Reachable coordinator two_facts "task" second_state replayed

command-Reachable_example : Reachable serde second_state
command-Reachable_example =
    command-Reachable coordinator (memory_journal-Laws values) one_fact two_facts "task" "fact-2"
      stop second_state one-IsWell stops

-- The registration is planned on the empty journal, and another writer makes it first.
abbrev plan_in : TaskResult (Prepared ℕ) → Plan ℕ
plan_in (ok (Prepared.writes plan)) = plan
plan_in _ = record { expected = 0; candidate = fact_at 1 1; next = first_state }

abbrev plan : Plan ℕ
plan = plan_in (prepares empty "fact-1" register)

prepared : prepare coordinator empty "task" "fact-1" register ≡ ok (Prepared.writes plan)
unfolding commands prepares
prepared = refl

overtaken : memory_rows one_fact "task" ≡ memory_rows empty "task" ++ plan.candidate ∷ []
unfolding commands prepares
overtaken = refl

commits : commit coordinator one_fact "task" (Prepared.writes plan) ≡ (ok first_state, one_fact)
unfolding commands prepares
commits = refl

commit_races_example :
    (first_state ≡ plan.next)
    × (own : FactRecord ℕ) × (later : List (FactRecord ℕ)) × (memory_rows one_fact "task"
        ≡ memory_rows empty "task" ++ own ∷ later)
    × (same_record values own plan.candidate ≡ true)
commit_races_example =
    commit_races coordinator (memory_journal-Laws values) empty one_fact one_fact "task" "fact-1"
      register plan (plan.candidate ∷ []) first_state empty-IsWell prepared one-IsWell overtaken
      commits

refused :
    command coordinator one_fact "task" "fact-2" register
    ≡ (err (transition "task already registered"), one_fact)
unfolding commands
refused = refl

command_fails_example : one_fact ≡ one_fact
command_fails_example =
    command_fails coordinator (memory_journal-Laws values) (memory_fails values) (λ v. ==_refl v)
      one_fact one_fact "task" "fact-2" register (transition "task already registered") one-IsWell
      refused

-- ===== src/Lib.antt =====
-- The task service of kolyan, as a pure state machine over a journal of facts.
--
-- A task is a root invocation of an agent and the invocations that it leads to (delegations, calls of
-- itself, continuations), each with its attempts, which are executions of the session service. The
-- service writes every command as a typed event to a journal, and the same pure function checks an
-- event before it is appended and rebuilds the state on replay: `apply` of
-- crates/kolyan-server/src/tasks/reducer.rs. This library models that function with all that it
-- calls, and the data that it reads and writes.
--
-- Files and code (paths below crates/kolyan-server/src/tasks unless they say otherwise):
-- - Prelude: what Rust's library gives. Map and Set are `BTreeMap<String, _>` and `BTreeSet<String>`
--   as lists in the order of the keys, written by `insert` and, through `get_mut`, by `update`;
--   Errors has `Result`, with `panic` for an `unwrap` of `None`, an index that is not there,
--   `unreachable!`, or a loop that is out of fuel; Lists, Latest and Text have the methods of slices, iterators,
--   options and strings.
-- - Ledger: crates/kolyan-ledger/src/facts.rs (Facts: the records; Journal: `MemoryFactJournal` with
--   `append`, `read` and what they call; Interface: the trait `FactJournal`, its laws as a record that
--   clients take, the journal in memory as one that keeps them, and the contract with retries).
--   Ledger/Scenarios: a sample.
-- - Tasks/Inputs: input.rs (Walk: `validate_causes`; Source: publication, loading and
--   `verify_input_event`). Stable, Publish and the children of Walk hold proofs.
-- - Tasks/Coordinator: coordinator.rs (Envelope: `envelope`; Coordinator itself: `records`, `replay`
--   and `snapshot`; Command: `command` and every operation that it serves). The other children hold
--   proofs.
-- - Tasks/Types: types.rs, goals/types.rs, budget.rs, `InvocationInputSource` of input.rs and
--   `ExecutionRef` of crates/kolyan-server/src/lib.rs.
-- - Tasks/Validation: reducer/validation.rs, `identity` and `reference` of reducer.rs, and the checks
--   of goals/types.rs.
-- - Tasks/Admission, Tasks/Dependencies, Tasks/Results: reducer/topology.rs (`admit`;
--   `add_dependency`, `reaches`, `required_results`, `has_consumed`; `consume`, `consume_terminal`).
-- - Tasks/Attempts: reducer/attempts.rs (Start: `start`, `resume`, `authorize_retry`; Observe:
--   `observe`; Evidence: what they check).
-- - Tasks/Budget: budget.rs. Tasks/Completion: reducer/completion.rs. Tasks/Goals:
--   goals/transitions.rs (Verify: `goal_causes`, `verify_event` and the trait `TaskGoalVerifier`;
--   Registry: goals/registry.rs, with Assess for what is computed and recomputed and Complete for what
--   a completion is checked by; its other children hold proofs).
-- - Tasks/Reducer: reducer.rs. Its children hold the proofs about whole events.
-- - Tasks/Topology: the abstract view of a task, its steps and its invariant; no code.
-- - Tasks/Safety: the proofs about panics. Tasks/Samples and Tasks/Scenarios: a sample task, run.
--
-- How the code is written here. A function that takes `&mut TaskSnapshot` returns the new snapshot in
-- a `Result`. An error carries no state: in the source a failed `apply` can leave its snapshot half
-- written, and both of its callers drop that snapshot. A function of the source whose guards come
-- before all its writes is split in two: `check_x` has the guards and gives what they found, and `x`
-- writes. Numbers are unbounded, and where the source uses `checked_add` the bound of `u64` is
-- written out; the depth in `admit` is a `u32` that counts invocations, of which a task has at most
-- 4096. Error messages are those of the source.
--
-- Loops. Loops over maps and lists are structural. `reaches` follows dependencies with a set of the
-- invocations that it has read; its fuel is one more than the number of invocations, since each round
-- reads a new one. The loop up the ancestors in `admit` has the number of invocations as fuel, since a
-- parent is there before its child.
--
-- The walk over the causes of an input has fuel for 32 causes and 1024 records with 32 causes each.
-- The loop of `records` has no bound in the source: a journal that always has one record more keeps it
-- running. So the number of its rounds is a field of the coordinator, and what is said of a result
-- says how many rounds are enough.
--
-- The coordinator keeps no state of its own. An operation takes the journal and gives its answer and
-- the journal that it leaves. `command` reads, plans and appends; between its reads and its append
-- another writer may come, so `prepare` and `commit` are functions of their own, of two journals.
-- `take_event` is the part of `command` and of `replay` that is the same in both. `after + 1` in
-- `records` is taken at 64 bits.
--
-- Parameters. `Serde` stands for what serde_json and sha2 give: the sizes that the serializer
-- writes, the bytes of a value, and the digest of bytes; `V` is `serde_json::Value`. Nothing is
-- assumed of them, but that the serializer of a `Value` fails only where its writer does.
-- `TaskGoalVerifier` is the host's verifier of goals, with nothing assumed. `Json` is what the
-- coordinator takes of serde_json besides; a theorem that needs it says that an event is read back
-- as it was encoded, and that the test of two values holds of a value and itself, or of equal
-- values alone. `FactJournal` is the trait; a theorem about the coordinator takes a journal with
-- its laws. `Payload` stands for the encoding of a payload and the test of two payloads; where a
-- theorem needs it, it says that the test holds of a payload and itself.
--
-- `GoalSourceReader` is the reader of a stopped execution in
-- crates/kolyan-server/src/task_driver/goal_source.rs, of which the registry's verifier only uses what it
-- answers; of that file the limits, the coverage and the errors are modelled. It is a function of
-- its arguments, as over a ledger that does not change between two inspections of one verifier;
-- what is said of a recomputation over a ledger that has changed takes a second reader. `GoalJson`
-- is what the verifier takes of serde_json, and `GoalChecker` is the trait of the host's checkers;
-- the key that a checker gives is the same at every call. Nothing is assumed of them.
--
-- Not modelled: the body of that reader and the journal in SQLite, which stands behind the same
-- trait as the journal in memory. Outside the task service, the journal and those types nothing is
-- modelled: the other crates are async drivers, adapters, effects and data.
pub mod Prelude
pub mod Ledger
pub mod Tasks

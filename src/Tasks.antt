-- ===== src/Tasks.antt =====
-- crates/kolyan-server/src/tasks: the durable task state machine.
pub mod Types
pub mod Validation
pub mod Dependencies
pub mod Admission
pub mod Results
pub mod Budget
pub mod Attempts
pub mod Completion
pub mod Goals
pub mod Inputs
pub mod Reducer
pub mod Coordinator
pub mod Topology
pub mod Safety
pub mod Samples
pub mod Scenarios

-- ===== src/Tasks/Types.antt =====
-- The types of crates/kolyan-server/src/tasks: types.rs, goals/types.rs, budget.rs and input.rs.
mod Identity
mod Goal
mod Outcome
mod Snapshot
mod Event
mod Serialization
unfoldable pub use Identity.*
unfoldable pub use Goal.*
unfoldable pub use Outcome.*
unfoldable pub use Snapshot.*
unfoldable pub use Event.*
unfoldable pub use Serialization.*

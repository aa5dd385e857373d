-- ===== src/Tasks/Safety.antt =====
-- The code never panics: no `unwrap` of a `None`, no index that is not there, no search without end.
pub mod Checks
pub mod Commands
pub mod Loops
pub mod Apply

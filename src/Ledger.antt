-- ===== src/Ledger.antt =====
-- crates/kolyan-ledger.
mod Facts
pub mod Journal
pub mod Interface
mod Scenarios
unfoldable pub use Facts.*

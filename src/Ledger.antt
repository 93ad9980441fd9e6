-- ===== src/Ledger.antt =====
-- crates/domain/ledger: balanced entries, the journal, and the paper book on it.
pub mod Entry
pub mod Balance
pub mod Build
pub mod Journal
pub mod Effect
pub mod Conservation
pub mod Replay
mod Tests

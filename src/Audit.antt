-- ===== src/Audit.antt =====
-- crates/domain/audit/src/lib.rs: the append-only audit trail with its chain of hashes.
pub mod Record
pub mod Log
pub mod Chain
pub mod Restart
pub mod Digits
pub mod Binding
pub mod Alias
mod Tests

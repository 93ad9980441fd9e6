-- ===== src/Risk.antt =====
-- crates/domain/risk/src/: the checks an order passes before it reaches the order store.
pub mod Engine
pub mod Gates
pub mod Rules
pub mod Approval
pub mod Snapshot
mod Tests

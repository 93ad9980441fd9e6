-- ===== src/Portfolio.antt =====
-- crates/domain/portfolio/src and crates/domain/paper/src/notional.rs: inventory and profit.
pub mod Notional
pub mod Inventory
pub mod Marks
pub mod Sale
pub mod Flow
pub mod Positive
pub mod Profit
mod Tests

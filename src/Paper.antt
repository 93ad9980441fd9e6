-- ===== src/Paper.antt =====
-- crates/domain/ledger/src/paper.rs: paper accounts, with cash and lots set aside for orders.
pub mod Book
pub mod Cash
pub mod Transfer
pub mod CashLaws
pub mod Holds
pub mod Contract
pub mod Solvent
pub mod Settle
pub mod Lots
pub mod LotsStep
pub mod SellFee
mod Tests
mod SettleTests

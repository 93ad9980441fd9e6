-- ===== src/Bars.antt =====
-- crates/domain/market-data/src/bar.rs: candles built from trade prints.
pub mod Bar
pub mod Aggregator
pub mod Shape
pub mod Invariant
mod Tests

-- ===== src/Instruments.antt =====
-- crates/domain/instruments/src: tick tables, lot specifications, decimals, and the master.
pub mod Grid
pub mod Bands
pub mod Lots
pub mod LotLaws
pub mod Decimal
pub mod Digits
pub mod Reading
pub mod RoundTrip
pub mod Ids
pub mod Product
pub mod Master
pub mod Index
mod Tests

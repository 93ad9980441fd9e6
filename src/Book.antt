-- ===== src/Book.antt =====
-- crates/domain/market-data/src/{book,checksum}.rs: level-two books rebuilt from snapshots.
pub mod Levels
pub mod Digest
pub mod Model
pub mod Shape
pub mod Invariant
pub mod Rebuild
pub mod Depth
mod Tests

-- ===== src/Feed.antt =====
-- crates/domain/market-data/src/: the consumer of a sequenced market-data feed.
pub mod Consumer
pub mod Contract
pub mod Steps
pub mod Refinement
pub mod Replay
mod Tests

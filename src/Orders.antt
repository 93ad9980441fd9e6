-- ===== src/Orders.antt =====
-- crates/domain/orders: the order aggregate, its state machine and the idempotent store.
pub mod Status
pub mod Aggregate
pub mod Transition
pub mod Invariant
pub mod AvgPx
pub mod Fill
pub mod Preserve
pub mod Graph
pub mod Traces
pub mod Dedupe
pub mod AvgTraces
pub mod Store
pub mod StoreInvariant
pub mod StoreLaws
pub mod StoreReach
mod Tests
mod StoreTests

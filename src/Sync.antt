-- ===== src/Sync.antt =====
-- src/sync.rs: the wire protocol between two peers.
pub mod Chunks
pub mod Scheduling
pub mod Seen
pub mod Outcomes
pub mod Materialize
pub mod Heads
pub mod Snapshot
pub mod PlanWire
mod Tests

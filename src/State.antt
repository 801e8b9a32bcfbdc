-- ===== src/State.antt =====
-- src/state.rs: the state that a peer keeps.
pub mod Queue
pub mod Remote
pub mod Store
mod Tests

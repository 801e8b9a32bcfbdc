-- ===== src/Session.antt =====
-- src/main.rs: what a session between a connector and a responder computes itself.
pub mod Transfer
pub mod Deferral
mod Tests

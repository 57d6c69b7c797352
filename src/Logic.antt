-- ===== src/Logic.antt =====
-- logic: the handshake, the two state machines and their controllers.
pub mod Base
pub mod Handshake
pub mod Client
pub mod Server
pub mod Session
pub mod Network
pub mod Reports

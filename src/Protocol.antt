-- ===== src/Protocol.antt =====
-- src/sandbox/hyperv/guest_protocol.rs: the messages exchanged between the Hyper-V host and the
-- guest agent, and the state machine that both run over the status records.
pub mod Errors
pub mod Fields
pub mod State
pub mod Status
pub mod Machine
pub mod Request
pub mod Envelope
mod Tests
mod Messages

-- ===== src/Message.antt =====
-- src/message.rs: build outbound messages and verify inbound ones.
pub mod Build
pub mod Verify
pub mod Authentic
pub mod Sound
pub mod Deliver
pub mod Sealed
pub mod Pairing

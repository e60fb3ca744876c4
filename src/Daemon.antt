-- ===== src/Daemon.antt =====
-- src/daemon.rs: the resident daemon. Its threads share the state by locks; here each handling of a
-- message, a request or a round of the pump is one step on a `Daemon`. The children model the ingest
-- path (`Ingest`), the streams of subscribers (`Stream`), what is sent (`Outgoing`), and the
-- requests (`Requests`).
pub mod State
pub mod Stream
pub mod Outgoing
pub mod Ingest
pub mod Requests
pub mod Heartbeat
pub mod Subscribe
pub mod Invariant
pub mod System

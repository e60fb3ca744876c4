-- ===== src/Store.antt =====
-- src/store.rs: the durable store. A table is the list of its rows, in the order of their `seq`, or a
-- map in the order of its primary key; the properties of each part are in its child modules.
pub mod Types
pub mod Messages
pub mod Queue
pub mod Outbox
pub mod Diagnostics
pub mod Presence
pub mod Bounds
pub mod Invariant

-- ===== src/Wire.antt =====
-- src/wire.rs: the wire types; the operations are in the child modules.
pub mod Types
pub mod Kid
pub mod Codec

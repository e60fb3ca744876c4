-- ===== src/Example.antt =====
-- Examples: concrete functions in place of the third-party crates, and the theorems at concrete
-- inputs.
pub mod Codec
pub mod Documents
pub mod Papers
pub mod Crates
pub mod World
pub mod Mail
pub mod Codes
pub mod Stores
pub mod Daemons
pub mod Clients
pub mod Commands

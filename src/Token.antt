-- ===== src/Token.antt =====
-- src/token.rs and src/authority.rs: the paste-friendly tokens of identities and authorities.
pub mod Checksum
pub mod IdentityToken
pub mod AuthorityToken

-- ===== src/Docs.antt =====
-- The other documents that the program writes as JSON: the bodies of the identity and authority
-- tokens (src/token.rs, src/authority.rs), the claims of a grant (src/grant.rs), the body of a
-- pairing hello (src/pair.rs) and of a presence beacon
-- (src/daemon.rs), the file of an identity or an authority key (src/identity.rs, src/authority.rs), and
-- the trust store (src/trust.rs).
use agent_mqtt_chat.Base.{Text, Option, ℤ, TextMap}

pub record TokenBodyV1 : Type 0 where
  pub name : Text
  pub pk : Text

pub record TokenBodyV2 : Type 0 where
  pub name : Text
  pub pk : Text
  pub kem_pk : Option Text

pub record AuthTokenBody : Type 0 where
  pub name : Text
  pub pk : Text

-- The claims that an authority asserts in a grant.
pub record GrantClaims : Type 0 where
  pub id : Text
  pub action : Text
  pub scope : Text
  pub subject : Text
  pub expiry : Text
  pub nonce : Text

-- The JSON body of a pairing hello.
pub record PairBody : Type 0 where
  pub name : Text
  pub pk : Text
  pub kem_pk : Option Text

-- The JSON body of an application presence beacon.
pub record PresenceBeacon : Type 0 where
  pub state : Text
  pub source : Text
  pub ttl_secs : ℤ
  pub seq : ℤ
  pub detail : Option Text

-- The private key file: a name and the base64url of the 32-byte seed.
pub record IdentityFile : Type 0 where
  pub name : Text
  pub seed : Text

-- The private key file of an authority.
pub record AuthorityFile : Type 0 where
  pub name : Text
  pub seed : Text

pub record KnownAgentRecord : Type 0 where
  pub pk : Text
  pub kem_pk : Option Text

-- The trust store on disk.
pub record TrustStore : Type 0 where
  pub agents : TextMap KnownAgentRecord
  pub authorities : TextMap KnownAgentRecord

-- ===== src/External.antt =====
-- What the program takes from third-party crates, as parameters: base64, hex, sha2, crc32fast,
-- serde_json, toml, ml_dsa, ml_kem, aes_gcm and time. `IsLawful` states the documented behaviour that the
-- theorems rely on. An `Instant` stands for the `time` crate's `OffsetDateTime`.
use agent_mqtt_chat.Base.{
  ℕ, ◌<◌, ◌^◌, ◌≡◌, Bytes, Text, Option, some, Result, ok, Bool, true, ℤ, ◌&&◌, ◌||◌, leb, eqb, all,
  length,
}
use agent_mqtt_chat.Wire.Types.{Wrapper, Inner, SignedGrant}
use agent_mqtt_chat.Docs.{
  TokenBodyV1, TokenBodyV2, AuthTokenBody, GrantClaims, PairBody, PresenceBeacon, IdentityFile,
  AuthorityFile, TrustStore,
}
use agent_mqtt_chat.Config.{Config}

abbrev pub Instant : Type 0
Instant = ℤ

-- A document type's `serde` implementation through `serde_json`.
pub record Json (A : Type 0) : Type 0 where
  pub encode : A → Bytes
  pub decode : Bytes → Option A

pub record Env : Type 0 where
  pub b64_encode : Bytes → Text
  pub b64_decode : Text → Option Bytes
  -- the texts of the decoders' errors
  pub b64_error : Text → Text
  pub json_error : Bytes → Text
  pub hex_encode : Bytes → Text
  pub sha256 : Bytes → Bytes
  pub crc32 : Bytes → ℕ
  pub is_utf8 : Bytes → Bool
  pub wrapper_json : Json Wrapper
  pub inner_json : Json Inner
  pub grant_json : Json SignedGrant
  pub claims_json : Json GrantClaims
  pub token_v1_json : Json TokenBodyV1
  pub token_v2_json : Json TokenBodyV2
  pub auth_token_json : Json AuthTokenBody
  pub pair_json : Json PairBody
  pub presence_json : Json PresenceBeacon
  pub identity_json : Json IdentityFile
  pub authority_json : Json AuthorityFile
  pub trust_json : Json TrustStore
  -- `toml::to_string_pretty` and `toml::from_str`, or the texts of their errors
  pub toml_encode : Config → Result Text Bytes
  pub toml_decode : Bytes → Result Text Config
  -- a signing key is its seed
  pub dsa_public_key : Bytes → Bytes
  pub dsa_sign : Bytes → Bytes → Bytes
  pub dsa_verifying_key : Bytes → Option Bytes
  pub dsa_signature : Bytes → Option Bytes
  pub dsa_verify : Bytes → Bytes → Bytes → Bool
  -- from the inputs `d` and `z`: the decapsulation and the encapsulation key
  pub kem_keypair : Bytes → Bytes → Bytes × Bytes
  pub kem_encapsulation_key : Bytes → Option Bytes
  pub kem_decapsulation_key : Bytes → Option Bytes
  pub kem_ciphertext : Bytes → Option Bytes
  -- key and randomness: ciphertext and shared secret
  pub kem_encapsulate : Bytes → Bytes → Option (Bytes × Bytes)
  pub kem_decapsulate : Bytes → Bytes → Option Bytes
  -- key, nonce, associated data, text
  pub aes_encrypt : Bytes → Bytes → Bytes → Bytes → Bytes
  pub aes_decrypt : Bytes → Bytes → Bytes → Bytes → Option Bytes
  pub parse_rfc3339 : Text → Option Instant
  pub format_rfc3339 : Instant → Option Text
  -- `(a - b).whole_seconds()`, and `a > b`
  pub seconds_between : Instant → Instant → ℤ
  pub is_after : Instant → Instant → Bool

-- What a document's JSON is parsed to is the document that was written.
abbrev pub IsRoundTrip : {A : Type 0} → Json A → Type 0
IsRoundTrip {A} j = (a : A) → j.decode (j.encode a) ≡ some a

-- The URL-safe base64 alphabet.
abbrev pub is_b64 : ℕ → Bool
is_b64 c =
    leb b'A' c && leb c b'Z'
    || leb b'a' c && leb c b'z'
    || leb b'0' c && leb c b'9'
    || eqb c b'-'
    || eqb c b'_'

-- The signature scheme accepts what it signs.
pub record SignsFor (env : Env) (seed msg : Bytes) : Type 0 where
  pub key : Bytes
  pub signature : Bytes
  pub key_decodes : env.dsa_verifying_key (env.dsa_public_key seed) ≡ some key
  pub signature_decodes : env.dsa_signature (env.dsa_sign seed msg) ≡ some signature
  pub accepts : env.dsa_verify key msg signature ≡ true

-- Encapsulation to a key of a generated pair succeeds, and the pair recovers the secret.
pub record Encapsulates (env : Env) (d z rand : Bytes) : Type 0 where
  pub ek : Bytes
  pub dk : Bytes
  pub ct : Bytes
  pub secret : Bytes
  pub ct' : Bytes
  pub ek_decodes : env.kem_encapsulation_key (env.kem_keypair d z).1 ≡ some ek
  pub dk_decodes : env.kem_decapsulation_key (env.kem_keypair d z).0 ≡ some dk
  pub encapsulates : env.kem_encapsulate ek rand ≡ some (ct, secret)
  pub ct_decodes : env.kem_ciphertext ct ≡ some ct'
  pub decapsulates : env.kem_decapsulate dk ct' ≡ some secret
  pub secret_length : length secret ≡ 32

pub record IsLawful (env : Env) : Type 0 where
  pub b64_roundtrip : (b : Bytes) → env.b64_decode (env.b64_encode b) ≡ some b
  pub b64_alphabet : (b : Bytes) → all is_b64 (env.b64_encode b) ≡ true
  pub wrapper_roundtrip : IsRoundTrip env.wrapper_json
  pub inner_roundtrip : IsRoundTrip env.inner_json
  pub grant_roundtrip : IsRoundTrip env.grant_json
  pub crc_range : (b : Bytes) → env.crc32 b < 2 ^ 32
  pub claims_roundtrip : IsRoundTrip env.claims_json
  pub token_v1_roundtrip : IsRoundTrip env.token_v1_json
  pub token_v2_roundtrip : IsRoundTrip env.token_v2_json
  pub auth_token_roundtrip : IsRoundTrip env.auth_token_json
  pub pair_roundtrip : IsRoundTrip env.pair_json
  pub presence_roundtrip : IsRoundTrip env.presence_json
  pub identity_roundtrip : IsRoundTrip env.identity_json
  pub authority_roundtrip : IsRoundTrip env.authority_json
  pub trust_roundtrip : IsRoundTrip env.trust_json
  -- what is written is read back
  pub toml_roundtrip :
      (cfg : Config) (text : Bytes) → env.toml_encode cfg ≡ ok text → env.toml_decode text ≡ ok cfg
  pub signs : (seed msg : Bytes) → SignsFor env seed msg
  pub encapsulation : (d z rand : Bytes) → Encapsulates env d z rand
  pub aes_roundtrip :
      (key nonce aad text : Bytes)
      → env.aes_decrypt key nonce aad (env.aes_encrypt key nonce aad text) ≡ some text

-- ===== src/Grant/Laws.antt =====
-- What an accepted grant proves, that a minted grant is accepted, and the round trip of its token.
use agent_mqtt_chat.Base.{
  Bytes, Text, ◌≡◌, refl, true, false, ◌++◌, text_eq, text_beq_iff, some, ok, err, all, is_visible,
  trim-visible, strip_prefix-append, arith, Option-cases, Result-cases, inl, inr, if◌then◌else◌,
}
use agent_mqtt_chat.External.{Env, IsLawful, Instant}
use agent_mqtt_chat.Errors.{grant_expired}
use agent_mqtt_chat.Docs.{GrantClaims}
use agent_mqtt_chat.Wire.Types.{SignedGrant}
use agent_mqtt_chat.Wire.Kid.{fingerprint, split_kid, validate_name, split_kid-make_kid}
use agent_mqtt_chat.Wire.Codec.{b64, unb64, unb64-b64}
use agent_mqtt_chat.Crypto.{verify, verify-sign}
use agent_mqtt_chat.Token.Checksum.{all-append, b64-is_visible}
use agent_mqtt_chat.Token.AuthorityToken
use agent_mqtt_chat.Trust.{TrustStore, authority_public_key}
use agent_mqtt_chat.Grant.{
  mint, is_expired, verify_grant, encode_token, decode_token, grant_token_prefix,
}

-- Why a grant was accepted: a known authority signed these very claim bytes.
pub record IsGranted (env : Env) (now : Instant) (trust : TrustStore) (sg : SignedGrant)
    (claims : GrantClaims) : Type 0 where
  pub authority : Text
  pub public_key : Bytes
  pub claim_bytes : Bytes
  pub signature : Bytes
  pub kid : split_kid sg.authority_kid ≡ some (authority, fingerprint env public_key)
  pub known : authority_public_key env trust authority ≡ ok public_key
  pub grant_decodes : unb64 env sg.grant ≡ ok claim_bytes
  pub sig_decodes : unb64 env sg.sig ≡ ok signature
  pub signed : verify env public_key claim_bytes signature ≡ true
  pub parsed : env.claims_json.decode claim_bytes ≡ some claims
  pub unexpired : is_expired env now claims.expiry ≡ false

-- Every grant that `verify_grant` accepts was signed, over the exact claim bytes that it carries, by
-- a key that the trust store holds for the authority of its key id, with that key's fingerprint, and
-- had not expired at the time of the check.
pub verify_grant-IsGranted :
    (env : Env) (now : Instant) (trust : TrustStore) (sg : SignedGrant) (claims : GrantClaims)
    → verify_grant env now trust sg ≡ ok claims
    → IsGranted env now trust sg claims
unfolding verify_grant
verify_grant-IsGranted env now trust sg claims h =
    elim (Option-cases (split_kid sg.authority_kid)) [
      | inl e₁ ↦ absurd (ground arith)
      | inr ((name, fp), e₁) ↦ elim (Result-cases (authority_public_key env trust name)) [
        | inr (_, e₂) ↦ absurd (ground arith)
        | inl (pk, e₂) ↦ elim (Result-cases (unb64 env sg.grant)) [
          | inr (_, e₃) ↦ absurd (ground arith)
          | inl (claim_bytes, e₃) ↦ elim (Result-cases (unb64 env sg.sig)) [
            | inr (_, e₄) ↦ absurd (ground arith)
            | inl (signature, e₄) ↦ record {
              authority = name;
              public_key = pk;
              claim_bytes = claim_bytes;
              signature = signature;
              kid = ground (arith, text_beq_iff fp (fingerprint env pk));
              known = e₂;
              grant_decodes = e₃;
              sig_decodes = e₄;
              signed = ground arith;
              parsed = ground arith;
              unexpired = ground arith;
            }
          ]
        ]
      ]
    ]

module _ (env : Env) (lawful : IsLawful env) where
  -- A grant that a known authority of a valid name mints is accepted until it expires, with the very
  -- claims that were signed.
  pub verify_grant-mint :
      (now : Instant) (trust : TrustStore) (name : Text) (seed : Bytes) (claims : GrantClaims)
      → validate_name name ≡ ok tt
      → authority_public_key env trust name ≡ ok (AuthorityToken.generate env name seed).public_key
      → verify_grant env now trust (mint env (AuthorityToken.generate env name seed) claims)
        ≡ (if is_expired env now claims.expiry then err grant_expired else ok claims)
  unfolding verify_grant mint AuthorityToken.generate
  verify_grant-mint now trust name seed claims valid known =
      let json = env.claims_json.encode claims in
      ground (
        arith,
        split_kid-make_kid env name (env.dsa_public_key seed) valid,
        text_beq_iff (fingerprint env (env.dsa_public_key seed))
            (fingerprint env (env.dsa_public_key seed)),
        unb64-b64 env lawful json,
        unb64-b64 env lawful (env.dsa_sign seed json),
        verify-sign env lawful seed json,
        lawful.claims_roundtrip claims,
      )

  -- The token of a grant is read back as the grant.
  pub decode_token-encode_token :
      (sg : SignedGrant) → decode_token env (encode_token env sg) ≡ ok sg
  unfolding decode_token encode_token
  decode_token-encode_token sg =
      let tail = b64 env (env.grant_json.encode sg) in
      let seen : all is_visible (grant_token_prefix ++ tail) ≡ true =
        all-append is_visible grant_token_prefix tail refl
          (b64-is_visible env lawful (env.grant_json.encode sg)) in
      rw
        (
          trim-visible (grant_token_prefix ++ tail) seen,
          strip_prefix-append grant_token_prefix tail,
          unb64-b64 env lawful (env.grant_json.encode sg),
        )
        (ground (arith, lawful.grant_roundtrip sg))

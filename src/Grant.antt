-- ===== src/Grant.antt =====
-- src/grant.rs: grants that a human authority signs. `now` is the time of the check.
pub mod Laws
use agent_mqtt_chat.Base.{
  Bytes, Text, lit, Bool, true, not, ◌++◌, ◌==◌, text_eq, Option, none, some, Result, ok, err,
  ok_or, map_err, reject_if, ◌>>=◌, ◌>>◌, trim, strip_prefix,
}
use agent_mqtt_chat.External.{Env, Instant}
use agent_mqtt_chat.Errors.{
  Error, RejectReason, invalid_token, invalid_grant, unknown_authority, grant_expired,
}
use agent_mqtt_chat.Docs.{GrantClaims}
use agent_mqtt_chat.Wire.Types.{SignedGrant, alg_ml_dsa_65}
use agent_mqtt_chat.Wire.Kid.{fingerprint, split_kid}
use agent_mqtt_chat.Wire.Codec.{b64, unb64}
use agent_mqtt_chat.Crypto.{verify}
use agent_mqtt_chat.Token.AuthorityToken
use agent_mqtt_chat.Token.AuthorityToken.{Authority}
use agent_mqtt_chat.Trust.{TrustStore, authority_public_key}

abbrev pub grant_token_prefix : Text
grant_token_prefix = lit "agentmsg-grant-v1."

-- Mint a signed grant: sign the claim bytes with the authority key.
unfoldable pub mint : Env → Authority → GrantClaims → SignedGrant
mint env authority claims =
    let json = env.claims_json.encode claims in
    record {
      alg = alg_ml_dsa_65;
      authority_kid = AuthorityToken.kid env authority;
      grant = b64 env json;
      sig = b64 env (AuthorityToken.sign env authority json);
    }

-- True if `expiry` is in the past, or does not parse.
unfoldable pub is_expired : Env → Instant → Text → Bool
is_expired env now expiry = elim (env.parse_rfc3339 expiry) [
  | none ↦ true
  | some t ↦ env.is_after now t
]

-- `grant::verify`: the claims, when the authority is known, its signature is valid over the exact
-- claim bytes, and the grant has not expired.
unfoldable pub verify_grant :
    Env → Instant → TrustStore → SignedGrant → Result RejectReason GrantClaims
verify_grant env now trust sg = do
  (name, fp) ← ok_or (split_kid sg.authority_kid) invalid_grant
  public_key ← map_err (λ _. unknown_authority) (authority_public_key env trust name)
  reject_if (not (fp == fingerprint env public_key)) unknown_authority
  grant_bytes ← map_err (λ _. invalid_grant) (unb64 env sg.grant)
  sig_bytes ← map_err (λ _. invalid_grant) (unb64 env sg.sig)
  reject_if (not (verify env public_key grant_bytes sig_bytes)) invalid_grant
  claims ← ok_or (env.claims_json.decode grant_bytes) invalid_grant
  reject_if (is_expired env now claims.expiry) grant_expired
  ok claims

unfoldable pub encode_token : Env → SignedGrant → Text
encode_token env sg = grant_token_prefix ++ b64 env (env.grant_json.encode sg)

unfoldable pub decode_token : Env → Text → Result Error SignedGrant
decode_token env s = do
  rest ←
      ok_or (strip_prefix grant_token_prefix (trim s))
        (invalid_token (lit "missing agentmsg-grant-v1 prefix"))
  json ← map_err (λ _. invalid_token (lit "bad base64")) (unb64 env rest)
  ok_or (env.grant_json.decode json) (invalid_token (lit "bad grant json"))

-- ===== src/Token/AuthorityToken.antt =====
-- src/authority.rs: the authority's signing key and its public token.
pub mod Laws
use agent_mqtt_chat.Base.{
  Bytes, Text, lit, Bool, [], ◌∷◌, ◌++◌, Option, none, some, Result, ok, err, ok_or, map_err, ◌>>=◌,
  ◌>>◌, trim, strip_prefix,
}
use agent_mqtt_chat.External.{Env}
use agent_mqtt_chat.Errors.{Error, invalid_token, token_corrupt, not_an_authority_token}
use agent_mqtt_chat.Docs.{AuthTokenBody}
use agent_mqtt_chat.Wire.Kid.{make_kid}
use agent_mqtt_chat.Wire.Codec.{b64, unb64}
use agent_mqtt_chat.Token.Checksum.{with_checksum, checked_body, check_pk_len}
use agent_mqtt_chat.Token.IdentityToken.{nonempty_name}

abbrev pub auth_token_prefix : Text
auth_token_prefix = lit "agentmsg-auth-v2."

-- A shareable authority public identity.
pub record AuthorityToken : Type 0 where
  pub name : Text
  pub public_key : Bytes

abbrev pub auth_body : Env → AuthorityToken → AuthTokenBody
auth_body env t = record { name = t.name; pk = b64 env t.public_key }

unfoldable pub encode : Env → AuthorityToken → Text
encode env t = auth_token_prefix ++ with_checksum env (env.auth_token_json.encode (auth_body env t))

-- The part of `decode` behind the prefix.
unfoldable pub decode_rest : Env → Text → Result Error AuthorityToken
decode_rest env rest = do
  json ← checked_body env rest
  body ← ok_or (env.auth_token_json.decode json) (token_corrupt (lit "bad json"))
  nonempty_name body.name
  public_key ← map_err (λ _. invalid_token (lit "bad key")) (unb64 env body.pk)
  check_pk_len public_key
  ok (record { name = body.name; public_key = public_key })

unfoldable pub decode : Env → Text → Result Error AuthorityToken
decode env s = do
  rest ← ok_or (strip_prefix auth_token_prefix (trim s)) not_an_authority_token
  decode_rest env rest

-- A loaded authority signing key, which is its seed.
pub record Authority : Type 0 where
  pub name : Text
  pub signing_key : Bytes
  pub public_key : Bytes

-- `Authority::generate`, with the seed that the generator gives
unfoldable pub generate : Env → Text → Bytes → Authority
generate env name seed = record {
  name = name;
  signing_key = seed;
  public_key = env.dsa_public_key seed;
}

abbrev pub kid : Env → Authority → Text
kid env a = make_kid env a.name a.public_key

abbrev pub token : Authority → AuthorityToken
token a = record { name = a.name; public_key = a.public_key }

abbrev pub sign : Env → Authority → Bytes → Bytes
sign env a msg = env.dsa_sign a.signing_key msg

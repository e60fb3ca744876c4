-- ===== src/Token/IdentityToken.antt =====
-- src/token.rs: the identity token, in its v2 form (with a checksum) and its v1 form (decoded only).
pub mod Laws
use agent_mqtt_chat.Base.{
  Bytes, Text, lit, Bool, [], ◌∷◌, ◌++◌, Option, none, some, Result, ok, err, ok_or, map_err,
  reject_if, map_option, ◌>>=◌, ◌>>◌, trim, strip_prefix,
}
use agent_mqtt_chat.External.{Env}
use agent_mqtt_chat.Errors.{Error, invalid_token, token_corrupt}
use agent_mqtt_chat.Docs.{TokenBodyV1, TokenBodyV2}
use agent_mqtt_chat.Wire.Codec.{b64, unb64}
use agent_mqtt_chat.Token.Checksum.{with_checksum, checked_body, check_pk_len}

-- v1 prefix (legacy, decode-only).
abbrev pub token_prefix_v1 : Text
token_prefix_v1 = lit "agentmsg-id-v1."

abbrev pub token_prefix_v2 : Text
token_prefix_v2 = lit "agentmsg-id-v2."

-- A shareable public identity.
pub record IdentityToken : Type 0 where
  pub name : Text
  pub public_key : Bytes
  pub kem_public_key : Option Bytes

abbrev pub token_body : Env → IdentityToken → TokenBodyV2
token_body env t = record {
  name = t.name;
  pk = b64 env t.public_key;
  kem_pk = map_option (b64 env) t.kem_public_key;
}

unfoldable pub encode : Env → IdentityToken → Text
encode env t = token_prefix_v2 ++ with_checksum env (env.token_v2_json.encode (token_body env t))

-- `name.is_empty()`
abbrev pub nonempty_name : Text → Result Error (Unit {0})
nonempty_name [] = err (invalid_token (lit "empty name"))
nonempty_name (_ ∷ _) = ok tt

unfoldable pub decode_v1 : Env → Text → Result Error IdentityToken
decode_v1 env rest = do
  json ← map_err (λ _. invalid_token (lit "bad base64")) (unb64 env rest)
  body ← ok_or (env.token_v1_json.decode json) (invalid_token (lit "bad json"))
  nonempty_name body.name
  public_key ← map_err (λ _. invalid_token (lit "bad key")) (unb64 env body.pk)
  check_pk_len public_key
  ok (record { name = body.name; public_key = public_key; kem_public_key = none })

-- The optional encapsulation key of a v2 body.
unfoldable pub decode_kem_key : Env → Option Text → Error → Result Error (Option Bytes)
decode_kem_key env none e = ok none
decode_kem_key env (some k) e = do key ← map_err (λ _. e) (unb64 env k); ok (some key)

unfoldable pub decode_v2 : Env → Text → Result Error IdentityToken
decode_v2 env rest = do
  json ← checked_body env rest
  body ← ok_or (env.token_v2_json.decode json) (token_corrupt (lit "bad json"))
  nonempty_name body.name
  public_key ← map_err (λ _. invalid_token (lit "bad key")) (unb64 env body.pk)
  check_pk_len public_key
  kem ← decode_kem_key env body.kem_pk (invalid_token (lit "bad kem key"))
  ok (record { name = body.name; public_key = public_key; kem_public_key = kem })

-- By the prefix: v2, else v1.
abbrev by_prefix : Env → Option Text → Option Text → Result Error IdentityToken
by_prefix env (some rest) _ = decode_v2 env rest
by_prefix env none (some rest) = decode_v1 env rest
by_prefix env none none = err (invalid_token (lit "missing agentmsg-id-v2/v1 prefix"))

-- Decode a token text; surrounding white space is dropped.
unfoldable pub decode : Env → Text → Result Error IdentityToken
decode env s =
    let t = trim s in
    by_prefix env (strip_prefix token_prefix_v2 t) (strip_prefix token_prefix_v1 t)

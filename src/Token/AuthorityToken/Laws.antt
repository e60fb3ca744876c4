-- ===== src/Token/AuthorityToken/Laws.antt =====
-- The round trip of authority tokens, and that identity tokens are told apart from them.
use agent_mqtt_chat.Base.{
  ◌≡◌, ◌≢◌, refl, true, [], ◌++◌, ok, err, length, all, is_visible, trim-visible, strip_prefix,
  strip_prefix-append, arith,
}
use agent_mqtt_chat.External.{Env, IsLawful}
use agent_mqtt_chat.Errors.{not_an_authority_token}
use agent_mqtt_chat.Wire.Codec.{unb64-b64}
use agent_mqtt_chat.Token.Checksum.{
  with_checksum, checked_body-with_checksum, with_checksum-visible, all-append, check_pk_len,
}
use agent_mqtt_chat.Token.IdentityToken
use agent_mqtt_chat.Token.IdentityToken.{IdentityToken, token_prefix_v2, token_body}
use agent_mqtt_chat.Token.AuthorityToken.{
  AuthorityToken, encode, decode, decode_rest, auth_body, auth_token_prefix,
}

module _ (env : Env) (lawful : IsLawful env) where
  decode_rest-with_checksum :
      (t : AuthorityToken)
      → t.name ≢ []
      → length t.public_key ≡ 1952
      → decode_rest env (with_checksum env (env.auth_token_json.encode (auth_body env t))) ≡ ok t
  unfolding decode_rest check_pk_len
  decode_rest-with_checksum t named len = ground (
    arith,
    checked_body-with_checksum env lawful (env.auth_token_json.encode (auth_body env t)),
    lawful.auth_token_roundtrip (auth_body env t),
    unb64-b64 env lawful t.public_key,
  )

  -- An authority token with a name and a key of the right length is read back as it was written.
  pub decode_authority-encode :
      (t : AuthorityToken)
      → t.name ≢ []
      → length t.public_key ≡ 1952
      → decode env (encode env t) ≡ ok t
  unfolding decode encode
  decode_authority-encode t named len =
      let tail = with_checksum env (env.auth_token_json.encode (auth_body env t)) in
      let seen : all is_visible (auth_token_prefix ++ tail) ≡ true =
        all-append is_visible auth_token_prefix tail refl
          (with_checksum-visible env lawful (env.auth_token_json.encode (auth_body env t))) in
      rw (trim-visible (auth_token_prefix ++ tail) seen, strip_prefix-append auth_token_prefix tail)
        (decode_rest-with_checksum t named len)

  -- An identity token that is pasted where an authority token is wanted is refused as such.
  pub decode_authority-encode_identity :
      (t : IdentityToken) → decode env (IdentityToken.encode env t) ≡ err not_an_authority_token
  unfolding decode IdentityToken.encode strip_prefix
  decode_authority-encode_identity t =
      let tail = with_checksum env (env.token_v2_json.encode (token_body env t)) in
      let seen : all is_visible (token_prefix_v2 ++ tail) ≡ true =
        all-append is_visible token_prefix_v2 tail refl
          (with_checksum-visible env lawful (env.token_v2_json.encode (token_body env t))) in
      rw (trim-visible (token_prefix_v2 ++ tail) seen)

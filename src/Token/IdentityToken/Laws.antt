-- ===== src/Token/IdentityToken/Laws.antt =====
-- The round trip of identity tokens, and what a decoded token satisfies.
use agent_mqtt_chat.Base.{
  Text, ◌≡◌, ◌≢◌, refl, true, [], ◌++◌, ok, length, all, is_visible, trim, trim-visible,
  strip_prefix, strip_prefix-append, arith, Option-cases, inl, inr,
}
use agent_mqtt_chat.External.{Env, IsLawful}
use agent_mqtt_chat.Wire.Codec.{unb64-b64}
use agent_mqtt_chat.Token.Checksum.{
  with_checksum, checked_body-with_checksum, with_checksum-visible, all-append, check_pk_len,
}
use agent_mqtt_chat.Token.IdentityToken.{
  IdentityToken, encode, decode, decode_v1, decode_v2, decode_kem_key, token_body, token_prefix_v2,
  token_prefix_v1,
}

-- What every decoded token has: a name, and a key of the scheme's length.
pub record IsToken (t : IdentityToken) : Type 0 where
  pub named : t.name ≢ []
  pub key_length : length t.public_key ≡ 1952

module _ (env : Env) (lawful : IsLawful env) where
  decode_v2-with_checksum :
      (t : IdentityToken)
      → IsToken t
      → decode_v2 env (with_checksum env (env.token_v2_json.encode (token_body env t))) ≡ ok t
  unfolding decode_v2 check_pk_len decode_kem_key
  decode_v2-with_checksum t h = elim (Option-cases t.kem_public_key) [
    | inl e ↦ ground (
      arith,
      checked_body-with_checksum env lawful (env.token_v2_json.encode (token_body env t)),
      lawful.token_v2_roundtrip (token_body env t),
      unb64-b64 env lawful t.public_key,
    )
    | inr (k, e) ↦ ground (
      arith,
      checked_body-with_checksum env lawful (env.token_v2_json.encode (token_body env t)),
      lawful.token_v2_roundtrip (token_body env t),
      unb64-b64 env lawful t.public_key,
      unb64-b64 env lawful k,
    )
  ]

  -- A token with a name and a key of the right length, written and read back, is the same token, also
  -- with its encapsulation key.
  pub decode-encode : (t : IdentityToken) → IsToken t → decode env (encode env t) ≡ ok t
  unfolding decode encode
  decode-encode t h =
      let tail = with_checksum env (env.token_v2_json.encode (token_body env t)) in
      let seen : all is_visible (token_prefix_v2 ++ tail) ≡ true =
        all-append is_visible token_prefix_v2 tail refl
          (with_checksum-visible env lawful (env.token_v2_json.encode (token_body env t))) in
      rw (trim-visible (token_prefix_v2 ++ tail) seen, strip_prefix-append token_prefix_v2 tail)
        (decode_v2-with_checksum t h)

decode_v1-IsToken :
    (env : Env) (rest : Text) {t : IdentityToken} → decode_v1 env rest ≡ ok t → IsToken t
unfolding decode_v1 check_pk_len
decode_v1-IsToken env rest h = ground arith

decode_v2-IsToken :
    (env : Env) (rest : Text) {t : IdentityToken} → decode_v2 env rest ≡ ok t → IsToken t
unfolding decode_v2 check_pk_len
decode_v2-IsToken env rest h = ground arith

-- Whatever text is pasted, a token that is accepted has a name and a key of the scheme's length.
pub decode-IsToken : (env : Env) (s : Text) (t : IdentityToken) → decode env s ≡ ok t → IsToken t
unfolding decode
decode-IsToken env s t h = elim (Option-cases (strip_prefix token_prefix_v2 (trim s))) [
  | inl e ↦ elim (Option-cases (strip_prefix token_prefix_v1 (trim s))) [
    | inl e' ↦ ground arith
    | inr (rest, e') ↦ decode_v1-IsToken env rest (ground arith)
  ]
  | inr (rest, e) ↦ decode_v2-IsToken env rest (ground arith)
]

-- ===== src/Message/Pairing.antt =====
-- `verify_pair` of src/message.rs: a self-signed pairing hello, checked without the trust store.
use agent_mqtt_chat.Base.{
  Bytes, Text, text_eq, text_beq_iff, ◌==◌, ◌≡◌, inl, inr, true, not, ◌||◌, Option, none, some,
  Result, ok, ok_or, map_err, reject_if, ◌>>=◌, ◌>>◌, Option-cases, Result-cases, arith,
}
use agent_mqtt_chat.External.{Env, IsLawful}
use agent_mqtt_chat.Errors.{RejectReason, malformed_wrapper, pair_self_sig_invalid}
use agent_mqtt_chat.Wire.Types.{Inner, Wrapper, alg_ml_dsa_65, ctype_pair}
use agent_mqtt_chat.Wire.Codec.{
  unb64, unb64-b64, from_bytes, to_bytes, from_bytes-to_bytes, inner_bytes, sig_bytes, parse_inner,
  parse_inner-encode,
}
use agent_mqtt_chat.Wire.Kid.{fingerprint, split_kid, validate_name, split_kid-make_kid}
use agent_mqtt_chat.Crypto.{verify, verify-sign}
use agent_mqtt_chat.Identity.{Identity, generate, from_seed, sign}
use agent_mqtt_chat.Pair.{PairHello}
use agent_mqtt_chat.Message.Build.{Fresh, build_pair, build, encrypt_inner, wrap, pair_body}

-- The optional encapsulation key of a hello.
unfoldable pub hello_kem : Env → Option Text → Result RejectReason (Option Bytes)
hello_kem env none = ok none
hello_kem env (some k) = do key ← map_err (λ _. malformed_wrapper) (unb64 env k); ok (some key)

unfoldable pub verify_pair_wrapper : Env → Wrapper → Result RejectReason PairHello
verify_pair_wrapper env w = do
  reject_if (not (w.alg == alg_ml_dsa_65)) pair_self_sig_invalid
  bytes ← inner_bytes env w
  inner ← parse_inner env bytes
  reject_if (not (inner.ctype == ctype_pair)) malformed_wrapper
  body ← ok_or (env.pair_json.decode inner.body) malformed_wrapper
  public_key ← map_err (λ _. malformed_wrapper) (unb64 env body.pk)
  sig ← sig_bytes env w
  reject_if (not (verify env public_key bytes sig)) pair_self_sig_invalid
  kid ← ok_or w.kid malformed_wrapper
  (kid_name, kid_fp) ← ok_or (split_kid kid) malformed_wrapper
  reject_if (not (kid_fp == fingerprint env public_key)) pair_self_sig_invalid
  reject_if (not (kid_name == body.name) || not (inner.from == body.name)) malformed_wrapper
  kem ← hello_kem env body.kem_pk
  ok (record { name = body.name; public_key = public_key; kem_public_key = kem })

-- Verify a self-signed pairing hello as it was received.
unfoldable pub verify_pair : Env → Bytes → Result RejectReason PairHello
verify_pair env raw = do w ← from_bytes env raw; verify_pair_wrapper env w

-- The very key that a hello advertises signed the exact bytes of the hello, and its name is that of
-- the key id and of the sender field.
pub record ProvesPossession (env : Env) (w : Wrapper) (hello : PairHello) : Type 0 where
  pub bytes : Bytes
  pub sig : Bytes
  pub inner : Inner
  pub kid : Text
  pub carries : inner_bytes env w ≡ ok bytes
  pub has_sig : sig_bytes env w ≡ ok sig
  pub signed : verify env hello.public_key bytes sig ≡ true
  pub parsed : parse_inner env bytes ≡ ok inner
  pub is_hello : inner.ctype ≡ ctype_pair
  pub has_kid : w.kid ≡ some kid
  pub kid_splits : split_kid kid ≡ some (hello.name, fingerprint env hello.public_key)
  pub sender : inner.from ≡ hello.name

verify_pair_wrapper-ProvesPossession :
    (env : Env) (w : Wrapper) (hello : PairHello)
    → verify_pair_wrapper env w ≡ ok hello
    → ProvesPossession env w hello
unfolding verify_pair_wrapper
verify_pair_wrapper-ProvesPossession env w hello h = elim (Result-cases (inner_bytes env w)) [
  | inr (_, e₁) ↦ absurd (ground arith)
  | inl (bytes, e₁) ↦ elim (Result-cases (parse_inner env bytes)) [
    | inr (_, e₂) ↦ absurd (ground arith)
    | inl (inner, e₂) ↦ elim (Option-cases (env.pair_json.decode inner.body)) [
      | inl e₃ ↦ absurd (ground arith)
      | inr (body, e₃) ↦ elim (Result-cases (sig_bytes env w)) [
        | inr (_, e₄) ↦ absurd (ground arith)
        | inl (sig, e₄) ↦ elim (Option-cases w.kid) [
          | inl e₅ ↦ absurd (ground arith)
          | inr (kid, e₅) ↦ elim (Option-cases (split_kid kid)) [
            | inl e₆ ↦ absurd (ground arith)
            | inr ((name, fp), e₆) ↦ record {
              bytes = bytes;
              sig = sig;
              inner = inner;
              kid = kid;
              carries = e₁;
              has_sig = e₄;
              signed = ground arith;
              parsed = e₂;
              is_hello = ground (arith, text_beq_iff inner.ctype ctype_pair);
              has_kid = e₅;
              kid_splits = ground (
                arith,
                text_beq_iff fp (fingerprint env hello.public_key),
                text_beq_iff name body.name,
              );
              sender = ground (arith, text_beq_iff inner.from body.name);
            }
          ]
        ]
      ]
    ]
  ]
]

-- A hello that is accepted proves possession of the key that it advertises.
pub verify_pair-ProvesPossession :
    (env : Env) (raw : Bytes) (hello : PairHello)
    → verify_pair env raw ≡ ok hello
    → (w : Wrapper) × (from_bytes env raw ≡ ok w) × ProvesPossession env w hello
unfolding verify_pair
verify_pair-ProvesPossession env raw hello h = elim (Result-cases (from_bytes env raw)) [
  | inr (_, e) ↦ absurd (ground arith)
  | inl (w, e) ↦ (w, e, verify_pair_wrapper-ProvesPossession env w hello (ground arith))
]

-- The hello of an identity.
abbrev pub hello_of : Identity → PairHello
hello_of id = record { name = id.name; public_key = id.public_key; kem_public_key = some id.kem_ek }

module _ (env : Env) (lawful : IsLawful env) where
  -- The hello that a validly named identity broadcasts is accepted by everybody, with both its keys.
  pub verify_pair-build_pair :
      (name : Text) (seed : Bytes) (fresh : Fresh) (inner : Inner) (w : Wrapper)
      → validate_name name ≡ ok tt
      → build_pair env (generate env name seed) fresh ≡ ok (inner, w)
      → verify_pair env (to_bytes env w) ≡ ok (hello_of (generate env name seed))
  unfolding verify_pair verify_pair_wrapper build_pair build encrypt_inner from_seed wrap sign
      inner_bytes sig_bytes hello_kem
  verify_pair-build_pair name seed fresh inner w valid built =
      let id = generate env name seed in
      let bytes = env.inner_json.encode inner in
      ground (
        arith,
        from_bytes-to_bytes env lawful w,
        lawful.b64_roundtrip bytes,
        lawful.b64_roundtrip (env.dsa_sign seed bytes),
        parse_inner-encode env lawful inner,
        text_beq_iff ctype_pair ctype_pair,
        lawful.pair_roundtrip (pair_body env id),
        unb64-b64 env lawful id.public_key,
        unb64-b64 env lawful id.kem_ek,
        verify-sign env lawful seed bytes,
        split_kid-make_kid env name (env.dsa_public_key seed) valid,
        text_beq_iff (fingerprint env id.public_key) (fingerprint env id.public_key),
        text_beq_iff name name,
      )

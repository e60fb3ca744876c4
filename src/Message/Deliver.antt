-- ===== src/Message/Deliver.antt =====
-- A message that is built for a recipient who trusts the sender is accepted and read as it was
-- written, in clear or sealed.
use agent_mqtt_chat.Base.{
  ◌≤◌, Bytes, Text, text_eq, text_beq_iff, ◌≡◌, refl, ap, Bool, true, false, length, none, ok, lit,
  unwrap_or, arith,
}
use agent_mqtt_chat.External.{Env, IsLawful, Instant}
use agent_mqtt_chat.Wire.Types.{Inner, Wrapper}
use agent_mqtt_chat.Wire.Codec.{
  b64, to_bytes, from_bytes-to_bytes, inner_bytes, sig_bytes, parse_inner-encode,
}
use agent_mqtt_chat.Wire.Kid.{fingerprint, validate_name, split_kid-make_kid}
use agent_mqtt_chat.Crypto.{verify-sign}
use agent_mqtt_chat.Identity.{Identity, generate, from_seed, sign}
use agent_mqtt_chat.Trust.{TrustStore, public_key}
use agent_mqtt_chat.Message.Build.{Fresh, BuildOpts, plain_inner, wrap, encrypt_inner, build}
use agent_mqtt_chat.Message.Verify.{
  Policy, version_gate, open_wrapper, open_signed, fresh_enough, decrypt_inner, check_grant,
  finalize, verify_wrapper, verify_incoming,
}

-- A message says what was asked for, from a sender, at a moment.
pub record IsWritten (env : Env) (name : Text) (fresh : Fresh) (opts : BuildOpts) (m : Inner)
    : Type 0 where
  pub id : m.id ≡ fresh.ulid
  pub v : m.v ≡ 2
  pub from : m.from ≡ name
  pub to : m.to ≡ opts.to
  pub ts : m.ts ≡ unwrap_or (env.format_rfc3339 fresh.now) (lit "1970-01-01T00:00:00Z")
  pub nonce : m.nonce ≡ b64 env fresh.nonce
  pub ctype : m.ctype ≡ opts.ctype
  pub in_reply_to : m.in_reply_to ≡ opts.in_reply_to
  pub body : m.body ≡ opts.body
  pub kind : m.kind ≡ opts.kind
  pub correlation_id : m.correlation_id ≡ opts.correlation_id
  pub supersedes : m.supersedes ≡ opts.supersedes
  pub grant : m.grant ≡ opts.grant
  pub receipt : m.receipt ≡ opts.receipt

pub plain_inner-IsWritten :
    (env : Env) (name : Text) (seed : Bytes) (fresh : Fresh) (opts : BuildOpts)
    → IsWritten env name fresh opts (plain_inner env (generate env name seed) fresh opts)
unfolding from_seed
plain_inner-IsWritten env name seed fresh opts = record {
  id = refl;
  v = refl;
  from = refl;
  to = refl;
  ts = refl;
  nonce = refl;
  ctype = refl;
  in_reply_to = refl;
  body = refl;
  kind = refl;
  correlation_id = refl;
  supersedes = refl;
  grant = refl;
  receipt = refl;
}

module _ (env : Env) (lawful : IsLawful env) where
  -- The signed wrapper of a known sender opens to the message that was signed.
  pub open_signed-wrap :
      (trust : TrustStore) (name : Text) (seed : Bytes) (inner : Inner)
      → validate_name name ≡ ok tt
      → public_key env trust name ≡ ok (env.dsa_public_key seed)
      → inner.from ≡ name
      → open_signed env trust
          (wrap env (generate env name seed) false (env.inner_json.encode inner))
        ≡ ok inner
  unfolding open_signed wrap from_seed sign inner_bytes sig_bytes
  open_signed-wrap trust name seed inner valid known from =
      let bytes = env.inner_json.encode inner in
      ground (
        arith,
        split_kid-make_kid env name (env.dsa_public_key seed) valid,
        text_beq_iff (fingerprint env (env.dsa_public_key seed))
            (fingerprint env (env.dsa_public_key seed)),
        text_beq_iff inner.from name,
        lawful.b64_roundtrip bytes,
        lawful.b64_roundtrip (env.dsa_sign seed bytes),
        verify-sign env lawful seed bytes,
        parse_inner-encode env lawful inner,
      )

  open_wrapper-wrap :
      (trust : TrustStore) (allow : Bool) (name : Text) (seed : Bytes) (inner : Inner)
      → validate_name name ≡ ok tt
      → public_key env trust name ≡ ok (env.dsa_public_key seed)
      → inner.from ≡ name
      → open_wrapper env trust allow
          (wrap env (generate env name seed) false (env.inner_json.encode inner))
        ≡ ok inner
  unfolding open_wrapper wrap
  open_wrapper-wrap trust allow name seed inner valid known from =
      open_signed-wrap trust name seed inner valid known from

  -- The pipeline on a signed wrapper of a known sender is its last stage on the message.
  pub verify_incoming-wrap :
      (me : Identity) (now : Instant) (trust : TrustStore) (policy : Policy) (name : Text)
      (seed : Bytes) (inner opened : Inner)
      → validate_name name ≡ ok tt
      → public_key env trust name ≡ ok (env.dsa_public_key seed)
      → inner.from ≡ name
      → finalize env me now trust policy inner ≡ ok opened
      → verify_incoming env me now trust policy
          (to_bytes env (wrap env (generate env name seed) false (env.inner_json.encode inner)))
        ≡ ok opened
  unfolding verify_incoming verify_wrapper
  verify_incoming-wrap me now trust policy name seed inner opened valid known from done =
      let w = wrap env (generate env name seed) false (env.inner_json.encode inner) in
      let version : version_gate policy.accept_v1 w.v ≡ ok tt = unfold wrap version_gate in refl in
      ground (
        arith,
        from_bytes-to_bytes env lawful w,
        version,
        open_wrapper-wrap trust policy.allow_unsigned name seed inner valid known from,
      )

  finalize-clear :
      (me : Identity) (now : Instant) (trust : TrustStore) (policy : Policy) (inner : Inner)
      → inner.enc ≡ none
      → length inner.body ≤ policy.max_payload
      → fresh_enough env now inner.ts policy.freshness_secs ≡ true
      → check_grant env now trust inner.grant inner.from ≡ ok tt
      → finalize env me now trust policy inner ≡ ok inner
  unfolding finalize decrypt_inner
  finalize-clear me now trust policy inner clear fits recent granted = ground arith

  -- A cleartext message that a validly named sender builds and signs is accepted by everyone who
  -- trusts the sender's key, with every field as it was asked for, if its body fits, its timestamp is
  -- fresh, and the grant that it carries, if any, is valid for the sender.
  pub verify_incoming-build :
      (me : Identity) (now : Instant) (trust : TrustStore) (policy : Policy) (name : Text)
      (seed : Bytes) (fresh : Fresh) (opts : BuildOpts) (inner : Inner) (w : Wrapper)
      → build env (generate env name seed) fresh opts ≡ ok (inner, w)
      → opts.encrypt_to ≡ none
      → opts.unsigned ≡ false
      → validate_name name ≡ ok tt
      → public_key env trust name ≡ ok (env.dsa_public_key seed)
      → length opts.body ≤ policy.max_payload
      → fresh_enough env now inner.ts policy.freshness_secs ≡ true
      → check_grant env now trust opts.grant name ≡ ok tt
      → IsWritten env name fresh opts inner
        × (verify_incoming env me now trust policy (to_bytes env w) ≡ ok inner)
  unfolding build encrypt_inner from_seed
  verify_incoming-build me now trust policy name seed fresh opts inner w built clear signed valid
        known fits recent granted =
      let id = generate env name seed in
      let same : inner ≡ plain_inner env id fresh opts = ground arith in
      let wrapped : w ≡ wrap env id false (env.inner_json.encode inner) = ground arith in
      let body : inner.body ≡ opts.body = ap (λ (m : Inner). m.body) same in
      let from : inner.from ≡ name = ap (λ (m : Inner). m.from) same in
      let grant : inner.grant ≡ opts.grant = ap (λ (m : Inner). m.grant) same in
      let last : finalize env me now trust policy inner ≡ ok inner =
        finalize-clear me now trust policy inner (ap (λ (m : Inner). m.enc) same) (rw body fits)
          recent (rw (grant, from) granted) in
      (
        rw same (plain_inner-IsWritten env name seed fresh opts),
        rw wrapped
            (verify_incoming-wrap me now trust policy name seed inner inner valid known from last),
      )

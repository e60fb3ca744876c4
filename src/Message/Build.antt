-- ===== src/Message/Build.antt =====
-- `BuildOpts`, `build`, `aad` and `build_pair` of src/message.rs. `Fresh` holds what one call takes
-- from the clock and the random generator.
use agent_mqtt_chat.Base.{
  Bytes, Text, lit, Bool, true, false, ◌&&◌, ◌==◌, text_eq, ◌++◌, ◌∷◌, Option, none, some, Result,
  ok, ok_or, reject_if, ◌>>=◌, ◌>>◌, is_some, unwrap_or,
}
use agent_mqtt_chat.External.{Env, Instant}
use agent_mqtt_chat.Errors.{RejectReason, enc_broadcast_unsupported, unknown_recipient_key}
use agent_mqtt_chat.Docs.{PairBody}
use agent_mqtt_chat.Wire.Types.{
  Inner, Wrapper, SignedGrant, Receipt, MsgKind, message, broadcast, ctype_pair, protocol_version,
  alg_none, alg_ml_dsa_65, alg_kem_aead,
}
use agent_mqtt_chat.Wire.Codec.{b64}
use agent_mqtt_chat.Wire.Kid.{make_kid}
use agent_mqtt_chat.Crypto.{encapsulate, seal, kem_fingerprint}
use agent_mqtt_chat.Identity.{Identity, sign}

-- Options describing the message to build.
pub record BuildOpts : Type 0 where
  pub to : Text
  pub ctype : Text
  pub body : Text
  pub kind : MsgKind
  pub in_reply_to : Option Text
  pub correlation_id : Option Text
  pub supersedes : Option Text
  pub grant : Option SignedGrant
  pub receipt : Option Receipt
  pub encrypt_to : Option Bytes
  pub unsigned : Bool

-- `BuildOpts::new`: a minimal cleartext, signed message.
abbrev pub new_opts : Text → Text → Text → BuildOpts
new_opts to ctype body = record {
  to = to;
  ctype = ctype;
  body = body;
  kind = message;
  in_reply_to = none;
  correlation_id = none;
  supersedes = none;
  grant = none;
  receipt = none;
  encrypt_to = none;
  unsigned = false;
}

pub record Fresh : Type 0 where
  pub now : Instant
  pub ulid : Text
  pub nonce : Bytes
  pub aead_nonce : Bytes
  pub kem_rand : Bytes

-- The inner message before encryption.
abbrev pub plain_inner : Env → Identity → Fresh → BuildOpts → Inner
plain_inner env id fresh opts = record {
  id = fresh.ulid;
  v = protocol_version;
  from = id.name;
  to = opts.to;
  ts = unwrap_or (env.format_rfc3339 fresh.now) (lit "1970-01-01T00:00:00Z");
  nonce = b64 env fresh.nonce;
  ctype = opts.ctype;
  in_reply_to = opts.in_reply_to;
  body = opts.body;
  kind = opts.kind;
  correlation_id = opts.correlation_id;
  supersedes = opts.supersedes;
  enc = none;
  grant = opts.grant;
  receipt = opts.receipt;
}

-- The associated data that binds a ciphertext to its envelope.
unfoldable pub aad : Inner → Text
aad inner = inner.id ++ b'|' ∷ (inner.from ++ b'|' ∷ (inner.to ++ b'|' ∷ inner.ts))

-- Seal the body to the recipient's key, when there is one.
unfoldable pub encrypt_inner : Env → Fresh → Option Bytes → Text → Inner → Result RejectReason Inner
encrypt_inner env fresh none ctype inner = ok inner
encrypt_inner env fresh (some ek) ctype inner = do
  (kem_ct, ss) ← ok_or (encapsulate env fresh.kem_rand ek) unknown_recipient_key
  ok (record inner {
    enc = some (record {
      alg = alg_kem_aead;
      kem_ct = b64 env kem_ct;
      recipient_kid = kem_fingerprint env ek;
      nonce = b64 env fresh.aead_nonce;
      ptype = ctype;
    });
    ctype = alg_kem_aead;
    body = b64 env (seal env ss fresh.aead_nonce (aad inner) inner.body);
  })

-- The wrapper around the exact inner bytes.
unfoldable pub wrap : Env → Identity → Bool → Bytes → Wrapper
wrap env id true bytes = record {
  v = protocol_version;
  alg = alg_none;
  kid = none;
  msg = b64 env bytes;
  sig = none;
}
wrap env id false bytes = record {
  v = protocol_version;
  alg = alg_ml_dsa_65;
  kid = some (make_kid env id.name id.public_key);
  msg = b64 env bytes;
  sig = some (b64 env (sign env id bytes));
}

unfoldable pub build : Env → Identity → Fresh → BuildOpts → Result RejectReason (Inner × Wrapper)
build env id fresh opts = do
  reject_if (is_some opts.encrypt_to && opts.to == broadcast) enc_broadcast_unsupported
  inner ← encrypt_inner env fresh opts.encrypt_to opts.ctype (plain_inner env id fresh opts)
  ok (inner, wrap env id opts.unsigned (env.inner_json.encode inner))

-- The body of a pairing hello: the sender's own keys.
abbrev pub pair_body : Env → Identity → PairBody
pair_body env id = record {
  name = id.name;
  pk = b64 env id.public_key;
  kem_pk = some (b64 env id.kem_ek);
}

-- A self-signed pairing hello, which is broadcast.
unfoldable pub build_pair : Env → Identity → Fresh → Result RejectReason (Inner × Wrapper)
build_pair env id fresh =
    build env id fresh (new_opts broadcast ctype_pair (env.pair_json.encode (pair_body env id)))

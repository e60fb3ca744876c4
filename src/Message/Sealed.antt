-- ===== src/Message/Sealed.antt =====
-- A sealed message is opened by its recipient to the text that was sealed.
use agent_mqtt_chat.Base.{
  ◌≤◌, Bytes, Text, text_eq, text_beq_iff, ◌≡◌, ◌∙◌, refl, true, false, length, Option, none, some,
  ok, err, arith, is_some,
}
use agent_mqtt_chat.External.{Env, IsLawful, Instant}
use agent_mqtt_chat.Errors.{enc_broadcast_unsupported}
use agent_mqtt_chat.Wire.Types.{Inner, Wrapper, broadcast, alg_kem_aead}
use agent_mqtt_chat.Wire.Codec.{b64, to_bytes, unb64-b64}
use agent_mqtt_chat.Wire.Kid.{validate_name}
use agent_mqtt_chat.Crypto.{decapsulate-encapsulate, derive_from_seed, seal, kem_fingerprint}
use agent_mqtt_chat.Identity.{Identity, generate, from_seed}
use agent_mqtt_chat.Trust.{TrustStore, public_key}
use agent_mqtt_chat.Message.Build.{Fresh, BuildOpts, plain_inner, aad, wrap, encrypt_inner, build}
use agent_mqtt_chat.Message.Verify.{
  Policy, fresh_enough, decrypt_inner, open_body, check_grant, finalize, verify_incoming,
}
use agent_mqtt_chat.Message.Deliver.{IsWritten, plain_inner-IsWritten, verify_incoming-wrap}

module _ (env : Env) (lawful : IsLawful env) where
  -- What `encrypt_inner` seals to a derived key, the identity of that key opens again.
  decrypt_inner-encrypt_inner :
      (my_name : Text) (my_seed : Bytes) (fresh : Fresh) (ctype : Text) (plain inner : Inner)
      → length fresh.aead_nonce ≡ 12
      → env.is_utf8 plain.body ≡ true
      → plain.ctype ≡ ctype
      → encrypt_inner env fresh (some (generate env my_name my_seed).kem_ek) ctype plain ≡ ok inner
      → decrypt_inner env (generate env my_name my_seed) inner.enc inner
        ≡ ok (record inner { body = plain.body; ctype = plain.ctype })
  unfolding encrypt_inner decrypt_inner open_body from_seed aad
  decrypt_inner-encrypt_inner my_name my_seed fresh ctype plain inner nonce_length utf8 same_ctype
        e =
      let (ct, ss, seals, opens) = decapsulate-encapsulate env lawful my_seed fresh.kem_rand in
      let kid = kem_fingerprint env (derive_from_seed env my_seed).1 in
      let sealed = seal env ss fresh.aead_nonce (aad plain) plain.body in
      let given : inner ≡ record plain {
        enc = some (record {
          alg = alg_kem_aead;
          kem_ct = b64 env ct;
          recipient_kid = kid;
          nonce = b64 env fresh.aead_nonce;
          ptype = ctype;
        });
        ctype = alg_kem_aead;
        body = b64 env sealed;
      } =
        ground (arith, seals) in
      rw given (
        ground (
          arith,
          same_ctype,
          opens,
          text_beq_iff kid kid,
          unb64-b64 env lawful ct,
          unb64-b64 env lawful fresh.aead_nonce,
          unb64-b64 env lawful sealed,
          lawful.aes_roundtrip ss fresh.aead_nonce (aad plain) plain.body,
        ))

  name_of : (name : Text) (seed : Bytes) → (generate env name seed).name ≡ name
  unfolding from_seed
  name_of name seed = refl

  encrypt_inner-envelope :
      (fresh : Fresh) (ek : Option Bytes) (ctype : Text) (plain inner : Inner)
      → encrypt_inner env fresh ek ctype plain ≡ ok inner
      → (inner.from ≡ plain.from) × (inner.grant ≡ plain.grant)
  unfolding encrypt_inner
  encrypt_inner-envelope fresh none ctype plain inner h = ground arith
  encrypt_inner-envelope fresh (some ek) ctype plain inner h = ground arith

  encrypt_inner-kept :
      (fresh : Fresh) (ek : Option Bytes) (ctype : Text) (plain inner : Inner)
      → encrypt_inner env fresh ek ctype plain ≡ ok inner
      → record inner { enc = plain.enc; ctype = plain.ctype; body = plain.body } ≡ plain
  unfolding encrypt_inner
  encrypt_inner-kept fresh none ctype plain inner h = ground arith
  encrypt_inner-kept fresh (some ek) ctype plain inner h = ground arith

  -- Once its body is opened, a sealed message says what the plain one says.
  opened-IsWritten :
      (name : Text) (fresh : Fresh) (opts : BuildOpts) (plain inner : Inner)
      → record inner { enc = plain.enc; ctype = plain.ctype; body = plain.body } ≡ plain
      → IsWritten env name fresh opts plain
      → IsWritten env name fresh opts (record inner { body = opts.body; ctype = opts.ctype })
  opened-IsWritten name fresh opts plain inner e h =
      let written : IsWritten env name fresh opts
          (record inner { enc = plain.enc; ctype = plain.ctype; body = plain.body }) =
        rw e h in
      record {
        id = written.id;
        v = written.v;
        from = written.from;
        to = written.to;
        ts = written.ts;
        nonce = written.nonce;
        ctype = refl;
        in_reply_to = written.in_reply_to;
        body = refl;
        kind = written.kind;
        correlation_id = written.correlation_id;
        supersedes = written.supersedes;
        grant = written.grant;
        receipt = written.receipt;
      }

  finalize-sealed :
      (me : Identity) (now : Instant) (trust : TrustStore) (policy : Policy) (inner opened : Inner)
      → decrypt_inner env me inner.enc inner ≡ ok opened
      → length inner.body ≤ policy.max_payload
      → fresh_enough env now inner.ts policy.freshness_secs ≡ true
      → check_grant env now trust opened.grant opened.from ≡ ok tt
      → finalize env me now trust policy inner ≡ ok opened
  unfolding finalize
  finalize-sealed me now trust policy inner opened opens fits recent granted = ground arith

  -- A message that a validly named sender seals to the key of a recipient and signs is accepted by
  -- that recipient, who trusts the sender's key, with every field as it was asked for, the text and
  -- the content type included, if the text is UTF-8, the nonce has 12 bytes, the sealed body fits, the timestamp is fresh, and the grant that it carries, if any,
  -- is valid for the sender.
  pub verify_incoming-build_sealed :
      (my_name : Text) (my_seed : Bytes) (now : Instant) (trust : TrustStore) (policy : Policy)
      (name : Text) (seed : Bytes) (fresh : Fresh) (opts : BuildOpts) (inner : Inner) (w : Wrapper)
      → build env (generate env name seed) fresh opts ≡ ok (inner, w)
      → opts.encrypt_to ≡ some (generate env my_name my_seed).kem_ek
      → opts.unsigned ≡ false
      → length fresh.aead_nonce ≡ 12
      → env.is_utf8 opts.body ≡ true
      → validate_name name ≡ ok tt
      → public_key env trust name ≡ ok (env.dsa_public_key seed)
      → length inner.body ≤ policy.max_payload
      → fresh_enough env now inner.ts policy.freshness_secs ≡ true
      → check_grant env now trust opts.grant name ≡ ok tt
      → (opened : Inner) × IsWritten env name fresh opts opened
        × (verify_incoming env (generate env my_name my_seed) now trust policy (to_bytes env w)
            ≡ ok opened)
  unfolding build
  verify_incoming-build_sealed my_name my_seed now trust policy name seed fresh opts inner w built
        to_me signed nonce_length utf8 valid known fits recent granted =
      let id = generate env name seed in
      let plain = plain_inner env id fresh opts in
      let sealed : encrypt_inner env fresh (some (generate env my_name my_seed).kem_ek) opts.ctype
            plain
          ≡ ok inner =
        ground (arith, to_me) in
      let wrapped : w ≡ wrap env id false (env.inner_json.encode inner) = ground arith in
      let opens =
        decrypt_inner-encrypt_inner my_name my_seed fresh opts.ctype plain inner nonce_length utf8
          refl sealed in
      let (from, grant) = encrypt_inner-envelope fresh _ opts.ctype plain inner sealed in
      (
        record inner { body = opts.body; ctype = opts.ctype },
        opened-IsWritten name fresh opts plain inner
            (encrypt_inner-kept fresh _ opts.ctype plain inner sealed)
            (plain_inner-IsWritten env name seed fresh opts),
        rw wrapped (
            verify_incoming-wrap env lawful (generate env my_name my_seed) now trust policy name
              seed inner (record inner { body = opts.body; ctype = opts.ctype }) valid known
              (from ∙ name_of name seed)
              (finalize-sealed _ now trust policy inner _ opens fits recent
                (rw (grant, from ∙ name_of name seed) granted))),
      )

-- A sealed broadcast is refused, whatever else is asked for.
pub build_sealed_broadcast :
    (env : Env) (id : Identity) (fresh : Fresh) (opts : BuildOpts)
    → is_some opts.encrypt_to ≡ true
    → opts.to ≡ broadcast
    → build env id fresh opts ≡ err enc_broadcast_unsupported
unfolding build
build_sealed_broadcast env id fresh opts h e = ground (arith, text_beq_iff opts.to broadcast)

-- ===== src/Message/Verify.antt =====
-- `verify_incoming`, `finalize`, `fresh_enough` and `verify_pair` of src/message.rs. The source turns
-- each reason into a `RejectInfo` by the same closure, which is applied here once, at the end.
use agent_mqtt_chat.Base.{
  ℕ, Bytes, Text, ℤ, pos, leb_ℤ, abs, ltb, eqb, length, Bool, true, false, not, ◌==◌, text_eq,
  Option, none, some, Result, ok, err, ok_or, map_err, reject_if, ◌>>=◌, ◌>>◌, is_ok, map_option,
  and_then, if◌then◌else◌,
}
use agent_mqtt_chat.External.{Env, Instant}
use agent_mqtt_chat.Errors.{
  RejectReason, RejectInfo, unattributed, malformed_wrapper, unsupported_version, unsupported_alg,
  unknown_signer, kid_mismatch, invalid_signature, stale, too_large, unsigned_not_allowed,
  downgrade_rejected, grant_subject_mismatch, decrypt_failed, unknown_recipient_key,
}
use agent_mqtt_chat.Wire.Types.{
  Inner, Wrapper, EncInfo, SignedGrant, protocol_version, alg_none, alg_ml_dsa_65,
}
use agent_mqtt_chat.Wire.Codec.{unb64, from_bytes, inner_bytes, sig_bytes, parse_inner}
use agent_mqtt_chat.Wire.Kid.{fingerprint, split_kid}
use agent_mqtt_chat.Crypto.{verify, decapsulate, open_sealed, array_of_length}
use agent_mqtt_chat.Identity.{Identity, my_kem_fingerprint}
use agent_mqtt_chat.Trust.{TrustStore, public_key}
use agent_mqtt_chat.Grant.{verify_grant}
use agent_mqtt_chat.Message.Build.{aad}

-- The receiver's policy: the four configuration values that `verify_incoming` takes.
pub record Policy : Type 0 where
  pub freshness_secs : ℤ
  pub max_payload : ℕ
  pub allow_unsigned : Bool
  pub accept_v1 : Bool

-- The sender that the wrapper's `kid` claims.
unfoldable pub claimed_sender : Wrapper → Option Text
claimed_sender w = map_option (λ (p : Text × Text). p.0) (and_then w.kid split_kid)

abbrev pub attributed : Wrapper → RejectReason → RejectInfo
attributed w reason = record { reason = reason; claimed_sender = claimed_sender w }

-- v1 only if it is accepted; above the protocol's version nothing.
unfoldable pub version_gate : Bool → ℕ → Result RejectReason (Unit {0})
version_gate accept_v1 v =
    if eqb v 1
    then reject_if (not accept_v1) (unsupported_version 1)
    else reject_if (not (eqb v protocol_version)) (unsupported_version v)

-- The unsigned path, with its protection against a downgrade.
unfoldable pub open_unsigned : Env → TrustStore → Bool → Wrapper → Result RejectReason Inner
open_unsigned env trust allow_unsigned w = do
  reject_if (not allow_unsigned) unsigned_not_allowed
  bytes ← inner_bytes env w
  inner ← parse_inner env bytes
  reject_if (is_ok (public_key env trust inner.from)) downgrade_rejected
  ok inner

-- The signed path.
unfoldable pub open_signed : Env → TrustStore → Wrapper → Result RejectReason Inner
open_signed env trust w = do
  kid ← ok_or w.kid malformed_wrapper
  (kid_name, kid_fp) ← ok_or (split_kid kid) malformed_wrapper
  pk ← map_err (λ _. unknown_signer) (public_key env trust kid_name)
  reject_if (not (kid_fp == fingerprint env pk)) kid_mismatch
  bytes ← inner_bytes env w
  sig ← sig_bytes env w
  reject_if (not (verify env pk bytes sig)) invalid_signature
  inner ← parse_inner env bytes
  reject_if (not (inner.from == kid_name)) kid_mismatch
  ok inner

-- The algorithm gate.
unfoldable pub open_wrapper : Env → TrustStore → Bool → Wrapper → Result RejectReason Inner
open_wrapper env trust allow_unsigned w =
    if w.alg == alg_none
    then open_unsigned env trust allow_unsigned w
    else if w.alg == alg_ml_dsa_65
    then open_signed env trust w
    else err (unsupported_alg w.alg)

-- True if `ts` is within `freshness_secs` of now.
unfoldable pub fresh_enough : Env → Instant → Text → ℤ → Bool
fresh_enough env now ts freshness_secs =
    if leb_ℤ freshness_secs (pos 0) then true else elim (env.parse_rfc3339 ts) [
      | none ↦ false
      | some t ↦ leb_ℤ (abs (env.seconds_between now t)) freshness_secs
    ]

-- The plain text of a sealed body, with its content type.
unfoldable pub open_body : Env → Identity → Inner → EncInfo → Result RejectReason Inner
open_body env me inner enc = do
  reject_if (not (enc.recipient_kid == my_kem_fingerprint env me)) unknown_recipient_key
  kem_ct ← map_err (λ _. decrypt_failed) (unb64 env enc.kem_ct)
  ss ← ok_or (decapsulate env me.kem_dk kem_ct) decrypt_failed
  nonce_bytes ← map_err (λ _. decrypt_failed) (unb64 env enc.nonce)
  nonce ← ok_or (array_of_length 12 nonce_bytes) decrypt_failed
  ct ← map_err (λ _. decrypt_failed) (unb64 env inner.body)
  pt ← ok_or (open_sealed env ss nonce (aad inner) ct) decrypt_failed
  reject_if (not (env.is_utf8 pt)) decrypt_failed
  ok (record inner { body = pt; ctype = enc.ptype })

unfoldable pub decrypt_inner : Env → Identity → Option EncInfo → Inner → Result RejectReason Inner
decrypt_inner env me none inner = ok inner
decrypt_inner env me (some enc) inner = open_body env me inner enc

-- The grant's subject must be the sender.
unfoldable pub check_grant :
    Env → Instant → TrustStore → Option SignedGrant → Text → Result RejectReason (Unit {0})
check_grant env now trust none from = ok tt
check_grant env now trust (some sg) from = do
  claims ← verify_grant env now trust sg
  reject_if (not (claims.subject == from)) grant_subject_mismatch

-- Size, freshness, decryption, grant.
unfoldable pub finalize :
    Env → Identity → Instant → TrustStore → Policy → Inner → Result RejectReason Inner
finalize env me now trust policy inner = do
  reject_if (ltb policy.max_payload (length inner.body)) too_large
  reject_if (not (fresh_enough env now inner.ts policy.freshness_secs)) stale
  opened ← decrypt_inner env me inner.enc inner
  check_grant env now trust opened.grant opened.from
  ok opened

unfoldable pub verify_wrapper :
    Env → Identity → Instant → TrustStore → Policy → Wrapper → Result RejectReason Inner
verify_wrapper env me now trust policy w = do
  version_gate policy.accept_v1 w.v
  inner ← open_wrapper env trust policy.allow_unsigned w
  finalize env me now trust policy inner

-- Verify a wrapper received on the wire: the decoded (and decrypted) inner message, or the reason
-- with the claimed sender.
unfoldable pub verify_incoming :
    Env → Identity → Instant → TrustStore → Policy → Bytes → Result RejectInfo Inner
verify_incoming env me now trust policy raw = do
  w ← map_err unattributed (from_bytes env raw)
  map_err (attributed w) (verify_wrapper env me now trust policy w)

-- ===== src/Message/Authentic.antt =====
-- How an opened wrapper of src/message.rs is authenticated: by the sender's trusted key, or, where
-- that is allowed, not at all.
use agent_mqtt_chat.Base.{
  Bytes, Text, text_eq, text_beq_iff, ◌==◌, ◌≡◌, ◌⊎◌, inl, inr, Bool, true, false, some, ok, is_ok,
  Option-cases, Result-cases, Bool-cases, arith,
}
use agent_mqtt_chat.External.{Env}
use agent_mqtt_chat.Wire.Types.{Inner, Wrapper, alg_none, alg_ml_dsa_65}
use agent_mqtt_chat.Wire.Codec.{inner_bytes, sig_bytes, parse_inner}
use agent_mqtt_chat.Wire.Kid.{fingerprint, split_kid}
use agent_mqtt_chat.Crypto.{verify}
use agent_mqtt_chat.Trust.{TrustStore, public_key}
use agent_mqtt_chat.Message.Verify.{open_unsigned, open_signed, open_wrapper}

-- The sender's trusted key signed the exact bytes from which the message was parsed.
pub record IsSigned (env : Env) (trust : TrustStore) (w : Wrapper) (inner : Inner) : Type 0 where
  pub key : Bytes
  pub bytes : Bytes
  pub sig : Bytes
  pub kid : Text
  pub has_kid : w.kid ≡ some kid
  pub kid_splits : split_kid kid ≡ some (inner.from, fingerprint env key)
  pub trusted : public_key env trust inner.from ≡ ok key
  pub carries : inner_bytes env w ≡ ok bytes
  pub has_sig : sig_bytes env w ≡ ok sig
  pub signed : verify env key bytes sig ≡ true
  pub parsed : parse_inner env bytes ≡ ok inner

-- The receiver allows unsigned messages, and knows no key of the claimed sender.
pub record IsUnsigned (env : Env) (trust : TrustStore) (allow_unsigned : Bool) (w : Wrapper)
    (inner : Inner) : Type 0 where
  pub allowed : allow_unsigned ≡ true
  pub unknown_sender : is_ok (public_key env trust inner.from) ≡ false
  pub algorithm : w.alg ≡ alg_none

open_unsigned-IsUnsigned :
    (env : Env) (trust : TrustStore) (allow : Bool) (w : Wrapper) (inner : Inner)
    → w.alg ≡ alg_none
    → open_unsigned env trust allow w ≡ ok inner
    → IsUnsigned env trust allow w inner
unfolding open_unsigned
open_unsigned-IsUnsigned env trust allow w inner alg h = record {
  allowed = ground arith;
  unknown_sender = ground arith;
  algorithm = alg;
}

open_signed-IsSigned :
    (env : Env) (trust : TrustStore) (w : Wrapper) (inner : Inner)
    → open_signed env trust w ≡ ok inner
    → IsSigned env trust w inner
unfolding open_signed
open_signed-IsSigned env trust w inner h = elim (Option-cases w.kid) [
  | inl e₁ ↦ absurd (ground arith)
  | inr (kid, e₁) ↦ elim (Option-cases (split_kid kid)) [
    | inl e₂ ↦ absurd (ground arith)
    | inr ((name, fp), e₂) ↦ elim (Result-cases (public_key env trust name)) [
      | inr (_, e₃) ↦ absurd (ground arith)
      | inl (pk, e₃) ↦ elim (Result-cases (inner_bytes env w)) [
        | inr (_, e₄) ↦ absurd (ground arith)
        | inl (bytes, e₄) ↦ elim (Result-cases (sig_bytes env w)) [
          | inr (_, e₅) ↦ absurd (ground arith)
          | inl (sig, e₅) ↦
              let same : inner.from ≡ name = ground (arith, text_beq_iff inner.from name) in
              record {
                key = pk;
                bytes = bytes;
                sig = sig;
                kid = kid;
                has_kid = e₁;
                kid_splits = ground (arith, same, text_beq_iff fp (fingerprint env pk));
                trusted = rw same e₃;
                carries = e₄;
                has_sig = e₅;
                signed = ground arith;
                parsed = ground arith;
              }
        ]
      ]
    ]
  ]
]

-- The two ways for a wrapper to be opened.
abbrev pub IsAuthentic : Env → TrustStore → Bool → Wrapper → Inner → Type 0
IsAuthentic env trust allow w inner =
    IsSigned env trust w inner ⊎ IsUnsigned env trust allow w inner

pub open_wrapper-IsAuthentic :
    (env : Env) (trust : TrustStore) (allow : Bool) (w : Wrapper) (inner : Inner)
    → open_wrapper env trust allow w ≡ ok inner
    → IsAuthentic env trust allow w inner
unfolding open_wrapper
open_wrapper-IsAuthentic env trust allow w inner h = elim (Bool-cases (w.alg == alg_none)) [
  | inl e ↦
      inr (open_unsigned-IsUnsigned env trust allow w inner ((text_beq_iff _ _).0 e) (rw e at h))
  | inr e ↦ elim (Bool-cases (w.alg == alg_ml_dsa_65)) [
    | inl e' ↦ inl (open_signed-IsSigned env trust w inner (rw (e, e') at h))
    | inr e' ↦ absurd (ground arith)
  ]
]

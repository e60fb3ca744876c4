-- ===== src/Message/Sound.antt =====
-- What an accepted inbound message has passed: the properties of `verify_incoming`.
use agent_mqtt_chat.Base.{
  ℕ, ℤ, pos, leb_ℤ, abs, ◌≤ℤ◌, ◌≤◌, Bytes, Text, text_eq, text_beq_iff, ◌≡◌, ◌⊎◌, inl, inr, Bool,
  true, length, Option, none, some, ok, Option-cases, Result-cases, Bool-cases, arith,
}
use agent_mqtt_chat.External.{Env, Instant}
use agent_mqtt_chat.Docs.{GrantClaims}
use agent_mqtt_chat.Wire.Types.{Inner, Wrapper, EncInfo, SignedGrant}
use agent_mqtt_chat.Wire.Codec.{unb64, from_bytes}
use agent_mqtt_chat.Crypto.{decapsulate, open_sealed}
use agent_mqtt_chat.Identity.{Identity, my_kem_fingerprint}
use agent_mqtt_chat.Trust.{TrustStore}
use agent_mqtt_chat.Grant.{verify_grant}
use agent_mqtt_chat.Grant.Laws.{IsGranted, verify_grant-IsGranted}
use agent_mqtt_chat.Message.Build.{aad}
use agent_mqtt_chat.Message.Verify.{
  Policy, version_gate, open_wrapper, fresh_enough, open_body, decrypt_inner, check_grant, finalize,
  verify_wrapper, verify_incoming,
}
use agent_mqtt_chat.Message.Authentic.{IsAuthentic, open_wrapper-IsAuthentic}

-- Decryption changes nothing but the body and its content type.
pub record SameEnvelope (a b : Inner) : Type 0 where
  pub id : a.id ≡ b.id
  pub v : a.v ≡ b.v
  pub nonce : a.nonce ≡ b.nonce
  pub in_reply_to : a.in_reply_to ≡ b.in_reply_to
  pub correlation_id : a.correlation_id ≡ b.correlation_id
  pub supersedes : a.supersedes ≡ b.supersedes
  pub from : a.from ≡ b.from
  pub to : a.to ≡ b.to
  pub ts : a.ts ≡ b.ts
  pub kind : a.kind ≡ b.kind
  pub grant : a.grant ≡ b.grant
  pub receipt : a.receipt ≡ b.receipt
  pub enc : a.enc ≡ b.enc

decrypt_inner-SameEnvelope :
    (env : Env) (me : Identity) (enc : Option EncInfo) (inner : Inner) {opened : Inner}
    → decrypt_inner env me enc inner ≡ ok opened
    → SameEnvelope inner opened
unfolding decrypt_inner open_body
decrypt_inner-SameEnvelope env me none inner h = ground arith
decrypt_inner-SameEnvelope env me (some enc) inner h = ground arith

-- The version is the protocol's, or the legacy one where that is accepted.
abbrev pub IsVersion : Bool → ℕ → Type 0
IsVersion accept_v1 v = (v ≡ 2) ⊎ ((v ≡ 1) × (accept_v1 ≡ true))

version_gate-IsVersion :
    (accept_v1 : Bool) (v : ℕ) → version_gate accept_v1 v ≡ ok tt → IsVersion accept_v1 v
unfolding version_gate
version_gate-IsVersion accept_v1 v h = ground arith

-- There is no freshness window, or the timestamp parses and lies within it, on either side.
abbrev pub IsFresh : Env → Instant → Text → ℤ → Type 0
IsFresh env now ts secs =
    (secs ≤ℤ pos 0)
    ⊎ ((t : Instant) × (env.parse_rfc3339 ts ≡ some t) × (abs (env.seconds_between now t) ≤ℤ secs))

fresh_enough-IsFresh :
    (env : Env) (now : Instant) (ts : Text) (secs : ℤ)
    → fresh_enough env now ts secs ≡ true
    → IsFresh env now ts secs
unfolding fresh_enough
fresh_enough-IsFresh env now ts secs h = elim (Bool-cases (leb_ℤ secs (pos 0))) [
  | inl e ↦ inl (ground arith)
  | inr e ↦ elim (Option-cases (env.parse_rfc3339 ts)) [
    | inl e' ↦ absurd (ground arith)
    | inr (t, e') ↦ inr (t, e', ground arith)
  ]
]

-- A sealed body was addressed to this key, and opened under the envelope's associated data; a
-- message that was not sealed is delivered as it was sent.
abbrev pub IsOpened : Env → Identity → Option EncInfo → Inner → Inner → Type 0
IsOpened env me none sent opened = opened ≡ sent
IsOpened env me (some enc) sent opened =
    (enc.recipient_kid ≡ my_kem_fingerprint env me)
    × ((kem_ct ss nonce ct : Bytes) × (unb64 env enc.kem_ct ≡ ok kem_ct)
        × (decapsulate env me.kem_dk kem_ct ≡ some ss)
        × (unb64 env enc.nonce ≡ ok nonce)
        × (length nonce ≡ 12)
        × (unb64 env sent.body ≡ ok ct)
        × (open_sealed env ss nonce (aad sent) ct ≡ some opened.body)
        × (opened.ctype ≡ enc.ptype))

open_body-IsOpened :
    (env : Env) (me : Identity) (enc : EncInfo) (sent : Inner) (opened : Inner)
    → open_body env me sent enc ≡ ok opened
    → IsOpened env me (some enc) sent opened
unfolding open_body
open_body-IsOpened env me enc sent opened h = elim (Result-cases (unb64 env enc.kem_ct)) [
  | inr (_, e₁) ↦ absurd (ground arith)
  | inl (kem_ct, e₁) ↦ elim (Option-cases (decapsulate env me.kem_dk kem_ct)) [
    | inl e₂ ↦ absurd (ground arith)
    | inr (ss, e₂) ↦ elim (Result-cases (unb64 env enc.nonce)) [
      | inr (_, e₃) ↦ absurd (ground arith)
      | inl (nonce, e₃) ↦ elim (Result-cases (unb64 env sent.body)) [
        | inr (_, e₄) ↦ absurd (ground arith)
        | inl (ct, e₄) ↦ (
          ground (arith, text_beq_iff enc.recipient_kid (my_kem_fingerprint env me)),
          (kem_ct, ss, nonce, ct, e₁, e₂, e₃, ground arith, e₄, ground arith, ground arith),
        )
      ]
    ]
  ]
]

decrypt_inner-IsOpened :
    (env : Env) (me : Identity) (enc : Option EncInfo) (sent : Inner) (opened : Inner)
    → decrypt_inner env me enc sent ≡ ok opened
    → IsOpened env me enc sent opened
unfolding decrypt_inner
decrypt_inner-IsOpened env me none sent opened h = ground arith
decrypt_inner-IsOpened env me (some enc) sent opened h = open_body-IsOpened env me enc sent opened h

-- A grant that is attached is granted by a known authority, to the sender.
abbrev pub IsAuthorized : Env → Instant → TrustStore → Option SignedGrant → Text → Type 0
IsAuthorized env now trust none from = Unit {0}
IsAuthorized env now trust (some sg) from =
    (claims : GrantClaims) × IsGranted env now trust sg claims × (claims.subject ≡ from)

check_grant-IsAuthorized :
    (env : Env) (now : Instant) (trust : TrustStore) (grant : Option SignedGrant) (from : Text)
    → check_grant env now trust grant from ≡ ok tt
    → IsAuthorized env now trust grant from
unfolding check_grant
check_grant-IsAuthorized env now trust none from h = tt
check_grant-IsAuthorized env now trust (some sg) from h =
    elim (Result-cases (verify_grant env now trust sg)) [
      | inr (_, e) ↦ absurd (ground arith)
      | inl (claims, e) ↦ (
        claims,
        verify_grant-IsGranted env now trust sg claims e,
        ground (arith, text_beq_iff claims.subject from),
      )
    ]

-- What an accepted message has passed, in terms of the message as it was transmitted.
pub record IsAccepted (env : Env) (me : Identity) (now : Instant) (trust : TrustStore)
    (policy : Policy) (w : Wrapper) (opened : Inner) : Type 0 where
  pub sent : Inner
  pub version : IsVersion policy.accept_v1 w.v
  pub authentic : IsAuthentic env trust policy.allow_unsigned w sent
  pub fits : length sent.body ≤ policy.max_payload
  pub fresh : IsFresh env now sent.ts policy.freshness_secs
  pub decrypted : IsOpened env me sent.enc sent opened
  pub same : SameEnvelope sent opened
  pub granted : IsAuthorized env now trust opened.grant opened.from

verify_wrapper-IsAccepted :
    (env : Env) (me : Identity) (now : Instant) (trust : TrustStore) (policy : Policy) (w : Wrapper)
    (opened : Inner)
    → verify_wrapper env me now trust policy w ≡ ok opened
    → IsAccepted env me now trust policy w opened
unfolding verify_wrapper finalize
verify_wrapper-IsAccepted env me now trust policy w opened h =
    elim (Result-cases (open_wrapper env trust policy.allow_unsigned w)) [
      | inr (_, e) ↦ absurd (ground arith)
      | inl (sent, e) ↦
          let opens : decrypt_inner env me sent.enc sent ≡ ok opened = ground arith in
          record {
            sent = sent;
            version = version_gate-IsVersion policy.accept_v1 w.v (ground arith);
            authentic = open_wrapper-IsAuthentic env trust policy.allow_unsigned w sent e;
            fits = ground arith;
            fresh = fresh_enough-IsFresh env now sent.ts policy.freshness_secs (ground arith);
            decrypted = decrypt_inner-IsOpened env me sent.enc sent opened opens;
            same = decrypt_inner-SameEnvelope env me sent.enc sent opens;
            granted =
                check_grant-IsAuthorized env now trust opened.grant opened.from (ground arith);
          }
    ]

pub verify_incoming-IsAccepted :
    (env : Env) (me : Identity) (now : Instant) (trust : TrustStore) (policy : Policy) (raw : Bytes)
    (opened : Inner)
    → verify_incoming env me now trust policy raw ≡ ok opened
    → (w : Wrapper) × (from_bytes env raw ≡ ok w) × IsAccepted env me now trust policy w opened
unfolding verify_incoming
verify_incoming-IsAccepted env me now trust policy raw opened h =
    elim (Result-cases (from_bytes env raw)) [
      | inr (_, e) ↦ absurd (ground arith)
      | inl (w, e) ↦
          (w, e, verify_wrapper-IsAccepted env me now trust policy w opened (ground arith))
    ]

-- ===== src/Crypto.antt =====
-- Signature checks (src/crypto.rs), and the key encapsulation and sealing of payloads (src/kem.rs).
use agent_mqtt_chat.Base.{
  ℕ, Bytes, Text, lit, ◌≡◌, ◌++◌, Bool, true, false, Option, none, some, and_then, eqb,
  if◌then◌else◌, length, arith,
}
use agent_mqtt_chat.External.{Env, IsLawful}
use agent_mqtt_chat.Wire.Kid.{fingerprint}

-- Encoded ML-DSA-65 public key length.
abbrev pub public_key_len : ℕ
public_key_len = 1952

abbrev verify_decoded : Env → Bytes → Option Bytes → Option Bytes → Bool
verify_decoded env msg none _ = false
verify_decoded env msg (some key) none = false
verify_decoded env msg (some key) (some sig) = env.dsa_verify key msg sig

-- Verify `sig` over `msg`; false for any malformed input.
unfoldable pub verify : Env → Bytes → Bytes → Bytes → Bool
verify env public_key msg sig =
    verify_decoded env msg (env.dsa_verifying_key public_key) (env.dsa_signature sig)

pub verify-sign :
    (env : Env)
    → IsLawful env
    → (seed msg : Bytes) → verify env (env.dsa_public_key seed) msg (env.dsa_sign seed msg) ≡ true
unfolding verify
verify-sign env lawful seed msg =
    let s = lawful.signs seed msg in rw (s.key_decodes, s.signature_decodes) s.accepts

-- Domain-separated SHA-256.
kdf : Env → Bytes → Bytes → Bytes
kdf env domain seed = env.sha256 (domain ++ seed)

-- The ML-KEM-768 keypair (decapsulation, encapsulation) as a function of the identity's seed.
unfoldable pub derive_from_seed : Env → Bytes → Bytes × Bytes
unfolding kdf
derive_from_seed env seed =
    env.kem_keypair (kdf env (lit "agentmsg-kem-d-v1") seed)
      (kdf env (lit "agentmsg-kem-z-v1") seed)

unfoldable pub kem_fingerprint : Env → Bytes → Text
kem_fingerprint env ek = fingerprint env ek

abbrev pub array_of_length : ℕ → Bytes → Option Bytes
array_of_length n b = if eqb (length b) n then some b else none

abbrev with_array : Bytes × Bytes → Option (Bytes × Bytes)
with_array (ct, ss) = and_then (array_of_length 32 ss) (λ ss_arr. some (ct, ss_arr))

-- `(kem_ciphertext, shared_secret)`, or `none` if the key is malformed; `rand` is what the
-- generator gives.
unfoldable pub encapsulate : Env → Bytes → Bytes → Option (Bytes × Bytes)
encapsulate env rand ek =
    and_then (env.kem_encapsulation_key ek)
      λ key. and_then (env.kem_encapsulate key rand) with_array

unfoldable pub decapsulate : Env → Bytes → Bytes → Option Bytes
decapsulate env dk kem_ct = and_then (env.kem_decapsulation_key dk) λ key.
    and_then (env.kem_ciphertext kem_ct)
      λ ct. and_then (env.kem_decapsulate key ct) (array_of_length 32)

-- AES-256-GCM; arguments: key, nonce, associated data, text.
abbrev pub seal : Env → Bytes → Bytes → Bytes → Bytes → Bytes
seal env = env.aes_encrypt

abbrev pub open_sealed : Env → Bytes → Bytes → Bytes → Bytes → Option Bytes
open_sealed env = env.aes_decrypt

-- Encapsulation to a derived key succeeds, and the derived private key recovers the secret.
pub decapsulate-encapsulate :
    (env : Env)
    → IsLawful env
    → (seed rand : Bytes)
    → (ct : Bytes) × (ss : Bytes) × (encapsulate env rand (derive_from_seed env seed).1
        ≡ some (ct, ss))
      × (decapsulate env (derive_from_seed env seed).0 ct ≡ some ss)
unfolding encapsulate decapsulate derive_from_seed
decapsulate-encapsulate env lawful seed rand =
    let d = kdf env (lit "agentmsg-kem-d-v1") seed in
    let z = kdf env (lit "agentmsg-kem-z-v1") seed in
    let e = lawful.encapsulation d z rand in
    (
      e.ct,
      e.secret,
      ground (arith, e.ek_decodes, e.encapsulates, e.secret_length),
      ground (arith, e.dk_decodes, e.ct_decodes, e.decapsulates, e.secret_length),
    )

-- ===== src/Identity.antt =====
-- src/identity.rs: the local identity, its derivation from a seed, and its file.
use agent_mqtt_chat.Base.{
  ℕ, Bytes, Text, lit, ◌≡◌, ◌++◌, Option, none, some, Result, ok, err, ok_or, map_err, reject_if,
  ◌>>=◌, ◌>>◌, eqb, not, true, length, arith,
}
use agent_mqtt_chat.External.{Env, IsLawful}
use agent_mqtt_chat.Errors.{Error, no_identity, crypto_error}
use agent_mqtt_chat.Wire.Kid.{make_kid}
use agent_mqtt_chat.Wire.Codec.{b64, unb64, unb64-b64}
use agent_mqtt_chat.Crypto.{derive_from_seed, kem_fingerprint, verify, verify-sign}

abbrev pub seed_len : ℕ
seed_len = 32

-- A loaded local identity; the signing key is its seed.
pub record Identity : Type 0 where
  pub name : Text
  pub signing_key : Bytes
  pub public_key : Bytes
  pub kem_dk : Bytes
  pub kem_ek : Bytes

-- The identity of a seed: both key pairs are functions of it.
unfoldable pub from_seed : Env → Text → Bytes → Identity
from_seed env name seed =
    let (dk, ek) = derive_from_seed env seed in
    record {
      name = name;
      signing_key = seed;
      public_key = env.dsa_public_key seed;
      kem_dk = dk;
      kem_ek = ek;
    }

-- `Identity::generate`, with the seed that the generator gives
abbrev pub generate : Env → Text → Bytes → Identity
generate = from_seed

unfoldable pub sign : Env → Identity → Bytes → Bytes
sign env id msg = env.dsa_sign id.signing_key msg

unfoldable pub kid : Env → Identity → Text
kid env id = make_kid env id.name id.public_key

abbrev pub my_kem_fingerprint : Env → Identity → Text
my_kem_fingerprint env id = kem_fingerprint env id.kem_ek

-- The text that `save` writes.
unfoldable pub save : Env → Identity → Bytes
save env id = env.identity_json.encode (record { name = id.name; seed = b64 env id.signing_key })

-- `Identity::load` on what the file holds; `none` if there is no file.
unfoldable pub load : Env → Option Bytes → Result Error Identity
load env none = err no_identity
load env (some text) = do
  file ←
      ok_or (env.identity_json.decode text) (crypto_error (lit "identity: " ++ env.json_error text))
  seed ← map_err (λ _. crypto_error (lit "bad seed")) (unb64 env file.seed)
  reject_if (not (eqb (length seed) seed_len)) (crypto_error (lit "seed must be 32 bytes"))
  ok (from_seed env file.name seed)

module _ (env : Env) (lawful : IsLawful env) where
  -- A saved identity is loaded again with the same name and keys, those of the payload encryption
  -- included: the file holds only the name and the seed.
  pub load-save :
      (name : Text) (seed : Bytes)
      → length seed ≡ 32
      → load env (some (save env (generate env name seed))) ≡ ok (generate env name seed)
  unfolding load save from_seed
  load-save name seed h = ground (
    arith,
    lawful.identity_roundtrip (record { name = name; seed = b64 env seed }),
    unb64-b64 env lawful seed,
  )

  -- A message that a generated identity signs verifies under the public key that it advertises.
  pub verify-sign_identity :
      (name : Text) (seed msg : Bytes)
      → let id = generate env name seed in verify env id.public_key msg (sign env id msg) ≡ true
  unfolding sign from_seed
  verify-sign_identity name seed msg = verify-sign env lawful seed msg

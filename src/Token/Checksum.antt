-- ===== src/Token/Checksum.antt =====
-- The part that the v2 identity token and the authority token share: the base64url of a JSON body,
-- a dot, and the base64url of the CRC-32 of that base64url text; and the check of the key's length.
use agent_mqtt_chat.Base.{
  ℕ, ◌+◌, ◌*◌, ◌/◌, ◌%◌, ◌^◌, ◌<◌, Bytes, Text, lit, ◌≡◌, Bool, true, false, not, [], ◌∷◌, ◌++◌,
  Option, none, some, Result, ok, ok_or, map_err, reject_if, ◌>>=◌, ◌>>◌, eqb, length, all, ap,
  decimal, em_dash, is_visible, contains_byte, rsplit_once, rsplit_once-append, arith,
}
use agent_mqtt_chat.External.{Env, IsLawful, is_b64}
use agent_mqtt_chat.Errors.{Error, token_corrupt}
use agent_mqtt_chat.Wire.Codec.{b64, unb64, unb64-b64}
use agent_mqtt_chat.Crypto.{public_key_len}

-- `u32::to_be_bytes`
abbrev pub to_be_bytes : ℕ → Bytes
to_be_bytes n = n / 2 ^ 24 % 256 ∷ n / 2 ^ 16 % 256 ∷ n / 2 ^ 8 % 256 ∷ n % 256 ∷ []

-- `u32::from_be_bytes` on a slice that must have four bytes
abbrev pub from_be_bytes : Bytes → Option ℕ
from_be_bytes (a ∷ b ∷ c ∷ d ∷ []) = some (a * 2 ^ 24 + b * 2 ^ 16 + c * 2 ^ 8 + d)
from_be_bytes _ = none

-- `{b64body}.{b64 of the checksum}`
unfoldable pub with_checksum : Env → Bytes → Text
with_checksum env json =
    let b64body = b64 env json in b64body ++ b'.' ∷ b64 env (to_be_bytes (env.crc32 b64body))

-- The JSON bytes behind a checksum that fits.
unfoldable pub checked_body : Env → Text → Result Error Bytes
checked_body env rest = do
  (b64body, b64crc) ← ok_or (rsplit_once b'.' rest) (token_corrupt (lit "missing checksum"))
  crc_bytes ← map_err (λ _. token_corrupt (lit "bad checksum")) (unb64 env b64crc)
  expected ← ok_or (from_be_bytes crc_bytes) (token_corrupt (lit "bad checksum length"))
  reject_if (not (eqb (env.crc32 b64body) expected))
      (token_corrupt (lit "checksum mismatch " ++ em_dash ++ lit " token truncated/corrupted"))
  map_err (λ _. token_corrupt (lit "bad base64")) (unb64 env b64body)

-- Enforce the ML-DSA-65 public-key length.
unfoldable pub check_pk_len : Bytes → Result Error (Unit {0})
check_pk_len public_key = reject_if (not (eqb (length public_key) public_key_len)) (
    token_corrupt (
      lit "public key is "
      ++ decimal (length public_key)
      ++ lit " bytes, expected 1952 "
      ++ em_dash
      ++ lit " token truncated/corrupted"))

pub all-append :
    (p : ℕ → Bool) (s t : Text) → all p s ≡ true → all p t ≡ true → all p (s ++ t) ≡ true
all-append p [] t hs ht = ht
all-append p (a ∷ s) t hs ht = ground (arith, all-append p s t)

b64-visible : (s : Text) → all is_b64 s ≡ true → all is_visible s ≡ true
b64-visible [] h = h
b64-visible (c ∷ s) h = ground (arith, b64-visible s)

b64-no_dot : (s : Text) → all is_b64 s ≡ true → contains_byte b'.' s ≡ false
b64-no_dot [] h = ground arith
b64-no_dot (c ∷ s) h = ground (arith, b64-no_dot s)

from_be_bytes-to_be_bytes : (n : ℕ) → n < 2 ^ 32 → from_be_bytes (to_be_bytes n) ≡ some n
from_be_bytes-to_be_bytes n h = ap some (omega arith)

module _ (env : Env) (lawful : IsLawful env) where
  pub b64-is_visible : (b : Bytes) → all is_visible (b64 env b) ≡ true
  b64-is_visible b = b64-visible (b64 env b) (lawful.b64_alphabet b)

  -- A body with its checksum is printable and is read back.
  pub with_checksum-visible : (json : Bytes) → all is_visible (with_checksum env json) ≡ true
  unfolding with_checksum
  with_checksum-visible json =
      all-append is_visible (b64 env json) _ (b64-is_visible json)
        (ground (arith, b64-is_visible (to_be_bytes (env.crc32 (b64 env json)))))

  pub checked_body-with_checksum :
      (json : Bytes) → checked_body env (with_checksum env json) ≡ ok json
  unfolding checked_body with_checksum
  checked_body-with_checksum json =
      let b64body = b64 env json in
      let crc = env.crc32 b64body in
      ground (
        arith,
        rsplit_once-append b'.' b64body (b64 env (to_be_bytes crc))
            (b64-no_dot (b64 env (to_be_bytes crc)) (lawful.b64_alphabet (to_be_bytes crc))),
        unb64-b64 env lawful (to_be_bytes crc),
        from_be_bytes-to_be_bytes crc (lawful.crc_range b64body),
        unb64-b64 env lawful json,
      )

-- ===== src/Wire/Kid.antt =====
-- Key ids of src/wire.rs: `fingerprint`, `make_kid`, `split_kid`, and `validate_name`, which keeps the
-- separator out of names.
use agent_mqtt_chat.Base.{
  Bytes, Text, lit, ◌≡◌, Bool, false, ◌||◌, [], ◌∷◌, ◌++◌, Option, some, Result, ok, err,
  if◌then◌else◌, any, take, contains_byte, chars, is_whitespace, is_control, split_once,
  split_once-append, arith, ◌≢◌,
}
use agent_mqtt_chat.External.{Env}

-- The first eight bytes of the SHA-256 digest, in hexadecimal.
unfoldable pub fingerprint : Env → Bytes → Text
fingerprint env public_key = env.hex_encode (take 8 (env.sha256 public_key))

-- `format!("{sender}#{}", fingerprint(public_key))`
unfoldable pub make_kid : Env → Text → Bytes → Text
make_kid env sender public_key = sender ++ b'#' ∷ fingerprint env public_key

-- A `kid` as (sender, fingerprint).
unfoldable pub split_kid : Text → Option (Text × Text)
split_kid kid = split_once b'#' kid

-- `name.chars().any(|c| c.is_whitespace() || c.is_control())`
pub has_space_or_control : Text → Bool
has_space_or_control name = any (λ c. is_whitespace c || is_control c) (chars name)

unfoldable pub validate_name : Text → Result Text (Unit {0})
unfolding has_space_or_control
validate_name [] = err (lit "name must not be empty")
validate_name (c ∷ name) =
    if contains_byte b'#' (c ∷ name)
    then err (lit "name must not contain '#' (reserved as the kid separator)")
    else if has_space_or_control (c ∷ name)
    then err (lit "name must not contain whitespace or control characters")
    else ok tt

-- A validated name is not empty, has no separator, and no space or control character.
pub record IsName (name : Text) : Type 0 where
  pub nonempty : name ≢ []
  pub no_separator : contains_byte b'#' name ≡ false
  pub no_space : has_space_or_control name ≡ false

pub validate_name-IsName : (name : Text) → validate_name name ≡ ok tt → IsName name
unfolding validate_name
validate_name-IsName [] h = cc
validate_name-IsName (c ∷ name) h = ground arith

-- The key id of a validated name splits into that name and the fingerprint of the key.
pub split_kid-make_kid :
    (env : Env) (name : Text) (public_key : Bytes)
    → validate_name name ≡ ok tt
    → split_kid (make_kid env name public_key) ≡ some (name, fingerprint env public_key)
unfolding split_kid make_kid
split_kid-make_kid env name public_key h =
    split_once-append b'#' name (fingerprint env public_key)
      (validate_name-IsName name h).no_separator

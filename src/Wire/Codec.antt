-- ===== src/Wire/Codec.antt =====
-- The codecs of src/wire.rs: base64url, and a wrapper as bytes, with its inner bytes and signature.
use agent_mqtt_chat.Base.{Bytes, Text, lit, ◌++◌, ◌≡◌, Result, ok, ok_or, ◌>>=◌}
use agent_mqtt_chat.External.{Env, IsLawful}
use agent_mqtt_chat.Errors.{Error, RejectReason, serde_error, malformed_wrapper}
use agent_mqtt_chat.Wire.Types.{Wrapper, Inner}

abbrev pub b64 : Env → Bytes → Text
b64 env bytes = env.b64_encode bytes

unfoldable pub unb64 : Env → Text → Result Error Bytes
unb64 env s = ok_or (env.b64_decode s) (serde_error (lit "base64: " ++ env.b64_error s))

-- `Wrapper::to_bytes`: serialising these types does not fail.
unfoldable pub to_bytes : Env → Wrapper → Bytes
to_bytes env w = env.wrapper_json.encode w

unfoldable pub from_bytes : Env → Bytes → Result RejectReason Wrapper
from_bytes env bytes = ok_or (env.wrapper_json.decode bytes) malformed_wrapper

-- The exact inner-message bytes that were signed.
unfoldable pub inner_bytes : Env → Wrapper → Result RejectReason Bytes
inner_bytes env w = ok_or (env.b64_decode w.msg) malformed_wrapper

-- The signature bytes; an error if the wrapper has no signature.
unfoldable pub sig_bytes : Env → Wrapper → Result RejectReason Bytes
sig_bytes env w = do
  sig ← ok_or w.sig malformed_wrapper
  ok_or (env.b64_decode sig) malformed_wrapper

unfoldable pub parse_inner : Env → Bytes → Result RejectReason Inner
parse_inner env bytes = ok_or (env.inner_json.decode bytes) malformed_wrapper

module _ (env : Env) (lawful : IsLawful env) where
  pub unb64-b64 : (b : Bytes) → unb64 env (b64 env b) ≡ ok b
  unfolding unb64
  unb64-b64 b = rw (lawful.b64_roundtrip b)

  pub from_bytes-to_bytes : (w : Wrapper) → from_bytes env (to_bytes env w) ≡ ok w
  unfolding from_bytes to_bytes
  from_bytes-to_bytes w = rw (lawful.wrapper_roundtrip w)

  pub parse_inner-encode :
      (inner : Inner) → parse_inner env (env.inner_json.encode inner) ≡ ok inner
  unfolding parse_inner
  parse_inner-encode inner = rw (lawful.inner_roundtrip inner)

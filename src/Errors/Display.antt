-- ===== src/Errors/Display.antt =====
-- The texts of src/error.rs, which the daemon's error responses carry.
use agent_mqtt_chat.Base.{Text, lit, ◌++◌, decimal}
use agent_mqtt_chat.Errors.{
  RejectReason, malformed_wrapper, unsupported_version, unsupported_alg, unknown_signer,
  kid_mismatch, invalid_signature, duplicate, stale, too_large, unsigned_not_allowed,
  downgrade_rejected, unknown_authority, invalid_grant, grant_expired, grant_subject_mismatch,
  decrypt_failed, unknown_recipient_key, enc_broadcast_unsupported, replayed_grant,
  pair_self_sig_invalid, Error, daemon_not_running, daemon_already_running, config_error,
  no_identity, identity_exists, crypto_error, invalid_token, unknown_agent, rejected, store_error,
  mqtt_error, ipc_error, serde_error, identity_name_mismatch, no_authority, token_corrupt,
  rotation_required, not_an_authority_token, timeout, io,
}

unfoldable pub reason_text : RejectReason → Text
reason_text malformed_wrapper = lit "malformed wrapper"
reason_text (unsupported_version v) = lit "unsupported protocol version " ++ decimal v
reason_text (unsupported_alg a) = lit "unsupported signature algorithm " ++ a
reason_text unknown_signer = lit "unknown signer"
reason_text kid_mismatch = lit "signer key id does not match sender"
reason_text invalid_signature = lit "invalid signature"
reason_text duplicate = lit "duplicate message id"
reason_text stale = lit "timestamp outside freshness window"
reason_text too_large = lit "payload too large"
reason_text unsigned_not_allowed = lit "unsigned messages are not allowed"
reason_text downgrade_rejected = lit "protocol downgrade rejected for a known signing agent"
reason_text unknown_authority = lit "unknown authority"
reason_text invalid_grant = lit "invalid grant"
reason_text grant_expired = lit "grant expired"
reason_text grant_subject_mismatch = lit "grant subject does not match sender"
reason_text decrypt_failed = lit "decryption failed"
reason_text unknown_recipient_key = lit "unknown recipient key"
reason_text enc_broadcast_unsupported = lit "encrypted broadcast is not supported"
reason_text replayed_grant = lit "replayed grant"
reason_text pair_self_sig_invalid = lit "pairing hello self-signature is invalid"

unfoldable pub error_text : Error → Text
error_text (daemon_not_running p) = lit "daemon is not running (no IPC endpoint at " ++ p ++ lit ")"
error_text daemon_already_running = lit "a daemon is already running for this identity"
error_text (config_error e) = lit "configuration error: " ++ e
error_text no_identity = lit "no identity configured; run `agentmsg id generate` first"
error_text (identity_exists p) = lit "identity already exists at " ++ p
error_text (crypto_error e) = lit "crypto error: " ++ e
error_text (invalid_token e) = lit "invalid identity token: " ++ e
error_text (unknown_agent e) = lit "unknown agent: " ++ e
error_text (rejected r) = lit "message rejected: " ++ reason_text r
error_text (store_error e) = lit "storage error: " ++ e
error_text (mqtt_error e) = lit "mqtt error: " ++ e
error_text (ipc_error e) = lit "ipc error: " ++ e
error_text (serde_error e) = lit "serialization error: " ++ e
error_text (identity_name_mismatch e) = lit "identity name mismatch: " ++ e
error_text no_authority = lit "no authority key configured; run `agentmsg authority generate` first"
error_text (token_corrupt e) = lit "token corrupt: " ++ e
error_text (rotation_required e) = lit "key rotation required: " ++ e
error_text not_an_authority_token = lit "not an authority token"
error_text (timeout e) = lit "timed out: " ++ e
error_text (io e) = lit "i/o error: " ++ e

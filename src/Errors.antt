-- ===== src/Errors.antt =====
-- src/error.rs: the error categories, the reasons for which an inbound message is refused, and the
-- metadata recorded with a refusal. `exit_code` is the process exit code of src/cli.rs.
pub mod Display
use agent_mqtt_chat.Base.{ℕ, Text, lit, Option, none, Result}

-- Reasons an inbound message is refused on ingest.
pub data RejectReason : Type 0 where
  malformed_wrapper : RejectReason
  unsupported_version : ℕ → RejectReason
  unsupported_alg : Text → RejectReason
  unknown_signer kid_mismatch invalid_signature duplicate stale too_large : RejectReason
  unsigned_not_allowed downgrade_rejected unknown_authority invalid_grant : RejectReason
  grant_expired grant_subject_mismatch decrypt_failed unknown_recipient_key : RejectReason
  enc_broadcast_unsupported replayed_grant pair_self_sig_invalid : RejectReason

-- The top-level error. The payload of `io` is the text of the operating system's error.
pub data Error : Type 0 where
  daemon_not_running : Text → Error
  daemon_already_running : Error
  config_error : Text → Error
  no_identity : Error
  identity_exists crypto_error invalid_token unknown_agent : Text → Error
  rejected : RejectReason → Error
  store_error mqtt_error ipc_error serde_error identity_name_mismatch : Text → Error
  no_authority : Error
  token_corrupt rotation_required : Text → Error
  not_an_authority_token : Error
  timeout io : Text → Error

-- A refusal, with the sender that the wrapper's `kid` claims, when known.
pub record RejectInfo : Type 0 where
  pub reason : RejectReason
  pub claimed_sender : Option Text

-- `impl From<RejectReason> for RejectInfo`
abbrev pub unattributed : RejectReason → RejectInfo
unattributed r = record { reason = r; claimed_sender = none }

-- Stable snake_case code for logs and JSON output.
unfoldable pub reject_code : RejectReason → Text
reject_code malformed_wrapper = lit "malformed_wrapper"
reject_code (unsupported_version _) = lit "unsupported_version"
reject_code (unsupported_alg _) = lit "unsupported_alg"
reject_code unknown_signer = lit "unknown_signer"
reject_code kid_mismatch = lit "kid_mismatch"
reject_code invalid_signature = lit "invalid_signature"
reject_code duplicate = lit "duplicate"
reject_code stale = lit "stale"
reject_code too_large = lit "too_large"
reject_code unsigned_not_allowed = lit "unsigned_not_allowed"
reject_code downgrade_rejected = lit "downgrade_rejected"
reject_code unknown_authority = lit "unknown_authority"
reject_code invalid_grant = lit "invalid_grant"
reject_code grant_expired = lit "grant_expired"
reject_code grant_subject_mismatch = lit "grant_subject_mismatch"
reject_code decrypt_failed = lit "decrypt_failed"
reject_code unknown_recipient_key = lit "unknown_recipient_key"
reject_code enc_broadcast_unsupported = lit "enc_broadcast_unsupported"
reject_code replayed_grant = lit "replayed_grant"
reject_code pair_self_sig_invalid = lit "pair_self_sig_invalid"

-- Distinct exit codes, so that a calling agent can branch.
unfoldable pub exit_code : Error → ℕ
exit_code (daemon_not_running _) = 3
exit_code no_identity = 4
exit_code (identity_name_mismatch _) = 4
exit_code no_authority = 4
exit_code (unknown_agent _) = 5
exit_code (invalid_token _) = 5
exit_code (token_corrupt _) = 5
exit_code (rotation_required _) = 5
exit_code not_an_authority_token = 5
exit_code (timeout _) = 6
exit_code _ = 1

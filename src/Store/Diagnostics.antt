-- ===== src/Store/Diagnostics.antt =====
-- The rejection log and the grant replay guard of src/store.rs.
use agent_mqtt_chat.Base.{
  ℕ, suc, ◌+◌, Text, text_eq, ◌==◌, text_ltb, ℤ, Bool, true, not, ◌&&◌, List, [], ◌∷◌, ◌++◌, Option,
  some, any, keep, length, if◌then◌else◌,
}
use mathlib.Core.List.{reverse}
use agent_mqtt_chat.Errors.{RejectReason, reject_code}
use agent_mqtt_chat.Store.Types.{Db, RejectionRow}
use agent_mqtt_chat.Store.Messages.{limit_rows, optional}

-- Record a rejection, at the time `now`.
unfoldable pub record_rejection : Db → Text → RejectReason → Option Text → Text → Text → Db
record_rejection db now reason claimed_sender topic detail =
    let seq = suc (db.last_rejection + db.gap db.last_rejection) in
    record db {
      rejections =
          db.rejections
          ++ record {
            seq = seq;
            at = now;
            reason = reject_code reason;
            claimed_sender = claimed_sender;
            topic = some topic;
            detail = detail;
          }
            ∷ [];
      last_rejection = seq;
    }

unfoldable pub rejection_count : Db → ℕ
rejection_count db = length db.rejections

-- Recent rejections, newest first, by reason code and from a time on.
unfoldable pub list_rejections : Db → ℤ → Option Text → Option Text → List RejectionRow
list_rejections db limit reason since = limit_rows limit (
    reverse (
      keep
        (λ (r : RejectionRow).
          optional reason (λ c. r.reason == c) && optional since (λ s. not (text_ltb r.at s)))
        db.rejections))

-- Record a grant id; true if it was seen before.
unfoldable pub seen_grant : Db → Text → Db × Bool
seen_grant db grant_id =
    if any (λ g. g == grant_id) db.seen_grants
    then (db, true)
    else (record db { seen_grants = db.seen_grants ++ grant_id ∷ [] }, Bool.false)

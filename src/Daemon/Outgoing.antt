-- ===== src/Daemon/Outgoing.antt =====
-- What src/daemon.rs sends: `send`, `reply`, `presence`, receipts, pairing hellos, and the rounds of
-- the outbox pump. Reads of the database succeed in the model, and so do writes whose error the code
-- ignores, but for those of `send`.
pub mod Pump
pub mod Kept
pub mod Durable
pub mod Fair
use agent_mqtt_chat.Base.{
  ℕ, Bytes, Text, lit, text_eq, ◌==◌, ℤ, pos, ltb, Bool, true, false, not, ◌&&◌, ◌||◌, List, [],
  ◌∷◌, ◌++◌, length, any, Option, none, some, Result, ok, err, ◌>>=◌, ◌>>◌, reject_if, ok_or,
  map_err, unwrap_or, if◌then◌else◌,
}
use agent_mqtt_chat.External.{Env}
use agent_mqtt_chat.Errors.{Error, RejectReason, unknown_recipient_key}
use agent_mqtt_chat.Errors.Display.{error_text, reason_text}
use agent_mqtt_chat.Docs.{PresenceBeacon}
use agent_mqtt_chat.Wire.Types.{
  Inner, Wrapper, MsgKind, message, command, query, result, ack, error, grant, receipt, Receipt,
  ReceiptStatus, read, SignedGrant, broadcast, ctype_receipt, ctype_presence,
}
use agent_mqtt_chat.Wire.Codec.{to_bytes}
use agent_mqtt_chat.Config.{Config, primary_topic}
use agent_mqtt_chat.Identity.{Identity}
use agent_mqtt_chat.Trust.{kem_public_key}
use agent_mqtt_chat.Grant.{decode_token}
use agent_mqtt_chat.Store.Types.{Db, StoredMsg, Outbound, is_in}
use agent_mqtt_chat.Store.Messages.{insert_outbound_log, get_message, message_by_seq}
use agent_mqtt_chat.Store.Outbox.{enqueue_outbound, pending_outbound, mark_delivered}
use agent_mqtt_chat.Message.Build.{BuildOpts, Fresh, new_opts, build, build_pair}
use agent_mqtt_chat.Ipc.{SendParams, Response, sent, failure, done}
use agent_mqtt_chat.Daemon.State.{
  Daemon, Moment, Publication, config_of, trust_of, with_db, is_connected,
}

-- The queue row of a publication: QoS 1, not retained.
abbrev pub outbound : Text → Text → Bytes → Outbound
outbound id topic payload = record {
  id = id;
  topic = topic;
  payload = payload;
  qos = 1;
  retain = false;
}

-- Map a snake_case kind text (empty = `message`) to a kind.
unfoldable pub parse_kind : Text → MsgKind
parse_kind s =
    if s == lit "command"
    then command
    else if s == lit "query"
    then query
    else if s == lit "result"
    then result
    else if s == lit "ack"
    then ack
    else if s == lit "error"
    then error
    else if s == lit "grant"
    then grant
    else if s == lit "receipt"
    then receipt
    else message

abbrev pub log_and_queue : Env → Db → Text → Result RejectReason (Inner × Wrapper) → Db
log_and_queue env db topic (err _) = db
log_and_queue env db topic (ok (inner, w)) =
    enqueue_outbound (insert_outbound_log db inner topic) (outbound inner.id topic (to_bytes env w))

abbrev pub receipt_opts : Text → Text → ReceiptStatus → BuildOpts
receipt_opts to ref_id status = record (new_opts to ctype_receipt []) {
  kind = receipt;
  receipt = some (record { ref_id = ref_id; status = status });
}

-- Build and durably queue an automatic receipt to `to`.
unfoldable pub enqueue_receipt :
    Env → Identity → Fresh → Db → Text → Text → ReceiptStatus → Text → Db
enqueue_receipt env id fresh db to ref_id status topic =
    log_and_queue env db topic (build env id fresh (receipt_opts to ref_id status))

abbrev pub queue_only : Env → Db → Text → Result RejectReason (Inner × Wrapper) → Db
queue_only env db topic (err _) = db
queue_only env db topic (ok (inner, w)) =
    enqueue_outbound db (outbound inner.id topic (to_bytes env w))

-- Build and durably queue a presence beacon.
unfoldable pub enqueue_presence : Env → Identity → Fresh → Db → Text → PresenceBeacon → Db
enqueue_presence env id fresh db topic beacon =
    queue_only env db topic
      (build env id fresh (new_opts broadcast ctype_presence (env.presence_json.encode beacon)))

-- `mqtt::publish_on`: what the client takes is published.
abbrev pub publish_on : Daemon → Text → Bytes → Bool → Daemon
publish_on d topic payload retain = record d {
  published = d.published ++ record { topic = topic; payload = payload; retain = retain } ∷ [];
}

-- The topic to publish on: an explicit one must be configured.
unfoldable pub choose_topic : Config → Option Text → Result Text Text
choose_topic cfg (some t) = do
  reject_if (not (any (λ c. c == t) cfg.topics))
      (lit "topic '" ++ t ++ lit "' is not a configured chat topic")
  ok t
choose_topic cfg none = ok_or (primary_topic cfg) (lit "no chat topic configured")

unfoldable pub resolve_grant : Env → Option Text → Result Text (Option SignedGrant)
resolve_grant env none = ok none
resolve_grant env (some tok) = do sg ← map_err error_text (decode_token env tok); ok (some sg)

unfoldable pub resolve_key : Env → Daemon → Bool → Text → Result Text (Option Bytes)
resolve_key env d false to = ok none
resolve_key env d true to = do
  ek ← ok_or (kem_public_key env (trust_of d) to) (reason_text unknown_recipient_key)
  ok (some ek)

-- Everything that `send` does before it touches the store: the message, its wrapper, its topic.
unfoldable pub prepare : Env → Daemon → Fresh → SendParams → Result Text ((Inner × Wrapper) × Text)
prepare env d fresh p = do
  topic ← choose_topic (config_of d) p.topic
  reject_if (ltb (config_of d).max_payload (length p.body))
      (lit "payload exceeds configured maximum")
  sg ← resolve_grant env p.grant
  encrypt_to ← resolve_key env d p.encrypt p.to
  built ← map_err reason_text (
      build env d.identity fresh (record (new_opts p.to p.ctype p.body) {
        in_reply_to = p.in_reply_to;
        kind = parse_kind p.kind;
        correlation_id = p.correlation_id;
        supersedes = p.supersedes;
        grant = sg;
        encrypt_to = encrypt_to;
        unsigned = p.unsigned;
      }))
  ok (built, topic)

-- The log's insertion, whose error is ignored, and the mark of a delivery, likewise.
abbrev pub logged : Bool → Db → Inner → Text → Db
logged true db inner topic = db
logged false db inner topic = insert_outbound_log db inner topic

abbrev pub marked : Bool → Db → Text → Text → Db
marked true db now id = db
marked false db now id = mark_delivered db now id

-- Publish immediately if the broker is up.
abbrev pub publish_queued : Moment → Daemon → Db → Text → Text → Bytes → Daemon × Response
publish_queued at d db id topic payload =
    if is_connected d && at.publish_ok
    then (
      publish_on (with_db d (marked at.mark_fails db at.now_text id)) topic payload false,
      sent id (lit "sent"),
    )
    else (with_db d db, sent id (lit "pending"))

abbrev pub queue_and_publish :
    Moment → Daemon → Db → Text → Text → Bytes → Option Error → Daemon × Response
queue_and_publish at d db id topic payload (some e) = (with_db d db, failure (error_text e))
queue_and_publish at d db id topic payload none =
    publish_queued at d (enqueue_outbound db (outbound id topic payload)) id topic payload

-- Log and queue durably, then publish. A message that could not be queued stays in the log.
unfoldable pub commit : Env → Moment → Daemon → Inner → Wrapper → Text → Daemon × Response
commit env at d inner w topic =
    queue_and_publish at d (logged at.log_fails d.db inner topic) inner.id topic (to_bytes env w)
      at.queue_error

abbrev pub committed :
    Env → Moment → Daemon → Result Text ((Inner × Wrapper) × Text) → Daemon × Response
committed env at d (err e) = (d, failure e)
committed env at d (ok ((inner, w), topic)) = commit env at d inner w topic

unfoldable pub send : Env → Moment → Daemon → SendParams → Daemon × Response
send env at d p = committed env at d (prepare env d at.fresh p)

abbrev reply_params : StoredMsg → Text → Text → Text → SendParams
reply_params original msg_id ctype body = record {
  to = original.from;
  ctype = ctype;
  body = body;
  in_reply_to = some msg_id;
  topic = none;
  kind = [];
  correlation_id = none;
  supersedes = none;
  encrypt = false;
  grant = none;
  unsigned = false;
}

-- Reply to a stored message by id, addressing its original sender.
unfoldable pub reply : Env → Moment → Daemon → Text → Text → Text → Daemon × Response
reply env at d msg_id ctype body = elim (get_message d.db msg_id) [
  | none ↦ (d, failure (lit "no message with id " ++ msg_id))
  | some original ↦ send env at d (reply_params original msg_id ctype body)
]

-- Emit an application presence beacon with source `agent`.
unfoldable pub presence : Env → Moment → Daemon → Text → Option ℤ → Option Text → Daemon × Response
presence env at d state ttl_secs detail = elim (primary_topic (config_of d)) [
  | none ↦ (d, failure (lit "no chat topic configured"))
  | some topic ↦ (
    with_db d (
        enqueue_presence env d.identity at.fresh d.db topic (record {
          state = state;
          source = lit "agent";
          ttl_secs = unwrap_or ttl_secs (pos 0);
          seq = at.now_seq;
          detail = detail;
        })),
    done,
  )
]

-- Best-effort read receipt when a consumer acknowledges a direct inbound message.
abbrev pub read_receipt_for : Env → Moment → Daemon → Option StoredMsg → Daemon
read_receipt_for env at d none = d
read_receipt_for env at d (some m) =
    if is_in m.direction && (m.to == d.identity.name && not (m.to == broadcast))
    then with_db d
        (enqueue_receipt env d.identity at.fresh d.db m.from m.id ReceiptStatus.read m.topic)
    else d

unfoldable pub maybe_read_receipt : Env → Moment → Daemon → ℤ → Daemon
maybe_read_receipt env at d seq =
    if (config_of d).auto_receipts then read_receipt_for env at d (message_by_seq d.db seq) else d

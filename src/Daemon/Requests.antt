-- ===== src/Daemon/Requests.antt =====
-- The requests of src/daemon.rs, by `handle`, and the streams of `serve_subscribe`.
pub mod Trusted
pub mod Failures
use agent_mqtt_chat.Files.{trust_from}
use agent_mqtt_chat.Base.{
  ℕ, Bytes, Text, lit, text_eq, ◌==◌, ℤ, Bool, true, false, not, ◌&&◌, ◌||◌, List, [], ◌∷◌, ◌++◌,
  map, length, Option, none, some, Result, ok, err, ◌>>=◌, ◌>>◌, reject_if, is_some, TextMap,
  lookup, remove, decimal, if◌then◌else◌,
}
use agent_mqtt_chat.External.{Env}
use agent_mqtt_chat.Errors.{Error, config_error, RejectReason}
use agent_mqtt_chat.Errors.Display.{error_text, reason_text}
use agent_mqtt_chat.Wire.Types.{Inner, Wrapper}
use agent_mqtt_chat.Wire.Kid.{fingerprint}
use agent_mqtt_chat.Wire.Codec.{to_bytes}
use agent_mqtt_chat.Config.{Config, is_connectable}
use agent_mqtt_chat.Trust
use agent_mqtt_chat.Trust.{TrustStore, add_with_kem}
use agent_mqtt_chat.Store.Types.{Db, StoredMsg}
use agent_mqtt_chat.Store.Messages.{
  get_message, browse, transcript, outbound_receipts, message_count,
}
use agent_mqtt_chat.Store.Queue
use agent_mqtt_chat.Store.Queue.{read_after_cursor, consumers}
use agent_mqtt_chat.Store.Outbox.{enqueue_outbound, pending_outbound}
use agent_mqtt_chat.Store.Diagnostics.{list_rejections, rejection_count}
use agent_mqtt_chat.Store.Presence.{list_presence}
use agent_mqtt_chat.Message.Build.{build_pair}
use agent_mqtt_chat.Mqtt.{MqttOptions, session_options}
use agent_mqtt_chat.Ipc.{
  Request, Response, SendParams, StatusInfo, PendingPairView, StreamFrame, message, lagged, pong,
  done, status_is, hello_is, messages, rejections_are, consumers_are, presence_is, pairs, failure,
  ipc_proto_version,
}
use agent_mqtt_chat.Daemon.State.{
  Daemon, Moment, PendingPair, config_of, trust_of, with_db, is_connected,
}
use agent_mqtt_chat.Daemon.Outgoing.{
  send, reply, presence, maybe_read_receipt, choose_topic, outbound, publish_on,
}

-- (Re)connect the broker session.
abbrev pub started : Daemon → Result Error MqttOptions → Daemon × Response
started d (ok opts) = (record d { mqtt = some false }, done)
started d (err e) = (d, failure (error_text e))

abbrev pub client_id : Moment → Daemon → Text
client_id at d = d.identity.name ++ lit "-" ++ decimal at.pid

abbrev pub start_session : Moment → Daemon → Result Error Config → Daemon × Response
start_session at d (err e) = (d, failure (error_text e))
start_session at d (ok cfg) =
    if is_connectable cfg then started d (session_options cfg (client_id at d)) else (
      d,
      failure (
          error_text
            (config_error (lit "broker host, credentials and at least one topic must be set"))),
    )

unfoldable pub connect : Moment → Daemon → Daemon × Response
connect at d = if is_some d.mqtt then (d, done) else start_session at d d.config

-- Disconnect the broker session.
unfoldable pub disconnect : Daemon → Daemon
disconnect d = record d { mqtt = none }

abbrev broker_of : Config → Text
broker_of cfg =
    if cfg.broker_host == [] then [] else cfg.broker_host ++ lit ":" ++ decimal cfg.broker_port

unfoldable pub status : Env → Daemon → StatusInfo
status env d =
    let cfg = config_of d in
    record {
      identity = some d.identity.name;
      fingerprint = some (fingerprint env d.identity.public_key);
      broker = broker_of cfg;
      connected = is_connected d;
      topics = cfg.topics;
      stored = message_count d.db;
      rejected = rejection_count d.db;
      pending_out = length (pending_outbound d.db);
      known_agents = length (Trust.list env (trust_of d));
      ipc_proto = ipc_proto_version;
      presence = list_presence d.db;
      allow_unsigned = cfg.allow_unsigned;
      accept_v1 = cfg.accept_v1;
      require_encryption = cfg.require_encryption;
      auto_receipts = cfg.auto_receipts;
    }

-- Capabilities of the handshake.
abbrev pub caps : List Text
caps =
    lit "send"
    ∷ lit "subscribe"
    ∷ lit "transcript"
    ∷ lit "rejections"
    ∷ lit "consumers"
    ∷ lit "receipts"
    ∷ lit "reply"
    ∷ lit "presence"
    ∷ lit "grants"
    ∷ lit "encryption"
    ∷ lit "unsigned"
    ∷ []

abbrev one_or_none : Option StoredMsg → List StoredMsg
one_or_none none = []
one_or_none (some m) = m ∷ []

-- Outbound delivery and read state, optionally for one id.
unfoldable pub receipts : Daemon → Option Text → ℤ → Option Text → Response
receipts d (some id) limit state = messages (one_or_none (get_message d.db id)) none
receipts d none limit state = messages (outbound_receipts d.db limit state) none

-- The hello is queued, or that fails, and published at once where the broker is up.
abbrev pub hello_queued : Moment → Daemon → Text → Text → Bytes → Option Error → Daemon × Response
hello_queued at d id topic payload (some e) = (d, failure (error_text e))
hello_queued at d id topic payload none =
    let queued = with_db d (enqueue_outbound d.db (outbound id topic payload)) in
    if is_connected d && at.publish_ok
    then (publish_on queued topic payload false, done)
    else (queued, done)

abbrev pub queue_hello :
    Env → Moment → Daemon → Text → Result RejectReason (Inner × Wrapper) → Daemon × Response
queue_hello env at d topic (err reason) = (d, failure (reason_text reason))
queue_hello env at d topic (ok (inner, w)) =
    hello_queued at d inner.id topic (to_bytes env w) at.queue_error

abbrev pub hello_on : Env → Moment → Daemon → Result Text Text → Daemon × Response
hello_on env at d (err e) = (d, failure e)
hello_on env at d (ok topic) = queue_hello env at d topic (build_pair env d.identity at.fresh)

-- Broadcast a self-signed pairing hello on the chosen or the primary topic.
unfoldable pub pair_start : Env → Moment → Daemon → Option Text → Daemon × Response
pair_start env at d topic = hello_on env at d (choose_topic (config_of d) topic)

abbrev view : Env → PendingPair → PendingPairView
view env p = record {
  name = p.name;
  fingerprint = fingerprint env p.public_key;
  sas = p.sas;
  kem = is_some p.kem_public_key;
}

-- The peers that await a confirmation, by name.
unfoldable pub pair_list : Env → Daemon → Response
pair_list env d = pairs (map (λ (entry : Text × PendingPair). view env entry.1) d.pending)

-- A save that fails may have cut the file.
abbrev pub saved_pair : Env → Moment → Daemon → TrustStore → Text → Option Error → Daemon × Response
saved_pair env at d trust name none =
    (record d { trust = ok trust; pending = remove name d.pending }, done)
saved_pair env at d trust name (some e) =
    (record d { trust = trust_from env at.torn }, failure (error_text e))

abbrev pub trust_pair :
    Env → Moment → Daemon → Text → PendingPair → Result Error TrustStore → Daemon × Response
trust_pair env at d name entry (err e) = (d, failure (error_text e))
trust_pair env at d name entry (ok trust) =
    saved_pair env at d (add_with_kem env trust entry.name entry.public_key entry.kem_public_key)
      name at.save_error

abbrev pub confirm_entry : Env → Moment → Daemon → Text → Option PendingPair → Daemon × Response
confirm_entry env at d name none = (d, failure (lit "no pending pairing for '" ++ name ++ lit "'"))
confirm_entry env at d name (some entry) = trust_pair env at d name entry d.trust

-- Confirm a pending peer into the trust store, with both its keys.
unfoldable pub pair_confirm : Env → Moment → Daemon → Text → Daemon × Response
pair_confirm env at d name = confirm_entry env at d name (lookup name d.pending)

-- Advance the cursor, and send a read receipt.
unfoldable pub acknowledge : Env → Moment → Daemon → Text → ℤ → Daemon
acknowledge env at d consumer seq =
    maybe_read_receipt env at (with_db d (Queue.ack d.db at.now_text consumer seq)) seq

abbrev pub acknowledged : Env → Moment → Daemon → Text → ℤ → Option Error → Daemon × Response
acknowledged env at d consumer seq (some e) = (d, failure (error_text e))
acknowledged env at d consumer seq none = (acknowledge env at d consumer seq, done)

-- One request; `version` is that of the build. `Shutdown` is answered and ends the process.
unfoldable pub handle : Env → Text → Moment → Daemon → Request → Daemon × Response
handle env version at d Request.ping = (d, pong)
handle env version at d Request.status = (d, status_is (status env d))
handle env version at d (Request.hello _) = (d, hello_is ipc_proto_version version caps)
handle env version at d Request.connect = connect at d
handle env version at d Request.disconnect = (disconnect d, done)
handle env version at d Request.shutdown = (d, done)
handle env version at d (Request.send p) = send env at d p
handle env version at d (Request.read consumer limit) =
    (d, messages (read_after_cursor d.db consumer limit) none)
handle env version at d (Request.ack consumer seq) = acknowledged env at d consumer seq at.ack_error
handle env version at d (Request.browse limit from to) =
    (d, messages (browse d.db limit from to (lit "in")) none)
handle env version at d (Request.transcript limit from to peer) =
    (d, messages (transcript d.db limit from to peer) none)
handle env version at d (Request.rejections limit reason since) =
    (d, rejections_are (list_rejections d.db limit reason since))
handle env version at d Request.consumers = (d, consumers_are (consumers d.db))
handle env version at d (Request.receipts id limit state) = (d, receipts d id limit state)
handle env version at d (Request.reply msg_id ctype body) = reply env at d msg_id ctype body
handle env version at d (Request.presence state ttl_secs detail) =
    presence env at d state ttl_secs detail
handle env version at d Request.presence_list = (d, presence_is (list_presence d.db))
handle env version at d (Request.pair_start topic) = pair_start env at d topic
handle env version at d Request.pair_list = (d, pair_list env d)
handle env version at d (Request.pair_confirm name) = pair_confirm env at d name
handle env version at d (Request.subscribe _ _) =
    (d, failure (lit "subscribe must be served as a stream"))

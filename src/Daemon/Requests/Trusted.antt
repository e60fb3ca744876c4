-- ===== src/Daemon/Requests/Trusted.antt =====
-- How a key becomes trusted by src/daemon.rs: by the confirmation of a pending pairing only.
use agent_mqtt_chat.Ipc.{Response, failure}
use agent_mqtt_chat.Files.{trust_from}
use agent_mqtt_chat.Errors.Display.{error_text}
use agent_mqtt_chat.Base.{
  Text, ◌≡◌, refl, ◌&&◌, Option, none, some, Result, ok, err, ◌⊎◌, inl, inr, Bool-cases,
  Option-cases, Result-cases, lookup, is_some, arith, ℤ, ◌==◌, text_eq, not,
}
use agent_mqtt_chat.External.{Env}
use agent_mqtt_chat.Errors.{Error, RejectReason}
use agent_mqtt_chat.Config.{Config, is_connectable, primary_topic}
use agent_mqtt_chat.Wire.Types.{Inner, Wrapper, broadcast}
use agent_mqtt_chat.Message.Build.{build_pair}
use agent_mqtt_chat.Trust.{TrustStore, add_with_kem}
use agent_mqtt_chat.Store.Types.{StoredMsg, is_in}
use agent_mqtt_chat.Store.Messages.{get_message, message_by_seq}
use agent_mqtt_chat.Mqtt.{MqttOptions, session_options}
use agent_mqtt_chat.Ipc.{Request}
use agent_mqtt_chat.Daemon.State.{Daemon, Moment, PendingPair, is_connected, config_of}
use agent_mqtt_chat.Daemon.Outgoing.{
  send, committed, commit, prepare, reply, presence, maybe_read_receipt, read_receipt_for,
  choose_topic,
}
use agent_mqtt_chat.Daemon.Requests.{
  handle, connect, start_session, started, client_id, disconnect, pair_start, hello_on, queue_hello,
  pair_confirm, acknowledge, acknowledged,
}

-- A pending pairing was confirmed: its keys are added under its name.
pub record IsConfirmed (env : Env) (d : Daemon) (req : Request) (d' : Daemon) : Type 0 where
  pub name : Text
  pub entry : PendingPair
  pub old : TrustStore
  pub request : req ≡ Request.pair_confirm name
  pub awaited : lookup name d.pending ≡ some entry
  pub loaded : d.trust ≡ ok old
  pub added : d'.trust ≡ ok (add_with_kem env old entry.name entry.public_key entry.kem_public_key)

-- A pending pairing was confirmed, and the trust file could not be saved: the answer says so, the pairing
-- stays pending, and the keys are those of whatever is left of the file.
pub record IsTorn (env : Env) (at : Moment) (d : Daemon) (req : Request) (r : Daemon × Response)
    : Type 0 where
  pub name : Text
  pub entry : PendingPair
  pub error : Error
  pub request : req ≡ Request.pair_confirm name
  pub awaited : lookup name d.pending ≡ some entry
  pub unsaved : at.save_error ≡ some error
  pub answered : r.1 ≡ failure (error_text error)
  pub left : r.0 ≡ record d { trust = trust_from env at.torn }

committed-trust :
    (env : Env) (at : Moment) (d : Daemon) (r : Result Text ((Inner × Wrapper) × Text))
    → (committed env at d r).0.trust ≡ d.trust
unfolding commit
committed-trust env at d (err e) = refl
committed-trust env at d (ok ((inner, w), topic)) = elim (Option-cases at.queue_error) [
  | inr (e', e) ↦ rw e refl
  | inl e ↦ rw e (elim (Bool-cases (is_connected d && at.publish_ok)) [
    | inl e' ↦ rw e' refl
    | inr e' ↦ rw e' refl
  ])
]

reply-trust :
    (env : Env) (at : Moment) (d : Daemon) (msg_id ctype body : Text)
    → (reply env at d msg_id ctype body).0.trust ≡ d.trust
unfolding reply send
reply-trust env at d msg_id ctype body = elim (Option-cases (get_message d.db msg_id)) [
  | inl e ↦ rw (reply, e) refl
  | inr (m, e) ↦ rw (reply, e) (committed-trust env at d (prepare env d at.fresh _))
]

presence-trust :
    (env : Env) (at : Moment) (d : Daemon) (state : Text) (ttl : Option ℤ) (detail : Option Text)
    → (presence env at d state ttl detail).0.trust ≡ d.trust
unfolding presence
presence-trust env at d state ttl detail = elim (Option-cases (primary_topic (config_of d))) [
  | inl e ↦ rw (presence, e) refl
  | inr (m, e) ↦ rw (presence, e) refl
]

started-trust : (d : Daemon) (r : Result Error MqttOptions) → (started d r).0.trust ≡ d.trust
started-trust d (ok opts) = refl
started-trust d (err e) = refl

start_session-trust :
    (at : Moment) (d : Daemon) (r : Result Error Config) → (start_session at d r).0.trust ≡ d.trust
start_session-trust at d (err e) = refl
start_session-trust at d (ok cfg) = elim (Bool-cases (is_connectable cfg)) [
  | inl e ↦ rw e (started-trust d (session_options cfg (client_id at d)))
  | inr e ↦ rw e refl
]

connect-trust : (at : Moment) (d : Daemon) → (connect at d).0.trust ≡ d.trust
unfolding connect
connect-trust at d = elim (Bool-cases (is_some d.mqtt)) [
  | inl e ↦ rw e refl
  | inr e ↦ rw e (start_session-trust at d d.config)
]

queue_hello-trust :
    (env : Env) (at : Moment) (d : Daemon) (topic : Text)
    (r : Result RejectReason (Inner × Wrapper))
    → (queue_hello env at d topic r).0.trust ≡ d.trust
queue_hello-trust env at d topic (err e) = refl
queue_hello-trust env at d topic (ok (inner, w)) = elim (Option-cases at.queue_error) [
  | inr (e', e) ↦ rw e refl
  | inl e ↦ rw e (elim (Bool-cases (is_connected d && at.publish_ok)) [
    | inl e' ↦ rw e' refl
    | inr e' ↦ rw e' refl
  ])
]

hello_on-trust :
    (env : Env) (at : Moment) (d : Daemon) (r : Result Text Text)
    → (hello_on env at d r).0.trust ≡ d.trust
hello_on-trust env at d (err e) = refl
hello_on-trust env at d (ok topic) =
    queue_hello-trust env at d topic (build_pair env d.identity at.fresh)

read_receipt_for-trust :
    (env : Env) (at : Moment) (d : Daemon) (m : Option StoredMsg)
    → (read_receipt_for env at d m).trust ≡ d.trust
read_receipt_for-trust env at d none = refl
read_receipt_for-trust env at d (some m) =
    elim (Bool-cases (is_in m.direction && (m.to == d.identity.name && not (m.to == broadcast)))) [
      | inl e ↦ rw e refl
      | inr e ↦ rw e refl
    ]

maybe_read_receipt-trust :
    (env : Env) (at : Moment) (d : Daemon) (seq : ℤ)
    → (maybe_read_receipt env at d seq).trust ≡ d.trust
unfolding maybe_read_receipt
maybe_read_receipt-trust env at d seq = elim (Bool-cases (config_of d).auto_receipts) [
  | inl e ↦ rw e (read_receipt_for-trust env at d (message_by_seq d.db seq))
  | inr e ↦ rw e refl
]

acknowledge-trust :
    (env : Env) (at : Moment) (d : Daemon) (consumer : Text) (seq : ℤ)
    → (acknowledge env at d consumer seq).trust ≡ d.trust
unfolding acknowledge
acknowledge-trust env at d consumer seq = maybe_read_receipt-trust env at _ seq

acknowledged-trust :
    (env : Env) (at : Moment) (d : Daemon) (consumer : Text) (seq : ℤ) (o : Option Error)
    → (acknowledged env at d consumer seq o).0.trust ≡ d.trust
acknowledged-trust env at d consumer seq none = acknowledge-trust env at d consumer seq
acknowledged-trust env at d consumer seq (some e) = refl

-- The outcome of a confirmation for the trusted keys.
abbrev pub TrustOutcome : Env → Moment → Daemon → Request → Daemon × Response → Type 0
TrustOutcome env at d req r =
    (r.0.trust ≡ d.trust) ⊎ IsConfirmed env d req r.0 ⊎ IsTorn env at d req r

pair_confirm-TrustOutcome :
    (env : Env) (at : Moment) (d : Daemon) (name : Text)
    → TrustOutcome env at d (Request.pair_confirm name) (pair_confirm env at d name)
unfolding pair_confirm
pair_confirm-TrustOutcome env at d name = elim (Option-cases (lookup name d.pending)) [
  | inl e ↦ rw e (inl refl)
  | inr (entry, e) ↦ elim (Result-cases d.trust) [
    | inr (_, e') ↦ inl (ground arith)
    | inl (old, e') ↦ elim (Option-cases at.save_error) [
      | inr (error, e'') ↦ inr (
          inr (record {
            name = name;
            entry = entry;
            error = error;
            request = refl;
            awaited = e;
            unsaved = e'';
            answered = ground arith;
            left = ground arith;
          }))
      | inl e'' ↦ inr (
          inl (record {
            name = name;
            entry = entry;
            old = old;
            request = refl;
            awaited = e;
            loaded = e';
            added = ground arith;
          }))
    ]
  ]
]

-- No request changes the trusted keys but the confirmation of a pairing that is pending, and that
-- adds the keys of the pending entry, under its name, to those that were trusted, or, where the trust
-- file cannot be saved, fails and leaves the keys of what is left of the file.
pub handle-TrustOutcome :
    (env : Env) (version : Text) (at : Moment) (d : Daemon) (req : Request)
    → TrustOutcome env at d req (handle env version at d req)
unfolding handle send disconnect pair_start
handle-TrustOutcome env version at d Request.ping = inl refl
handle-TrustOutcome env version at d Request.status = inl refl
handle-TrustOutcome env version at d (Request.hello _) = inl refl
handle-TrustOutcome env version at d Request.connect = inl (connect-trust at d)
handle-TrustOutcome env version at d Request.disconnect = inl refl
handle-TrustOutcome env version at d Request.shutdown = inl refl
handle-TrustOutcome env version at d (Request.send p) =
    inl (committed-trust env at d (prepare env d at.fresh p))
handle-TrustOutcome env version at d (Request.read consumer limit) = inl refl
handle-TrustOutcome env version at d (Request.ack consumer seq) =
    inl (acknowledged-trust env at d consumer seq at.ack_error)
handle-TrustOutcome env version at d (Request.browse limit from to) = inl refl
handle-TrustOutcome env version at d (Request.transcript limit from to peer) = inl refl
handle-TrustOutcome env version at d (Request.rejections limit reason since) = inl refl
handle-TrustOutcome env version at d Request.consumers = inl refl
handle-TrustOutcome env version at d (Request.receipts id limit state) = inl refl
handle-TrustOutcome env version at d (Request.reply msg_id ctype body) =
    inl (reply-trust env at d msg_id ctype body)
handle-TrustOutcome env version at d (Request.presence state ttl detail) =
    inl (presence-trust env at d state ttl detail)
handle-TrustOutcome env version at d Request.presence_list = inl refl
handle-TrustOutcome env version at d (Request.pair_start topic) =
    inl (hello_on-trust env at d (choose_topic (config_of d) topic))
handle-TrustOutcome env version at d Request.pair_list = inl refl
handle-TrustOutcome env version at d (Request.pair_confirm name) =
    pair_confirm-TrustOutcome env at d name
handle-TrustOutcome env version at d (Request.subscribe _ _) = inl refl

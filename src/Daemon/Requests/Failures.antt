-- ===== src/Daemon/Requests/Failures.antt =====
-- The error answers of src/daemon.rs, and what they leave.
use agent_mqtt_chat.Files.{trust_from}
use agent_mqtt_chat.Base.{
  Text, ◌≡◌, refl, ◌&&◌, ◌||◌, Bool, true, false, Option, none, some, Result, ok, err, ◌⊎◌, inl,
  inr, Bool-cases, Option-cases, Result-cases, lookup, is_some, arith, ℤ,
}
use agent_mqtt_chat.External.{Env}
use agent_mqtt_chat.Errors.{Error, RejectReason}
use agent_mqtt_chat.Config.{Config, is_connectable, primary_topic}
use agent_mqtt_chat.Wire.Types.{Inner, Wrapper}
use agent_mqtt_chat.Message.Build.{build_pair}
use agent_mqtt_chat.Store.Messages.{get_message}
use agent_mqtt_chat.Mqtt.{MqttOptions, session_options}
use agent_mqtt_chat.Ipc.{
  Request, Response, pong, done, status_is, hello_is, sent, messages, rejections_are, consumers_are,
  presence_is, pairs, failure,
}
use agent_mqtt_chat.Daemon.State.{Daemon, Moment, is_connected, config_of, with_db}
use agent_mqtt_chat.Daemon.Outgoing.{
  send, committed, commit, logged, prepare, reply, presence, choose_topic,
}
use agent_mqtt_chat.Daemon.Requests.{
  handle, connect, start_session, started, client_id, disconnect, pair_start, hello_on, queue_hello,
  pair_confirm, acknowledged,
}

abbrev pub is_failure : Response → Bool
is_failure (failure _) = true
is_failure pong = false
is_failure done = false
is_failure (status_is _) = false
is_failure (hello_is _ _ _) = false
is_failure (sent _ _) = false
is_failure (messages _ _) = false
is_failure (rejections_are _) = false
is_failure (consumers_are _) = false
is_failure (presence_is _) = false
is_failure (pairs _) = false

-- The requests that ask for something only.
abbrev pub is_query : Request → Bool
is_query Request.connect = false
is_query Request.disconnect = false
is_query (Request.send _) = false
is_query (Request.ack _ _) = false
is_query (Request.reply _ _ _) = false
is_query (Request.presence _ _ _) = false
is_query (Request.pair_start _) = false
is_query (Request.pair_confirm _) = false
is_query Request.ping = true
is_query Request.status = true
is_query Request.consumers = true
is_query Request.presence_list = true
is_query Request.pair_list = true
is_query Request.shutdown = false
is_query (Request.hello _) = true
is_query (Request.read _ _) = true
is_query (Request.subscribe _ _) = true
is_query (Request.browse _ _ _) = true
is_query (Request.transcript _ _ _ _) = true
is_query (Request.rejections _ _ _) = true
is_query (Request.receipts _ _ _) = true

-- What a failure may leave: the daemon as it was; or, where the outbox refused a message, that message
-- in the log, unless the log refused it too; or, where the trust file could not be saved, the keys of
-- what is left of it.
abbrev pub IsLeft : Env → Moment → Daemon → Daemon → Type 0
IsLeft env at d d' =
    (d' ≡ d)
    ⊎ ((e : Error) × (inner : Inner) × (topic : Text) × (at.queue_error ≡ some e)
        × (d' ≡ with_db d (logged at.log_fails d.db inner topic)))
    ⊎ ((e : Error) × (at.save_error ≡ some e) × (d' ≡ record d { trust = trust_from env at.torn }))

abbrev IsClean : Env → Moment → Daemon → Daemon × Response → Type 0
IsClean env at d r = IsLeft env at d r.0 ⊎ (is_failure r.1 ≡ false)

committed-IsClean :
    (env : Env) (at : Moment) (d : Daemon) (r : Result Text ((Inner × Wrapper) × Text))
    → IsClean env at d (committed env at d r)
unfolding commit
committed-IsClean env at d (err e) = inl (inl refl)
committed-IsClean env at d (ok ((inner, w), topic)) = elim (Option-cases at.queue_error) [
  | inr (e', e) ↦ inl (inr (inl (e', inner, topic, e, rw e refl)))
  | inl e ↦ elim (Bool-cases (is_connected d && at.publish_ok)) [
    | inl e' ↦ inr (rw (e, e') refl)
    | inr e' ↦ inr (rw (e, e') refl)
  ]
]

reply-IsClean :
    (env : Env) (at : Moment) (d : Daemon) (msg_id ctype body : Text)
    → IsClean env at d (reply env at d msg_id ctype body)
unfolding reply send
reply-IsClean env at d msg_id ctype body = elim (Option-cases (get_message d.db msg_id)) [
  | inl e ↦ rw (reply, e) (inl (inl refl))
  | inr (m, e) ↦ rw (reply, e) (committed-IsClean env at d (prepare env d at.fresh _))
]

presence-IsClean :
    (env : Env) (at : Moment) (d : Daemon) (state : Text) (ttl : Option ℤ) (detail : Option Text)
    → IsClean env at d (presence env at d state ttl detail)
unfolding presence
presence-IsClean env at d state ttl detail = elim (Option-cases (primary_topic (config_of d))) [
  | inl e ↦ rw (presence, e) (inl (inl refl))
  | inr (m, e) ↦ rw (presence, e) (inr refl)
]

started-IsClean :
    (env : Env) (at : Moment) (d : Daemon) (r : Result Error MqttOptions)
    → IsClean env at d (started d r)
started-IsClean env at d (ok opts) = inr refl
started-IsClean env at d (err e) = inl (inl refl)

start_session-IsClean :
    (env : Env) (at : Moment) (d : Daemon) (r : Result Error Config)
    → IsClean env at d (start_session at d r)
start_session-IsClean env at d (err e) = inl (inl refl)
start_session-IsClean env at d (ok cfg) = elim (Bool-cases (is_connectable cfg)) [
  | inr e ↦ rw e (inl (inl refl))
  | inl e ↦ rw e (started-IsClean env at d (session_options cfg (client_id at d)))
]

connect-IsClean : (env : Env) (at : Moment) (d : Daemon) → IsClean env at d (connect at d)
unfolding connect
connect-IsClean env at d = elim (Bool-cases (is_some d.mqtt)) [
  | inl e ↦ rw e (inl (inl refl))
  | inr e ↦ rw e (start_session-IsClean env at d d.config)
]

queue_hello-IsClean :
    (env : Env) (at : Moment) (d : Daemon) (topic : Text)
    (r : Result RejectReason (Inner × Wrapper))
    → IsClean env at d (queue_hello env at d topic r)
queue_hello-IsClean env at d topic (err e) = inl (inl refl)
queue_hello-IsClean env at d topic (ok (inner, w)) = elim (Option-cases at.queue_error) [
  | inr (e', e) ↦ inl (inl (rw e refl))
  | inl e ↦ elim (Bool-cases (is_connected d && at.publish_ok)) [
    | inl e' ↦ inr (rw (e, e') refl)
    | inr e' ↦ inr (rw (e, e') refl)
  ]
]

hello_on-IsClean :
    (env : Env) (at : Moment) (d : Daemon) (r : Result Text Text)
    → IsClean env at d (hello_on env at d r)
hello_on-IsClean env at d (err e) = inl (inl refl)
hello_on-IsClean env at d (ok topic) =
    queue_hello-IsClean env at d topic (build_pair env d.identity at.fresh)

pair_confirm-IsClean :
    (env : Env) (at : Moment) (d : Daemon) (name : Text)
    → IsClean env at d (pair_confirm env at d name)
unfolding pair_confirm
pair_confirm-IsClean env at d name = elim (Option-cases (lookup name d.pending)) [
  | inl e ↦ rw e (inl (inl refl))
  | inr (entry, e) ↦ elim (Result-cases d.trust) [
    | inr (_, e') ↦ inl (inl (ground arith))
    | inl (old, e') ↦ elim (Option-cases at.save_error) [
      | inr (error, e'') ↦ inl (inr (inr (error, e'', ground arith)))
      | inl e'' ↦ inr (ground arith)
    ]
  ]
]

acknowledged-IsClean :
    (env : Env) (at : Moment) (d : Daemon) (consumer : Text) (seq : ℤ) (o : Option Error)
    → IsClean env at d (acknowledged env at d consumer seq o)
acknowledged-IsClean env at d consumer seq none = inr refl
acknowledged-IsClean env at d consumer seq (some e) = inl (inl refl)

clean_of :
    (env : Env) (at : Moment) (d : Daemon) (r : Daemon × Response)
    → IsClean env at d r
    → is_failure r.1 ≡ true
    → IsLeft env at d r.0
clean_of env at d r (inl e) h = e
clean_of env at d r (inr e) h = cc

-- What a request leaves that is a question, or else that fails.
abbrev pub Leaves : Bool → Env → Moment → Daemon → Daemon → Type 0
Leaves true env at d d' = d' ≡ d
Leaves false env at d d' = IsLeft env at d d'

pub handle-Leaves :
    (env : Env) (version : Text) (at : Moment) (d : Daemon) (req : Request)
    → (is_failure (handle env version at d req).1 || is_query req) ≡ true
    → Leaves (is_query req) env at d (handle env version at d req).0
unfolding handle send disconnect pair_start
handle-Leaves env version at d Request.ping h = refl
handle-Leaves env version at d Request.status h = refl
handle-Leaves env version at d (Request.hello _) h = refl
handle-Leaves env version at d Request.connect h =
    clean_of env at d _ (connect-IsClean env at d) (ground arith)
handle-Leaves env version at d Request.disconnect h = inl cc
handle-Leaves env version at d Request.shutdown h = inl refl
handle-Leaves env version at d (Request.send p) h =
    clean_of env at d _ (committed-IsClean env at d (prepare env d at.fresh p)) (ground arith)
handle-Leaves env version at d (Request.read consumer limit) h = refl
handle-Leaves env version at d (Request.ack consumer seq) h =
    clean_of env at d _ (acknowledged-IsClean env at d consumer seq at.ack_error) (ground arith)
handle-Leaves env version at d (Request.browse limit from to) h = refl
handle-Leaves env version at d (Request.transcript limit from to peer) h = refl
handle-Leaves env version at d (Request.rejections limit reason since) h = refl
handle-Leaves env version at d Request.consumers h = refl
handle-Leaves env version at d (Request.receipts id limit state) h = refl
handle-Leaves env version at d (Request.reply msg_id ctype body) h =
    clean_of env at d _ (reply-IsClean env at d msg_id ctype body) (ground arith)
handle-Leaves env version at d (Request.presence state ttl detail) h =
    clean_of env at d _ (presence-IsClean env at d state ttl detail) (ground arith)
handle-Leaves env version at d Request.presence_list h = refl
handle-Leaves env version at d (Request.pair_start topic) h =
    clean_of env at d _ (hello_on-IsClean env at d (choose_topic (config_of d) topic))
      (ground arith)
handle-Leaves env version at d Request.pair_list h = refl
handle-Leaves env version at d (Request.pair_confirm name) h =
    clean_of env at d _ (pair_confirm-IsClean env at d name) (ground arith)
handle-Leaves env version at d (Request.subscribe _ _) h = refl

no_fault_left :
    (env : Env) (at : Moment) (d : Daemon) (q : Bool) (d' : Daemon)
    → at.queue_error ≡ none
    → at.save_error ≡ none
    → Leaves q env at d d'
    → d' ≡ d
no_fault_left env at d true d' queue save e = e
no_fault_left env at d false d' queue save (inl e) = e
no_fault_left env at d false d' queue save (inr (inl (e, inner, topic, h, left))) = cc
no_fault_left env at d false d' queue save (inr (inr (e, h, left))) = cc

-- Where the outbox and the trust file take what is written, there is no exception.
pub handle_unchanged :
    (env : Env) (version : Text) (at : Moment) (d : Daemon) (req : Request)
    → at.queue_error ≡ none
    → at.save_error ≡ none
    → (is_failure (handle env version at d req).1 || is_query req) ≡ true
    → (handle env version at d req).0 ≡ d
handle_unchanged env version at d req queue save h =
    no_fault_left env at d (is_query req) _ queue save (handle-Leaves env version at d req h)

-- ===== src/Daemon/System/Requests.antt =====
-- The requests of src/daemon.rs keep the invariant of the daemon.
use agent_mqtt_chat.Base.{
  Text, text_eq, false, Option, none, some, Result, ok, err, Bool-cases, inl, inr, is_some, lookup,
}
use agent_mqtt_chat.External.{Env}
use agent_mqtt_chat.Errors.{Error}
use agent_mqtt_chat.Config.{Config, is_connectable}
use agent_mqtt_chat.Mqtt.{MqttOptions, session_options}
use agent_mqtt_chat.Trust.{TrustStore}
use agent_mqtt_chat.Message.Build.{build_pair}
use agent_mqtt_chat.Ipc.{Request}
use agent_mqtt_chat.Daemon.State.{Daemon, Moment, PendingPair, config_of}
use agent_mqtt_chat.Daemon.Invariant.{IsSound, All-remove, IsPending}
use agent_mqtt_chat.Daemon.Outgoing.{send, prepare, choose_topic}
use agent_mqtt_chat.Daemon.Requests.{
  handle, connect, start_session, started, client_id, disconnect, pair_start, hello_on,
  pair_confirm, saved_pair, trust_pair, confirm_entry,
}
use agent_mqtt_chat.Daemon.System.Mail.{
  same_parts, committed-IsSound, reply-IsSound, presence-IsSound, queue_hello-IsSound,
  acknowledged-IsSound,
}

started-IsSound :
    (env : Env) (d : Daemon) (r : Result Error MqttOptions)
    → IsSound env d
    → IsSound env (started d r).0
started-IsSound env d (ok opts) h = same_parts env d (some false) h
started-IsSound env d (err e) h = h

start_session-IsSound :
    (env : Env) (at : Moment) (d : Daemon) (r : Result Error Config)
    → IsSound env d
    → IsSound env (start_session at d r).0
start_session-IsSound env at d (err e) h = h
start_session-IsSound env at d (ok cfg) h = elim (Bool-cases (is_connectable cfg)) [
  | inl e ↦ rw e (started-IsSound env d (session_options cfg (client_id at d)) h)
  | inr e ↦ rw e h
]

connect-IsSound :
    (env : Env) (at : Moment) (d : Daemon) → IsSound env d → IsSound env (connect at d).0
unfolding connect
connect-IsSound env at d h = elim (Bool-cases (is_some d.mqtt)) [
  | inl e ↦ rw e h
  | inr e ↦ rw e (start_session-IsSound env at d d.config h)
]

hello_on-IsSound :
    (env : Env) (at : Moment) (d : Daemon) (r : Result Text Text)
    → IsSound env d
    → IsSound env (hello_on env at d r).0
hello_on-IsSound env at d (err e) h = h
hello_on-IsSound env at d (ok topic) h =
    queue_hello-IsSound env at d topic (build_pair env d.identity at.fresh) h

saved_pair-IsSound :
    (env : Env) (at : Moment) (d : Daemon) (trust : TrustStore) (name : Text) (e : Option Error)
    → IsSound env d
    → IsSound env (saved_pair env at d trust name e).0
saved_pair-IsSound env at d trust name none h = record {
  store = h.store;
  awaited = All-remove (IsPending env d.identity) name d.pending h.awaited;
  registered = h.registered;
}
saved_pair-IsSound env at d trust name (some e) h = record {
  store = h.store;
  awaited = h.awaited;
  registered = h.registered;
}

trust_pair-IsSound :
    (env : Env) (at : Moment) (d : Daemon) (name : Text) (entry : PendingPair)
    (r : Result Error TrustStore)
    → IsSound env d
    → IsSound env (trust_pair env at d name entry r).0
trust_pair-IsSound env at d name entry (err e) h = h
trust_pair-IsSound env at d name entry (ok old) h =
    saved_pair-IsSound env at d _ name at.save_error h

confirm_entry-IsSound :
    (env : Env) (at : Moment) (d : Daemon) (name : Text) (entry : Option PendingPair)
    → IsSound env d
    → IsSound env (confirm_entry env at d name entry).0
confirm_entry-IsSound env at d name none h = h
confirm_entry-IsSound env at d name (some entry) h =
    trust_pair-IsSound env at d name entry d.trust h

-- Every request keeps the invariant of the daemon.
pub handle-IsSound :
    (env : Env) (version : Text) (at : Moment) (d : Daemon) (req : Request)
    → IsSound env d
    → IsSound env (handle env version at d req).0
unfolding handle send disconnect pair_start pair_confirm
handle-IsSound env version at d Request.ping h = h
handle-IsSound env version at d Request.status h = h
handle-IsSound env version at d (Request.hello _) h = h
handle-IsSound env version at d Request.connect h = connect-IsSound env at d h
handle-IsSound env version at d Request.disconnect h = same_parts env d none h
handle-IsSound env version at d Request.shutdown h = h
handle-IsSound env version at d (Request.send p) h =
    committed-IsSound env at d (prepare env d at.fresh p) h
handle-IsSound env version at d (Request.read consumer limit) h = h
handle-IsSound env version at d (Request.ack consumer seq) h =
    acknowledged-IsSound env at d consumer seq at.ack_error h
handle-IsSound env version at d (Request.browse limit from to) h = h
handle-IsSound env version at d (Request.transcript limit from to peer) h = h
handle-IsSound env version at d (Request.rejections limit reason since) h = h
handle-IsSound env version at d Request.consumers h = h
handle-IsSound env version at d (Request.receipts id limit state) h = h
handle-IsSound env version at d (Request.reply msg_id ctype body) h =
    reply-IsSound env at d msg_id ctype body h
handle-IsSound env version at d (Request.presence state ttl detail) h =
    presence-IsSound env at d state ttl detail h
handle-IsSound env version at d Request.presence_list h = h
handle-IsSound env version at d (Request.pair_start topic) h =
    hello_on-IsSound env at d (choose_topic (config_of d) topic) h
handle-IsSound env version at d Request.pair_list h = h
handle-IsSound env version at d (Request.pair_confirm name) h =
    confirm_entry-IsSound env at d name (lookup name d.pending) h
handle-IsSound env version at d (Request.subscribe _ _) h = h

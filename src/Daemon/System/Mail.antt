-- ===== src/Daemon/System/Mail.antt =====
-- What src/daemon.rs sends, the pump and the heartbeat keep the invariant of the daemon.
use agent_mqtt_chat.Base.{Bytes, true, false}
use agent_mqtt_chat.Errors.{Error}
use agent_mqtt_chat.Base.{
  ℕ, Text, text_eq, ◌==◌, ◌&&◌, not, ℤ, eqb, Bool, Option, none, some, List, [], ◌∷◌, Result, ok,
  err, Bool-cases, Option-cases, inl, inr,
}
use agent_mqtt_chat.External.{Env}
use agent_mqtt_chat.Errors.{RejectReason}
use agent_mqtt_chat.Docs.{PresenceBeacon}
use agent_mqtt_chat.Config.{primary_topic}
use agent_mqtt_chat.Identity.{Identity}
use agent_mqtt_chat.Wire.Types.{Inner, Wrapper, broadcast, ctype_presence, read}
use agent_mqtt_chat.Wire.Codec.{to_bytes}
use agent_mqtt_chat.Message.Build.{Fresh, new_opts, build}
use agent_mqtt_chat.Store.Types.{Db, StoredMsg, Outbound, is_in}
use agent_mqtt_chat.Store.Queue
use agent_mqtt_chat.Store.Messages.{get_message, message_by_seq, insert_outbound_log}
use agent_mqtt_chat.Store.Outbox.{enqueue_outbound, pending_outbound}
use agent_mqtt_chat.Store.Outbox.Lifecycle.{broker_ack, react}
use agent_mqtt_chat.Store.Invariant.{IsValid}
use agent_mqtt_chat.Store.Invariant.Steps.{
  step, step-IsValid, log_message, enqueue, event, acknowledge,
}
use agent_mqtt_chat.Daemon.State.{Daemon, Moment, is_connected, config_of, with_db}
use agent_mqtt_chat.Daemon.Invariant.{IsSound, with_db-IsSound}
use agent_mqtt_chat.Daemon.Ingest.Sound.{enqueue_receipt-IsValid}
use agent_mqtt_chat.Daemon.Outgoing.{
  send, committed, commit, logged, marked, publish_queued, prepare, reply, presence,
  enqueue_presence, queue_only, maybe_read_receipt, read_receipt_for, outbound,
}
use agent_mqtt_chat.Daemon.Outgoing.Pump.{pump, flush}
use agent_mqtt_chat.Daemon.Requests
use agent_mqtt_chat.Daemon.Requests.{
  handle, connect, start_session, started, client_id, disconnect, pair_start, hello_on, queue_hello,
  pair_confirm, saved_pair, trust_pair, confirm_entry,
}
use agent_mqtt_chat.Daemon.Heartbeat.{heartbeat, beat_on}

enqueue-IsValid : (db : Db) (ob : Outbound) → IsValid db → IsValid (enqueue_outbound db ob)
enqueue-IsValid db ob v = unfold step in step-IsValid db (enqueue ob) v

log-IsValid :
    (db : Db) (inner : Inner) (topic : Text)
    → IsValid db
    → IsValid (insert_outbound_log db inner topic)
log-IsValid db inner topic v = unfold step in step-IsValid db (log_message inner topic) v

broker_ack-IsValid : (db : Db) (now id : Text) → IsValid db → IsValid (react db (broker_ack now id))
broker_ack-IsValid db now id v = unfold step in step-IsValid db (event (broker_ack now id)) v

-- The session and what is published are no part of the invariant.
pub same_parts :
    (env : Env) (d : Daemon) (mqtt : Option Bool)
    → IsSound env d
    → IsSound env (record d { mqtt = mqtt })
same_parts env d mqtt h = record { store = h.store; awaited = h.awaited; registered = h.registered }

logged-IsValid :
    (db : Db) (inner : Inner) (topic : Text) (fails : Bool)
    → IsValid db
    → IsValid (logged fails db inner topic)
logged-IsValid db inner topic true v = v
logged-IsValid db inner topic false v = log-IsValid db inner topic v

marked-IsValid :
    (db : Db) (now id : Text) (fails : Bool) → IsValid db → IsValid (marked fails db now id)
marked-IsValid db now id true v = v
marked-IsValid db now id false v = unfold react in broker_ack-IsValid db now id v

publish_queued-IsSound :
    (env : Env) (at : Moment) (d : Daemon) (db : Db) (id topic : Text) (payload : Bytes)
    → IsSound env d
    → IsValid db
    → IsSound env (publish_queued at d db id topic payload).0
publish_queued-IsSound env at d db id topic payload h v =
    elim (Bool-cases (is_connected d && at.publish_ok)) [
      | inr e ↦ rw e (with_db-IsSound env d _ h v)
      | inl e ↦ rw e (record {
        store = marked-IsValid db at.now_text id at.mark_fails v;
        awaited = h.awaited;
        registered = h.registered;
      })
    ]

pub committed-IsSound :
    (env : Env) (at : Moment) (d : Daemon) (r : Result Text ((Inner × Wrapper) × Text))
    → IsSound env d
    → IsSound env (committed env at d r).0
unfolding commit
committed-IsSound env at d (err e) h = h
committed-IsSound env at d (ok ((inner, w), topic)) h =
    let db = logged at.log_fails d.db inner topic in
    let in_log = logged-IsValid d.db inner topic at.log_fails h.store in
    elim (Option-cases at.queue_error) [
      | inr (e', e) ↦ rw e (with_db-IsSound env d db h in_log)
      | inl e ↦ rw e (
          publish_queued-IsSound env at d _ inner.id topic (to_bytes env w) h
            (enqueue-IsValid db (outbound inner.id topic (to_bytes env w)) in_log))
    ]

pub reply-IsSound :
    (env : Env) (at : Moment) (d : Daemon) (msg_id ctype body : Text)
    → IsSound env d
    → IsSound env (reply env at d msg_id ctype body).0
unfolding reply send
reply-IsSound env at d msg_id ctype body h = elim (Option-cases (get_message d.db msg_id)) [
  | inl e ↦ rw (reply, e) h
  | inr (m, e) ↦ rw (reply, e) (committed-IsSound env at d (prepare env d at.fresh _) h)
]

queue_only-IsValid :
    (env : Env) (db : Db) (topic : Text) (r : Result RejectReason (Inner × Wrapper))
    → IsValid db
    → IsValid (queue_only env db topic r)
queue_only-IsValid env db topic (err e) v = v
queue_only-IsValid env db topic (ok (inner, w)) v = enqueue-IsValid db _ v

enqueue_presence-IsValid :
    (env : Env) (id : Identity) (fresh : Fresh) (db : Db) (topic : Text) (b : PresenceBeacon)
    → IsValid db
    → IsValid (enqueue_presence env id fresh db topic b)
unfolding enqueue_presence
enqueue_presence-IsValid env id fresh db topic b v =
    queue_only-IsValid env db topic
      (build env id fresh (new_opts broadcast ctype_presence (env.presence_json.encode b))) v

pub presence-IsSound :
    (env : Env) (at : Moment) (d : Daemon) (state : Text) (ttl : Option ℤ) (detail : Option Text)
    → IsSound env d
    → IsSound env (presence env at d state ttl detail).0
unfolding presence
presence-IsSound env at d state ttl detail h = elim (Option-cases (primary_topic (config_of d))) [
  | inl e ↦ rw (presence, e) h
  | inr (topic, e) ↦
      rw (presence, e)
        (with_db-IsSound env d _ h
          (enqueue_presence-IsValid env d.identity at.fresh d.db topic _ h.store))
]

pub queue_hello-IsSound :
    (env : Env) (at : Moment) (d : Daemon) (topic : Text)
    (r : Result RejectReason (Inner × Wrapper))
    → IsSound env d
    → IsSound env (queue_hello env at d topic r).0
queue_hello-IsSound env at d topic (err e) h = h
queue_hello-IsSound env at d topic (ok (inner, w)) h =
    let queued-IsValid = enqueue-IsValid d.db (outbound inner.id topic (to_bytes env w)) h.store in
    elim (Option-cases at.queue_error) [
      | inr (e', e) ↦ rw e h
      | inl e ↦ rw e (elim (Bool-cases (is_connected d && at.publish_ok)) [
        | inr e' ↦ rw e' (with_db-IsSound env d _ h queued-IsValid)
        | inl e' ↦
            rw e'
              (record { store = queued-IsValid; awaited = h.awaited; registered = h.registered })
      ])
    ]

read_receipt_for-IsSound :
    (env : Env) (at : Moment) (d : Daemon) (m : Option StoredMsg)
    → IsSound env d
    → IsSound env (read_receipt_for env at d m)
read_receipt_for-IsSound env at d none h = h
read_receipt_for-IsSound env at d (some m) h =
    elim (Bool-cases (is_in m.direction && (m.to == d.identity.name && not (m.to == broadcast)))) [
      | inr e ↦ rw e h
      | inl e ↦ rw e (
          with_db-IsSound env d _ h
            (enqueue_receipt-IsValid env d.identity at.fresh d.db m.from m.id read m.topic h.store))
    ]

pub acknowledge-IsSound :
    (env : Env) (at : Moment) (d : Daemon) (consumer : Text) (seq : ℤ)
    → IsSound env d
    → IsSound env (Requests.acknowledge env at d consumer seq)
unfolding Requests.acknowledge maybe_read_receipt
acknowledge-IsSound env at d consumer seq h =
    let db = Queue.ack d.db at.now_text consumer seq in
    let acked : IsSound env (with_db d db) =
      with_db-IsSound env d db h
        (unfold step in step-IsValid d.db (acknowledge at.now_text consumer seq) h.store) in
    elim (Bool-cases (config_of d).auto_receipts) [
      | inl e ↦ rw e (read_receipt_for-IsSound env at (with_db d db) (message_by_seq db seq) acked)
      | inr e ↦ rw e acked
    ]

pub acknowledged-IsSound :
    (env : Env) (at : Moment) (d : Daemon) (consumer : Text) (seq : ℤ) (o : Option Error)
    → IsSound env d
    → IsSound env (Requests.acknowledged env at d consumer seq o).0
acknowledged-IsSound env at d consumer seq none h = acknowledge-IsSound env at d consumer seq h
acknowledged-IsSound env at d consumer seq (some e) h = h

beat_on-IsSound :
    (env : Env) (at : Moment) (d : Daemon) (secs : ℕ) (topic : Option Text)
    → IsSound env d
    → IsSound env (beat_on env at d secs topic)
beat_on-IsSound env at d secs none h = h
beat_on-IsSound env at d secs (some topic) h =
    with_db-IsSound env d _ h
      (enqueue_presence-IsValid env d.identity at.fresh d.db topic _ h.store)

pub heartbeat-IsSound :
    (env : Env) (at : Moment) (d : Daemon) → IsSound env d → IsSound env (heartbeat env at d)
unfolding heartbeat
heartbeat-IsSound env at d h = elim (Bool-cases (eqb (config_of d).heartbeat_secs 0)) [
  | inl e ↦ rw e h
  | inr e ↦
      rw e (beat_on-IsSound env at d (config_of d).heartbeat_secs (primary_topic (config_of d)) h)
]

flush-IsSound :
    (env : Env) (now : Text) (takes : Text → Bool) (obs : List Outbound) (d : Daemon)
    → IsSound env d
    → IsSound env (flush now takes obs d)
unfolding flush
flush-IsSound env now takes [] d h = h
flush-IsSound env now takes (ob ∷ obs) d h = elim (Bool-cases (takes ob.id)) [
  | inr e ↦ rw (flush, e) (flush-IsSound env now takes obs d h)
  | inl e ↦
      rw (flush, e)
        (flush-IsSound env now takes obs _ (record {
          store = unfold react in broker_ack-IsValid d.db now ob.id h.store;
          awaited = h.awaited;
          registered = h.registered;
        }))
]

pub pump-IsSound :
    (env : Env) (now : Text) (takes : Text → Bool) (d : Daemon)
    → IsSound env d
    → IsSound env (pump now takes d)
unfolding pump
pump-IsSound env now takes d h = elim (Bool-cases (is_connected d)) [
  | inl e ↦ rw e (flush-IsSound env now takes (pending_outbound d.db) d h)
  | inr e ↦ rw e h
]

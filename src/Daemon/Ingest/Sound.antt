-- ===== src/Daemon/Ingest/Sound.antt =====
-- The ingest path keeps the invariant of the daemon.
use agent_mqtt_chat.Base.{
  ℕ, Bytes, Text, lit, text_eq, ◌==◌, pos, not, ◌&&◌, ◌||◌, Option, none, some, Result, ok, err,
  refl, Bool-cases, Result-cases, inl, inr, lookup, is_some,
}
use agent_mqtt_chat.External.{Env}
use agent_mqtt_chat.Errors.{RejectReason, RejectInfo}
use agent_mqtt_chat.Docs.{PresenceBeacon, GrantClaims}
use agent_mqtt_chat.Wire.Types.{
  Inner, Wrapper, Receipt, ReceiptStatus, delivered, read, SignedGrant, is_receipt_kind,
  ctype_presence, ctype_pair, ctype_receipt, is_broadcast,
}
use agent_mqtt_chat.Wire.Codec.{from_bytes, to_bytes}
use agent_mqtt_chat.Identity.{Identity}
use agent_mqtt_chat.Pair.{PairHello, sas}
use agent_mqtt_chat.Grant.{verify_grant}
use agent_mqtt_chat.Message.Build.{Fresh, build}
use agent_mqtt_chat.Message.Verify.{verify_incoming}
use agent_mqtt_chat.Message.Pairing.{verify_pair}
use agent_mqtt_chat.Store.Types.{Db, StoredMsg}
use agent_mqtt_chat.Store.Messages.{insert_inbound, message_by_seq}
use agent_mqtt_chat.Store.Invariant.{IsValid}
use agent_mqtt_chat.Store.Invariant.Steps.{
  step, step-IsValid, insert_message, log_message, enqueue, event, reject, use_grant, beacon,
  evict_to,
}
use agent_mqtt_chat.Store.Outbox.Lifecycle.{delivery_receipt, read_receipt, react}
use agent_mqtt_chat.Daemon.State.{Daemon, Moment, PendingPair, config_of, trust_of, with_db}
use agent_mqtt_chat.Daemon.Invariant.{
  IsSound, IsPending, with_db-IsSound, All-insert, push_to_subscribers-Registered,
}
use agent_mqtt_chat.Daemon.Outgoing.{enqueue_receipt, log_and_queue, outbound, receipt_opts}
use agent_mqtt_chat.Daemon.Ingest.{
  use_claims, on_message, hello_or_verified, on_hello, outcome_of_hello, rejected, on_verified,
  outcome, on_accepted, on_beacon, beacon_update, on_receipt, by_status, on_plain, replay_guard,
  on_queued, inserted, streamed, auto_receipt, is_echo, peek, policy_of,
}

-- Message logging and queueing.
pub log_and_queue-IsValid :
    (env : Env) (db : Db) (topic : Text) (r : Result RejectReason (Inner × Wrapper))
    → IsValid db
    → IsValid (log_and_queue env db topic r)
log_and_queue-IsValid env db topic (err _) v = v
log_and_queue-IsValid env db topic (ok (inner, w)) v =
    unfold step in
    step-IsValid (step db (log_message inner topic))
      (enqueue (outbound inner.id topic (to_bytes env w)))
      (step-IsValid db (log_message inner topic) v)

pub enqueue_receipt-IsValid :
    (env : Env) (id : Identity) (fresh : Fresh) (db : Db) (to ref_id : Text)
    (status : ReceiptStatus) (topic : Text)
    → IsValid db
    → IsValid (enqueue_receipt env id fresh db to ref_id status topic)
unfolding enqueue_receipt
enqueue_receipt-IsValid env id fresh db to ref_id status topic v =
    log_and_queue-IsValid env db topic (build env id fresh (receipt_opts to ref_id status)) v

rejected-IsSound :
    (env : Env) (at : Moment) (d : Daemon) (reason : RejectReason) (sender : Option Text)
    (topic detail : Text)
    → IsSound env d
    → IsSound env (rejected at d reason sender topic detail)
rejected-IsSound env at d reason sender topic detail v =
    with_db-IsSound env d _ v
      (unfold step in step-IsValid d.db (reject at.now_text reason sender topic detail) v.store)

auto_receipt-IsSound :
    (env : Env) (at : Moment) (d : Daemon) (inner : Inner) (topic : Text)
    → IsSound env d
    → IsSound env (auto_receipt env at d inner topic)
unfolding auto_receipt
auto_receipt-IsSound env at d inner topic v =
    elim (Bool-cases
      ((config_of d).auto_receipts && (inner.to == d.identity.name && not (is_broadcast inner)))) [
        | inl e ↦ rw e (
            with_db-IsSound env d _ v (
              enqueue_receipt-IsValid env d.identity at.fresh d.db inner.from inner.id delivered
                topic v.store))
        | inr e ↦ rw e v
      ]

streamed-IsSound :
    (env : Env) (d : Daemon) (m : Option StoredMsg) → IsSound env d → IsSound env (streamed d m)
streamed-IsSound env d none v = v
streamed-IsSound env d (some m) v = record {
  store = v.store;
  awaited = v.awaited;
  registered = push_to_subscribers-Registered 0 d.next_sub_id d.subscribers m v.registered;
}

inserted-IsSound :
    (env : Env) (at : Moment) (d : Daemon) (inner : Inner) (topic : Text) (r : Db × Option ℕ)
    → IsSound env d
    → IsValid r.0
    → IsSound env (inserted env at d inner topic r)
inserted-IsSound env at d inner topic (db, none) v w = with_db-IsSound env d db v w
inserted-IsSound env at d inner topic (db, some seq) v w =
    let bound = evict_to (config_of d).max_messages (config_of d).max_bytes in
    let bounded = with_db d (step db bound) in
    let found = message_by_seq (step db bound) (pos seq) in
    let bounded-IsSound = with_db-IsSound env d (step db bound) v (step-IsValid db bound w) in
    unfold step in
    auto_receipt-IsSound env at (streamed bounded found) inner topic
      (streamed-IsSound env bounded found bounded-IsSound)

on_queued-IsSound :
    (env : Env) (at : Moment) (d : Daemon) (inner : Inner) (topic : Text)
    → IsSound env d
    → IsSound env (on_queued env at d inner topic)
unfolding on_queued
on_queued-IsSound env at d inner topic v =
    inserted-IsSound env at d inner topic (insert_inbound d.db inner topic) v
      (unfold step in step-IsValid d.db (insert_message inner topic) v.store)

use_claims-IsValid :
    (db : Db) (r : Result RejectReason GrantClaims) → IsValid db → IsValid (use_claims db r).0
use_claims-IsValid db (err _) v = v
use_claims-IsValid db (ok claims) v = unfold step in step-IsValid db (use_grant claims.id) v

replay_guard-IsValid :
    (env : Env) (at : Moment) (d : Daemon) (sg : Option SignedGrant)
    → IsValid d.db
    → IsValid (replay_guard env at d sg).0
unfolding replay_guard
replay_guard-IsValid env at d none v = v
replay_guard-IsValid env at d (some sg) v =
    use_claims-IsValid d.db (verify_grant env at.now (trust_of d) sg) v

on_plain-IsSound :
    (env : Env) (at : Moment) (d : Daemon) (topic : Text) (inner : Inner)
    → IsSound env d
    → IsSound env (on_plain env at d topic inner)
unfolding on_plain
on_plain-IsSound env at d topic inner v =
    let guard = replay_guard env at d inner.grant in
    let guarded : Daemon = with_db d guard.0 in
    let v' = with_db-IsSound env d guard.0 v (replay_guard-IsValid env at d inner.grant v.store) in
    elim (Bool-cases guard.1) [
      | inl e ↦ rw e (rejected-IsSound env at guarded _ (some inner.from) topic _ v')
      | inr e ↦ rw e (on_queued-IsSound env at guarded inner topic v')
    ]

by_status-IsValid :
    (db : Db) (ref_id ts : Text) (status : ReceiptStatus)
    → IsValid db
    → IsValid (by_status db ref_id ts status)
by_status-IsValid db ref_id ts delivered v =
    unfold step react in step-IsValid db (event (delivery_receipt ts ref_id)) v
by_status-IsValid db ref_id ts read v =
    unfold step react in step-IsValid db (event (read_receipt ts ref_id)) v

on_receipt-IsSound :
    (env : Env) (d : Daemon) (ts : Text) (r : Option Receipt)
    → IsSound env d
    → IsSound env (on_receipt d ts r)
unfolding on_receipt
on_receipt-IsSound env d ts none v = v
on_receipt-IsSound env d ts (some r) v =
    with_db-IsSound env d _ v (by_status-IsValid d.db r.ref_id ts r.status v.store)

beacon_update-IsSound :
    (env : Env) (d : Daemon) (inner : Inner) (b : Option PresenceBeacon)
    → IsSound env d
    → IsSound env (beacon_update d inner b)
beacon_update-IsSound env d inner none v = v
beacon_update-IsSound env d inner (some b) v = with_db-IsSound env d _ v (
    unfold step in
    step-IsValid d.db (beacon inner.from b.state b.source b.ttl_secs b.seq b.detail inner.ts)
      v.store)

on_accepted-IsSound :
    (env : Env) (at : Moment) (d : Daemon) (topic : Text) (inner : Inner)
    → IsSound env d
    → IsSound env (on_accepted env at d topic inner)
unfolding on_accepted on_beacon
on_accepted-IsSound env at d topic inner v = elim (Bool-cases (inner.ctype == ctype_presence)) [
  | inl e ↦ rw e (beacon_update-IsSound env d inner (env.presence_json.decode inner.body) v)
  | inr e ↦ elim (Bool-cases (is_receipt_kind inner.kind || inner.ctype == ctype_receipt)) [
    | inl e' ↦ rw (e, e') (on_receipt-IsSound env d inner.ts inner.receipt v)
    | inr e' ↦ rw (e, e') (on_plain-IsSound env at d topic inner v)
  ]
]

outcome-IsSound :
    (env : Env) (at : Moment) (d : Daemon) (topic : Text) (r : Result RejectInfo Inner)
    → IsSound env d
    → IsSound env (outcome env at d topic r)
outcome-IsSound env at d topic (ok inner) v = on_accepted-IsSound env at d topic inner v
outcome-IsSound env at d topic (err info) v =
    rejected-IsSound env at d info.reason info.claimed_sender topic _ v

on_verified-IsSound :
    (env : Env) (at : Moment) (d : Daemon) (topic : Text) (payload : Bytes)
    → IsSound env d
    → IsSound env (on_verified env at d topic payload)
unfolding on_verified
on_verified-IsSound env at d topic payload v =
    outcome-IsSound env at d topic
      (verify_incoming env d.identity at.now (trust_of d) (policy_of (config_of d)) payload) v

outcome_of_hello-IsSound :
    (env : Env) (at : Moment) (d : Daemon) (topic : Text) (seen : Inner)
    (r : Result RejectReason PairHello)
    → IsSound env d
    → IsSound env (outcome_of_hello env at d topic seen r)
outcome_of_hello-IsSound env at d topic seen (ok hello) v =
    let entry : PendingPair = record {
      name = hello.name;
      public_key = hello.public_key;
      kem_public_key = hello.kem_public_key;
      sas = sas env d.identity.public_key hello.public_key;
      first_seen = seen.ts;
    } in
    elim (Bool-cases (is_some (lookup hello.name d.pending))) [
      | inl e ↦ rw e v
      | inr e ↦ rw e (record {
        store = v.store;
        awaited =
            All-insert (IsPending env d.identity) hello.name entry d.pending (refl, refl) v.awaited;
        registered = v.registered;
      })
    ]
outcome_of_hello-IsSound env at d topic seen (err reason) v =
    rejected-IsSound env at d reason (some seen.from) topic (lit "pairing hello") v

hello_or_verified-IsSound :
    (env : Env) (at : Moment) (d : Daemon) (topic : Text) (payload : Bytes) (seen : Option Inner)
    → IsSound env d
    → IsSound env (hello_or_verified env at d topic payload seen)
unfolding on_hello
hello_or_verified-IsSound env at d topic payload none v =
    on_verified-IsSound env at d topic payload v
hello_or_verified-IsSound env at d topic payload (some seen) v =
    elim (Bool-cases (seen.ctype == ctype_pair)) [
      | inl e ↦ rw e (outcome_of_hello-IsSound env at d topic seen (verify_pair env payload) v)
      | inr e ↦ rw e (on_verified-IsSound env at d topic payload v)
    ]

-- Whatever bytes arrive on a topic, hostile ones included, the invariant of the daemon is kept.
pub on_message-IsSound :
    (env : Env) (at : Moment) (d : Daemon) (topic : Text) (payload : Bytes)
    → IsSound env d
    → IsSound env (on_message env at d topic payload)
unfolding on_message
on_message-IsSound env at d topic payload v = elim (Result-cases (from_bytes env payload)) [
  | inr (_, e) ↦ rw e (on_verified-IsSound env at d topic payload v)
  | inl (w, e) ↦ elim (Bool-cases (is_echo d.identity.name w)) [
    | inl e' ↦ rw (e, e') v
    | inr e' ↦ rw (e, e') (hello_or_verified-IsSound env at d topic payload (peek env w) v)
  ]
]

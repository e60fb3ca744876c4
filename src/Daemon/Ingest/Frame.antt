-- ===== src/Daemon/Ingest/Frame.antt =====
-- What no publication changes, and the replay of grants.
use agent_mqtt_chat.Base.{
  ℕ, Bytes, Text, text_eq, ◌==◌, pos, not, ◌&&◌, ◌||◌, Option, none, some, ok, ◌≡◌, ◌∙◌, refl,
  Bool-cases, inl, inr, lookup, is_some,
}
use agent_mqtt_chat.External.{Env}
use agent_mqtt_chat.Docs.{PresenceBeacon}
use agent_mqtt_chat.Wire.Types.{
  Inner, Receipt, is_receipt_kind, ctype_presence, ctype_receipt, is_broadcast,
}
use agent_mqtt_chat.Pair.{PairHello}
use agent_mqtt_chat.Store.Types.{Db, StoredMsg}
use agent_mqtt_chat.Store.Messages.{insert_inbound, message_by_seq}
use agent_mqtt_chat.Store.Bounds.{enforce_bounds}
use agent_mqtt_chat.Daemon.State.{Daemon, Moment, config_of, with_db}
use agent_mqtt_chat.Daemon.Ingest.{
  on_message, outcome_of_hello, on_accepted, on_beacon, beacon_update, on_receipt, on_plain,
  replay_guard, on_queued, inserted, streamed, auto_receipt,
}
use agent_mqtt_chat.Daemon.Ingest.Effects.{
  IsHandled, echo, hello, refused, accepted, on_message-IsHandled,
}

-- Everything of the daemon but its store, its streams and the pending pairings.
pub record SameFrame (d d' : Daemon) : Type 0 where
  pub identity : d'.identity ≡ d.identity
  pub config : d'.config ≡ d.config
  pub trust : d'.trust ≡ d.trust
  pub mqtt : d'.mqtt ≡ d.mqtt
  pub published : d'.published ≡ d.published

same : (d : Daemon) → SameFrame d d
same d = record { identity = refl; config = refl; trust = refl; mqtt = refl; published = refl }

auto_receipt-SameFrame :
    (env : Env) (at : Moment) (d : Daemon) (inner : Inner) (topic : Text)
    → SameFrame d (auto_receipt env at d inner topic)
unfolding auto_receipt
auto_receipt-SameFrame env at d inner topic =
    elim (Bool-cases
      ((config_of d).auto_receipts && (inner.to == d.identity.name && not (is_broadcast inner)))) [
        | inl e ↦
            rw e (record {
              identity = refl;
              config = refl;
              trust = refl;
              mqtt = refl;
              published = refl;
            })
        | inr e ↦ rw e (same d)
      ]

streamed-SameFrame : (d : Daemon) (m : Option StoredMsg) → SameFrame d (streamed d m)
streamed-SameFrame d none = same d
streamed-SameFrame d (some m) = record {
  identity = refl;
  config = refl;
  trust = refl;
  mqtt = refl;
  published = refl;
}

SameFrame-trans : {a b c : Daemon} → SameFrame a b → SameFrame b c → SameFrame a c
SameFrame-trans h k = record {
  identity = k.identity ∙ h.identity;
  config = k.config ∙ h.config;
  trust = k.trust ∙ h.trust;
  mqtt = k.mqtt ∙ h.mqtt;
  published = k.published ∙ h.published;
}

with_db-SameFrame : (d : Daemon) (db : Db) → SameFrame d (with_db d db)
with_db-SameFrame d db = record {
  identity = refl;
  config = refl;
  trust = refl;
  mqtt = refl;
  published = refl;
}

inserted-SameFrame :
    (env : Env) (at : Moment) (d : Daemon) (inner : Inner) (topic : Text) (r : Db × Option ℕ)
    → SameFrame d (inserted env at d inner topic r)
inserted-SameFrame env at d inner topic (db, none) = with_db-SameFrame d db
inserted-SameFrame env at d inner topic (db, some seq) =
    let bounded = (enforce_bounds db (config_of d).max_messages (config_of d).max_bytes).0 in
    let row = message_by_seq bounded (pos seq) in
    SameFrame-trans (with_db-SameFrame d bounded) (
      SameFrame-trans (streamed-SameFrame (with_db d bounded) row)
        (auto_receipt-SameFrame env at (streamed (with_db d bounded) row) inner topic))

on_queued-SameFrame :
    (env : Env) (at : Moment) (d : Daemon) (inner : Inner) (topic : Text)
    → SameFrame d (on_queued env at d inner topic)
unfolding on_queued
on_queued-SameFrame env at d inner topic =
    inserted-SameFrame env at d inner topic (insert_inbound d.db inner topic)

pub on_plain-SameFrame :
    (env : Env) (at : Moment) (d : Daemon) (topic : Text) (inner : Inner)
    → SameFrame d (on_plain env at d topic inner)
unfolding on_plain
on_plain-SameFrame env at d topic inner =
    let guard = replay_guard env at d inner.grant in
    let guarded : Daemon = with_db d guard.0 in
    elim (Bool-cases guard.1) [
      | inl e ↦
          rw e
            (record { identity = refl; config = refl; trust = refl; mqtt = refl; published = refl })
      | inr e ↦ rw e (
          SameFrame-trans (with_db-SameFrame d guard.0)
            (on_queued-SameFrame env at guarded inner topic))
    ]

on_receipt-SameFrame :
    (d : Daemon) (ts : Text) (r : Option Receipt) → SameFrame d (on_receipt d ts r)
unfolding on_receipt
on_receipt-SameFrame d ts none = same d
on_receipt-SameFrame d ts (some r) = with_db-SameFrame d _

beacon_update-SameFrame :
    (d : Daemon) (inner : Inner) (b : Option PresenceBeacon) → SameFrame d (beacon_update d inner b)
beacon_update-SameFrame d inner none = same d
beacon_update-SameFrame d inner (some b) = with_db-SameFrame d _

on_accepted-SameFrame :
    (env : Env) (at : Moment) (d : Daemon) (topic : Text) (inner : Inner)
    → SameFrame d (on_accepted env at d topic inner)
unfolding on_accepted on_beacon
on_accepted-SameFrame env at d topic inner = elim (Bool-cases (inner.ctype == ctype_presence)) [
  | inl e ↦ rw e (beacon_update-SameFrame d inner (env.presence_json.decode inner.body))
  | inr e ↦ elim (Bool-cases (is_receipt_kind inner.kind || inner.ctype == ctype_receipt)) [
    | inl e' ↦ rw (e, e') (on_receipt-SameFrame d inner.ts inner.receipt)
    | inr e' ↦ rw (e, e') (on_plain-SameFrame env at d topic inner)
  ]
]

hello-SameFrame :
    (env : Env) (at : Moment) (d : Daemon) (topic : Text) (seen : Inner) (h : PairHello)
    → SameFrame d (outcome_of_hello env at d topic seen (ok h))
hello-SameFrame env at d topic seen h = elim (Bool-cases (is_some (lookup h.name d.pending))) [
  | inl e ↦ rw e (same d)
  | inr e ↦
      rw e (record { identity = refl; config = refl; trust = refl; mqtt = refl; published = refl })
]

handled-SameFrame :
    (env : Env) (at : Moment) (d : Daemon) (topic : Text) (payload : Bytes) (d' : Daemon)
    → IsHandled env at d topic payload d'
    → SameFrame d d'
handled-SameFrame env at d topic payload _ echo = same d
handled-SameFrame env at d topic payload _ (hello seen h e) = hello-SameFrame env at d topic seen h
handled-SameFrame env at d topic payload _ (refused reason sender detail) = with_db-SameFrame d _
handled-SameFrame env at d topic payload _ (accepted inner e) =
    on_accepted-SameFrame env at d topic inner

-- Whatever bytes arrive, the identity, the configuration, the trusted keys and the session stay as
-- they are, and nothing is published at once: what is to be sent goes through the outbox.
pub on_message-SameFrame :
    (env : Env) (at : Moment) (d : Daemon) (topic : Text) (payload : Bytes)
    → SameFrame d (on_message env at d topic payload)
on_message-SameFrame env at d topic payload =
    handled-SameFrame env at d topic payload (on_message env at d topic payload)
      (on_message-IsHandled env at d topic payload)

-- ===== src/Daemon/Ingest/Replay.antt =====
-- The grant replay guard: a grant's id is accepted with a message of the queue once.
use agent_mqtt_chat.Store.Invariant.Grants.{
  is_seen, IsLater, is_seen-later, is_seen-seen_grant, seen_grant_old, grants-insert_inbound,
  grants-insert_outbound_log,
}
use agent_mqtt_chat.Base.{
  ℕ, Text, text_eq, ◌==◌, pos, Bool, true, not, ◌&&◌, [], any, Option, none, some, Result, ok, err,
  ◌≡◌, ◌∙◌, refl, ap, Bool-cases, inl, inr,
}
use agent_mqtt_chat.External.{Env}
use agent_mqtt_chat.Errors.{RejectReason, replayed_grant}
use agent_mqtt_chat.Docs.{GrantClaims}
use agent_mqtt_chat.Wire.Types.{Inner, Wrapper, delivered, SignedGrant, is_broadcast}
use agent_mqtt_chat.Grant.{verify_grant}
use agent_mqtt_chat.Message.Build.{build}
use agent_mqtt_chat.Store.Types.{Db, StoredMsg}
use agent_mqtt_chat.Store.Messages.{insert_inbound, insert_outbound_log, message_by_seq}
use agent_mqtt_chat.Store.Outbox.{enqueue_outbound}
use agent_mqtt_chat.Store.Bounds.{enforce_bounds}
use agent_mqtt_chat.Store.Diagnostics.{seen_grant, record_rejection}
use agent_mqtt_chat.Store.Invariant.{queued, is_grant}
use agent_mqtt_chat.Daemon.State.{Daemon, Moment, config_of, trust_of, with_db}
use agent_mqtt_chat.Daemon.Outgoing.{enqueue_receipt, log_and_queue, receipt_opts}
use agent_mqtt_chat.Daemon.Ingest.{
  on_plain, replay_guard, use_claims, on_queued, inserted, streamed, auto_receipt, rejected,
}

grants-log_and_queue :
    (env : Env) (db : Db) (topic : Text) (r : Result RejectReason (Inner × Wrapper))
    → (log_and_queue env db topic r).seen_grants ≡ db.seen_grants
unfolding enqueue_outbound
grants-log_and_queue env db topic (err _) = refl
grants-log_and_queue env db topic (ok (inner, w)) =
    let logged = insert_outbound_log db inner topic in
    elim (Bool-cases (any (queued inner.id) logged.outbox)) [
      | inl e ↦ rw e (grants-insert_outbound_log db inner topic)
      | inr e ↦ rw e (grants-insert_outbound_log db inner topic)
    ]

grants-auto_receipt :
    (env : Env) (at : Moment) (d : Daemon) (inner : Inner) (topic : Text)
    → (auto_receipt env at d inner topic).db.seen_grants ≡ d.db.seen_grants
unfolding auto_receipt enqueue_receipt
grants-auto_receipt env at d inner topic =
    elim (Bool-cases
      ((config_of d).auto_receipts && (inner.to == d.identity.name && not (is_broadcast inner)))) [
        | inl e ↦ rw e (
            grants-log_and_queue env d.db topic
              (build env d.identity at.fresh (receipt_opts inner.from inner.id delivered)))
        | inr e ↦ rw e refl
      ]

grants-streamed :
    (d : Daemon) (m : Option StoredMsg) → (streamed d m).db.seen_grants ≡ d.db.seen_grants
grants-streamed d none = refl
grants-streamed d (some m) = refl

grants-inserted :
    (env : Env) (at : Moment) (d : Daemon) (inner : Inner) (topic : Text) (r : Db × Option ℕ)
    → (inserted env at d inner topic r).db.seen_grants ≡ r.0.seen_grants
unfolding enforce_bounds
grants-inserted env at d inner topic (db, none) = refl
grants-inserted env at d inner topic (db, some seq) =
    let bounded = (enforce_bounds db (config_of d).max_messages (config_of d).max_bytes).0 in
    let row = message_by_seq bounded (pos seq) in
    grants-auto_receipt env at (streamed (with_db d bounded) row) inner topic
    ∙ grants-streamed (with_db d bounded) row

grants-on_queued :
    (env : Env) (at : Moment) (d : Daemon) (inner : Inner) (topic : Text)
    → (on_queued env at d inner topic).db.seen_grants ≡ d.db.seen_grants
unfolding on_queued
grants-on_queued env at d inner topic =
    grants-inserted env at d inner topic (insert_inbound d.db inner topic)
    ∙ grants-insert_inbound d.db inner topic

-- After a message of the queue, the seen grants are those that the guard left.
grants-on_plain :
    (env : Env) (at : Moment) (d : Daemon) (topic : Text) (inner : Inner)
    → (on_plain env at d topic inner).db.seen_grants
      ≡ (replay_guard env at d inner.grant).0.seen_grants
unfolding on_plain record_rejection
grants-on_plain env at d topic inner =
    let guard = replay_guard env at d inner.grant in
    elim (Bool-cases guard.1) [
      | inl e ↦ rw e refl
      | inr e ↦ rw e (grants-on_queued env at (with_db d guard.0) inner topic)
    ]

guard-claims :
    (env : Env) (at : Moment) (d : Daemon) (sg : SignedGrant) (claims : GrantClaims)
    (o : Option SignedGrant)
    → o ≡ some sg
    → verify_grant env at.now (trust_of d) sg ≡ ok claims
    → replay_guard env at d o ≡ seen_grant d.db claims.id
unfolding replay_guard
guard-claims env at d sg claims o has e = ap (replay_guard env at d) has ∙ ap (use_claims d.db) e

on_plain_caught :
    (env : Env) (at : Moment) (d : Daemon) (topic : Text) (inner : Inner)
    → replay_guard env at d inner.grant ≡ (d.db, true)
    → on_plain env at d topic inner ≡ rejected at d replayed_grant (some inner.from) topic []
unfolding on_plain
on_plain_caught env at d topic inner e = rw e refl

-- A grant that came with an accepted message is refused with every later message of the queue whose
-- grant has the same id, whatever else that message says, whatever the store did in between, and
-- however the rest of the daemon has changed: that message only adds a row to the rejections. A
-- redelivery of the first message is such a message.
pub on_plain_replayed :
    (env : Env) (at at' : Moment) (d later : Daemon) (topic topic' : Text) (first second : Inner)
    (sg sg' : SignedGrant) (claims claims' : GrantClaims)
    → first.grant ≡ some sg
    → second.grant ≡ some sg'
    → verify_grant env at.now (trust_of d) sg ≡ ok claims
    → IsLater (on_plain env at d topic first).db later.db
    → verify_grant env at'.now (trust_of later) sg' ≡ ok claims'
    → claims'.id ≡ claims.id
    → on_plain env at' later topic' second
      ≡ rejected at' later replayed_grant (some second.from) topic' []
on_plain_replayed env at at' d later topic topic' first second sg sg' claims claims' has has' e then
      e' same =
    let recorded : is_seen (on_plain env at d topic first).db claims.id ≡ true =
      ap (any (is_grant claims.id)) (
        grants-on_plain env at d topic first
        ∙ ap (λ (p : Db × Bool). p.0.seen_grants)
            (guard-claims env at d sg claims first.grant has e))
      ∙ is_seen-seen_grant d.db claims.id in
    let caught : replay_guard env at' later second.grant ≡ (later.db, true) =
      guard-claims env at' later sg' claims' second.grant has' e'
      ∙ ap (seen_grant later.db) same
      ∙ seen_grant_old later.db claims.id (is_seen-later claims.id then recorded) in
    on_plain_caught env at' later topic' second caught

-- ===== src/Daemon/Ingest.antt =====
-- The ingest path of src/daemon.rs: the closure that `connect` hands to the MQTT session.
pub mod Effects
pub mod Sound
pub mod Frame
pub mod Replay
use agent_mqtt_chat.Base.{
  ℕ, Bytes, Text, lit, text_eq, ◌==◌, ℤ, pos, Bool, true, false, not, ◌&&◌, ◌||◌, Option, none,
  some, Result, ok, err, ◌>>=◌, to_option, map_option, lookup, insert, is_some, if◌then◌else◌, [],
}
use agent_mqtt_chat.External.{Env}
use agent_mqtt_chat.Errors.{RejectReason, RejectInfo, replayed_grant}
use agent_mqtt_chat.Docs.{PresenceBeacon, GrantClaims}
use agent_mqtt_chat.Wire.Types.{
  Inner, Wrapper, Receipt, ReceiptStatus, delivered, read, SignedGrant, is_receipt_kind,
  is_broadcast, ctype_pair, ctype_presence, ctype_receipt,
}
use agent_mqtt_chat.Wire.Codec.{from_bytes, inner_bytes, parse_inner}
use agent_mqtt_chat.Config.{Config}
use agent_mqtt_chat.Grant.{verify_grant}
use agent_mqtt_chat.Pair.{PairHello, sas}
use agent_mqtt_chat.Store.Types.{Db, StoredMsg}
use agent_mqtt_chat.Store.Messages.{insert_inbound, message_by_seq}
use agent_mqtt_chat.Store.Outbox.{apply_delivery_receipt, apply_read_receipt}
use agent_mqtt_chat.Store.Diagnostics.{record_rejection, seen_grant}
use agent_mqtt_chat.Store.Presence.{upsert_presence}
use agent_mqtt_chat.Store.Bounds.{enforce_bounds}
use agent_mqtt_chat.Message.Verify.{Policy, claimed_sender, verify_incoming}
use agent_mqtt_chat.Message.Pairing.{verify_pair}
use agent_mqtt_chat.Daemon.State.{Daemon, Moment, PendingPair, config_of, trust_of, with_db}
use agent_mqtt_chat.Daemon.Stream.{push_to_subscribers}
use agent_mqtt_chat.Daemon.Outgoing.{enqueue_receipt}

abbrev pub policy_of : Config → Policy
policy_of cfg = record {
  freshness_secs = cfg.freshness_secs;
  max_payload = cfg.max_payload;
  allow_unsigned = cfg.allow_unsigned;
  accept_v1 = cfg.accept_v1;
}

abbrev pub same_name : Text → Option Text → Bool
same_name me none = false
same_name me (some name) = name == me

-- An echo of our own message on the shared topic.
unfoldable pub is_echo : Text → Wrapper → Bool
is_echo me w = same_name me (claimed_sender w)

-- The inner message, unverified.
abbrev pub peek : Env → Wrapper → Option Inner
peek env w = to_option (inner_bytes env w >>= parse_inner env)

abbrev pub rejected : Moment → Daemon → RejectReason → Option Text → Text → Text → Daemon
rejected at d reason sender topic detail =
    with_db d (record_rejection d.db at.now_text reason sender topic detail)

-- `pending.entry(name).or_insert(entry)`
abbrev pub or_insert : Daemon → PendingPair → Daemon
or_insert d entry =
    if is_some (lookup entry.name d.pending)
    then d
    else record d { pending = insert entry.name entry d.pending }

-- A pairing hello, which does not go through the trust store.
abbrev pub outcome_of_hello :
    Env → Moment → Daemon → Text → Inner → Result RejectReason PairHello → Daemon
outcome_of_hello env at d topic seen (ok hello) = or_insert d (record {
  name = hello.name;
  public_key = hello.public_key;
  kem_public_key = hello.kem_public_key;
  sas = sas env d.identity.public_key hello.public_key;
  first_seen = seen.ts;
})
outcome_of_hello env at d topic seen (err reason) =
    rejected at d reason (some seen.from) topic (lit "pairing hello")

unfoldable pub on_hello : Env → Moment → Daemon → Text → Bytes → Inner → Daemon
on_hello env at d topic payload seen =
    outcome_of_hello env at d topic seen (verify_pair env payload)

abbrev pub beacon_update : Daemon → Inner → Option PresenceBeacon → Daemon
beacon_update d inner none = d
beacon_update d inner (some pb) =
    with_db d
      (upsert_presence d.db inner.from pb.state pb.source pb.ttl_secs pb.seq pb.detail inner.ts)

-- A presence beacon.
unfoldable pub on_beacon : Env → Daemon → Inner → Daemon
on_beacon env d inner = beacon_update d inner (env.presence_json.decode inner.body)

abbrev pub by_status : Db → Text → Text → ReceiptStatus → Db
by_status db ref_id ts delivered = apply_delivery_receipt db ref_id ts
by_status db ref_id ts read = apply_read_receipt db ref_id ts

-- A delivery or read receipt.
unfoldable pub on_receipt : Daemon → Text → Option Receipt → Daemon
on_receipt d ts none = d
on_receipt d ts (some r) = with_db d (by_status d.db r.ref_id ts r.status)

abbrev pub use_claims : Db → Result RejectReason GrantClaims → Db × Bool
use_claims db (err _) = (db, false)
use_claims db (ok claims) = seen_grant db claims.id

-- The grant replay guard: the store, and whether the message is refused. A grant that does not
-- verify is not counted.
unfoldable pub replay_guard : Env → Moment → Daemon → Option SignedGrant → Db × Bool
replay_guard env at d none = (d.db, false)
replay_guard env at d (some sg) = use_claims d.db (verify_grant env at.now (trust_of d) sg)

abbrev pub streamed : Daemon → Option StoredMsg → Daemon
streamed d none = d
streamed d (some msg) = record d { subscribers = push_to_subscribers d.subscribers msg }

-- The automatic delivery receipt of a direct message.
unfoldable pub auto_receipt : Env → Moment → Daemon → Inner → Text → Daemon
auto_receipt env at d inner topic =
    if (config_of d).auto_receipts && (inner.to == d.identity.name && not (is_broadcast inner))
    then with_db d (
        enqueue_receipt env d.identity at.fresh d.db inner.from inner.id ReceiptStatus.delivered
          topic)
    else d

-- After the insertion: bound the store, stream the new row, send the receipt.
abbrev pub inserted : Env → Moment → Daemon → Inner → Text → Db × Option ℕ → Daemon
inserted env at d inner topic (db, none) = with_db d db
inserted env at d inner topic (db, some seq) =
    let bounded = (enforce_bounds db (config_of d).max_messages (config_of d).max_bytes).0 in
    auto_receipt env at (streamed (with_db d bounded) (message_by_seq bounded (pos seq))) inner
      topic

-- A message for the queue.
unfoldable pub on_queued : Env → Moment → Daemon → Inner → Text → Daemon
on_queued env at d inner topic = inserted env at d inner topic (insert_inbound d.db inner topic)

unfoldable pub on_plain : Env → Moment → Daemon → Text → Inner → Daemon
on_plain env at d topic inner =
    let (db, replayed) = replay_guard env at d inner.grant in
    let guarded = with_db d db in
    if replayed
    then rejected at guarded replayed_grant (some inner.from) topic []
    else on_queued env at guarded inner topic

-- A verified message, by what it is.
unfoldable pub on_accepted : Env → Moment → Daemon → Text → Inner → Daemon
on_accepted env at d topic inner =
    if inner.ctype == ctype_presence
    then on_beacon env d inner
    else if is_receipt_kind inner.kind || inner.ctype == ctype_receipt
    then on_receipt d inner.ts inner.receipt
    else on_plain env at d topic inner

abbrev pub outcome : Env → Moment → Daemon → Text → Result RejectInfo Inner → Daemon
outcome env at d topic (ok inner) = on_accepted env at d topic inner
outcome env at d topic (err info) = rejected at d info.reason info.claimed_sender topic []

-- Config and trust are loaded again for each message.
unfoldable pub on_verified : Env → Moment → Daemon → Text → Bytes → Daemon
on_verified env at d topic payload =
    outcome env at d topic
      (verify_incoming env d.identity at.now (trust_of d) (policy_of (config_of d)) payload)

abbrev pub hello_or_verified : Env → Moment → Daemon → Text → Bytes → Option Inner → Daemon
hello_or_verified env at d topic payload none = on_verified env at d topic payload
hello_or_verified env at d topic payload (some seen) =
    if seen.ctype == ctype_pair
    then on_hello env at d topic payload seen
    else on_verified env at d topic payload

abbrev pub by_wrapper : Env → Moment → Daemon → Text → Bytes → Result RejectReason Wrapper → Daemon
by_wrapper env at d topic payload (err _) = on_verified env at d topic payload
by_wrapper env at d topic payload (ok w) =
    if is_echo d.identity.name w then d else hello_or_verified env at d topic payload (peek env w)

-- What the daemon makes of a publication on a subscribed topic.
unfoldable pub on_message : Env → Moment → Daemon → Text → Bytes → Daemon
on_message env at d topic payload = by_wrapper env at d topic payload (from_bytes env payload)

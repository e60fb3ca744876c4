-- ===== src/Daemon/Ingest/Effects.antt =====
-- What a publication does to the daemon: echoes, forgeries, second deliveries and replayed grants.
use agent_mqtt_chat.Base.{
  leb_ℤ, Bytes, Text, lit, text_eq, text_beq_iff, ◌==◌, true, false, ◌||◌, List, [], ◌∷◌, map,
  Option, none, some, ok, ◌≡◌, ◌∙◌, refl, ap, Bool-cases, Option-cases, Result-cases, inl, inr,
  arith, lookup,
}
use agent_mqtt_chat.External.{Env, IsLawful}
use agent_mqtt_chat.Errors.{RejectReason}
use agent_mqtt_chat.Docs.{PresenceBeacon}
use agent_mqtt_chat.Wire.Types.{
  Inner, Wrapper, Receipt, ReceiptStatus, delivered, read, SignedGrant, is_receipt_kind,
  ctype_presence, ctype_pair, ctype_receipt,
}
use agent_mqtt_chat.Wire.Codec.{from_bytes, to_bytes, from_bytes-to_bytes}
use agent_mqtt_chat.Wire.Kid.{split_kid-make_kid, validate_name}
use agent_mqtt_chat.Pair.{PairHello}
use agent_mqtt_chat.Message.Build.{wrap}
use agent_mqtt_chat.Message.Verify.{verify_incoming, claimed_sender}
use agent_mqtt_chat.Message.Pairing.{verify_pair}
use agent_mqtt_chat.Message.Sound.{IsAccepted, verify_incoming-IsAccepted}
use agent_mqtt_chat.Store.Types.{StoredMsg}
use agent_mqtt_chat.Store.Messages.{insert_inbound, contains_id}
use agent_mqtt_chat.Store.Outbox.{apply_delivery_receipt, apply_read_receipt}
use agent_mqtt_chat.Store.Presence.{upsert_presence}
use agent_mqtt_chat.Daemon.State.{Daemon, Moment, config_of, trust_of, with_db}
use agent_mqtt_chat.Daemon.Ingest.{
  on_message, hello_or_verified, on_hello, outcome_of_hello, rejected, on_verified, on_accepted,
  on_beacon, beacon_update, on_receipt, by_status, on_plain, replay_guard, on_queued, is_echo, peek,
  policy_of,
}

-- A message that the daemon signs and that comes back from the shared topic changes nothing.
pub on_message-wrap :
    (env : Env)
    → IsLawful env
    → (at : Moment) (d : Daemon) (topic : Text) (bytes : Bytes)
    → validate_name d.identity.name ≡ ok tt
    → on_message env at d topic (to_bytes env (wrap env d.identity false bytes)) ≡ d
unfolding on_message is_echo claimed_sender wrap
on_message-wrap env lawful at d topic bytes valid = ground (
  arith,
  from_bytes-to_bytes env lawful (wrap env d.identity false bytes),
  split_kid-make_kid env d.identity.name d.identity.public_key valid,
  text_beq_iff d.identity.name d.identity.name,
)

-- Why a message was accepted: see `IsAccepted`.
abbrev pub IsVerified : Env → Moment → Daemon → Bytes → Inner → Type 0
IsVerified env at d payload inner =
    (w : Wrapper) × (from_bytes env payload ≡ ok w)
    × IsAccepted env d.identity at.now (trust_of d) (policy_of (config_of d)) w inner

-- What a publication may come to.
pub data IsHandled (env : Env) (at : Moment) (d : Daemon) (topic : Text) (payload : Bytes)
    : Daemon → Type 0 where
  echo : IsHandled env at d topic payload d
  hello :
      (seen : Inner) (h : PairHello)
      → verify_pair env payload ≡ ok h
      → IsHandled env at d topic payload (outcome_of_hello env at d topic seen (ok h))
  refused :
      (reason : RejectReason) (sender : Option Text) (detail : Text)
      → IsHandled env at d topic payload (rejected at d reason sender topic detail)
  accepted :
      (inner : Inner)
      → IsVerified env at d payload inner
      → IsHandled env at d topic payload (on_accepted env at d topic inner)

on_verified-IsHandled :
    (env : Env) (at : Moment) (d : Daemon) (topic : Text) (payload : Bytes)
    → IsHandled env at d topic payload (on_verified env at d topic payload)
unfolding on_verified
on_verified-IsHandled env at d topic payload =
    let policy = policy_of (config_of d) in
    elim (Result-cases (verify_incoming env d.identity at.now (trust_of d) policy payload)) [
      | inr (info, e) ↦ rw e (refused info.reason info.claimed_sender [])
      | inl (inner, e) ↦ rw e (
          accepted inner
            (verify_incoming-IsAccepted env d.identity at.now (trust_of d) policy payload inner e))
    ]

on_hello-IsHandled :
    (env : Env) (at : Moment) (d : Daemon) (topic : Text) (payload : Bytes) (seen : Inner)
    → IsHandled env at d topic payload (on_hello env at d topic payload seen)
unfolding on_hello
on_hello-IsHandled env at d topic payload seen = elim (Result-cases (verify_pair env payload)) [
  | inl (h, e) ↦ rw e (hello seen h e)
  | inr (reason, e) ↦ rw e (refused reason (some seen.from) (lit "pairing hello"))
]

hello_or_verified-IsHandled :
    (env : Env) (at : Moment) (d : Daemon) (topic : Text) (payload : Bytes) (seen : Option Inner)
    → IsHandled env at d topic payload (hello_or_verified env at d topic payload seen)
hello_or_verified-IsHandled env at d topic payload none =
    on_verified-IsHandled env at d topic payload
hello_or_verified-IsHandled env at d topic payload (some seen) =
    elim (Bool-cases (seen.ctype == ctype_pair)) [
      | inl e ↦ rw e (on_hello-IsHandled env at d topic payload seen)
      | inr e ↦ rw e (on_verified-IsHandled env at d topic payload)
    ]

-- Whatever bytes arrive on a topic, they are one of four things: ignored without any change; a hello
-- that verifies, which only awaits confirmation among the pending pairings; refused, which only adds
-- a row to the rejections; or a message that passed every check of `verify_incoming` against the
-- trust and the policy of the moment.
pub on_message-IsHandled :
    (env : Env) (at : Moment) (d : Daemon) (topic : Text) (payload : Bytes)
    → IsHandled env at d topic payload (on_message env at d topic payload)
unfolding on_message
on_message-IsHandled env at d topic payload = elim (Result-cases (from_bytes env payload)) [
  | inr (_, e) ↦ rw e (on_verified-IsHandled env at d topic payload)
  | inl (w, e) ↦ elim (Bool-cases (is_echo d.identity.name w)) [
    | inl e' ↦ rw (e, e') echo
    | inr e' ↦ rw (e, e') (hello_or_verified-IsHandled env at d topic payload (peek env w))
  ]
]

on_queued_old :
    (env : Env) (at : Moment) (d : Daemon) (inner : Inner) (topic : Text)
    → contains_id d.db inner.id ≡ true
    → on_queued env at d inner topic ≡ d
unfolding on_queued insert_inbound contains_id
on_queued_old env at d inner topic old = rw old refl

on_plain_free :
    (env : Env) (at : Moment) (d : Daemon) (topic : Text) (inner : Inner)
    → replay_guard env at d inner.grant ≡ (d.db, false)
    → on_plain env at d topic inner ≡ on_queued env at d inner topic
unfolding on_plain
on_plain_free env at d topic inner free = rw free refl

free_of_grant :
    (env : Env) (at : Moment) (d : Daemon) (sg : Option SignedGrant)
    → sg ≡ none
    → replay_guard env at d sg ≡ (d.db, false)
unfolding replay_guard
free_of_grant env at d sg e = ap (replay_guard env at d) e

-- A message of the queue whose id is stored already and that bears no grant changes nothing: it is
-- not stored, not streamed and not receipted again.
pub on_accepted_duplicate :
    (env : Env) (at : Moment) (d : Daemon) (topic : Text) (inner : Inner)
    → contains_id d.db inner.id ≡ true
    → inner.grant ≡ none
    → (inner.ctype == ctype_presence) ≡ false
    → (is_receipt_kind inner.kind || inner.ctype == ctype_receipt) ≡ false
    → on_accepted env at d topic inner ≡ d
unfolding on_accepted
on_accepted_duplicate env at d topic inner old plain not_beacon not_receipt =
    rw (not_beacon, not_receipt)
      (on_plain_free env at d topic inner (free_of_grant env at d inner.grant plain)
        ∙ on_queued_old env at d inner topic old)

-- The mail is the same: the messages of the log, the outbox and the streams.
abbrev pub SameMail : Daemon → Daemon → Type 0
SameMail d d' =
    (map StoredMsg.id d'.db.messages ≡ map StoredMsg.id d.db.messages)
    × (d'.db.outbox ≡ d.db.outbox)
    × (d'.subscribers ≡ d.subscribers)

ids-update :
    (f : StoredMsg → StoredMsg) (rows : List StoredMsg)
    → ((m : StoredMsg) → (f m).id ≡ m.id)
    → map StoredMsg.id (map f rows) ≡ map StoredMsg.id rows
ids-update f [] h = refl
ids-update f (m ∷ ms) h = rw (h m, ids-update f ms h) refl

by_status-SameMail :
    (d : Daemon) (ref_id ts : Text) (status : ReceiptStatus)
    → SameMail d (with_db d (by_status d.db ref_id ts status))
unfolding apply_delivery_receipt apply_read_receipt
by_status-SameMail d ref_id ts delivered =
    (ids-update _ d.db.messages (λ m. ground arith), refl, refl)
by_status-SameMail d ref_id ts read = (ids-update _ d.db.messages (λ m. ground arith), refl, refl)

on_receipt-SameMail : (d : Daemon) (ts : Text) (r : Option Receipt) → SameMail d (on_receipt d ts r)
unfolding on_receipt
on_receipt-SameMail d ts none = (refl, refl, refl)
on_receipt-SameMail d ts (some r) = by_status-SameMail d r.ref_id ts r.status

beacon_update-SameMail :
    (d : Daemon) (inner : Inner) (b : Option PresenceBeacon) → SameMail d (beacon_update d inner b)
unfolding upsert_presence
beacon_update-SameMail d inner none = (refl, refl, refl)
beacon_update-SameMail d inner (some b) = elim (Option-cases (lookup inner.from d.db.presence)) [
  | inl e ↦ rw e (refl, refl, refl)
  | inr (old, e) ↦ elim (Bool-cases (leb_ℤ old.seq b.seq)) [
    | inl e' ↦ rw (e, e') (refl, refl, refl)
    | inr e' ↦ rw (e, e') (refl, refl, refl)
  ]
]

-- An accepted presence beacon or receipt is never a message of the queue: no message is stored or
-- removed, nothing is streamed, and nothing is sent in answer, so that receipts cannot cause
-- receipts.
pub on_accepted-SameMail :
    (env : Env) (at : Moment) (d : Daemon) (topic : Text) (inner : Inner)
    → (inner.ctype == ctype_presence
        || (is_receipt_kind inner.kind || inner.ctype == ctype_receipt))
      ≡ true
    → SameMail d (on_accepted env at d topic inner)
unfolding on_accepted on_beacon
on_accepted-SameMail env at d topic inner h = elim (Bool-cases (inner.ctype == ctype_presence)) [
  | inl e ↦ rw e (beacon_update-SameMail d inner (env.presence_json.decode inner.body))
  | inr e ↦
      let receipt_like : (is_receipt_kind inner.kind || inner.ctype == ctype_receipt) ≡ true =
        ground arith in
      rw (e, receipt_like) (on_receipt-SameMail d inner.ts inner.receipt)
]

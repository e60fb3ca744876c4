-- ===== src/Daemon/Outgoing/Kept.antt =====
-- The rows of the log and of the outbox that a `send` of src/daemon.rs leaves.
use agent_mqtt_chat.Store.Types.{kind_str}
use agent_mqtt_chat.Store.Types.{DeliveryState, next_seq, outgoing, is_out}
use agent_mqtt_chat.Store.Messages.{get_message, row_of}
use agent_mqtt_chat.Store.Outbox.Lifecycle.{
  react, broker_ack, get_message-react, get_message-react-none, change-broker_ack,
}
use agent_mqtt_chat.Daemon.Outgoing.{logged, marked}
use agent_mqtt_chat.Base.{Bool, Text, Bytes, none, some, find, is_some}
use agent_mqtt_chat.Base.{
  Text, text_eq, text_beq_iff, ◌==◌, ◌≡◌, ◌∙◌, refl, ap, true, false, not, List, [], ◌∷◌, ◌++◌, any,
  keep, Bool-cases, inl, inr, arith,
}
use agent_mqtt_chat.Wire.Types.{Inner}
use agent_mqtt_chat.Store.Types.{Db, StoredMsg, Outbound}
use agent_mqtt_chat.Store.Messages.{has_id, contains_id, insert_outbound_log}
use agent_mqtt_chat.Store.Outbox.{enqueue_outbound, mark_delivered}
use agent_mqtt_chat.Store.Invariant.{queued}
use agent_mqtt_chat.Daemon.Outgoing.{outbound}

-- The row of the log: the message as it was built, outbound, on its topic, in a state of delivery.
pub record IsLogged (inner : Inner) (topic : Text) (state : DeliveryState) (m : StoredMsg)
    : Type 0 where
  pub id : m.id ≡ inner.id
  pub direction : m.direction ≡ outgoing
  pub from : m.from ≡ inner.from
  pub to : m.to ≡ inner.to
  pub topic_of : m.topic ≡ topic
  pub ts : m.ts ≡ inner.ts
  pub ctype : m.ctype ≡ inner.ctype
  pub in_reply_to : m.in_reply_to ≡ inner.in_reply_to
  pub body : m.body ≡ inner.body
  pub kind : m.kind ≡ kind_str inner.kind
  pub correlation_id : m.correlation_id ≡ inner.correlation_id
  pub supersedes : m.supersedes ≡ inner.supersedes
  pub encrypted : m.encrypted ≡ is_some inner.enc
  pub delivery_state : m.delivery_state ≡ state

-- The message is in the log, unless that failed, which goes unnoticed.
abbrev pub Logged : Bool → Db → Inner → Text → DeliveryState → Type 0
Logged true db inner topic state = get_message db inner.id ≡ none
Logged false db inner topic state =
    (m : StoredMsg) × (get_message db inner.id ≡ some m) × IsLogged inner topic state m

-- The message is in the outbox: its exact bytes, on its topic, with QoS 1 and not retained.
abbrev pub Queued : Db → Text → Text → Bytes → Type 0
Queued db id topic payload =
    find (queued id) db.outbox
    ≡ some (record { id = id; topic = topic; payload = payload; qos = 1; retain = false })

-- The mark of a delivery took it off the outbox, unless that failed, which goes unnoticed.
abbrev pub Unqueued : Bool → Db → Text → Text → Bytes → Type 0
Unqueued true db id topic payload = Queued db id topic payload
Unqueued false db id topic payload = any (queued id) db.outbox ≡ false

abbrev pub marked_state : Bool → DeliveryState
marked_state true = DeliveryState.pending
marked_state false = DeliveryState.sent

-- Lookups by id.
find-has_id-none :
    (id : Text) (rows : List StoredMsg)
    → any (has_id id) rows ≡ false
    → find (has_id id) rows ≡ none
find-has_id-none id [] h = refl
find-has_id-none id (m ∷ ms) h = ground (arith, find-has_id-none id ms)

find-has_id-append :
    (id : Text) (rows : List StoredMsg) (row : StoredMsg)
    → any (has_id id) rows ≡ false
    → row.id ≡ id
    → find (has_id id) (rows ++ row ∷ []) ≡ some row
find-has_id-append id [] row h e = ground (arith, text_beq_iff row.id id)
find-has_id-append id (m ∷ ms) row h e = ground (arith, find-has_id-append id ms row)

find-queued-append :
    (id : Text) (rows : List Outbound) (ob : Outbound)
    → any (queued id) rows ≡ false
    → ob.id ≡ id
    → find (queued id) (rows ++ ob ∷ []) ≡ some ob
find-queued-append id [] ob h e = ground (arith, text_beq_iff ob.id id)
find-queued-append id (o ∷ os) ob h e = ground (arith, find-queued-append id os ob)

pub logged-Logged :
    (fails : Bool) (db : Db) (inner : Inner) (topic : Text)
    → contains_id db inner.id ≡ false
    → Logged fails (logged fails db inner topic) inner topic DeliveryState.pending
unfolding contains_id get_message insert_outbound_log
logged-Logged true db inner topic new = find-has_id-none inner.id db.messages new
logged-Logged false db inner topic new = rw new (
  _,
  find-has_id-append inner.id db.messages
      (row_of (next_seq db) outgoing DeliveryState.pending inner topic) new refl,
  record {
    id = refl;
    direction = refl;
    from = refl;
    to = refl;
    topic_of = refl;
    ts = refl;
    ctype = refl;
    in_reply_to = refl;
    body = refl;
    kind = refl;
    correlation_id = refl;
    supersedes = refl;
    encrypted = refl;
    delivery_state = refl;
  },
)

pub outbox-logged :
    (fails : Bool) (db : Db) (inner : Inner) (topic : Text)
    → (logged fails db inner topic).outbox ≡ db.outbox
unfolding insert_outbound_log
outbox-logged true db inner topic = refl
outbox-logged false db inner topic = elim (Bool-cases (any (has_id inner.id) db.messages)) [
  | inl e ↦ rw e refl
  | inr e ↦ rw e refl
]

messages-enqueue_outbound :
    (db : Db) (ob : Outbound) → (enqueue_outbound db ob).messages ≡ db.messages
unfolding enqueue_outbound
messages-enqueue_outbound db ob = elim (Bool-cases (any (queued ob.id) db.outbox)) [
  | inl e ↦ rw e refl
  | inr e ↦ rw e refl
]

pub Logged-enqueue_outbound :
    (fails : Bool) (db : Db) (inner : Inner) (topic : Text) (state : DeliveryState) (ob : Outbound)
    → Logged fails db inner topic state
    → Logged fails (enqueue_outbound db ob) inner topic state
unfolding get_message
Logged-enqueue_outbound true db inner topic state ob h = rw (messages-enqueue_outbound db ob) h
Logged-enqueue_outbound false db inner topic state ob (m, found, same) =
    (m, rw (messages-enqueue_outbound db ob) found, same)

pub enqueue_outbound-Queued :
    (db : Db) (id topic : Text) (payload : Bytes)
    → any (queued id) db.outbox ≡ false
    → Queued (enqueue_outbound db (outbound id topic payload)) id topic payload
unfolding enqueue_outbound
enqueue_outbound-Queued db id topic payload new =
    rw new (find-queued-append id db.outbox (outbound id topic payload) new refl)

any-queued-keep :
    (id : Text) (rows : List Outbound)
    → any (queued id) (keep (λ (o : Outbound). not (o.id == id)) rows) ≡ false
any-queued-keep id [] = refl
any-queued-keep id (o ∷ os) = ground (arith, any-queued-keep id os)

any-queued-mark_delivered :
    (db : Db) (now id : Text) → any (queued id) (mark_delivered db now id).outbox ≡ false
unfolding mark_delivered
any-queued-mark_delivered db now id = any-queued-keep id db.outbox

acked_row :
    (db : Db) (now id : Text) (m : StoredMsg)
    → get_message db id ≡ some m
    → m.id ≡ id
    → is_out m.direction ≡ true
    → m.delivery_state ≡ DeliveryState.pending
    → get_message (mark_delivered db now id) id
      ≡ some (record m { delivery_state = DeliveryState.sent; broker_ack_ts = some now })
unfolding react
acked_row db now id m found same out state =
    get_message-react db (broker_ack now id) id found
    ∙ ap some (change-broker_ack now m id same out state)

pub marked-Logged :
    (fails mark_fails : Bool) (db : Db) (inner : Inner) (topic now : Text)
    → Logged fails db inner topic DeliveryState.pending
    → Logged fails (marked mark_fails db now inner.id) inner topic (marked_state mark_fails)
marked-Logged fails true db inner topic now h = h
marked-Logged true false db inner topic now h =
    unfold react in get_message-react-none db (broker_ack now inner.id) inner.id h
marked-Logged false false db inner topic now (m, found, same) = (
  record m { delivery_state = DeliveryState.sent; broker_ack_ts = some now },
  acked_row db now inner.id m found same.id (ap is_out same.direction) same.delivery_state,
  record {
    id = same.id;
    direction = same.direction;
    from = same.from;
    to = same.to;
    topic_of = same.topic_of;
    ts = same.ts;
    ctype = same.ctype;
    in_reply_to = same.in_reply_to;
    body = same.body;
    kind = same.kind;
    correlation_id = same.correlation_id;
    supersedes = same.supersedes;
    encrypted = same.encrypted;
    delivery_state = refl;
  },
)

pub marked-Unqueued :
    (fails : Bool) (db : Db) (now id topic : Text) (payload : Bytes)
    → Queued db id topic payload
    → Unqueued fails (marked fails db now id) id topic payload
marked-Unqueued true db now id topic payload h = h
marked-Unqueued false db now id topic payload h = any-queued-mark_delivered db now id

-- ===== src/Store/Outbox/Lifecycle.antt =====
-- The delivery lifecycle: under broker acknowledgements, receipts and failures in any order, the
-- state of an outbound message only moves up, and ends at the highest state that was reported.
use agent_mqtt_chat.Base.{
  ℕ, max, Text, text_eq, text_beq_iff, ◌==◌, ◌≡◌, ◌∙◌, ap, refl, true, List, [], ◌∷◌, map, some,
  none, map_option, find, if◌then◌else◌, arith,
}
use agent_mqtt_chat.Store.Types.{
  Db, StoredMsg, DeliveryState, untracked, pending, sent, delivered, read, failed, is_out,
}
use agent_mqtt_chat.Store.Messages.{has_id, get_message}
use agent_mqtt_chat.Store.Outbox.{
  may_send, may_deliver, may_read, update_when, mark_delivered, apply_delivery_receipt,
  apply_read_receipt, mark_failed,
}

-- What may happen to an outbound message, at a time.
pub data Event : Type 0 where
  broker_ack delivery_receipt read_receipt : Text → Text → Event
  failure : Text → Event

-- The store after an event.
unfoldable pub react : Db → Event → Db
react db (broker_ack now id) = mark_delivered db now id
react db (delivery_receipt ts id) = apply_delivery_receipt db id ts
react db (read_receipt ts id) = apply_read_receipt db id ts
react db (failure id) = mark_failed db id

unfoldable pub react_all : Db → List Event → Db
react_all db [] = db
react_all db (e ∷ es) = react_all (react db e) es

abbrev pub level : DeliveryState → ℕ
level untracked = 0
level pending = 1
level sent = 2
level delivered = 3
level read = 4
level failed = 5

-- The level that an event reports of a message: none, if it is about another one.
abbrev pub reported : Text → Event → ℕ
reported id (broker_ack _ i) = if i == id then 2 else 0
reported id (delivery_receipt _ i) = if i == id then 3 else 0
reported id (read_receipt _ i) = if i == id then 4 else 0
reported id (failure i) = if i == id then 5 else 0

-- The highest of a level and those that the events report.
abbrev pub highest : Text → ℕ → List Event → ℕ
highest id n [] = n
highest id n (e ∷ es) = highest id (max n (reported id e)) es

-- All that an event may change of a message is its state and the timestamps of delivery.
pub record SameMessage (m m' : StoredMsg) : Type 0 where
  pub seq : m'.seq ≡ m.seq
  pub id : m'.id ≡ m.id
  pub direction : m'.direction ≡ m.direction
  pub from : m'.from ≡ m.from
  pub to : m'.to ≡ m.to
  pub topic : m'.topic ≡ m.topic
  pub body : m'.body ≡ m.body
  pub ts : m'.ts ≡ m.ts
  pub ctype : m'.ctype ≡ m.ctype
  pub kind : m'.kind ≡ m.kind
  pub in_reply_to : m'.in_reply_to ≡ m.in_reply_to
  pub correlation_id : m'.correlation_id ≡ m.correlation_id
  pub supersedes : m'.supersedes ≡ m.supersedes
  pub encrypted : m'.encrypted ≡ m.encrypted

pub SameMessage-refl : (m : StoredMsg) → SameMessage m m
SameMessage-refl m = ground arith

SameMessage-trans : {a b c : StoredMsg} → SameMessage a b → SameMessage b c → SameMessage a c
SameMessage-trans h k = ground arith

-- A lookup by id after an update of the rows that keeps ids.
find-map :
    (id : Text) (f : StoredMsg → StoredMsg) (rows : List StoredMsg)
    → ((m : StoredMsg) → (f m).id ≡ m.id)
    → find (has_id id) (map f rows) ≡ map_option f (find (has_id id) rows)
find-map id f [] h = refl
find-map id f (m ∷ ms) h = ground (arith, h m, find-map id f ms h)

-- What an event makes of a row.
pub change : Event → StoredMsg → StoredMsg
change (broker_ack now id) =
    update_when may_send id (λ m. record m { delivery_state = sent; broker_ack_ts = some now })
change (delivery_receipt ts id) =
    update_when may_deliver id
      (λ m. record m { delivery_state = delivered; delivered_ts = some ts })
change (read_receipt ts id) =
    update_when may_read id (λ m. record m { delivery_state = read; read_ts = some ts })
change (failure id) = update_when (λ _. true) id (λ m. record m { delivery_state = failed })

pub change-SameMessage : (e : Event) (m : StoredMsg) → SameMessage m (change e m)
unfolding change
change-SameMessage (broker_ack now id) m = ground arith
change-SameMessage (delivery_receipt ts id) m = ground arith
change-SameMessage (read_receipt ts id) m = ground arith
change-SameMessage (failure id) m = ground arith

level-change :
    (e : Event) (m : StoredMsg)
    → is_out m.direction ≡ true
    → level (change e m).delivery_state ≡ max (level m.delivery_state) (reported m.id e)
unfolding change
level-change (broker_ack now id) m h = ground (arith, text_beq_iff m.id id, text_beq_iff id m.id)
level-change (delivery_receipt ts id) m h =
    ground (arith, text_beq_iff m.id id, text_beq_iff id m.id)
level-change (read_receipt ts id) m h = ground (arith, text_beq_iff m.id id, text_beq_iff id m.id)
level-change (failure id) m h = ground (arith, text_beq_iff m.id id, text_beq_iff id m.id)

pub messages-react : (db : Db) (e : Event) → (react db e).messages ≡ map (change e) db.messages
unfolding react change mark_delivered apply_delivery_receipt apply_read_receipt mark_failed
messages-react db (broker_ack now id) = refl
messages-react db (delivery_receipt ts id) = refl
messages-react db (read_receipt ts id) = refl
messages-react db (failure id) = refl

pub get_message-react :
    (db : Db) (e : Event) (id : Text) {m : StoredMsg}
    → get_message db id ≡ some m
    → get_message (react db e) id ≡ some (change e m)
unfolding get_message
get_message-react db e id h = rw (messages-react db e) (
    find-map id (change e) db.messages (λ m. (change-SameMessage e m).id)
    ∙ ap (map_option (change e)) h)

pub get_message-react-none :
    (db : Db) (e : Event) (id : Text)
    → get_message db id ≡ none
    → get_message (react db e) id ≡ none
unfolding get_message
get_message-react-none db e id h = rw (messages-react db e) (
    find-map id (change e) db.messages (λ m. (change-SameMessage e m).id)
    ∙ ap (map_option (change e)) h)

-- An acknowledgement of a pending message.
pub change-broker_ack :
    (now : Text) (m : StoredMsg) (id : Text)
    → m.id ≡ id
    → is_out m.direction ≡ true
    → m.delivery_state ≡ pending
    → change (broker_ack now id) m ≡ record m { delivery_state = sent; broker_ack_ts = some now }
unfolding change
change-broker_ack now m id same out state = ground (arith, text_beq_iff m.id id)

find-has_id :
    (id : Text) (rows : List StoredMsg) {m : StoredMsg} → find (has_id id) rows ≡ some m → m.id ≡ id
find-has_id id [] h = cc
find-has_id id (r ∷ rs) {m} h = ground (arith, text_beq_iff r.id id, find-has_id id rs {m = m})

-- Whatever events happen, and in whatever order, an outbound message stays in the log with its
-- contents, and its delivery state is the highest of its old one and of those that the events
-- report of it: a late broker acknowledgement or delivery receipt never takes it back.
pub get_message-react_all :
    (db : Db) (es : List Event) (id : Text) (m : StoredMsg)
    → get_message db id ≡ some m
    → is_out m.direction ≡ true
    → (m' : StoredMsg) × (get_message (react_all db es) id ≡ some m')
      × SameMessage m m'
      × (level m'.delivery_state ≡ highest id (level m.delivery_state) es)
unfolding react_all
get_message-react_all db [] id m h out = (m, h, SameMessage-refl m, refl)
get_message-react_all db (e ∷ es) id m h out =
    let same = change-SameMessage e m in
    let (m', found, same', lev) =
      get_message-react_all (react db e) es id (change e m) (get_message-react db e id h)
        (ap is_out same.direction ∙ out) in
    let mid : m.id ≡ id = unfold get_message in find-has_id id db.messages h in
    let moved : level (change e m).delivery_state ≡ max (level m.delivery_state) (reported id e) =
      level-change e m out ∙ ap (λ (i : Text). max (level m.delivery_state) (reported i e)) mid in
    (m', found, SameMessage-trans same same', lev ∙ ap (λ n. highest id n es) moved)

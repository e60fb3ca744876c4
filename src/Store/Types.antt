-- ===== src/Store/Types.antt =====
-- The rows and the tables of src/store.rs. `direction` and `delivery_state`, which are TEXT columns
-- of constants, are enumerations with their texts. SQLite's AUTOINCREMENT picks a row id above every
-- one that the table ever had: the last one is kept, and `gap` says how far the next one skips.
use agent_mqtt_chat.Base.{
  ℕ, suc, ◌+◌, Bytes, Text, lit, ℤ, Bool, true, false, List, [], Option, TextMap,
}
use agent_mqtt_chat.Wire.Types.{
  MsgKind, message, command, query, result, ack, error, grant, receipt,
}

pub data Direction : Type 0 where
  incoming outgoing : Direction

-- The text of the column.
abbrev pub direction_str : Direction → Text
direction_str incoming = lit "in"
direction_str outgoing = lit "out"

abbrev pub is_in : Direction → Bool
is_in incoming = true
is_in outgoing = false

abbrev pub is_out : Direction → Bool
is_out incoming = false
is_out outgoing = true

-- Delivery lifecycle: none|pending|sent|delivered|read|failed.
pub data DeliveryState : Type 0 where
  untracked pending sent delivered read failed : DeliveryState

abbrev pub state_str : DeliveryState → Text
state_str untracked = lit "none"
state_str pending = lit "pending"
state_str sent = lit "sent"
state_str delivered = lit "delivered"
state_str read = lit "read"
state_str failed = lit "failed"

-- A stored message row.
pub record StoredMsg : Type 0 where
  pub seq : ℕ
  pub id : Text
  pub direction : Direction
  pub from : Text
  pub to : Text
  pub topic : Text
  pub ts : Text
  pub ctype : Text
  pub in_reply_to : Option Text
  pub body : Text
  pub kind : Text
  pub correlation_id : Option Text
  pub supersedes : Option Text
  pub encrypted : Bool
  pub delivery_state : DeliveryState
  pub broker_ack_ts : Option Text
  pub delivered_ts : Option Text
  pub read_ts : Option Text

-- A pending outbound message.
pub record Outbound : Type 0 where
  pub id : Text
  pub topic : Text
  pub payload : Bytes
  pub qos : ℕ
  pub retain : Bool

pub record RejectionRow : Type 0 where
  pub seq : ℕ
  pub at : Text
  pub reason : Text
  pub claimed_sender : Option Text
  pub topic : Option Text
  pub detail : Text

-- A row of `cursors`, keyed by its consumer.
pub record CursorRow : Type 0 where
  pub last_seq : ℤ
  pub updated_at : Option Text

-- A per-consumer cursor summary.
pub record ConsumerRow : Type 0 where
  pub consumer : Text
  pub last_seq : ℤ
  pub unread : ℕ
  pub last_read_at : Option Text

-- An application presence record, keyed by its agent.
pub record PresenceRow : Type 0 where
  pub agent : Text
  pub state : Option Text
  pub source : Option Text
  pub ttl_secs : Option ℤ
  pub detail : Option Text
  pub seq : ℤ
  pub last_seen : Text

pub record Db : Type 0 where
  pub messages : List StoredMsg
  pub last_seq : ℕ
  pub gap : ℕ → ℕ
  pub cursors : TextMap CursorRow
  pub outbox : List Outbound
  pub rejections : List RejectionRow
  pub last_rejection : ℕ
  pub presence : TextMap PresenceRow
  pub seen_grants : List Text

-- A fresh database.
abbrev pub empty_db : (ℕ → ℕ) → Db
empty_db gap = record {
  messages = [];
  last_seq = 0;
  gap = gap;
  cursors = [];
  outbox = [];
  rejections = [];
  last_rejection = 0;
  presence = [];
  seen_grants = [];
}

-- The row id that an insertion takes.
abbrev pub next_seq : Db → ℕ
next_seq db = suc (db.last_seq + db.gap db.last_seq)

-- The stable text of a message kind.
unfoldable pub kind_str : MsgKind → Text
kind_str message = lit "message"
kind_str command = lit "command"
kind_str query = lit "query"
kind_str result = lit "result"
kind_str ack = lit "ack"
kind_str error = lit "error"
kind_str grant = lit "grant"
kind_str receipt = lit "receipt"

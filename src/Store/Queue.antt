-- ===== src/Store/Queue.antt =====
-- Per-consumer cursors of src/store.rs: reading the queue, acknowledging, and the summaries.
pub mod Drain
pub mod Unread
use agent_mqtt_chat.Base.{
  ℕ, max, Text, ℤ, pos, ltb_ℤ, Bool, ◌&&◌, List, [], ◌∷◌, Option, none, some, keep, length, TextMap,
  lookup, insert, if◌then◌else◌,
}
use agent_mqtt_chat.Store.Types.{Db, StoredMsg, CursorRow, ConsumerRow, is_in}
use agent_mqtt_chat.Store.Messages.{limit_rows}

abbrev pub last_seq_of : Option CursorRow → ℤ
last_seq_of none = pos 0
last_seq_of (some row) = row.last_seq

-- The last acknowledged seq of a consumer.
unfoldable pub cursor : Db → Text → ℤ
cursor db consumer = last_seq_of (lookup consumer db.cursors)

-- An inbound message that lies behind a cursor.
abbrev pub is_unread : ℤ → StoredMsg → Bool
is_unread after m = is_in m.direction && ltb_ℤ after (pos m.seq)

-- Inbound messages newer than the consumer's cursor, oldest first; the cursor stays.
unfoldable pub read_after_cursor : Db → Text → ℤ → List StoredMsg
unfolding cursor
read_after_cursor db consumer limit =
    limit_rows limit (keep (is_unread (cursor db consumer)) db.messages)

abbrev pub set_cursor : Db → Text → Text → ℤ → Db
set_cursor db now consumer seq = record db {
  cursors = insert consumer (record { last_seq = seq; updated_at = some now }) db.cursors;
}

abbrev pub advance : Db → Text → Text → ℤ → Option CursorRow → Db
advance db now consumer seq none = set_cursor db now consumer seq
advance db now consumer seq (some row) =
    if ltb_ℤ row.last_seq seq then set_cursor db now consumer seq else db

-- Acknowledge up to and including `seq`, at the time `now`.
unfoldable pub ack : Db → Text → Text → ℤ → Db
ack db now consumer seq = advance db now consumer seq (lookup consumer db.cursors)

abbrev max_in : List StoredMsg → ℕ
max_in [] = 0
max_in (m ∷ ms) = if is_in m.direction then max m.seq (max_in ms) else max_in ms

-- Highest inbound seq that is stored.
unfoldable pub max_inbound_seq : Db → ℕ
max_inbound_seq db = max_in db.messages

abbrev pub consumer_rows : List StoredMsg → TextMap CursorRow → List ConsumerRow
consumer_rows msgs [] = []
consumer_rows msgs ((consumer, row) ∷ m) =
    record {
      consumer = consumer;
      last_seq = row.last_seq;
      unread = length (keep (is_unread row.last_seq) msgs);
      last_read_at = row.updated_at;
    }
    ∷ consumer_rows msgs m

-- Per-consumer cursor summaries with unread counts, by consumer.
unfoldable pub consumers : Db → List ConsumerRow
consumers db = consumer_rows db.messages db.cursors

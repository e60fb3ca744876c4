-- ===== src/Store/Messages.antt =====
-- The message log of src/store.rs: insertion with dedupe, lookups, and the two listings.
pub mod Dedupe
use agent_mqtt_chat.Base.{
  ℕ, zero, suc, Text, lit, text_eq, ◌==◌, eqb_ℤ, ℤ, pos, negsuc, Bool, true, false, not, ◌&&◌, ◌||◌,
  List, [], ◌∷◌, ◌++◌, Option, none, some, is_some, any, find, keep, take, length, if◌then◌else◌,
}
use mathlib.Core.List.{reverse}
use agent_mqtt_chat.Wire.Types.{Inner, broadcast}
use agent_mqtt_chat.Store.Types.{
  Db, StoredMsg, Direction, incoming, outgoing, direction_str, DeliveryState, untracked, pending,
  state_str, kind_str, next_seq, is_out,
}

-- SQL's `LIMIT`: a negative limit is none.
abbrev pub limit_rows {ℓ} : {A : Type ℓ} → ℤ → List A → List A
limit_rows (pos n) rows = take n rows
limit_rows (negsuc _) rows = rows

abbrev pub has_id : Text → StoredMsg → Bool
has_id id m = m.id == id

-- Has this message id already been stored?
unfoldable pub contains_id : Db → Text → Bool
contains_id db id = any (has_id id) db.messages

-- The row of an inner message.
abbrev pub row_of : ℕ → Direction → DeliveryState → Inner → Text → StoredMsg
row_of seq direction state inner topic = record {
  seq = seq;
  id = inner.id;
  direction = direction;
  from = inner.from;
  to = inner.to;
  topic = topic;
  ts = inner.ts;
  ctype = inner.ctype;
  in_reply_to = inner.in_reply_to;
  body = inner.body;
  kind = kind_str inner.kind;
  correlation_id = inner.correlation_id;
  supersedes = inner.supersedes;
  encrypted = is_some inner.enc;
  delivery_state = state;
  broker_ack_ts = none;
  delivered_ts = none;
  read_ts = none;
}

abbrev pub append_row : Db → StoredMsg → Db
append_row db row = record db { messages = db.messages ++ row ∷ []; last_seq = row.seq }

-- Store an accepted inbound message: its `seq` if it was fresh, `none` if it was a duplicate.
unfoldable pub insert_inbound : Db → Inner → Text → Db × Option ℕ
insert_inbound db inner topic =
    if any (has_id inner.id) db.messages
    then (db, none)
    else (append_row db (row_of (next_seq db) incoming untracked inner topic), some (next_seq db))

-- Record a locally originated message, with a `pending` delivery state.
unfoldable pub insert_outbound_log : Db → Inner → Text → Db
insert_outbound_log db inner topic =
    if any (has_id inner.id) db.messages
    then db
    else append_row db (row_of (next_seq db) outgoing pending inner topic)

unfoldable pub message_by_seq : Db → ℤ → Option StoredMsg
message_by_seq db seq = find (λ m. eqb_ℤ (pos m.seq) seq) db.messages

unfoldable pub get_message : Db → Text → Option StoredMsg
get_message db id = find (has_id id) db.messages

-- A filter that is left out passes everything.
abbrev pub optional : Option Text → (Text → Bool) → Bool
optional none p = true
optional (some t) p = p t

-- Browse recent messages, newest first.
unfoldable pub browse : Db → ℤ → Option Text → Option Text → Text → List StoredMsg
browse db limit from_filter to_filter direction = limit_rows limit (
    reverse (
      keep
        (λ m.
          (direction == lit "all" || direction_str m.direction == direction)
          && optional from_filter (λ f. m.from == f)
          && optional to_filter (λ t. m.to == t || m.to == broadcast))
        db.messages))

-- The transcript across both directions, oldest first.
unfoldable pub transcript : Db → ℤ → Option Text → Option Text → Option Text → List StoredMsg
transcript db limit from_filter to_filter peer = limit_rows limit (
    keep
      (λ m.
        optional from_filter (λ f. m.from == f)
        && optional to_filter (λ t. m.to == t)
        && optional peer (λ p. m.from == p || m.to == p))
      db.messages)

-- Outbound messages with their delivery state, newest first.
unfoldable pub outbound_receipts : Db → ℤ → Option Text → List StoredMsg
outbound_receipts db limit state = limit_rows limit (
    reverse (
      keep (λ m. is_out m.direction && optional state (λ s. state_str m.delivery_state == s))
        db.messages))

unfoldable pub message_count : Db → ℕ
message_count db = length db.messages

-- ===== src/Store/Queue/Drain.antt =====
-- Draining the queue: an acknowledgement moves one consumer's cursor forward only, and drops exactly
-- the messages up to it from what that consumer reads next.
use agent_mqtt_chat.Base.{ap}
use agent_mqtt_chat.Store.Messages.{limit_rows}
use agent_mqtt_chat.Base.{
  ℕ, suc, ◌≤◌, Text, text_eq, text_beq_iff, ◌==◌, ◌≡◌, refl, sym, ℤ, pos, negsuc, ltb_ℤ, ◌≤ℤ◌, ◌<ℤ◌,
  true, false, List, [], ◌∷◌, Option, none, some, keep, lookup, lookup-insert, if◌then◌else◌,
  Option-cases, inl, inr, All, arith, length, take,
}
use agent_mqtt_chat.Store.Types.{Db, StoredMsg, CursorRow, is_in}
use agent_mqtt_chat.Store.Queue.{cursor, read_after_cursor, is_unread, ack}

abbrev pub max_ℤ : ℤ → ℤ → ℤ
max_ℤ a b = if ltb_ℤ a b then b else a

-- The cursor that an acknowledgement leaves, where there was one and where there was none.
abbrev pub acked : Option CursorRow → ℤ → ℤ
acked none seq = seq
acked (some row) seq = max_ℤ row.last_seq seq

-- An acknowledgement takes the consumer's cursor to the greater of the old and the new seq, or, for a
-- consumer that had none, to the new seq; the cursor of every other consumer is as before, and so
-- are the messages.
pub cursor-ack :
    (db : Db) (now consumer other : Text) (seq : ℤ)
    → let db' = ack db now consumer seq in
      (cursor db' other
        ≡ (if consumer == other then acked (lookup consumer db.cursors) seq else cursor db other))
      × (db'.messages ≡ db.messages)
unfolding ack cursor
cursor-ack db now consumer other seq = elim (Option-cases (lookup consumer db.cursors)) [
  | inl e ↦ ground (
    arith,
    text_beq_iff consumer other,
    lookup-insert consumer other (record { last_seq = seq; updated_at = some now }) db.cursors,
  )
  | inr (row, e) ↦ ground (
    arith,
    text_beq_iff consumer other,
    lookup-insert consumer other (record { last_seq = seq; updated_at = some now }) db.cursors,
  )
]

-- The inbound messages above a seq, of those above a lower one.
keep_unread-keep :
    (a b : ℤ) (rows : List StoredMsg)
    → a ≤ℤ b
    → keep (is_unread b) (keep (is_unread a) rows) ≡ keep (is_unread b) rows
keep_unread-keep a b [] h = refl
keep_unread-keep a b (m ∷ ms) h = ground (arith, keep_unread-keep a b ms h)

abbrev pub no_limit : ℤ
no_limit = negsuc 0

eq_of_le : (a b : ℤ) → a ≤ℤ b → ltb_ℤ a b ≡ false → a ≡ b
eq_of_le a b h k = ground arith

cursor-ack_at :
    (db : Db) (now consumer : Text) (seq : ℤ)
    → cursor db consumer ≤ℤ seq
    → cursor (ack db now consumer seq) consumer ≡ seq
unfolding cursor ack
cursor-ack_at db now consumer seq h = elim (Option-cases (lookup consumer db.cursors)) [
  | inl e ↦ ground (
    arith,
    text_beq_iff consumer consumer,
    lookup-insert consumer consumer (record { last_seq = seq; updated_at = some now }) db.cursors,
  )
  | inr (row, e) ↦ ground (
    arith,
    eq_of_le row.last_seq seq,
    text_beq_iff consumer consumer,
    lookup-insert consumer consumer (record { last_seq = seq; updated_at = some now }) db.cursors,
  )
]

-- After an acknowledgement at or above the cursor, a consumer reads what it would have read without a
-- limit, less the messages up to that seq, as far as its limit allows: nothing is lost and nothing comes
-- twice.
pub read_after_cursor-ack :
    (db : Db) (now consumer : Text) (seq limit : ℤ)
    → cursor db consumer ≤ℤ seq
    → read_after_cursor (ack db now consumer seq) consumer limit
      ≡ limit_rows limit (keep (is_unread seq) (read_after_cursor db consumer no_limit))
unfolding read_after_cursor
read_after_cursor-ack db now consumer seq limit h =
    rw (cursor-ack_at db now consumer seq h, (cursor-ack db now consumer consumer seq).1)
      (ap (limit_rows limit) (sym (keep_unread-keep (cursor db consumer) seq db.messages h)))

All-keep :
    (a : ℤ) (rows : List StoredMsg)
    → All (λ m. (is_in m.direction ≡ true) × (a <ℤ pos m.seq)) (keep (is_unread a) rows)
All-keep a [] = tt
All-keep a (m ∷ ms) = ground (arith, All-keep a ms)

All-take {ℓ κ} : {A : Type ℓ} (P : A → Type κ) (n : ℕ) (xs : List A) → All P xs → All P (take n xs)
All-take P ℕ.zero xs h = tt
All-take P (suc n) [] h = tt
All-take P (suc n) (x ∷ xs) h = (h.0, All-take P n xs h.1)

length-take-le {ℓ} : {A : Type ℓ} (n : ℕ) (xs : List A) → length (take n xs) ≤ n
length-take-le ℕ.zero xs = omega arith
length-take-le (suc n) [] = omega arith
length-take-le (suc n) (x ∷ xs) = omega (arith, length-take-le n xs)

-- A read returns inbound messages above the consumer's cursor only, and no more than its limit.
pub read_after_cursor_lem :
    (db : Db) (consumer : Text) (limit : ℕ)
    → let msgs = read_after_cursor db consumer (pos limit) in
      All (λ m. (is_in m.direction ≡ true) × (cursor db consumer <ℤ pos m.seq)) msgs
      × (length msgs ≤ limit)
unfolding read_after_cursor
read_after_cursor_lem db consumer limit = (
  All-take _ limit _ (All-keep (cursor db consumer) db.messages),
  length-take-le limit (keep (is_unread (cursor db consumer)) db.messages),
)

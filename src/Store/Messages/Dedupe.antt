-- ===== src/Store/Messages/Dedupe.antt =====
-- The dedupe of inbound messages: what an insertion does to the lookups by id and by seq.
use agent_mqtt_chat.Base.{
  ℕ, ◌+◌, ◌≤◌, ◌<◌, Text, text_eq, text_beq_iff, ◌≡◌, ◌≢◌, refl, pos, eqb_ℤ, true, false, List, [],
  ◌∷◌, ◌++◌, Option, none, some, any, find, inl, inr, Bool-cases, All, arith, length-append,
}
use agent_mqtt_chat.Wire.Types.{Inner}
use agent_mqtt_chat.Store.Types.{Db, StoredMsg, incoming, untracked, next_seq}
use agent_mqtt_chat.Store.Messages.{
  has_id, contains_id, row_of, insert_inbound, get_message, message_by_seq, message_count,
}

-- Every row's seq is at most the last one given out.
abbrev pub SeqsBelow : ℕ → List StoredMsg → Type 0
SeqsBelow n = All (λ m. m.seq ≤ n)

find-append :
    (id : Text) (rows : List StoredMsg) (row : StoredMsg)
    → any (has_id id) rows ≡ false
    → row.id ≡ id
    → find (has_id id) (rows ++ row ∷ []) ≡ some row
find-append id [] row h e = ground (arith, text_beq_iff row.id id)
find-append id (m ∷ ms) row h e = ground (arith, find-append id ms row)

find-append_other :
    (id : Text) (rows : List StoredMsg) (row : StoredMsg)
    → row.id ≢ id
    → find (has_id id) (rows ++ row ∷ []) ≡ find (has_id id) rows
find-append_other id [] row h = ground (arith, text_beq_iff row.id id)
find-append_other id (m ∷ ms) row h = ground (arith, find-append_other id ms row h)

find_seq-append :
    (n : ℕ) (rows : List StoredMsg) (row : StoredMsg)
    → SeqsBelow n rows
    → n < row.seq
    → find (λ m. eqb_ℤ (pos m.seq) (pos row.seq)) (rows ++ row ∷ []) ≡ some row
find_seq-append n [] row h lt = ground arith
find_seq-append n (m ∷ ms) row h lt = ground (arith, find_seq-append n ms row h.1 lt)

any-append :
    (id : Text) (rows : List StoredMsg) (row : StoredMsg)
    → row.id ≡ id
    → any (has_id id) (rows ++ row ∷ []) ≡ true
any-append id [] row e = ground (arith, text_beq_iff row.id id)
any-append id (m ∷ ms) row e = ground (arith, any-append id ms row e)

-- What became of an inbound message: a new row, or nothing.
pub record IsInserted (db : Db) (inner : Inner) (topic : Text) (db' : Db) (seq : ℕ) : Type 0 where
  pub unseen : contains_id db inner.id ≡ false
  pub newer : db.last_seq < seq
  pub by_id : get_message db' inner.id ≡ some (row_of seq incoming untracked inner topic)
  pub by_seq : message_by_seq db' (pos seq) ≡ some (row_of seq incoming untracked inner topic)
  pub count : message_count db' ≡ message_count db + 1
  pub seen : contains_id db' inner.id ≡ true

-- The outcome of `insert_inbound`, by its result.
abbrev pub Inserted : Db → Inner → Text → Db × Option ℕ → Type 0
Inserted db inner topic (db', none) = (contains_id db inner.id ≡ true) × (db' ≡ db)
Inserted db inner topic (db', some seq) = IsInserted db inner topic db' seq

-- An inbound message whose id is stored already changes nothing and gives no seq; any other is stored
-- under a seq above all that were ever given out, and is found by its id and by that seq. Its id is
-- then a stored one.
pub insert_inbound_lem :
    (db : Db) (inner : Inner) (topic : Text)
    → SeqsBelow db.last_seq db.messages
    → Inserted db inner topic (insert_inbound db inner topic)
unfolding insert_inbound contains_id get_message message_by_seq message_count
insert_inbound_lem db inner topic below = elim (Bool-cases (any (has_id inner.id) db.messages)) [
  | inl old ↦ rw old (old, refl)
  | inr new ↦
      let row = row_of (next_seq db) incoming untracked inner topic in
      rw new (record {
        unseen = new;
        newer = omega arith;
        by_id = find-append inner.id db.messages row new refl;
        by_seq = find_seq-append db.last_seq db.messages row below (omega arith);
        count = length-append {0} db.messages (row ∷ []);
        seen = any-append inner.id db.messages row refl;
      })
]

-- A message that arrives a second time is dropped: the store is as after the first time.
pub insert_inbound_twice :
    (db : Db) (inner : Inner) (topic topic' : Text)
    → let db' = (insert_inbound db inner topic).0 in insert_inbound db' inner topic' ≡ (db', none)
unfolding insert_inbound
insert_inbound_twice db inner topic topic' = elim (Bool-cases (any (has_id inner.id) db.messages)) [
  | inl old ↦ rw (old, old)
  | inr new ↦ rw new (
      rw (
        any-append inner.id db.messages (row_of (next_seq db) incoming untracked inner topic) refl))
]

-- ===== src/Store/Invariant.antt =====
-- The invariant of the message table, the outbox and the seen grants, and that every operation of
-- the store that writes keeps it.
pub mod Rows
pub mod Steps
pub mod Grants
use agent_mqtt_chat.Base.{
  ℕ, suc, ◌+◌, ◌≤◌, ◌<◌, Text, text_eq, text_beq_iff, ◌==◌, ◌≡◌, refl, ℤ, Bool, true, false, not,
  ◌&&◌, List, [], ◌∷◌, ◌++◌, map, Option, none, some, any, keep, if◌then◌else◌, Bool-cases, ◌⊎◌,
  inl, inr, arith, lookup, Option-cases,
}
use agent_mqtt_chat.Errors.{RejectReason}
use agent_mqtt_chat.Wire.Types.{Inner}
use agent_mqtt_chat.Store.Types.{
  Db, StoredMsg, Outbound, incoming, outgoing, untracked, pending, next_seq,
}
use agent_mqtt_chat.Store.Messages.{has_id, row_of, append_row, insert_inbound, insert_outbound_log}
use agent_mqtt_chat.Store.Queue.{ack, advance}
use agent_mqtt_chat.Store.Outbox.{
  enqueue_outbound, mark_delivered, apply_delivery_receipt, apply_read_receipt, mark_failed,
  update_when,
}
use agent_mqtt_chat.Store.Diagnostics.{record_rejection, seen_grant}
use agent_mqtt_chat.Store.Presence.{upsert_presence, newer_presence}
use agent_mqtt_chat.Store.Bounds.{enforce_bounds, evict, is_evictable}

-- From a bound upwards the seqs ascend, and end at or below another.
abbrev pub Ascending : ℕ → List StoredMsg → ℕ → Type 0
Ascending lo [] hi = lo ≤ hi
Ascending lo (m ∷ ms) hi = (lo < m.seq) × Ascending m.seq ms hi

-- No two rows have one id.
abbrev pub UniqueIds : List StoredMsg → Type 0
UniqueIds [] = Unit
UniqueIds (m ∷ ms) = (any (has_id m.id) ms ≡ false) × UniqueIds ms

abbrev pub queued : Text → Outbound → Bool
queued id o = o.id == id

abbrev pub UniqueOutbox : List Outbound → Type 0
UniqueOutbox [] = Unit
UniqueOutbox (o ∷ os) = (any (queued o.id) os ≡ false) × UniqueOutbox os

abbrev pub is_grant : Text → Text → Bool
is_grant g h = h == g

abbrev pub UniqueGrants : List Text → Type 0
UniqueGrants [] = Unit
UniqueGrants (g ∷ gs) = (any (is_grant g) gs ≡ false) × UniqueGrants gs

-- The log is in the order of its seqs, which are at most the last one given out; the ids of the log
-- and of the outbox are unique, and each grant is recorded once.
pub record IsValid (db : Db) : Type 0 where
  pub ordered : Ascending 0 db.messages db.last_seq
  pub unique_ids : UniqueIds db.messages
  pub unique_outbox : UniqueOutbox db.outbox
  pub unique_grants : UniqueGrants db.seen_grants

pub Ascending-append :
    (lo hi : ℕ) (rows : List StoredMsg) (row : StoredMsg)
    → Ascending lo rows hi
    → hi < row.seq
    → Ascending lo (rows ++ row ∷ []) row.seq
Ascending-append lo hi [] row h lt = omega arith
Ascending-append lo hi (m ∷ ms) row h lt = (h.0, Ascending-append m.seq hi ms row h.1 lt)

pub Ascending-weaken :
    (lo lo' hi : ℕ) (rows : List StoredMsg)
    → lo' ≤ lo
    → Ascending lo rows hi
    → Ascending lo' rows hi
Ascending-weaken lo lo' hi [] le h = omega arith
Ascending-weaken lo lo' hi (m ∷ ms) le h = (omega arith, h.1)

pub any-append_row :
    (id : Text) (rows : List StoredMsg) (row : StoredMsg)
    → any (has_id id) rows ≡ false
    → (row.id == id) ≡ false
    → any (has_id id) (rows ++ row ∷ []) ≡ false
any-append_row id [] row h e = ground arith
any-append_row id (m ∷ ms) row h e = ground (arith, any-append_row id ms row)

pub UniqueIds-append :
    (rows : List StoredMsg) (row : StoredMsg)
    → UniqueIds rows
    → any (has_id row.id) rows ≡ false
    → UniqueIds (rows ++ row ∷ [])
UniqueIds-append [] row h e = ground arith
UniqueIds-append (m ∷ ms) row h e = (
  any-append_row m.id ms row h.0
      (ground (arith, text_beq_iff m.id row.id, text_beq_iff row.id m.id)),
  UniqueIds-append ms row h.1 (ground arith),
)

-- A new row under the next seq.
pub append_row-IsValid :
    (db : Db) (row : StoredMsg)
    → IsValid db
    → row.seq ≡ next_seq db
    → any (has_id row.id) db.messages ≡ false
    → IsValid (append_row db row)
append_row-IsValid db row v e new = record {
  ordered = Ascending-append 0 db.last_seq db.messages row v.ordered (omega arith);
  unique_ids = UniqueIds-append db.messages row v.unique_ids new;
  unique_outbox = v.unique_outbox;
  unique_grants = v.unique_grants;
}

pub insert_inbound-IsValid :
    (db : Db) (inner : Inner) (topic : Text)
    → IsValid db
    → IsValid (insert_inbound db inner topic).0
unfolding insert_inbound
insert_inbound-IsValid db inner topic v = elim (Bool-cases (any (has_id inner.id) db.messages)) [
  | inl old ↦ rw old v
  | inr new ↦
      rw new
        (append_row-IsValid db (row_of (next_seq db) incoming untracked inner topic) v refl new)
]

pub insert_outbound_log-IsValid :
    (db : Db) (inner : Inner) (topic : Text)
    → IsValid db
    → IsValid (insert_outbound_log db inner topic)
unfolding insert_outbound_log
insert_outbound_log-IsValid db inner topic v =
    elim (Bool-cases (any (has_id inner.id) db.messages)) [
      | inl old ↦ rw old v
      | inr new ↦
          rw new
            (append_row-IsValid db (row_of (next_seq db) outgoing pending inner topic) v refl new)
    ]

-- An update of rows that keeps seqs and ids.
pub Ascending-map :
    (f : StoredMsg → StoredMsg) (lo hi : ℕ) (rows : List StoredMsg)
    → ((m : StoredMsg) → (f m).seq ≡ m.seq)
    → Ascending lo rows hi
    → Ascending lo (map f rows) hi
Ascending-map f lo hi [] e h = h
Ascending-map f lo hi (m ∷ ms) e h = rw (e m) (h.0, Ascending-map f m.seq hi ms e h.1)

pub any-map :
    (f : StoredMsg → StoredMsg) (id : Text) (rows : List StoredMsg)
    → ((m : StoredMsg) → (f m).id ≡ m.id)
    → any (has_id id) (map f rows) ≡ any (has_id id) rows
any-map f id [] e = refl
any-map f id (m ∷ ms) e = rw (e m, any-map f id ms e)

pub UniqueIds-map :
    (f : StoredMsg → StoredMsg) (rows : List StoredMsg)
    → ((m : StoredMsg) → (f m).id ≡ m.id)
    → UniqueIds rows
    → UniqueIds (map f rows)
UniqueIds-map f [] e h = tt
UniqueIds-map f (m ∷ ms) e h = rw (e m, any-map f m.id ms e) (h.0, UniqueIds-map f ms e h.1)

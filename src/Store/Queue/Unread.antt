-- ===== src/Store/Queue/Unread.antt =====
-- The unread counts of the consumer summaries, against what the consumers read.
use agent_mqtt_chat.Base.{
  Bool, Text, text_eq, text_beq_iff, ◌==◌, ◌≡◌, refl, true, false, [], ◌∷◌, length, TextMap, lookup,
  insert, text_ltb, text_ltb_antisymm, Bool-cases, Option-cases, inl, inr, ltb_ℤ, leb_ℤ, ℤ, arith,
  some, All,
}
use agent_mqtt_chat.Store.Types.{Db, CursorRow, ConsumerRow}
use agent_mqtt_chat.Store.Queue.Drain.{no_limit}
use agent_mqtt_chat.Store.Queue.{cursor, read_after_cursor, ack, consumers, consumer_rows}
use agent_mqtt_chat.Store.Messages.{insert_inbound, insert_outbound_log}
use agent_mqtt_chat.Store.Outbox.{
  enqueue_outbound, mark_delivered, apply_delivery_receipt, apply_read_receipt, mark_failed,
}
use agent_mqtt_chat.Store.Outbox.Lifecycle.{
  Event, broker_ack, delivery_receipt, read_receipt, failure, react,
}
use agent_mqtt_chat.Store.Diagnostics.{record_rejection, seen_grant}
use agent_mqtt_chat.Store.Presence.{upsert_presence}
use agent_mqtt_chat.Store.Bounds.{enforce_bounds}
use agent_mqtt_chat.Store.Invariant.Steps.{
  IsReachable, fresh, called, Call, insert_message, log_message, acknowledge, enqueue, event,
  reject, use_grant, beacon, evict_to, step,
}

-- The keys of a map ascend.
abbrev pub Sorted : TextMap CursorRow → Type 0
Sorted [] = Unit
Sorted ((k, row) ∷ m) = All (λ (e : Text × CursorRow). text_ltb k e.0 ≡ true) m × Sorted m

text_ltb_irrefl : (s : Text) → text_ltb s s ≡ false
text_ltb_irrefl [] = refl
text_ltb_irrefl (b ∷ s) = ground (arith, text_ltb_irrefl s)

-- The row of a consumer that the maps holds under a key in order is found by a lookup.
abbrev pub Counted : Db → ConsumerRow → Type 0
Counted db r =
    (r.last_seq ≡ cursor db r.consumer)
    × (r.unread ≡ length (read_after_cursor db r.consumer no_limit))

-- The entries of a sorted map are what its lookups give.
abbrev Agrees : TextMap CursorRow → TextMap CursorRow → Type 0
Agrees all m = All (λ (e : Text × CursorRow). lookup e.0 all ≡ some e.1) m

Agrees-cons :
    (k : Text) (row : CursorRow) (all m : TextMap CursorRow)
    → All (λ (e : Text × CursorRow). text_ltb k e.0 ≡ true) m
    → Agrees all m
    → Agrees ((k, row) ∷ all) m
Agrees-cons k row all [] h a = tt
Agrees-cons k row all ((j, r) ∷ m) h a =
    (ground (arith, text_beq_iff k j, text_ltb_irrefl k, h.0, a.0), Agrees-cons k row all m h.1 a.1)

Sorted-Agrees : (m : TextMap CursorRow) → Sorted m → Agrees m m
Sorted-Agrees [] h = tt
Sorted-Agrees ((k, row) ∷ m) h =
    (ground (arith, text_beq_iff k k), Agrees-cons k row m m h.0 (Sorted-Agrees m h.1))

consumer_rows-Counted :
    (db : Db) (m : TextMap CursorRow)
    → Agrees db.cursors m
    → All (Counted db) (consumer_rows db.messages m)
unfolding cursor read_after_cursor
consumer_rows-Counted db [] h = tt
consumer_rows-Counted db ((k, row) ∷ m) h = (rw h.0 (refl, refl), consumer_rows-Counted db m h.1)

text_ltb_trans : (s t u : Text) → text_ltb s t ≡ true → text_ltb t u ≡ true → text_ltb s u ≡ true
text_ltb_trans [] t [] h k = ground arith
text_ltb_trans [] t (c ∷ u) h k = refl
text_ltb_trans (a ∷ s) [] u h k = cc
text_ltb_trans (a ∷ s) (b ∷ t) [] h k = cc
text_ltb_trans (a ∷ s) (b ∷ t) (c ∷ u) h k = ground (arith, text_ltb_trans s t u)

-- A key below all keys of a map.
abbrev Below : Text → TextMap CursorRow → Type 0
Below k m = All (λ (e : Text × CursorRow). text_ltb k e.0 ≡ true) m

Below-trans : (j k : Text) (m : TextMap CursorRow) → text_ltb j k ≡ true → Below k m → Below j m
Below-trans j k [] h b = tt
Below-trans j k ((i, row) ∷ m) h b = (text_ltb_trans j k i h b.0, Below-trans j k m h b.1)

Below-insert :
    (j k : Text) (row : CursorRow) (m : TextMap CursorRow)
    → text_ltb j k ≡ true
    → Below j m
    → Below j (insert k row m)
Below-insert j k row [] h b = (h, tt)
Below-insert j k row ((i, old) ∷ m) h b = ground (arith, Below-insert j k row m)

Sorted-insert :
    (k : Text) (row : CursorRow) (m : TextMap CursorRow) → Sorted m → Sorted (insert k row m)
Sorted-insert k row [] h = (tt, tt)
Sorted-insert k row ((j, old) ∷ m) h = elim (Bool-cases (j == k)) [
  | inl same ↦ let e : j ≡ k = ground (arith, text_beq_iff j k) in rw same (rw e at h.0, h.1)
  | inr other ↦ elim (Bool-cases (text_ltb k j)) [
    | inl lt ↦ rw (other, lt) ((lt, Below-trans k j m lt h.0), h)
    | inr ge ↦
        let gt : text_ltb j k ≡ true = ground (arith, text_beq_iff j k, text_ltb_antisymm j k) in
        rw (other, ge) (Below-insert j k row m gt h.0, Sorted-insert k row m h.1)
  ]
]

ack-Sorted :
    (db : Db) (now consumer : Text) (seq : ℤ)
    → Sorted db.cursors
    → Sorted (ack db now consumer seq).cursors
unfolding ack
ack-Sorted db now consumer seq h =
    let row : CursorRow = record { last_seq = seq; updated_at = some now } in
    elim (Option-cases (lookup consumer db.cursors)) [
      | inl e ↦ rw e (Sorted-insert consumer row db.cursors h)
      | inr (old, e) ↦ elim (Bool-cases (ltb_ℤ old.last_seq seq)) [
        | inl e' ↦ rw (e, e') (Sorted-insert consumer row db.cursors h)
        | inr e' ↦ rw (e, e') h
      ]
    ]

-- Nothing else writes a cursor.
cursors-react : (db : Db) (e : Event) → (react db e).cursors ≡ db.cursors
unfolding react mark_delivered apply_delivery_receipt apply_read_receipt mark_failed
cursors-react db (broker_ack now id) = refl
cursors-react db (delivery_receipt ts id) = refl
cursors-react db (read_receipt ts id) = refl
cursors-react db (failure id) = refl

abbrev is_ack : Call → Bool
is_ack (acknowledge _ _ _) = true
is_ack (insert_message _ _) = false
is_ack (log_message _ _) = false
is_ack (enqueue _) = false
is_ack (event _) = false
is_ack (reject _ _ _ _ _) = false
is_ack (use_grant _) = false
is_ack (beacon _ _ _ _ _ _ _) = false
is_ack (evict_to _ _) = false

cursors-step : (db : Db) (c : Call) → is_ack c ≡ false → (step db c).cursors ≡ db.cursors
unfolding step insert_inbound insert_outbound_log enqueue_outbound record_rejection seen_grant
    upsert_presence enforce_bounds
cursors-step db (insert_message inner topic) h = ground arith
cursors-step db (log_message inner topic) h = ground arith
cursors-step db (acknowledge now consumer seq) h = cc
cursors-step db (enqueue ob) h = ground arith
cursors-step db (event e) h = cursors-react db e
cursors-step db (reject now reason sender topic detail) h = refl
cursors-step db (use_grant g) h = ground arith
cursors-step db (beacon agent state source ttl_secs seq detail now) h =
    elim (Option-cases (lookup agent db.presence)) [
      | inl e ↦ rw e refl
      | inr (old, e) ↦ elim (Bool-cases (leb_ℤ old.seq seq)) [
        | inl e' ↦ rw (e, e') refl
        | inr e' ↦ rw (e, e') refl
      ]
    ]
cursors-step db (evict_to max_messages max_bytes) h = refl

ack_step-Sorted :
    (db : Db) (c : Call) → is_ack c ≡ true → Sorted db.cursors → Sorted (step db c).cursors
unfolding step
ack_step-Sorted db (acknowledge now consumer seq) e h = ack-Sorted db now consumer seq h
ack_step-Sorted db (insert_message _ _) e h = cc
ack_step-Sorted db (log_message _ _) e h = cc
ack_step-Sorted db (enqueue _) e h = cc
ack_step-Sorted db (event _) e h = cc
ack_step-Sorted db (reject _ _ _ _ _) e h = cc
ack_step-Sorted db (use_grant _) e h = cc
ack_step-Sorted db (beacon _ _ _ _ _ _ _) e h = cc
ack_step-Sorted db (evict_to _ _) e h = cc

step-Sorted : (db : Db) (c : Call) → Sorted db.cursors → Sorted (step db c).cursors
step-Sorted db c h = elim (Bool-cases (is_ack c)) [
  | inr other ↦ rw (cursors-step db c other) h
  | inl acks ↦ ack_step-Sorted db c acks h
]

IsReachable-Sorted : (db : Db) → IsReachable db → Sorted db.cursors
IsReachable-Sorted _ (fresh gap) = tt
IsReachable-Sorted _ (called db c r) = step-Sorted db c (IsReachable-Sorted db r)

-- In every store that the operations reach from a fresh one, each row of the consumer summaries has
-- the cursor of its consumer, and its unread count is the number of messages that the consumer reads
-- when it reads without a limit.
pub consumers-Counted : (db : Db) → IsReachable db → All (Counted db) (consumers db)
unfolding consumers
consumers-Counted db r =
    consumer_rows-Counted db db.cursors (Sorted-Agrees db.cursors (IsReachable-Sorted db r))

-- ===== src/Store/Invariant/Steps.antt =====
-- Every operation of the store that writes, as a step, and that the invariant holds in every store
-- that steps reach.
use agent_mqtt_chat.Base.{
  ℕ, Text, text_eq, ◌==◌, ◌≡◌, refl, ℤ, not, Option, any, leb_ℤ, ltb_ℤ, Bool-cases, Option-cases,
  inl, inr, lookup, arith,
}
use agent_mqtt_chat.Errors.{RejectReason}
use agent_mqtt_chat.Wire.Types.{Inner}
use agent_mqtt_chat.Store.Types.{Db, Outbound, empty_db}
use agent_mqtt_chat.Store.Messages.{insert_inbound, insert_outbound_log}
use agent_mqtt_chat.Store.Queue.{ack}
use agent_mqtt_chat.Store.Outbox.{
  enqueue_outbound, mark_delivered, apply_delivery_receipt, apply_read_receipt, mark_failed,
}
use agent_mqtt_chat.Store.Outbox.Lifecycle.{
  Event, broker_ack, delivery_receipt, read_receipt, failure, react, change, change-SameMessage,
  messages-react,
}
use agent_mqtt_chat.Store.Diagnostics.{record_rejection, seen_grant}
use agent_mqtt_chat.Store.Presence.{upsert_presence}
use agent_mqtt_chat.Store.Bounds.{enforce_bounds}
use agent_mqtt_chat.Store.Invariant.{
  IsValid, Ascending-map, UniqueIds-map, UniqueOutbox, queued, is_grant, insert_inbound-IsValid,
  insert_outbound_log-IsValid,
}
use agent_mqtt_chat.Store.Invariant.Rows.{
  IsLog-enforce_rows, UniqueOutbox-append, UniqueOutbox-keep, UniqueGrants-append,
}

-- A call of an operation that writes, with its arguments.
pub data Call : Type 0 where
  insert_message log_message : Inner → Text → Call
  acknowledge : Text → Text → ℤ → Call
  enqueue : Outbound → Call
  event : Event → Call
  reject : Text → RejectReason → Option Text → Text → Text → Call
  use_grant : Text → Call
  beacon : Text → Text → Text → ℤ → ℤ → Option Text → Text → Call
  evict_to : ℕ → ℕ → Call

unfoldable pub step : Db → Call → Db
step db (insert_message inner topic) = (insert_inbound db inner topic).0
step db (log_message inner topic) = insert_outbound_log db inner topic
step db (acknowledge now consumer seq) = ack db now consumer seq
step db (enqueue ob) = enqueue_outbound db ob
step db (event e) = react db e
step db (reject now reason sender topic detail) = record_rejection db now reason sender topic detail
step db (use_grant g) = (seen_grant db g).0
step db (beacon agent state source ttl_secs seq detail now) =
    upsert_presence db agent state source ttl_secs seq detail now
step db (evict_to max_messages max_bytes) = (enforce_bounds db max_messages max_bytes).0

-- The stores that calls reach from a fresh one.
pub data IsReachable : Db → Type 0 where
  fresh : (gap : ℕ → ℕ) → IsReachable (empty_db gap)
  called : (db : Db) (c : Call) → IsReachable db → IsReachable (step db c)

ack-IsValid :
    (db : Db) (now consumer : Text) (seq : ℤ) → IsValid db → IsValid (ack db now consumer seq)
unfolding ack
ack-IsValid db now consumer seq v = elim (Option-cases (lookup consumer db.cursors)) [
  | inl e ↦ rw e (record {
    ordered = v.ordered;
    unique_ids = v.unique_ids;
    unique_outbox = v.unique_outbox;
    unique_grants = v.unique_grants;
  })
  | inr (row, e) ↦ elim (Bool-cases (ltb_ℤ row.last_seq seq)) [
    | inl e' ↦
        rw (e, e')
          (record {
            ordered = v.ordered;
            unique_ids = v.unique_ids;
            unique_outbox = v.unique_outbox;
            unique_grants = v.unique_grants;
          })
    | inr e' ↦ rw (e, e') v
  ]
]

enqueue_outbound-IsValid : (db : Db) (ob : Outbound) → IsValid db → IsValid (enqueue_outbound db ob)
unfolding enqueue_outbound
enqueue_outbound-IsValid db ob v = elim (Bool-cases (any (queued ob.id) db.outbox)) [
  | inl old ↦ rw old v
  | inr new ↦ rw new (record {
    ordered = v.ordered;
    unique_ids = v.unique_ids;
    unique_outbox = UniqueOutbox-append db.outbox ob v.unique_outbox new;
    unique_grants = v.unique_grants;
  })
]

-- What an event leaves beside the message log.
UniqueOutbox-react : (db : Db) (e : Event) → IsValid db → UniqueOutbox (react db e).outbox
unfolding react mark_delivered apply_delivery_receipt apply_read_receipt mark_failed
UniqueOutbox-react db (broker_ack now id) v =
    UniqueOutbox-keep (λ (o : Outbound). not (o.id == id)) db.outbox v.unique_outbox
UniqueOutbox-react db (delivery_receipt ts id) v = v.unique_outbox
UniqueOutbox-react db (read_receipt ts id) v = v.unique_outbox
UniqueOutbox-react db (failure id) v = v.unique_outbox

pub counters-react :
    (db : Db) (e : Event)
    → ((react db e).last_seq ≡ db.last_seq) × ((react db e).seen_grants ≡ db.seen_grants)
unfolding react mark_delivered apply_delivery_receipt apply_read_receipt mark_failed
counters-react db (broker_ack now id) = (refl, refl)
counters-react db (delivery_receipt ts id) = (refl, refl)
counters-react db (read_receipt ts id) = (refl, refl)
counters-react db (failure id) = (refl, refl)

react-IsValid : (db : Db) (e : Event) → IsValid db → IsValid (react db e)
react-IsValid db e v =
    let (last, grants) = counters-react db e in
    record {
      ordered =
          rw (messages-react db e, last)
            (Ascending-map (change e) 0 db.last_seq db.messages (λ m. (change-SameMessage e m).seq)
              v.ordered);
      unique_ids =
          rw (messages-react db e)
            (UniqueIds-map (change e) db.messages (λ m. (change-SameMessage e m).id) v.unique_ids);
      unique_outbox = UniqueOutbox-react db e v;
      unique_grants = rw grants v.unique_grants;
    }

seen_grant-IsValid : (db : Db) (g : Text) → IsValid db → IsValid (seen_grant db g).0
unfolding seen_grant
seen_grant-IsValid db g v = elim (Bool-cases (any (is_grant g) db.seen_grants)) [
  | inl old ↦ rw old v
  | inr new ↦ rw new (record {
    ordered = v.ordered;
    unique_ids = v.unique_ids;
    unique_outbox = v.unique_outbox;
    unique_grants = UniqueGrants-append db.seen_grants g v.unique_grants new;
  })
]

upsert_presence-IsValid :
    (db : Db) (agent state source : Text) (ttl_secs seq : ℤ) (detail : Option Text) (now : Text)
    → IsValid db
    → IsValid (upsert_presence db agent state source ttl_secs seq detail now)
unfolding upsert_presence
upsert_presence-IsValid db agent state source ttl_secs seq detail now v =
    elim (Option-cases (lookup agent db.presence)) [
      | inl e ↦ rw e (record {
        ordered = v.ordered;
        unique_ids = v.unique_ids;
        unique_outbox = v.unique_outbox;
        unique_grants = v.unique_grants;
      })
      | inr (old, e) ↦ elim (Bool-cases (leb_ℤ old.seq seq)) [
        | inl e' ↦
            rw (e, e')
              (record {
                ordered = v.ordered;
                unique_ids = v.unique_ids;
                unique_outbox = v.unique_outbox;
                unique_grants = v.unique_grants;
              })
        | inr e' ↦ rw (e, e') v
      ]
    ]

enforce_bounds-IsValid :
    (db : Db) (max_messages max_bytes : ℕ)
    → IsValid db
    → IsValid (enforce_bounds db max_messages max_bytes).0
unfolding enforce_bounds
enforce_bounds-IsValid db max_messages max_bytes v =
    let (ordered, unique) =
      IsLog-enforce_rows max_messages max_bytes db.last_seq db.messages (v.ordered, v.unique_ids) in
    record {
      ordered = ordered;
      unique_ids = unique;
      unique_outbox = v.unique_outbox;
      unique_grants = v.unique_grants;
    }

record_rejection-IsValid :
    (db : Db) (now : Text) (reason : RejectReason) (sender : Option Text) (topic detail : Text)
    → IsValid db
    → IsValid (record_rejection db now reason sender topic detail)
unfolding record_rejection
record_rejection-IsValid db now reason sender topic detail v = record {
  ordered = v.ordered;
  unique_ids = v.unique_ids;
  unique_outbox = v.unique_outbox;
  unique_grants = v.unique_grants;
}

-- Every call keeps the invariant.
pub step-IsValid : (db : Db) (c : Call) → IsValid db → IsValid (step db c)
unfolding step
step-IsValid db (insert_message inner topic) v = insert_inbound-IsValid db inner topic v
step-IsValid db (log_message inner topic) v = insert_outbound_log-IsValid db inner topic v
step-IsValid db (acknowledge now consumer seq) v = ack-IsValid db now consumer seq v
step-IsValid db (enqueue ob) v = enqueue_outbound-IsValid db ob v
step-IsValid db (event e) v = react-IsValid db e v
step-IsValid db (reject now reason sender topic detail) v =
    record_rejection-IsValid db now reason sender topic detail v
step-IsValid db (use_grant g) v = seen_grant-IsValid db g v
step-IsValid db (beacon agent state source ttl_secs seq detail now) v =
    upsert_presence-IsValid db agent state source ttl_secs seq detail now v
step-IsValid db (evict_to max_messages max_bytes) v =
    enforce_bounds-IsValid db max_messages max_bytes v

-- Whatever is called, in any order, from a fresh store on: the rows of the log are in the order of
-- their seqs, none above the last one given out; no two messages and no two queued messages have one
-- id; and no grant is recorded twice.
pub IsReachable-IsValid : (db : Db) → IsReachable db → IsValid db
IsReachable-IsValid _ (fresh gap) = record {
  ordered = omega arith;
  unique_ids = tt;
  unique_outbox = tt;
  unique_grants = tt;
}
IsReachable-IsValid _ (called db c r) = step-IsValid db c (IsReachable-IsValid db r)

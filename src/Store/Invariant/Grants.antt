-- ===== src/Store/Invariant/Grants.antt =====
-- The grants that a store of src/store.rs has seen stay seen.
use agent_mqtt_chat.Base.{
  Text, text_eq, text_beq_iff, Bool, true, List, [], ◌∷◌, ◌++◌, any, Option, ◌≡◌, refl, Bool-cases,
  Option-cases, inl, inr, arith, lookup, ltb_ℤ, leb_ℤ, ℤ,
}
use agent_mqtt_chat.Wire.Types.{Inner}
use agent_mqtt_chat.Store.Types.{Db, Outbound}
use agent_mqtt_chat.Store.Messages.{has_id, insert_inbound, insert_outbound_log}
use agent_mqtt_chat.Store.Queue.{ack}
use agent_mqtt_chat.Store.Outbox.{enqueue_outbound}
use agent_mqtt_chat.Store.Bounds.{enforce_bounds}
use agent_mqtt_chat.Store.Presence.{upsert_presence}
use agent_mqtt_chat.Store.Diagnostics.{seen_grant, record_rejection}
use agent_mqtt_chat.Store.Invariant.{queued, is_grant}
use agent_mqtt_chat.Store.Invariant.Steps.{
  Call, insert_message, log_message, acknowledge, enqueue, event, reject, use_grant, beacon,
  evict_to, step, counters-react,
}

-- Whether a grant's id was seen.
abbrev pub is_seen : Db → Text → Bool
is_seen db g = any (is_grant g) db.seen_grants

pub grants-insert_outbound_log :
    (db : Db) (inner : Inner) (topic : Text)
    → (insert_outbound_log db inner topic).seen_grants ≡ db.seen_grants
unfolding insert_outbound_log
grants-insert_outbound_log db inner topic = elim (Bool-cases (any (has_id inner.id) db.messages)) [
  | inl e ↦ rw e refl
  | inr e ↦ rw e refl
]

pub grants-insert_inbound :
    (db : Db) (inner : Inner) (topic : Text)
    → (insert_inbound db inner topic).0.seen_grants ≡ db.seen_grants
unfolding insert_inbound
grants-insert_inbound db inner topic = elim (Bool-cases (any (has_id inner.id) db.messages)) [
  | inl e ↦ rw e refl
  | inr e ↦ rw e refl
]

any_grant-append : (g : Text) (gs : List Text) → any (is_grant g) (gs ++ g ∷ []) ≡ true
any_grant-append g [] = ground (arith, text_beq_iff g g)
any_grant-append g (x ∷ xs) = ground (arith, any_grant-append g xs)

pub is_seen-seen_grant : (db : Db) (g : Text) → is_seen (seen_grant db g).0 g ≡ true
unfolding seen_grant
is_seen-seen_grant db g = elim (Bool-cases (any (is_grant g) db.seen_grants)) [
  | inl e ↦ rw e e
  | inr e ↦ rw e (any_grant-append g db.seen_grants)
]

pub seen_grant_old : (db : Db) (g : Text) → is_seen db g ≡ true → seen_grant db g ≡ (db, true)
unfolding seen_grant
seen_grant_old db g h = rw h refl

grants-ack :
    (db : Db) (now consumer : Text) (seq : ℤ)
    → (ack db now consumer seq).seen_grants ≡ db.seen_grants
unfolding ack
grants-ack db now consumer seq = elim (Option-cases (lookup consumer db.cursors)) [
  | inl e ↦ rw e refl
  | inr (row, e) ↦ elim (Bool-cases (ltb_ℤ row.last_seq seq)) [
    | inl e' ↦ rw (e, e') refl
    | inr e' ↦ rw (e, e') refl
  ]
]

grants-enqueue_outbound :
    (db : Db) (ob : Outbound) → (enqueue_outbound db ob).seen_grants ≡ db.seen_grants
unfolding enqueue_outbound
grants-enqueue_outbound db ob = elim (Bool-cases (any (queued ob.id) db.outbox)) [
  | inl e ↦ rw e refl
  | inr e ↦ rw e refl
]

grants-upsert_presence :
    (db : Db) (agent state source : Text) (ttl_secs seq : ℤ) (detail : Option Text) (now : Text)
    → (upsert_presence db agent state source ttl_secs seq detail now).seen_grants ≡ db.seen_grants
unfolding upsert_presence
grants-upsert_presence db agent state source ttl_secs seq detail now =
    elim (Option-cases (lookup agent db.presence)) [
      | inl e ↦ rw e refl
      | inr (old, e) ↦ elim (Bool-cases (leb_ℤ old.seq seq)) [
        | inl e' ↦ rw (e, e') refl
        | inr e' ↦ rw (e, e') refl
      ]
    ]

any_grant-append_old :
    (g h : Text) (gs : List Text)
    → any (is_grant g) gs ≡ true
    → any (is_grant g) (gs ++ h ∷ []) ≡ true
any_grant-append_old g h [] e = cc
any_grant-append_old g h (x ∷ xs) e = ground (arith, any_grant-append_old g h xs)

is_seen_grant_kept :
    (db : Db) (g h : Text) → is_seen db g ≡ true → is_seen (seen_grant db h).0 g ≡ true
unfolding seen_grant
is_seen_grant_kept db g h s = elim (Bool-cases (any (is_grant h) db.seen_grants)) [
  | inl e ↦ rw e s
  | inr e ↦ rw e (any_grant-append_old g h db.seen_grants s)
]

is_seen-step : (db : Db) (c : Call) (g : Text) → is_seen db g ≡ true → is_seen (step db c) g ≡ true
unfolding step record_rejection enforce_bounds
is_seen-step db (insert_message inner topic) g h = rw (grants-insert_inbound db inner topic) h
is_seen-step db (log_message inner topic) g h = rw (grants-insert_outbound_log db inner topic) h
is_seen-step db (acknowledge now consumer seq) g h = rw (grants-ack db now consumer seq) h
is_seen-step db (enqueue ob) g h = rw (grants-enqueue_outbound db ob) h
is_seen-step db (event e) g h = rw ((counters-react db e).1) h
is_seen-step db (reject now reason sender topic detail) g h = h
is_seen-step db (use_grant g') g h = is_seen_grant_kept db g g' h
is_seen-step db (beacon agent state source ttl_secs seq detail now) g h =
    rw (grants-upsert_presence db agent state source ttl_secs seq detail now) h
is_seen-step db (evict_to max_messages max_bytes) g h = h

-- What calls of the store, in any number and order, make of it.
pub data IsLater (db : Db) : Db → Type 0 where
  at_once : IsLater db db
  after : (db' : Db) (c : Call) → IsLater db db' → IsLater db (step db' c)

pub is_seen-later :
    {db db' : Db} (g : Text) → IsLater db db' → is_seen db g ≡ true → is_seen db' g ≡ true
is_seen-later g at_once h = h
is_seen-later g (after db' c l) h = is_seen-step db' c g (is_seen-later g l h)

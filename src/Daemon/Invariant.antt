-- ===== src/Daemon/Invariant.antt =====
-- The invariant of the whole state of src/daemon.rs.
use agent_mqtt_chat.Base.{
  ℕ, suc, ◌+◌, ◌≤◌, eqb, Text, text_eq, text_ltb, ◌==◌, ◌≡◌, refl, Bool, not, List, [], ◌∷◌, ◌++◌,
  map, keep, length, length-append, Option, none, some, TextMap, insert, remove, All, Bool-cases,
  inl, inr, arith,
}
use agent_mqtt_chat.External.{Env}
use agent_mqtt_chat.Identity.{Identity}
use agent_mqtt_chat.Pair.{sas}
use agent_mqtt_chat.Store.Types.{Db, StoredMsg}
use agent_mqtt_chat.Store.Invariant.{IsValid}
use agent_mqtt_chat.Ipc.{StreamFrame, message, lagged}
use agent_mqtt_chat.Daemon.State.{Daemon, Subscriber, PendingPair, with_db}
use agent_mqtt_chat.Daemon.Stream.{
  try_send, flush_lag, send_message, push_one, retained, push_to_subscribers, register, deregister,
  channel_capacity,
}
use agent_mqtt_chat.Daemon.Subscribe.{replace_subscriber}

-- A pending peer stands under its name, with the string that its key and ours give.
abbrev pub IsPending : Env → Identity → Text × PendingPair → Type 0
IsPending env me (name, p) = (p.name ≡ name) × (p.sas ≡ sas env me.public_key p.public_key)

-- Ids ascend from a bound and stay below another, and each channel is within its capacity.
abbrev pub Registered : ℕ → List Subscriber → ℕ → Type 0
Registered lo [] hi = lo ≤ hi
Registered lo (s ∷ ss) hi =
    (lo ≤ s.id) × (length s.channel ≤ channel_capacity) × Registered (suc s.id) ss hi

pub record IsSound (env : Env) (d : Daemon) : Type 0 where
  pub store : IsValid d.db
  pub awaited : All (IsPending env d.identity) d.pending
  pub registered : Registered 0 d.subscribers d.next_sub_id

pub with_db-IsSound :
    (env : Env) (d : Daemon) (db : Db) → IsSound env d → IsValid db → IsSound env (with_db d db)
with_db-IsSound env d db h v = record { store = v; awaited = h.awaited; registered = h.registered }

pub All-insert :
    (P : Text × PendingPair → Type 0) (k : Text) (v : PendingPair) (m : TextMap PendingPair)
    → P (k, v)
    → All P m
    → All P (insert k v m)
All-insert P k v [] p h = (p, tt)
All-insert P k v ((j, w) ∷ m) p h = elim (Bool-cases (j == k)) [
  | inl e ↦ rw e (p, h.1)
  | inr e ↦ elim (Bool-cases (text_ltb k j)) [
    | inl e' ↦ rw (e, e') (p, h)
    | inr e' ↦ rw (e, e') (h.0, All-insert P k v m p h.1)
  ]
]

pub All-remove :
    (P : Text × PendingPair → Type 0) (k : Text) (m : TextMap PendingPair)
    → All P m
    → All P (remove k m)
All-remove P k [] h = tt
All-remove P k ((j, w) ∷ m) h = elim (Bool-cases (j == k)) [
  | inl e ↦ rw e (All-remove P k m h.1)
  | inr e ↦ rw e (h.0, All-remove P k m h.1)
]

pub Registered-weaken :
    (lo lo' hi : ℕ) (ss : List Subscriber) → lo' ≤ lo → Registered lo ss hi → Registered lo' ss hi
Registered-weaken lo lo' hi [] le h = omega arith
Registered-weaken lo lo' hi (s ∷ ss) le h = (omega arith, h.1, h.2)

pub Registered-append :
    (lo hi : ℕ) (ss : List Subscriber) (s : Subscriber)
    → Registered lo ss hi
    → s.id ≡ hi
    → length s.channel ≤ channel_capacity
    → Registered lo (ss ++ s ∷ []) (suc hi)
Registered-append lo hi [] s h e c = (omega arith, c, omega arith)
Registered-append lo hi (t ∷ ss) s h e c = (h.0, h.1, Registered-append (suc t.id) hi ss s h.2 e c)

pub Registered-keep :
    (p : Subscriber → Bool) (lo hi : ℕ) (ss : List Subscriber)
    → Registered lo ss hi
    → Registered lo (keep p ss) hi
Registered-keep p lo hi [] h = h
Registered-keep p lo hi (s ∷ ss) h = elim (Bool-cases (p s)) [
  | inl e ↦ rw e (h.0, h.1, Registered-keep p (suc s.id) hi ss h.2)
  | inr e ↦
      rw e (
        Registered-keep p lo hi ss (Registered-weaken (suc s.id) lo hi ss (omega (arith, h.0)) h.2))
]

pub Registered-replace :
    (lo hi : ℕ) (ss : List Subscriber) (s : Subscriber)
    → length s.channel ≤ channel_capacity
    → Registered lo ss hi
    → Registered lo (map (replace_subscriber s) ss) hi
Registered-replace lo hi [] s c h = h
Registered-replace lo hi (t ∷ ss) s c h = elim (Bool-cases (eqb t.id s.id)) [
  | inl e ↦
      let same : t.id ≡ s.id = ground arith in
      rw e (omega arith, c, rw (← same) (Registered-replace (suc t.id) hi ss s c h.2))
  | inr e ↦ rw e (h.0, h.1, Registered-replace (suc t.id) hi ss s c h.2)
]

-- What a push leaves of a subscriber.
abbrev Kept : Subscriber → Subscriber → Type 0
Kept s t = (t.id ≡ s.id) × (length t.channel ≤ channel_capacity)

appended : (s : Subscriber) (f : StreamFrame) → length (s.channel ++ f ∷ []) ≡ length s.channel + 1
appended s f = length-append {0} s.channel (f ∷ [])

flush_lag-Kept :
    (s t : Subscriber) → length s.channel ≤ channel_capacity → flush_lag s ≡ some t → Kept s t
unfolding flush_lag try_send
flush_lag-Kept s t h e = ground (arith, appended s (lagged s.dropped))

send_message-Kept :
    (msg : StoredMsg) (s t : Subscriber)
    → length s.channel ≤ channel_capacity
    → send_message msg (some s) ≡ some t
    → Kept s t
unfolding try_send
send_message-Kept msg s t h e = ground (arith, appended s (message msg))

sent-Kept :
    (msg : StoredMsg) (s : Subscriber) (o : Option Subscriber) (t : Subscriber)
    → length s.channel ≤ channel_capacity
    → flush_lag s ≡ o
    → send_message msg o ≡ some t
    → Kept s t
sent-Kept msg s none t h e k = cc
sent-Kept msg s (some u) t h e k =
    let (id, channel) = flush_lag-Kept s u h e in
    let (id', channel') = send_message-Kept msg u t channel k in (omega (arith, id, id'), channel')

retained-Registered :
    (lo hi : ℕ) (s : Subscriber) (o : Option Subscriber) (rest : List Subscriber)
    → ((t : Subscriber) → o ≡ some t → Kept s t)
    → lo ≤ s.id
    → Registered (suc s.id) rest hi
    → Registered lo (retained o rest) hi
retained-Registered lo hi s none rest k le h =
    Registered-weaken (suc s.id) lo hi rest (omega arith) h
retained-Registered lo hi s (some t) rest k le h =
    let (same, channel) = k t refl in
    (omega arith, channel, Registered-weaken (suc s.id) (suc t.id) hi rest (omega arith) h)

pub push_to_subscribers-Registered :
    (lo hi : ℕ) (ss : List Subscriber) (msg : StoredMsg)
    → Registered lo ss hi
    → Registered lo (push_to_subscribers ss msg) hi
unfolding push_to_subscribers push_one
push_to_subscribers-Registered lo hi [] msg h = h
push_to_subscribers-Registered lo hi (s ∷ ss) msg h =
    retained-Registered lo hi s (push_one msg s) (push_to_subscribers ss msg)
      (λ t e. sent-Kept msg s (flush_lag s) t h.1 refl e) h.0
      (push_to_subscribers-Registered (suc s.id) hi ss msg h.2)

pub register-IsSound :
    (env : Env) (d : Daemon) (consumer : Text) → IsSound env d → IsSound env (register d consumer)
unfolding register
register-IsSound env d consumer h = record {
  store = h.store;
  awaited = h.awaited;
  registered =
      let next : d.next_sub_id + 1 ≡ suc d.next_sub_id = omega arith in
      rw next (Registered-append 0 d.next_sub_id d.subscribers _ h.registered refl (omega arith));
}

pub deregister-IsSound :
    (env : Env) (d : Daemon) (id : ℕ) → IsSound env d → IsSound env (deregister d id)
unfolding deregister
deregister-IsSound env d id h = record {
  store = h.store;
  awaited = h.awaited;
  registered =
      Registered-keep (λ (s : Subscriber). not (eqb s.id id)) 0 d.next_sub_id d.subscribers
        h.registered;
}

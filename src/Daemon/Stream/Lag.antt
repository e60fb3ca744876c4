-- ===== src/Daemon/Stream/Lag.antt =====
-- The accounting of a stream: every message that is pushed to a live subscriber is delivered or is
-- counted in a lag notice.
use agent_mqtt_chat.Base.{
  ℕ, suc, ◌+◌, ◌≤◌, ltb, true, List, [], ◌∷◌, ◌++◌, length, length-append, Option, none, some, ◌≡◌,
  ◌∙◌, refl, ap, inl, inr, Bool-cases, arith,
}
use agent_mqtt_chat.Store.Types.{StoredMsg}
use agent_mqtt_chat.Ipc.{StreamFrame, message, lagged}
use agent_mqtt_chat.Daemon.State.{Subscriber}
use agent_mqtt_chat.Daemon.Stream.{
  try_send, flush_lag, push_one, receive, channel_capacity, send_message, take_frame,
}

-- The messages that a frame accounts for.
abbrev pub weight : StreamFrame → ℕ
weight (message _) = 1
weight (lagged n) = n

abbrev pub weights : List StreamFrame → ℕ
weights [] = 0
weights (f ∷ fs) = weight f + weights fs

pub weights-append : (xs ys : List StreamFrame) → weights (xs ++ ys) ≡ weights xs + weights ys
weights-append [] ys = omega arith
weights-append (x ∷ xs) ys = omega (arith, weights-append xs ys)

-- What the serving thread and the daemon do to one subscriber.
pub data StreamEvent : Type 0 where
  push : StoredMsg → StreamEvent
  pull : StreamEvent

-- The frames that were taken so far, and the subscriber.
abbrev pub Session : Type 0
Session = List StreamFrame × Subscriber

abbrev pulled : List StreamFrame → Subscriber → Option (StreamFrame × Subscriber) → Session
pulled taken s none = (taken, s)
pulled taken _ (some (f, s)) = (taken ++ f ∷ [], s)

abbrev pushed : List StreamFrame → Subscriber → Option Subscriber → Session
pushed taken s none = (taken, s)
pushed taken _ (some s) = (taken, s)

unfoldable pub play : Session → StreamEvent → Session
play (taken, s) (push msg) = pushed taken s (push_one msg s)
play (taken, s) pull = pulled taken s (receive s)

unfoldable pub play_all : Session → List StreamEvent → Session
play_all session [] = session
play_all session (e ∷ es) = play_all (play session e) es

abbrev pub pushes : List StreamEvent → ℕ
pushes [] = 0
pushes (push _ ∷ es) = suc (pushes es)
pushes (pull ∷ es) = pushes es

-- All messages that a session accounts for: those taken, those in the channel, and those dropped.
abbrev pub accounted : Session → ℕ
accounted (taken, s) = weights taken + weights s.channel + s.dropped

-- A subscriber whose receiver is there, with a channel within its capacity.
pub record IsLive (s : Subscriber) : Type 0 where
  pub receiving : s.receiving ≡ true
  pub bounded : length s.channel ≤ channel_capacity

-- The messages that a subscriber's channel and its count of drops account for.
abbrev pub outstanding : Subscriber → ℕ
outstanding s = weights s.channel + s.dropped

appended : (s : Subscriber) (f : StreamFrame) → length (s.channel ++ f ∷ []) ≡ length s.channel + 1
appended s f = length-append {0} s.channel (f ∷ [])

flush_lag_lem :
    (s : Subscriber)
    → IsLive s
    → (s' : Subscriber) × (flush_lag s ≡ some s') × IsLive s' × (outstanding s' ≡ outstanding s)
unfolding flush_lag try_send
flush_lag_lem s live = elim (Bool-cases (ltb 0 s.dropped)) [
  | inr up_to_date ↦ (s, ground (arith, up_to_date), live, refl)
  | inl behind ↦ elim (Bool-cases (ltb (length s.channel) channel_capacity)) [
    | inr no_room ↦ (s, ground (arith, live.receiving), live, refl)
    | inl room ↦ (
      record s { channel = s.channel ++ lagged s.dropped ∷ []; dropped = 0 },
      rw (live.receiving, behind, room) refl,
      record {
        receiving = live.receiving;
        bounded = ground (arith, appended s (lagged s.dropped));
      },
      omega (arith, weights-append s.channel (lagged s.dropped ∷ [])),
    )
  ]
]

send_message_lem :
    (msg : StoredMsg) (t : Subscriber)
    → IsLive t
    → (s' : Subscriber) × (send_message msg (some t) ≡ some s')
      × IsLive s'
      × (outstanding s' ≡ outstanding t + 1)
unfolding try_send
send_message_lem msg t live = elim (Bool-cases (ltb (length t.channel) channel_capacity)) [
  | inr no_room ↦ (
    record t { dropped = t.dropped + 1 },
    ground (arith, live.receiving),
    record { receiving = live.receiving; bounded = live.bounded },
    omega arith,
  )
  | inl room ↦ (
    record t { channel = t.channel ++ message msg ∷ [] },
    ground (arith, live.receiving),
    record { receiving = live.receiving; bounded = ground (arith, appended t (message msg)) },
    omega (arith, weights-append t.channel (message msg ∷ [])),
  )
]

pub push_one_lem :
    (msg : StoredMsg) (s : Subscriber)
    → IsLive s
    → (s' : Subscriber) × (push_one msg s ≡ some s')
      × IsLive s'
      × (outstanding s' ≡ outstanding s + 1)
unfolding push_one
push_one_lem msg s live =
    let (t, flushed, live', same) = flush_lag_lem s live in
    let (s', sent, live'', one) = send_message_lem msg t live' in
    (s', ap (send_message msg) flushed ∙ sent, live'', omega (arith, same, one))

play_push :
    (taken : List StreamFrame) (s : Subscriber) (msg : StoredMsg) {t : Subscriber}
    → push_one msg s ≡ some t
    → play (taken, s) (push msg) ≡ (taken, t)
unfolding play
play_push taken s msg e = ap (pushed taken s) e

pulled_lem :
    (taken : List StreamFrame) (s : Subscriber) (fs : List StreamFrame)
    → s.channel ≡ fs
    → IsLive s
    → let session = pulled taken s (take_frame s fs) in
      IsLive session.1 × (accounted session ≡ accounted (taken, s))
pulled_lem taken s [] e live = (live, refl)
pulled_lem taken s (f ∷ fs) e live = (
  record { receiving = live.receiving; bounded = omega (arith, ap length e, live.bounded) },
  omega (arith, weights-append taken (f ∷ []), ap weights e),
)

play_pull :
    (taken : List StreamFrame) (s : Subscriber)
    → IsLive s
    → let session = play (taken, s) pull in
      IsLive session.1 × (accounted session ≡ accounted (taken, s))
unfolding play receive
play_pull taken s live = pulled_lem taken s s.channel refl live

-- However pushes and receptions interleave, while the receiver is there: the channel never holds more
-- than its capacity, and each message that was pushed is accounted for once: it was received, or it
-- is in the channel, or it is counted by a lag notice, received or in the channel, or it is in
-- the count of the next notice. No drop goes unreported, and none is reported twice.
pub play_all_lem :
    (taken : List StreamFrame) (s : Subscriber) (es : List StreamEvent)
    → IsLive s
    → let session = play_all (taken, s) es in
      IsLive session.1 × (accounted session ≡ accounted (taken, s) + pushes es)
unfolding play_all
play_all_lem taken s [] live = (live, omega arith)
play_all_lem taken s (push msg ∷ es) live =
    let (t, sent, live', one) = push_one_lem msg s live in
    let (live'', rest) = play_all_lem taken t es live' in
    rw (play_all, play_push taken s msg sent) (live'', omega (arith, rest, one))
play_all_lem taken s (pull ∷ es) live =
    let (live', same) = play_pull taken s live in
    let next = play (taken, s) pull in
    let (live'', rest) = play_all_lem next.0 next.1 es live' in (live'', omega (arith, rest, same))

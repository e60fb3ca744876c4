-- ===== src/Daemon/Stream.antt =====
-- `push_to_subscribers` and the receiving end of a subscription of src/daemon.rs: bounded channels
-- that count what they drop.
pub mod Lag
use agent_mqtt_chat.Base.{
  ℕ, suc, ◌+◌, ltb, Text, Bool, true, false, List, [], ◌∷◌, ◌++◌, length, Option, none, some, not,
  keep, eqb, if◌then◌else◌,
}
use agent_mqtt_chat.Store.Types.{StoredMsg}
use agent_mqtt_chat.Ipc.{StreamFrame, message, lagged}
use agent_mqtt_chat.Daemon.State.{Daemon, Subscriber}

-- `sync_channel::<StreamFrame>(256)`
abbrev pub channel_capacity : ℕ
channel_capacity = 256

-- The outcome of `SyncSender::try_send`.
pub data TrySend : Type 0 where
  accepted : Subscriber → TrySend
  full disconnected : TrySend

unfoldable pub try_send : Subscriber → StreamFrame → TrySend
try_send s frame =
    if not s.receiving
    then disconnected
    else if ltb (length s.channel) channel_capacity
    then accepted (record s { channel = s.channel ++ frame ∷ [] })
    else full

-- First the outstanding lag notice; `none` if the receiver is gone.
abbrev after_notice : Subscriber → TrySend → Option Subscriber
after_notice s (accepted s') = some (record s' { dropped = 0 })
after_notice s full = some s
after_notice s disconnected = none

unfoldable pub flush_lag : Subscriber → Option Subscriber
flush_lag s = if ltb 0 s.dropped then after_notice s (try_send s (lagged s.dropped)) else some s

-- Then the message, which is counted if the channel is full.
abbrev after_message : Subscriber → TrySend → Option Subscriber
after_message s (accepted s') = some s'
after_message s full = some (record s { dropped = s.dropped + 1 })
after_message s disconnected = none

abbrev pub send_message : StoredMsg → Option Subscriber → Option Subscriber
send_message msg none = none
send_message msg (some s) = after_message s (try_send s (message msg))

-- What a push makes of one subscriber; `none` drops it from the registry.
unfoldable pub push_one : StoredMsg → Subscriber → Option Subscriber
push_one msg s = send_message msg (flush_lag s)

abbrev pub retained : Option Subscriber → List Subscriber → List Subscriber
retained none rest = rest
retained (some s) rest = s ∷ rest

-- Push a newly stored message to every live subscriber.
unfoldable pub push_to_subscribers : List Subscriber → StoredMsg → List Subscriber
push_to_subscribers [] msg = []
push_to_subscribers (s ∷ ss) msg = retained (push_one msg s) (push_to_subscribers ss msg)

-- The serving thread takes the next frame.
abbrev pub take_frame : Subscriber → List StreamFrame → Option (StreamFrame × Subscriber)
take_frame s [] = none
take_frame s (f ∷ fs) = some (f, record s { channel = fs })

unfoldable pub receive : Subscriber → Option (StreamFrame × Subscriber)
receive s = take_frame s s.channel

-- Register a subscriber under the next id.
unfoldable pub register : Daemon → Text → Daemon
register d consumer = record d {
  next_sub_id = d.next_sub_id + 1;
  subscribers =
      d.subscribers
      ++ record {
        id = d.next_sub_id;
        consumer = consumer;
        channel = [];
        receiving = true;
        dropped = 0;
      }
        ∷ [];
}

unfoldable pub deregister : Daemon → ℕ → Daemon
deregister d id = record d {
  subscribers = keep (λ (s : Subscriber). not (eqb s.id id)) d.subscribers;
}

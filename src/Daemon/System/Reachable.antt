-- ===== src/Daemon/System/Reachable.antt =====
-- The invariant holds in every state that a daemon of src/daemon.rs reaches.
use agent_mqtt_chat.Base.{
  ℕ, suc, ◌≤◌, Text, Bool, true, false, List, [], ◌∷◌, Option, none, some, Result, find, and_then,
  length, Bool-cases, inl, inr, arith, pos, eqb,
}
use agent_mqtt_chat.External.{Env}
use agent_mqtt_chat.Errors.{Error}
use agent_mqtt_chat.Config.{Config}
use agent_mqtt_chat.Identity.{Identity}
use agent_mqtt_chat.Trust.{TrustStore}
use agent_mqtt_chat.Store.Types.{Db, empty_db}
use agent_mqtt_chat.Store.Invariant.{IsValid}
use agent_mqtt_chat.Store.Invariant.Steps.{IsReachable-IsValid, fresh}
use agent_mqtt_chat.Ipc.{StreamFrame}
use agent_mqtt_chat.Daemon.State.{Daemon, Moment, Subscriber}
use agent_mqtt_chat.Daemon.Stream.{receive, take_frame, channel_capacity}
use agent_mqtt_chat.Daemon.Subscribe.{
  serve_frame, forward, set_subscriber, ack_frame, frame_seq, has_sub_id,
}
use agent_mqtt_chat.Daemon.Invariant.{
  IsSound, Registered, Registered-replace, register-IsSound, deregister-IsSound,
}
use agent_mqtt_chat.Daemon.Ingest.Sound.{on_message-IsSound}
use agent_mqtt_chat.Daemon.System.{
  Action, arrive, ask, pump_round, beat, session_flag, subscribe, serve, edit_config, edit_trust,
  act, boot,
}
use agent_mqtt_chat.Daemon.System.Mail.{pump-IsSound, heartbeat-IsSound, acknowledge-IsSound}
use agent_mqtt_chat.Daemon.System.Requests.{handle-IsSound}

set_subscriber-IsSound :
    (env : Env) (d : Daemon) (s : Subscriber)
    → length s.channel ≤ channel_capacity
    → IsSound env d
    → IsSound env (set_subscriber d s)
set_subscriber-IsSound env d s c h = record {
  store = h.store;
  awaited = h.awaited;
  registered = Registered-replace 0 d.next_sub_id d.subscribers s c h.registered;
}

ack_frame-IsSound :
    (env : Env) (at : Moment) (d : Daemon) (consumer : Text) (ack : Bool) (seq : Option ℕ)
    → IsSound env d
    → IsSound env (ack_frame env at d consumer ack seq)
ack_frame-IsSound env at d consumer true (some seq) h =
    acknowledge-IsSound env at d consumer (pos seq) h
ack_frame-IsSound env at d consumer true none h = h
ack_frame-IsSound env at d consumer false seq h = h

-- The channel of what was received.
abbrev Fits : Option (StreamFrame × Subscriber) → Type 0
Fits none = Unit {0}
Fits (some (frame, s)) = length s.channel ≤ channel_capacity

take_frame-Fits :
    (s : Subscriber) (channel : List StreamFrame)
    → length channel ≤ channel_capacity
    → Fits (take_frame s channel)
take_frame-Fits s [] h = tt
take_frame-Fits s (f ∷ fs) h = omega arith

received-Fits :
    (lo hi id : ℕ) (ss : List Subscriber)
    → Registered lo ss hi
    → Fits (and_then (find (has_sub_id id) ss) receive)
unfolding receive
received-Fits lo hi id [] h = tt
received-Fits lo hi id (s ∷ ss) h = elim (Bool-cases (eqb s.id id)) [
  | inl e ↦ rw e (take_frame-Fits s s.channel h.1)
  | inr e ↦ rw e (received-Fits (suc s.id) hi id ss h.2)
]

forward-IsSound :
    (env : Env) (at : Moment) (ack written : Bool) (d : Daemon) (id : ℕ)
    (r : Option (StreamFrame × Subscriber))
    → Fits r
    → IsSound env d
    → IsSound env (forward env at ack written d id r)
forward-IsSound env at ack written d id none f h = h
forward-IsSound env at ack true d id (some (frame, s)) f h =
    ack_frame-IsSound env at (set_subscriber d s) s.consumer ack (frame_seq frame)
      (set_subscriber-IsSound env d s f h)
forward-IsSound env at ack false d id (some (frame, s)) f h =
    deregister-IsSound env (set_subscriber d s) id (set_subscriber-IsSound env d s f h)

-- Every step keeps the invariant of the daemon.
pub act-IsSound : (env : Env) (d : Daemon) (a : Action) → IsSound env d → IsSound env (act env d a)
unfolding act serve_frame
act-IsSound env d (arrive at topic payload) h = on_message-IsSound env at d topic payload h
act-IsSound env d (ask version at req) h = handle-IsSound env version at d req h
act-IsSound env d (pump_round now takes) h = pump-IsSound env now takes d h
act-IsSound env d (beat at) h = heartbeat-IsSound env at d h
act-IsSound env d (session_flag up) h = record {
  store = h.store;
  awaited = h.awaited;
  registered = h.registered;
}
act-IsSound env d (subscribe consumer) h = register-IsSound env d consumer h
act-IsSound env d (serve at ack written id) h =
    forward-IsSound env at ack written d id (and_then (find (has_sub_id id) d.subscribers) receive)
      (received-Fits 0 d.next_sub_id id d.subscribers h.registered) h
act-IsSound env d (edit_config cfg) h = record {
  store = h.store;
  awaited = h.awaited;
  registered = h.registered;
}
act-IsSound env d (edit_trust trust) h = record {
  store = h.store;
  awaited = h.awaited;
  registered = h.registered;
}

-- The states that steps, in any order, reach from the start of a daemon, on a fresh database or on the
-- one that an earlier run has left.
pub data Reachable (env : Env) : Daemon → Type 0 where
  booted :
      (id : Identity) (gap : ℕ → ℕ) (cfg : Result Error Config) (trust : Result Error TrustStore)
      → Reachable env (boot id (empty_db gap) cfg trust)
  restarted :
      (d : Daemon) (id : Identity) (cfg : Result Error Config) (trust : Result Error TrustStore)
      → Reachable env d
      → Reachable env (boot id d.db cfg trust)
  acted : (d : Daemon) (a : Action) → Reachable env d → Reachable env (act env d a)

boot-IsSound :
    (env : Env) (id : Identity) (db : Db) (cfg : Result Error Config)
    (trust : Result Error TrustStore)
    → IsValid db
    → IsSound env (boot id db cfg trust)
unfolding boot
boot-IsSound env id db cfg trust v = record { store = v; awaited = tt; registered = omega arith }

-- In every state that a daemon reaches, over any number of restarts on the store of the run before,
-- from a fresh store on, whatever arrives, is asked and is edited meanwhile, and in
-- whatever order: the log is in the order of its seqs, the ids of the log and of the outbox are
-- unique, and no grant is recorded twice; each pending peer stands under its name with the short
-- string of its key and the daemon's; and the subscribers have different ids, in the order of their
-- registration, with channels within their capacity.
pub Reachable-IsSound : (env : Env) (d : Daemon) → Reachable env d → IsSound env d
Reachable-IsSound env d (booted id gap cfg trust) =
    boot-IsSound env id (empty_db gap) cfg trust (IsReachable-IsValid _ (fresh gap))
Reachable-IsSound env d (restarted d' id cfg trust r) =
    boot-IsSound env id d'.db cfg trust (Reachable-IsSound env d' r).store
Reachable-IsSound env d (acted d' a r) = act-IsSound env d' a (Reachable-IsSound env d' r)

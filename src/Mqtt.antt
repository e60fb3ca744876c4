-- ===== src/Mqtt.antt =====
-- src/mqtt.rs: the session with the broker. The client crate is outside of the model: its iterator is
-- a list of polls, each with what the stop flag reads while it is handled. Durations are in
-- milliseconds. The children prove what a sleep does (`Sleep`) and what a session does (`Loop`).
pub mod Sleep
pub mod Loop
use agent_mqtt_chat.Base.{
  ℕ, zero, suc, ◌+◌, ◌-◌, ◌*◌, min, max, Bytes, Text, lit, text_eq, ◌==◌, ltb, Bool, true, false,
  not, List, [], ◌∷◌, ◌++◌, Option, none, some, Result, ok, err, ◌>>=◌, ◌>>◌, reject_if,
  if◌then◌else◌,
}
use agent_mqtt_chat.Errors.{Error, config_error}
use agent_mqtt_chat.Config.{Config}

-- The greatest `usize`.
abbrev pub usize_max : ℕ
usize_max = 18_446_744_073_709_551_615

abbrev pub saturating_mul : ℕ → ℕ → ℕ
saturating_mul a b = min (a * b) usize_max

abbrev pub saturating_add : ℕ → ℕ → ℕ
saturating_add a b = min (a + b) usize_max

-- The limit of a packet: the payload in double base64, the signature and the JSON framing.
unfoldable pub max_pkt : ℕ → ℕ
max_pkt max_payload = max (saturating_add (saturating_mul max_payload 2) 65_536) 262_144

-- `MqttOptions` as `start` sets them. Keep-alive is in seconds.
pub record MqttOptions : Type 0 where
  pub client_id : Text
  pub host : Text
  pub port : ℕ
  pub keep_alive : ℕ
  pub max_packet_size : ℕ
  pub clean_session : Bool
  pub credentials : Option (Text × Text)
  pub tls : Bool

-- The checks and the options of `Mqtt::start`.
unfoldable pub session_options : Config → Text → Result Error MqttOptions
session_options cfg client_id = do
  reject_if (cfg.broker_host == []) (config_error (lit "broker host not set"))
  reject_if (not cfg.tls) (config_error (lit "TLS is required (set tls = true)"))
  ok (record {
    client_id = client_id;
    host = cfg.broker_host;
    port = cfg.broker_port;
    keep_alive = 20;
    max_packet_size = max_pkt cfg.max_payload;
    clean_session = false;
    credentials = if cfg.username == [] then none else some (cfg.username, cfg.password);
    tls = true;
  })

-- A slice of the interruptible sleep.
abbrev pub sleep_step : ℕ
sleep_step = 100

-- The loop, on fuel: `stop` is what the flag reads after so much sleep. The time that was slept, and
-- whether a stop was observed.
unfoldable pub sleep_go : ℕ → ℕ → ℕ → (ℕ → Bool) → Option (ℕ × Bool)
sleep_go zero dur slept stop = none
sleep_go (suc fuel) dur slept stop =
    let rest = sleep_go fuel dur (slept + min sleep_step (dur - slept)) stop in
    if ltb slept dur
    then if stop slept then some (slept, true) else rest
    else some (slept, stop slept)

-- Each round sleeps a millisecond at least.
unfoldable pub sleep_interruptible : ℕ → (ℕ → Bool) → Option (ℕ × Bool)
sleep_interruptible dur stop = sleep_go (suc dur) dur 0 stop

abbrev pub first_backoff : ℕ
first_backoff = 250

abbrev pub max_backoff : ℕ
max_backoff = 30_000

-- What the iterator yields.
pub data BrokerEvent : Type 0 where
  conn_ack : BrokerEvent
  publish : Text → Bytes → BrokerEvent
  other poll_error : BrokerEvent

-- An event, with what the stop flag reads before it, after an error, and in the sleep.
pub record Poll : Type 0 where
  pub event : BrokerEvent
  pub stop_before : Bool
  pub stop_after : Bool
  pub stop_asleep : ℕ → Bool

-- The event thread: the flag that callers read, the next backoff, the subscriptions that were asked
-- for, what the callback made of the world, and whether the loop still runs.
pub record Session (W : Type 0) : Type 0 where
  pub connected : Bool
  pub backoff : ℕ
  pub asked : List Text
  pub world : W
  pub running : Bool

abbrev pub opened : {W : Type 0} → W → Session W
opened w = record {
  connected = false;
  backoff = first_backoff;
  asked = [];
  world = w;
  running = true;
}

-- The callback is given with what it makes of the world also where it panics: the panic is caught.
module _ {W : Type 0} (on_message : W → Text → Bytes → W) (topics : List Text) where
  abbrev pub stopped : Session W → Session W
  stopped s = record s { running = false }

  -- After the sleep.
  abbrev pub backed_off : Session W → Option (ℕ × Bool) → Session W
  backed_off s none = s
  backed_off s (some (_, true)) = stopped s
  backed_off s (some (_, false)) = record s { backoff = min (s.backoff * 2) max_backoff }

  unfoldable pub on_error : Session W → Poll → Session W
  on_error s p =
      let down = record s { connected = false } in
      if p.stop_after
      then stopped down
      else backed_off down (sleep_interruptible s.backoff p.stop_asleep)

  abbrev pub on_event : Session W → Poll → BrokerEvent → Session W
  on_event s p conn_ack = record s {
    connected = true;
    backoff = first_backoff;
    asked = s.asked ++ topics;
  }
  on_event s p (publish topic payload) = record s { world = on_message s.world topic payload }
  on_event s p other = s
  on_event s p poll_error = on_error s p

  -- One round of the loop; once it has ended nothing more happens.
  unfoldable pub poll : Session W → Poll → Session W
  poll s p = if s.running then if p.stop_before then stopped s else on_event s p p.event else s

  unfoldable pub event_loop : Session W → List Poll → Session W
  event_loop s [] = s
  event_loop s (p ∷ ps) = event_loop (poll s p) ps

  -- The thread: whatever ends the loop, the guard clears the flag.
  unfoldable pub run : W → List Poll → Session W
  run w ps = record (event_loop (opened w) ps) { connected = false; running = false }

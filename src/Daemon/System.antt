-- ===== src/Daemon/System.antt =====
-- What happens to a daemon of src/daemon.rs, as steps in any order: its threads share the state by
-- locks, and each step is what one of them does under them.
pub mod Mail
pub mod Requests
pub mod Reachable
use agent_mqtt_chat.Base.{ℕ, Bytes, Text, Bool, [], none, Result, map_option}
use agent_mqtt_chat.External.{Env}
use agent_mqtt_chat.Errors.{Error}
use agent_mqtt_chat.Config.{Config}
use agent_mqtt_chat.Trust.{TrustStore}
use agent_mqtt_chat.Identity.{Identity}
use agent_mqtt_chat.Store.Types.{Db}
use agent_mqtt_chat.Ipc.{Request}
use agent_mqtt_chat.Daemon.State.{Daemon, Moment}
use agent_mqtt_chat.Daemon.Stream.{register}
use agent_mqtt_chat.Daemon.Outgoing.Pump.{pump}
use agent_mqtt_chat.Daemon.Ingest.{on_message}
use agent_mqtt_chat.Daemon.Requests.{handle}
use agent_mqtt_chat.Daemon.Heartbeat.{heartbeat}
use agent_mqtt_chat.Daemon.Subscribe.{serve_frame}

-- A publication arrives, a client asks, the pump and the heartbeat do a round, the session's flag
-- changes, a subscription is registered or forwards a frame, or a file is edited by somebody else.
pub data Action : Type 0 where
  arrive : Moment → Text → Bytes → Action
  ask : Text → Moment → Request → Action
  pump_round : Text → (Text → Bool) → Action
  beat : Moment → Action
  session_flag : Bool → Action
  subscribe : Text → Action
  serve : Moment → Bool → Bool → ℕ → Action
  edit_config : Result Error Config → Action
  edit_trust : Result Error TrustStore → Action

unfoldable pub act : Env → Daemon → Action → Daemon
act env d (arrive at topic payload) = on_message env at d topic payload
act env d (ask version at req) = (handle env version at d req).0
act env d (pump_round now takes) = pump now takes d
act env d (beat at) = heartbeat env at d
act env d (session_flag up) = record d { mqtt = map_option (λ _. up) d.mqtt }
act env d (subscribe consumer) = register d consumer
act env d (serve at ack written id) = serve_frame env at ack written d id
act env d (edit_config cfg) = record d { config = cfg }
act env d (edit_trust trust) = record d { trust = trust }

-- `run`: the state of a daemon that starts on the database that it opens.
unfoldable pub boot : Identity → Db → Result Error Config → Result Error TrustStore → Daemon
boot id db cfg trust = record {
  identity = id;
  db = db;
  config = cfg;
  trust = trust;
  mqtt = none;
  published = [];
  subscribers = [];
  next_sub_id = 1;
  pending = [];
}

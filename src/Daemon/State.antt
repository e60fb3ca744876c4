-- ===== src/Daemon/State.antt =====
-- The state of src/daemon.rs, and what one handling takes from outside of it.
use agent_mqtt_chat.Base.{
  ℕ, Bytes, Text, ℤ, Bool, false, List, Option, none, some, Result, ok_or_default, TextMap,
}
use agent_mqtt_chat.External.{Instant}
use agent_mqtt_chat.Errors.{Error}
use agent_mqtt_chat.Config.{Config, default_config}
use agent_mqtt_chat.Identity.{Identity}
use agent_mqtt_chat.Trust.{TrustStore, empty_trust}
use agent_mqtt_chat.Store.Types.{Db}
use agent_mqtt_chat.Ipc.{StreamFrame}
use agent_mqtt_chat.Message.Build.{Fresh}

-- A live streaming subscriber. The channel holds the frames that the serving thread has not taken
-- yet, and `receiving` says whether that thread still receives.
pub record Subscriber : Type 0 where
  pub id : ℕ
  pub consumer : Text
  pub channel : List StreamFrame
  pub receiving : Bool
  pub dropped : ℕ

-- A peer that was seen on the pairing topic, awaiting a confirmation.
pub record PendingPair : Type 0 where
  pub name : Text
  pub public_key : Bytes
  pub kem_public_key : Option Bytes
  pub sas : Text
  pub first_seen : Text

-- A publication that the broker's client took: topic, payload, retain.
pub record Publication : Type 0 where
  pub topic : Text
  pub payload : Bytes
  pub retain : Bool

-- Shared daemon state. `config` and `trust` are what the files give when they are loaded; `mqtt` is
-- the session, if there is one, with whether it is connected.
pub record Daemon : Type 0 where
  pub identity : Identity
  pub db : Db
  pub config : Result Error Config
  pub trust : Result Error TrustStore
  pub mqtt : Option Bool
  pub published : List Publication
  pub subscribers : List Subscriber
  pub next_sub_id : ℕ
  pub pending : TextMap PendingPair

-- What one handling takes from outside: the clock, also as the texts of the store and as seconds, the
-- generator, whether the client takes a publication, the id of the process, and what fails: the trust
-- file's save, which then leaves `torn` in the file, and the store's insertion into the log, its queueing,
-- its mark of a delivery, and its acknowledgement.
pub record Moment : Type 0 where
  pub now : Instant
  pub now_text : Text
  pub now_seq : ℤ
  pub fresh : Fresh
  pub publish_ok : Bool
  pub save_error : Option Error
  pub torn : Option Bytes
  pub log_fails : Bool
  pub queue_error : Option Error
  pub mark_fails : Bool
  pub ack_error : Option Error
  pub pid : ℕ

-- `Config::load().unwrap_or_default()`
abbrev pub config_of : Daemon → Config
config_of d = ok_or_default d.config default_config

-- `TrustStore::load().unwrap_or_default()`
abbrev pub trust_of : Daemon → TrustStore
trust_of d = ok_or_default d.trust empty_trust

abbrev pub with_db : Daemon → Db → Daemon
with_db d db = record d { db = db }

abbrev pub connected_session : Option Bool → Bool
connected_session none = false
connected_session (some up) = up

-- `is_connected`, and whether `connected_client` gives a client
unfoldable pub is_connected : Daemon → Bool
is_connected d = connected_session d.mqtt

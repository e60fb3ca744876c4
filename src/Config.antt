-- ===== src/Config.antt =====
-- src/config.rs: the configuration, its defaults and its checks.
use agent_mqtt_chat.Base.{
  ℕ, Text, lit, text_eq, ◌==◌, ℤ, pos, Bool, true, false, not, ◌&&◌, ◌||◌, List, [], ◌∷◌, Option,
  first, Result, ok, err, if◌then◌else◌, contains_byte,
}
use agent_mqtt_chat.Errors.{Error, config_error}

pub record Config : Type 0 where
  pub broker_host : Text
  pub broker_port : ℕ
  pub tls : Bool
  pub username : Text
  pub password : Text
  pub topics : List Text
  pub freshness_secs : ℤ
  pub max_messages : ℕ
  pub max_bytes : ℕ
  pub max_payload : ℕ
  pub heartbeat_secs : ℕ
  pub allow_unsigned : Bool
  pub accept_v1 : Bool
  pub require_encryption : Bool
  pub auto_receipts : Bool

abbrev pub default_config : Config
default_config = record {
  broker_host = [];
  broker_port = 8883;
  tls = true;
  username = [];
  password = [];
  topics = [];
  freshness_secs = pos 300;
  max_messages = 50_000;
  max_bytes = 524_288_000;
  max_payload = 262_144;
  heartbeat_secs = 0;
  allow_unsigned = false;
  accept_v1 = true;
  require_encryption = false;
  auto_receipts = true;
}

-- The primary topic, used for publishing.
abbrev pub primary_topic : Config → Option Text
primary_topic cfg = first cfg.topics

unfoldable pub validate_topic : Text → Result Error (Unit {0})
validate_topic topic =
    if topic == []
    then err (config_error (lit "topic must not be empty"))
    else if contains_byte b'+' topic || contains_byte b'#' topic
    then err (config_error (lit "chat topic must not contain MQTT wildcards (+ or #)"))
    else ok tt

abbrev is_empty {ℓ} : {A : Type ℓ} → List A → Bool
is_empty [] = true
is_empty (_ ∷ _) = false

-- Enough is configured for the daemon to connect.
unfoldable pub is_connectable : Config → Bool
is_connectable cfg =
    not (is_empty cfg.broker_host) && not (is_empty cfg.username) && not (is_empty cfg.topics)

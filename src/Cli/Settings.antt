-- ===== src/Cli/Settings.antt =====
-- The `config` commands of src/cli.rs.
pub mod Topics
use agent_mqtt_chat.Base.{
  ℕ, Text, lit, text_eq, ◌==◌, Bool, true, false, not, List, [], ◌∷◌, ◌++◌, any, Option, none, some,
  unwrap_or, Result, ok, err, ◌>>=◌, ◌>>◌, decimal, if◌then◌else◌,
}
use agent_mqtt_chat.External.{Env}
use agent_mqtt_chat.Errors.{Error}
use agent_mqtt_chat.Config.{Config, validate_topic}
use agent_mqtt_chat.Files.{Files, load_config, save_config}
use agent_mqtt_chat.Cli.{
  Shell, Printed, Payload, flag, texts, config_is, security_is, redacted, ok_json, bool_text,
}
use agent_mqtt_chat.Cli.Keys.{Outcome, printed_if}

pub data ConfigCmd : Type 0 where
  set_broker : Text → ℕ → Bool → ConfigCmd
  set_creds : Text → Text → ConfigCmd
  set_topic add_topic : Text → ConfigCmd
  set_security : Option Bool → Option Bool → Option Bool → Option Bool → ConfigCmd
  show : ConfigCmd

abbrev pub broker_config : Config → Text → ℕ → Bool → Config
broker_config c host port no_tls = record c {
  broker_host = host;
  broker_port = port;
  tls = not no_tls;
}

abbrev pub creds_config : Config → Text → Text → Config
creds_config c username password = record c { username = username; password = password }

abbrev pub topic_config : Config → Text → Config
topic_config c topic = record c { topics = topic ∷ [] }

-- `if !c.topics.contains(topic) { c.topics.push(topic) }`
abbrev pub added_config : Config → Text → Config
added_config c topic =
    if any (λ t. t == topic) c.topics then c else record c { topics = c.topics ++ topic ∷ [] }

abbrev pub security_config : Config → Option Bool → Option Bool → Option Bool → Option Bool → Config
security_config c allow_unsigned accept_v1 require_encryption auto_receipts = record c {
  allow_unsigned = unwrap_or allow_unsigned c.allow_unsigned;
  accept_v1 = unwrap_or accept_v1 c.accept_v1;
  require_encryption = unwrap_or require_encryption c.require_encryption;
  auto_receipts = unwrap_or auto_receipts c.auto_receipts;
}

abbrev broker_text : Config → Text
broker_text c =
    c.broker_host ++ lit ":" ++ decimal c.broker_port ++ lit " (tls=" ++ bool_text c.tls ++ lit ")"

abbrev security_lines : Config → List Text
security_lines c =
    (lit "allow_unsigned:     " ++ bool_text c.allow_unsigned)
    ∷ (lit "accept_v1:          " ++ bool_text c.accept_v1)
    ∷ (lit "require_encryption: " ++ bool_text c.require_encryption)
    ∷ (lit "auto_receipts:      " ++ bool_text c.auto_receipts)
    ∷ []

-- The switches on one line, which `status` prints too.
abbrev pub security_text : Bool → Bool → Bool → Bool → Text
security_text allow_unsigned accept_v1 require_encryption auto_receipts =
    lit "allow_unsigned="
    ++ bool_text allow_unsigned
    ++ lit " accept_v1="
    ++ bool_text accept_v1
    ++ lit " require_encryption="
    ++ bool_text require_encryption
    ++ lit " auto_receipts="
    ++ bool_text auto_receipts

abbrev password_text : Text → Text
password_text [] = lit "unset"
password_text (_ ∷ _) = lit "set"

abbrev show_lines : Shell → Config → List Text
show_lines sh c =
    (lit "broker:   " ++ broker_text c)
    ∷ (lit "user:     " ++ c.username ++ lit " (password " ++ password_text c.password ++ lit ")")
    ∷ (lit "topics:   " ++ sh.debug_texts c.topics)
    ∷ (lit "store:    max "
        ++ decimal c.max_messages
        ++ lit " msgs / "
        ++ decimal c.max_bytes
        ++ lit " bytes")
    ∷ (lit "security: "
        ++ security_text c.allow_unsigned c.accept_v1 c.require_encryption c.auto_receipts)
    ∷ []

-- Save what a command has made of the configuration.
abbrev pub saved : Env → Files → Config → Printed → Outcome
saved env f c printed = do w ← save_config env f c; ok (printed_if w printed)

unfoldable pub config_cmd : Env → Shell → Bool → Files → ConfigCmd → Outcome
config_cmd env sh json f (set_broker host port no_tls) = do
  c ← load_config env f
  let new = broker_config c host port no_tls
  saved env f new (ok_json json (config_is new) ((lit "broker set to " ++ broker_text new) ∷ []))
config_cmd env sh json f (set_creds username password) = do
  c ← load_config env f
  saved env f (creds_config c username password)
      (ok_json json (flag true) ((lit "credentials set for user '" ++ username ++ lit "'") ∷ []))
config_cmd env sh json f (set_topic topic) = do
  validate_topic topic
  c ← load_config env f
  saved env f (topic_config c topic)
      (ok_json json (texts (topic ∷ [])) ((lit "topic set to '" ++ topic ++ lit "'") ∷ []))
config_cmd env sh json f (add_topic topic) = do
  validate_topic topic
  c ← load_config env f
  let new = added_config c topic
  saved env f new
      (ok_json json (texts new.topics) ((lit "topics: " ++ sh.debug_texts new.topics) ∷ []))
config_cmd env sh json f (set_security allow_unsigned accept_v1 require_encryption auto_receipts) =
    do
      c ← load_config env f
      let new = security_config c allow_unsigned accept_v1 require_encryption auto_receipts
      saved env f new (
          ok_json json
            (security_is new.allow_unsigned new.accept_v1 new.require_encryption new.auto_receipts)
            (security_lines new))
config_cmd env sh json f show = do
  c ← load_config env f
  ok (f, ok (ok_json json (redacted c) (show_lines sh c)))

-- ===== src/Cli.antt =====
-- src/cli.rs: the command line. What a command takes from outside is a `Shell`; what it prints is a
-- `Printed`, whose JSON form is that of `serde_json`. `Keys`, `Authorities` and `Settings` are the
-- commands on files,
-- `Print` the tables, `Calls` the commands that ask the daemon, `Run` the dispatch and the exit code.
pub mod Keys
pub mod Authorities
pub mod Settings
pub mod Machine
pub mod Print
pub mod Calls
pub mod Peers
pub mod Reading
pub mod Starting
pub mod Run
use agent_mqtt_chat.Base.{
  ℕ, ℤ, Bytes, Text, lit, text_eq, ◌==◌, Bool, true, false, List, [], ◌∷◌, ◌++◌, Option, none, some,
  Result, ok, err,
}
use agent_mqtt_chat.Errors.{Error, config_error}
use agent_mqtt_chat.Docs.{GrantClaims}
use agent_mqtt_chat.Config.{Config}
use agent_mqtt_chat.Identity.{Identity}
use agent_mqtt_chat.Token.IdentityToken
use agent_mqtt_chat.Token.IdentityToken.{IdentityToken}
use agent_mqtt_chat.Store.Types.{StoredMsg, RejectionRow, ConsumerRow, PresenceRow}
use agent_mqtt_chat.Ipc.{StatusInfo, PendingPairView, Response}

-- Standard input, the other files of the user, why a file is not written, if so, what the generators
-- give, and the `Debug` texts of the standard library.
pub record Shell : Type 0 where
  pub stdin : Result Error Text
  pub read_file : Text → Result Error Text
  pub write_error : Text → Option Error
  pub seed : Bytes
  pub ulid : Text
  pub ulid_nonce : Text
  pub debug_texts : List Text → Text
  pub debug_response : Response → Text

-- The `data` of the JSON envelope.
pub data Payload : Type 0 where
  flag : Bool → Payload
  text : Text → Payload
  texts : List Text → Payload
  key_is : Text → Text → Text → Payload
  agent_is : Text → Text → Option Text → Payload
  entries : List (Text × Text) → Payload
  grant_is : GrantClaims → Text → Payload
  config_is : Config → Payload
  security_is : Bool → Bool → Bool → Bool → Payload
  redacted : Config → Payload
  sent_is : Text → Text → Payload
  messages_are : List StoredMsg → Payload
  rejections_are : List RejectionRow → Payload
  consumers_are : List ConsumerRow → Payload
  presence_are : List PresenceRow → Payload
  pairs_are : List PendingPairView → Payload
  status_is : StatusInfo → Payload
  down_is : Option Text → Text → List Text → Payload

-- What a command prints: the envelope, or lines for a human.
pub data Printed : Type 0 where
  envelope : Payload → Printed
  human : List Text → Printed

unfoldable pub ok_json : Bool → Payload → List Text → Printed
ok_json true payload lines = envelope payload
ok_json false payload lines = human lines

-- A token from `--file`, a positional argument, or standard input (`-`).
abbrev token_argument : Shell → Option Text → Result Error Text
token_argument sh none =
    err (config_error (lit "provide a token, --file <f>, or '-' to read stdin"))
token_argument sh (some t) = elim (t == lit "-") [ true ↦ sh.stdin | false ↦ ok t ]

unfoldable pub read_token_input : Shell → Option Text → Option Text → Result Error Text
read_token_input sh token none = token_argument sh token
read_token_input sh token (some file) = sh.read_file file

-- The token of an identity, with both keys.
abbrev pub identity_token : Identity → IdentityToken
identity_token id = record {
  name = id.name;
  public_key = id.public_key;
  kem_public_key = some id.kem_ek;
}

-- `true` and `false`, as `{}` prints them.
abbrev pub bool_text : Bool → Text
bool_text true = lit "true"
bool_text false = lit "false"

-- ===== src/Ipc.antt =====
-- The requests, responses and stream frames of src/ipc.rs; the frames' bytes are in
-- `Ipc/Framing.antt`. Where a response would share its name with a request or a type, it has another:
-- `Ok` is `done`, `Status` is `status_is`, `Error` is `failure`, and so on. The many fields of
-- `Send` are a record.
pub mod Framing
use agent_mqtt_chat.Base.{ℕ, Text, ℤ, Bool, List, Option}
use agent_mqtt_chat.Store.Types.{StoredMsg, RejectionRow, ConsumerRow, PresenceRow}

abbrev pub ipc_proto_version : ℕ
ipc_proto_version = 2

-- The fields of `Send`, which are those of the daemon's `SendParams`.
pub record SendParams : Type 0 where
  pub to : Text
  pub ctype : Text
  pub body : Text
  pub in_reply_to : Option Text
  pub topic : Option Text
  pub kind : Text
  pub correlation_id : Option Text
  pub supersedes : Option Text
  pub encrypt : Bool
  pub grant : Option Text
  pub unsigned : Bool

-- Requests that the CLI sends to the daemon.
pub data Request : Type 0 where
  ping status consumers presence_list pair_list connect disconnect shutdown : Request
  hello : ℕ → Request
  send : SendParams → Request
  read : Text → ℤ → Request
  ack : Text → ℤ → Request
  subscribe : Text → Bool → Request
  browse : ℤ → Option Text → Option Text → Request
  transcript : ℤ → Option Text → Option Text → Option Text → Request
  rejections : ℤ → Option Text → Option Text → Request
  receipts : Option Text → ℤ → Option Text → Request
  reply : Text → Text → Text → Request
  presence : Text → Option ℤ → Option Text → Request
  pair_start : Option Text → Request
  pair_confirm : Text → Request

pub record StatusInfo : Type 0 where
  pub identity : Option Text
  pub fingerprint : Option Text
  pub broker : Text
  pub connected : Bool
  pub topics : List Text
  pub stored : ℕ
  pub rejected : ℕ
  pub pending_out : ℕ
  pub known_agents : ℕ
  pub ipc_proto : ℕ
  pub presence : List PresenceRow
  pub allow_unsigned : Bool
  pub accept_v1 : Bool
  pub require_encryption : Bool
  pub auto_receipts : Bool

-- A pending pairing as the CLI shows it.
pub record PendingPairView : Type 0 where
  pub name : Text
  pub fingerprint : Text
  pub sas : Text
  pub kem : Bool

-- Responses that the daemon returns.
pub data Response : Type 0 where
  pong done : Response
  status_is : StatusInfo → Response
  hello_is : ℕ → Text → List Text → Response
  sent : Text → Text → Response
  messages : List StoredMsg → Option Text → Response
  rejections_are : List RejectionRow → Response
  consumers_are : List ConsumerRow → Response
  presence_is : List PresenceRow → Response
  pairs : List PendingPairView → Response
  failure : Text → Response

-- A frame that is written on a `Subscribe` connection.
pub data StreamFrame : Type 0 where
  message : StoredMsg → StreamFrame
  lagged : ℕ → StreamFrame

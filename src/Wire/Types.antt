-- ===== src/Wire/Types.antt =====
-- The types and constants of src/wire.rs.
use agent_mqtt_chat.Base.{ℕ, Text, text_eq, lit, Option, Bool, true, false, ◌||◌, ◌==◌}

abbrev pub protocol_version : ℕ
protocol_version = 2

abbrev pub alg_ml_dsa_65 : Text
alg_ml_dsa_65 = lit "ML-DSA-65"

abbrev pub alg_none : Text
alg_none = lit "none"

abbrev pub alg_kem_aead : Text
alg_kem_aead = lit "ML-KEM-768.AES-256-GCM"

abbrev pub broadcast : Text
broadcast = lit "*"

abbrev pub ctype_text : Text
ctype_text = lit "text/plain"

abbrev pub ctype_presence : Text
ctype_presence = lit "application/agentmsg-presence"

abbrev pub ctype_receipt : Text
ctype_receipt = lit "application/agentmsg-receipt"

abbrev pub ctype_pair : Text
ctype_pair = lit "application/agentmsg-pair"

-- Typed message kind; the default is `message`.
pub data MsgKind : Type 0 where
  message command query result ack error grant receipt : MsgKind

abbrev pub is_receipt_kind : MsgKind → Bool
is_receipt_kind receipt = true
is_receipt_kind _ = false

-- The signed wrapper: exactly what is published on the MQTT topic.
pub record Wrapper : Type 0 where
  pub v : ℕ
  pub alg : Text
  pub kid : Option Text
  pub msg : Text
  pub sig : Option Text

-- Payload encryption metadata.
pub record EncInfo : Type 0 where
  pub alg : Text
  pub kem_ct : Text
  pub recipient_kid : Text
  pub nonce : Text
  pub ptype : Text

-- A human-authorization grant signed by an authority key.
pub record SignedGrant : Type 0 where
  pub alg : Text
  pub authority_kid : Text
  pub grant : Text
  pub sig : Text

pub data ReceiptStatus : Type 0 where
  delivered read : ReceiptStatus

-- A delivery or read receipt.
pub record Receipt : Type 0 where
  pub ref_id : Text
  pub status : ReceiptStatus

-- The inner message.
pub record Inner : Type 0 where
  pub id : Text
  pub v : ℕ
  pub from : Text
  pub to : Text
  pub ts : Text
  pub nonce : Text
  pub ctype : Text
  pub in_reply_to : Option Text
  pub body : Text
  pub kind : MsgKind
  pub correlation_id : Option Text
  pub supersedes : Option Text
  pub enc : Option EncInfo
  pub grant : Option SignedGrant
  pub receipt : Option Receipt

-- True if this message targets everyone.
abbrev pub is_broadcast : Inner → Bool
is_broadcast m = m.to == broadcast

-- True if this message is addressed to `me` or is a broadcast.
unfoldable pub addressed_to : Inner → Text → Bool
addressed_to m me = is_broadcast m || m.to == me

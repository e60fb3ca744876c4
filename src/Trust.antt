-- ===== src/Trust.antt =====
-- src/trust.rs: the known agents and authorities, each map keyed by name in byte order. A missing
-- `kem_pk` is `none`. The laws are in `Trust/Laws.antt`.
pub mod Laws
pub use agent_mqtt_chat.Docs.{KnownAgentRecord, TrustStore}
use agent_mqtt_chat.Base.{
  Bytes, Text, lit, Bool, List, [], ◌∷◌, Option, none, some, Result, ok, err, map_err, to_option,
  map_option, and_then, is_some, TextMap, lookup, insert, remove,
}
use agent_mqtt_chat.External.{Env}
use agent_mqtt_chat.Errors.{Error, unknown_agent, store_error}
use agent_mqtt_chat.Wire.Codec.{b64, unb64}

-- A trusted agent entry, decoded.
pub record KnownAgent : Type 0 where
  pub name : Text
  pub public_key : Bytes
  pub kem_public_key : Option Bytes

abbrev pub empty_trust : TrustStore
empty_trust = record { agents = []; authorities = [] }

-- A key and an optional encapsulation key as they are stored.
abbrev pub agent_record : Env → Bytes → Option Bytes → KnownAgentRecord
agent_record env pk kem = record { pk = b64 env pk; kem_pk = map_option (b64 env) kem }

-- `add_with_kem`; `add_from_token` gives it the fields of the token.
unfoldable pub add_with_kem : Env → TrustStore → Text → Bytes → Option Bytes → TrustStore
add_with_kem env ts name public_key kem = record ts {
  agents = insert name (agent_record env public_key kem) ts.agents;
}

-- `add`: by explicit name and key.
unfoldable pub add : Env → TrustStore → Text → Bytes → TrustStore
add env ts name public_key = record ts {
  agents = insert name (agent_record env public_key none) ts.agents;
}

-- `remove`: the store, and whether the agent was in it.
unfoldable pub remove_agent : TrustStore → Text → TrustStore × Bool
remove_agent ts name =
    (record ts { agents = remove name ts.agents }, is_some (lookup name ts.agents))

abbrev decode_key : Env → Option KnownAgentRecord → Error → Text → Result Error Bytes
decode_key env none missing corrupt = err missing
decode_key env (some rec) missing corrupt = map_err (λ _. store_error corrupt) (unb64 env rec.pk)

-- A trusted agent's public key by name.
unfoldable pub public_key : Env → TrustStore → Text → Result Error Bytes
public_key env ts name =
    decode_key env (lookup name ts.agents) (unknown_agent name) (lit "corrupt trust key")

-- The currently stored signing key, if any.
unfoldable pub current_key : Env → TrustStore → Text → Option Bytes
current_key env ts name = and_then (lookup name ts.agents) (λ rec. to_option (unb64 env rec.pk))

abbrev decode_kem : Env → KnownAgentRecord → Option Bytes
decode_kem env rec = and_then rec.kem_pk (λ k. to_option (unb64 env k))

-- The stored encapsulation key, if known.
unfoldable pub kem_public_key : Env → TrustStore → Text → Option Bytes
kem_public_key env ts name = and_then (lookup name ts.agents) (decode_kem env)

unfoldable pub contains : TrustStore → Text → Bool
contains ts name = is_some (lookup name ts.agents)

abbrev listed :
    Env → (KnownAgentRecord → Option Bytes) → Text × KnownAgentRecord → Option KnownAgent
listed env kem (name, rec) =
    map_option (λ pk. record { name = name; public_key = pk; kem_public_key = kem rec })
      (to_option (unb64 env rec.pk))

abbrev cons_some : {A : Type 0} → Option A → List A → List A
cons_some none l = l
cons_some (some a) l = a ∷ l

abbrev filter_listed :
    Env → (KnownAgentRecord → Option Bytes) → TextMap KnownAgentRecord → List KnownAgent
filter_listed env kem [] = []
filter_listed env kem (e ∷ m) = cons_some (listed env kem e) (filter_listed env kem m)

-- The trusted agents, an entry that does not decode left out.
unfoldable pub list : Env → TrustStore → List KnownAgent
list env ts = filter_listed env (decode_kem env) ts.agents

-- `add_authority_from_token`
unfoldable pub add_authority : Env → TrustStore → Text → Bytes → TrustStore
add_authority env ts name public_key = record ts {
  authorities = insert name (agent_record env public_key none) ts.authorities;
}

unfoldable pub authority_public_key : Env → TrustStore → Text → Result Error Bytes
authority_public_key env ts name =
    decode_key env (lookup name ts.authorities) (unknown_agent name) (lit "corrupt authority key")

unfoldable pub remove_authority : TrustStore → Text → TrustStore × Bool
remove_authority ts name =
    (record ts { authorities = remove name ts.authorities }, is_some (lookup name ts.authorities))

unfoldable pub list_authorities : Env → TrustStore → List KnownAgent
list_authorities env ts = filter_listed env (λ _. none) ts.authorities

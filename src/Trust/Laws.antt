-- ===== src/Trust/Laws.antt =====
-- What the operations of the trust store do to its lookups.
use agent_mqtt_chat.Base.{
  Bytes, Text, text_beq_iff, ◌==◌, text_eq, ◌≡◌, Option, none, some, ok, err, if◌then◌else◌,
  lookup-insert, lookup-remove, arith,
}
use agent_mqtt_chat.External.{Env, IsLawful}
use agent_mqtt_chat.Errors.{unknown_agent}
use agent_mqtt_chat.Wire.Codec.{unb64-b64}
use agent_mqtt_chat.Trust.{
  TrustStore, add_with_kem, add_authority, remove_agent, public_key, kem_public_key, contains,
  authority_public_key, agent_record,
}

module _ (env : Env) (lawful : IsLawful env) (ts : TrustStore) (name : Text) where
  -- After `add_with_kem` both keys of that name are those that were added, and those of every other
  -- name, and every authority's, are as before.
  pub public_key-add_with_kem :
      (pk : Bytes) (kem : Option Bytes) (other : Text)
      → let ts' = add_with_kem env ts name pk kem in
        (public_key env ts' other ≡ (if name == other then ok pk else public_key env ts other))
        × (kem_public_key env ts' other
            ≡ (if name == other then kem else kem_public_key env ts other))
        × (authority_public_key env ts' other ≡ authority_public_key env ts other)
  unfolding public_key kem_public_key add_with_kem authority_public_key
  public_key-add_with_kem pk none other = ground (
    arith,
    unb64-b64 env lawful pk,
    lookup-insert name other (agent_record env pk none) ts.agents,
  )
  public_key-add_with_kem pk (some k) other = ground (
    arith,
    unb64-b64 env lawful pk,
    unb64-b64 env lawful k,
    lookup-insert name other (agent_record env pk (some k)) ts.agents,
  )

  -- After `add_authority` the key of that authority is the one that was added; other authorities,
  -- and the agents, a message signer of the same name included, are as before.
  pub authority_public_key-add_authority :
      (pk : Bytes) (other : Text)
      → let ts' = add_authority env ts name pk in
        (authority_public_key env ts' other
          ≡ (if name == other then ok pk else authority_public_key env ts other))
        × (public_key env ts' other ≡ public_key env ts other)
  unfolding public_key add_authority authority_public_key
  authority_public_key-add_authority pk other = ground (
    arith,
    unb64-b64 env lawful pk,
    lookup-insert name other (agent_record env pk none) ts.authorities,
  )

-- A removed agent is unknown, every other agent is as before, and the result says whether it was
-- known.
pub public_key-remove_agent :
    (env : Env) (ts : TrustStore) (name other : Text)
    → (public_key env (remove_agent ts name).0 other
        ≡ (if name == other then err (unknown_agent other) else public_key env ts other))
      × ((remove_agent ts name).1 ≡ contains ts name)
unfolding public_key remove_agent contains
public_key-remove_agent env ts name other =
    ground (arith, text_beq_iff name other, lookup-remove name other ts.agents)

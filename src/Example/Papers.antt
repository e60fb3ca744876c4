-- ===== src/Example/Papers.antt =====
-- The documents that are no messages, in the serialisation of the examples: tokens, beacons and files.
use agent_mqtt_chat.Base.{ℕ, Text, Bool, List, refl}
use agent_mqtt_chat.Config.{Config}
use agent_mqtt_chat.Docs.{
  TokenBodyV1, TokenBodyV2, AuthTokenBody, GrantClaims, PairBody, PresenceBeacon, IdentityFile,
  AuthorityFile, KnownAgentRecord, TrustStore,
}
use agent_mqtt_chat.Example.Codec.{Codec, text, nat, option, list, boolean, ◌&◌, via}
use agent_mqtt_chat.Example.Documents.{int}

abbrev pub claims : Codec GrantClaims
claims =
    via (text & text & text & text & text & text)
      (λ c. (c.id, (c.action, (c.scope, (c.subject, (c.expiry, c.nonce))))))
      (λ (id, (action, (scope, (subject, (expiry, nonce))))). record {
        id = id;
        action = action;
        scope = scope;
        subject = subject;
        expiry = expiry;
        nonce = nonce;
      })
      (λ c. refl)

abbrev pub token_v1 : Codec TokenBodyV1
token_v1 =
    via (text & text) (λ t. (t.name, t.pk)) (λ (name, pk). record { name = name; pk = pk })
      (λ t. refl)

abbrev pub token_v2 : Codec TokenBodyV2
token_v2 =
    via (text & text & option text) (λ t. (t.name, (t.pk, t.kem_pk)))
      (λ (name, (pk, kem_pk)). record { name = name; pk = pk; kem_pk = kem_pk }) (λ t. refl)

abbrev pub auth_token : Codec AuthTokenBody
auth_token =
    via (text & text) (λ t. (t.name, t.pk)) (λ (name, pk). record { name = name; pk = pk })
      (λ t. refl)

abbrev pub pair : Codec PairBody
pair =
    via (text & text & option text) (λ t. (t.name, (t.pk, t.kem_pk)))
      (λ (name, (pk, kem_pk)). record { name = name; pk = pk; kem_pk = kem_pk }) (λ t. refl)

abbrev pub presence : Codec PresenceBeacon
presence =
    via (text & text & int & int & option text)
      (λ b. (b.state, (b.source, (b.ttl_secs, (b.seq, b.detail)))))
      (λ (state, (source, (ttl_secs, (seq, detail)))). record {
        state = state;
        source = source;
        ttl_secs = ttl_secs;
        seq = seq;
        detail = detail;
      })
      (λ b. refl)

abbrev pub identity : Codec IdentityFile
identity =
    via (text & text) (λ f. (f.name, f.seed)) (λ (name, seed). record { name = name; seed = seed })
      (λ f. refl)

abbrev pub authority : Codec AuthorityFile
authority =
    via (text & text) (λ f. (f.name, f.seed)) (λ (name, seed). record { name = name; seed = seed })
      (λ f. refl)

abbrev known : Codec KnownAgentRecord
known =
    via (text & option text) (λ r. (r.pk, r.kem_pk)) (λ (pk, kem). record { pk = pk; kem_pk = kem })
      (λ r. refl)

abbrev pub trust_store : Codec TrustStore
trust_store =
    via (list (text & known) & list (text & known)) (λ t. (t.agents, t.authorities))
      (λ (agents, authorities). record { agents = agents; authorities = authorities }) (λ t. refl)

abbrev Broker : Type 0
Broker = Text × (ℕ × (Bool × (Text × (Text × List Text))))

abbrev broker : Codec Broker
broker = text & nat & boolean & text & text & list text

abbrev pub config : Codec Config
config =
    via (broker & (int & nat & nat & nat & nat) & (boolean & boolean & boolean & boolean))
      (λ c. (
        (c.broker_host, (c.broker_port, (c.tls, (c.username, (c.password, c.topics))))),
        (
          (c.freshness_secs, (c.max_messages, (c.max_bytes, (c.max_payload, c.heartbeat_secs)))),
          (c.allow_unsigned, (c.accept_v1, (c.require_encryption, c.auto_receipts))),
        ),
      ))
      (λ (
        (host, (port, (tls, (username, (password, topics))))),
        (
          (freshness, (messages, (bytes, (payload, heartbeat)))),
          (unsigned, (v1, (encryption, receipts))),
        ),
      ).
        record {
          broker_host = host;
          broker_port = port;
          tls = tls;
          username = username;
          password = password;
          topics = topics;
          freshness_secs = freshness;
          max_messages = messages;
          max_bytes = bytes;
          max_payload = payload;
          heartbeat_secs = heartbeat;
          allow_unsigned = unsigned;
          accept_v1 = v1;
          require_encryption = encryption;
          auto_receipts = receipts;
        })
      (λ c. refl)

-- ===== src/Example/World.antt =====
-- The agents, keys and messages of the examples.
use agent_mqtt_chat.Base.{Bytes, Text, lit, pos, true, false, [], ◌∷◌, none, some, ok}
use agent_mqtt_chat.External.{Instant}
use agent_mqtt_chat.Docs.{GrantClaims}
use agent_mqtt_chat.Wire.Types.{Inner, Wrapper, SignedGrant, ctype_text}
use agent_mqtt_chat.Config.{Config, default_config}
use agent_mqtt_chat.Identity.{Identity, generate}
use agent_mqtt_chat.Trust.{TrustStore, empty_trust, add_with_kem, add_authority}
use agent_mqtt_chat.Token.AuthorityToken
use agent_mqtt_chat.Grant.{mint}
use agent_mqtt_chat.Store.Types.{Db, empty_db}
use agent_mqtt_chat.Message.Build.{Fresh, BuildOpts, new_opts, plain_inner, wrap}
use agent_mqtt_chat.Message.Verify.{Policy}
use agent_mqtt_chat.Daemon.State.{Daemon, Moment}
use agent_mqtt_chat.Example.Crates.{toy}

abbrev pub alice_name : Text
alice_name = lit "alice"

abbrev pub bob_name : Text
bob_name = lit "bob"

abbrev pub alice_seed : Bytes
alice_seed = 1 ∷ 2 ∷ []

abbrev pub bob_seed : Bytes
bob_seed = 3 ∷ 4 ∷ []

abbrev pub alice : Identity
alice = generate toy alice_name alice_seed

abbrev pub bob : Identity
bob = generate toy bob_name bob_seed

abbrev pub human_name : Text
human_name = lit "human"

abbrev pub human_seed : Bytes
human_seed = 9 ∷ []

abbrev pub trust : TrustStore
trust =
    add_authority toy (add_with_kem toy empty_trust alice_name alice_seed none) human_name
      human_seed

abbrev pub now : Instant
now = pos 7

abbrev pub fresh : Fresh
fresh = record {
  now = pos 5;
  ulid = lit "01A";
  nonce = 5 ∷ [];
  aead_nonce = 1 ∷ 2 ∷ 3 ∷ 4 ∷ 5 ∷ 6 ∷ 7 ∷ 8 ∷ 9 ∷ 10 ∷ 11 ∷ 12 ∷ [];
  kem_rand = 7 ∷ [];
}

abbrev pub policy : Policy
policy = record {
  freshness_secs = pos 300;
  max_payload = 262_144;
  allow_unsigned = false;
  accept_v1 = true;
}

abbrev pub opts : BuildOpts
opts = new_opts bob_name ctype_text (lit "hi")

abbrev pub inner : Inner
inner = plain_inner toy alice fresh opts

abbrev pub wrapper : Wrapper
wrapper = wrap toy alice false (toy.inner_json.encode inner)

abbrev pub claims : GrantClaims
claims = record {
  id = lit "g1";
  action = lit "deploy";
  scope = lit "prod";
  subject = alice_name;
  expiry = lit "000000000";
  nonce = lit "n";
}

abbrev pub grant_of_human : SignedGrant
grant_of_human = mint toy (AuthorityToken.generate toy human_name human_seed) claims

abbrev pub topic : Text
topic = lit "team/chat"

abbrev pub config : Config
config = record default_config { topics = topic ∷ [] }

abbrev pub db : Db
db = empty_db (λ _. 0)

-- Bob's daemon, connected.
abbrev pub daemon : Daemon
daemon = record {
  identity = bob;
  db = db;
  config = ok config;
  trust = ok trust;
  mqtt = some true;
  published = [];
  subscribers = [];
  next_sub_id = 1;
  pending = [];
}

abbrev pub moment : Moment
moment = record {
  now = now;
  now_text = lit "0000000";
  now_seq = pos 7;
  fresh = fresh;
  publish_ok = true;
  save_error = none;
  torn = none;
  log_fails = false;
  queue_error = none;
  mark_fails = false;
  ack_error = none;
  pid = 42;
}

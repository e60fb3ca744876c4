-- ===== src/Files/Laws.antt =====
-- What is saved is loaded again.
use agent_mqtt_chat.Base.{
  Bytes, Text, lit, Option, none, ◌≡◌, refl, length, some, Result, ok, err, map_err, bind-eq-ok,
  arith,
}
use agent_mqtt_chat.External.{Env, IsLawful}
use agent_mqtt_chat.Errors.{Error, config_error}
use agent_mqtt_chat.Wire.Codec.{b64, unb64-b64}
use agent_mqtt_chat.Config.{Config}
use agent_mqtt_chat.Trust.{TrustStore}
use agent_mqtt_chat.Token.AuthorityToken
use agent_mqtt_chat.Token.AuthorityToken.{Authority}
use agent_mqtt_chat.Files.{
  Files, Saved, written, write_to, load_config, save_config, load_trust, save_trust, save_authority,
  load_authority,
}

-- A write that succeeds has written.
pub write_to-eq-ok :
    (o : Option (Option Bytes × Error)) (text : Bytes)
    → (written o text).1 ≡ ok tt
    → (written o text).0 ≡ some text
write_to-eq-ok none text h = refl
write_to-eq-ok (some (left, e)) text h = cc

module _ (env : Env) (lawful : IsLawful env) where
  map_err-eq-ok :
      (r : Result Text Bytes) (text : Bytes) → map_err config_error r ≡ ok text → r ≡ ok text
  map_err-eq-ok (ok t) text h = cc
  map_err-eq-ok (err e) text h = cc

  -- A configuration that is saved is loaded again as it was, and no other file is touched.
  pub load_config-save_config :
      (f f' : Files) (cfg : Config)
      → save_config env f cfg ≡ ok (f', ok tt)
      → (load_config env f' ≡ ok cfg) × (record f' { config = f.config } ≡ f)
  unfolding load_config save_config
  load_config-save_config f f' cfg h =
      let (text, encoded, saved) =
        bind-eq-ok {B = Saved} (map_err config_error (env.toml_encode cfg))
          (λ text. ok (
            record f { config = (write_to f (lit "config.toml") text).0 },
            (write_to f (lit "config.toml") text).1,
          ))
          h in
      let decoded =
        lawful.toml_roundtrip cfg text (map_err-eq-ok (env.toml_encode cfg) text encoded) in
      let fine : (write_to f (lit "config.toml") text).1 ≡ ok tt = cc in
      let full = write_to-eq-ok (f.faults (lit "config.toml")) text fine in
      let same : record f { config = (write_to f (lit "config.toml") text).0 } ≡ f' = cc in
      rw (← same) (rw full (rw decoded refl), refl)

  -- A trust store that is saved is loaded again as it was.
  pub load_trust-save_trust :
      (f : Files) (ts : TrustStore)
      → (save_trust env f ts).1 ≡ ok tt
      → load_trust env (save_trust env f ts).0 ≡ ok ts
  unfolding load_trust save_trust
  load_trust-save_trust f ts h =
      rw (write_to-eq-ok (f.faults (lit "trust.json")) (env.trust_json.encode ts) h)
        (ground (arith, lawful.trust_roundtrip ts))

  -- A generated authority key is loaded again with its name and its keys.
  pub load_authority-save_authority :
      (f : Files) (name : Text) (seed : Bytes)
      → length seed ≡ 32
      → (save_authority env f (AuthorityToken.generate env name seed)).1 ≡ ok tt
      → load_authority env (save_authority env f (AuthorityToken.generate env name seed)).0
        ≡ ok (AuthorityToken.generate env name seed)
  unfolding load_authority save_authority AuthorityToken.generate
  load_authority-save_authority f name seed h saved =
      rw (write_to-eq-ok (f.faults (lit "authority.json")) _ saved) (
        ground (
          arith,
          lawful.authority_roundtrip (record { name = name; seed = b64 env seed }),
          unb64-b64 env lawful seed,
        ))

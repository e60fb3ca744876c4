-- ===== src/Files.antt =====
-- The files of the data directory: their loading and saving by src/identity.rs, src/authority.rs,
-- src/config.rs and src/trust.rs, under the names of src/paths.rs. A file of text is UTF-8, and the
-- operating system fails in no read; which of its writes fail is part of the state, with what they leave.
pub mod Laws
use agent_mqtt_chat.Base.{
  ℕ, Bytes, Text, lit, Bool, true, false, not, eqb, length, [], ◌∷◌, ◌++◌, Option, none, some,
  is_some, map_option, and_then, unwrap_or, to_option, if◌then◌else◌, Result, ok, err, ok_or,
  map_err, reject_if, ◌>>=◌, ◌>>◌, TextMap, insert, remove,
}
use agent_mqtt_chat.External.{Env}
use agent_mqtt_chat.Errors.{Error, config_error, crypto_error, store_error, no_authority}
use agent_mqtt_chat.Wire.Codec.{b64, unb64}
use agent_mqtt_chat.Wire.Kid.{fingerprint}
use agent_mqtt_chat.Config.{Config, default_config}
use agent_mqtt_chat.Trust.{TrustStore, empty_trust}
use agent_mqtt_chat.Identity
use agent_mqtt_chat.Identity.{Identity, seed_len}
use agent_mqtt_chat.Token.AuthorityToken
use agent_mqtt_chat.Token.AuthorityToken.{Authority}

-- What each file holds, if it is there; the backups are by file name.
pub record Files : Type 0 where
  pub identity : Option Bytes
  pub authority : Option Bytes
  pub config : Option Bytes
  pub trust : Option Bytes
  pub backups : TextMap Bytes
  pub faults : Text → Option (Option Bytes × Error)

-- What a write leaves in a file, and its error: that of the write, which may have cut the file, or that
-- of the restriction of the file's permissions after it.
abbrev pub written : Option (Option Bytes × Error) → Bytes → Option Bytes × Result Error (Unit {0})
written none text = (some text, ok tt)
written (some (left, e)) text = (left, err e)

abbrev pub write_to : Files → Text → Bytes → Option Bytes × Result Error (Unit {0})
write_to f path text = written (f.faults path) text

-- The files after a save, and whether it succeeded.
abbrev pub Saved : Type 0
Saved = Files × Result Error (Unit {0})

-- `first?; second`
abbrev pub after_saved : Saved → (Files → Saved) → Saved
after_saved (f, ok _) k = k f
after_saved (f, err e) k = (f, err e)

-- `Config::load`: the defaults where there is no file.
abbrev pub config_from : Env → Option Bytes → Result Error Config
config_from env none = ok default_config
config_from env (some text) = map_err config_error (env.toml_decode text)

unfoldable pub load_config : Env → Files → Result Error Config
load_config env f = config_from env f.config

-- `Config::save`
unfoldable pub save_config : Env → Files → Config → Result Error Saved
save_config env f cfg = do
  text ← map_err config_error (env.toml_encode cfg)
  let w = write_to f (lit "config.toml") text
  ok (record f { config = w.0 }, w.1)

-- `TrustStore::load`
abbrev pub trust_from : Env → Option Bytes → Result Error TrustStore
trust_from env none = ok empty_trust
trust_from env (some text) =
    ok_or (env.trust_json.decode text) (store_error (lit "trust store: " ++ env.json_error text))

unfoldable pub load_trust : Env → Files → Result Error TrustStore
load_trust env f = trust_from env f.trust

-- `TrustStore::save`
unfoldable pub save_trust : Env → Files → TrustStore → Saved
save_trust env f ts =
    let w = write_to f (lit "trust.json") (env.trust_json.encode ts) in
    (record f { trust = w.0 }, w.1)

abbrev pub load_identity : Env → Files → Result Error Identity
load_identity env f = Identity.load env f.identity

abbrev pub save_identity : Env → Files → Identity → Saved
save_identity env f id =
    let w = write_to f (lit "identity.json") (Identity.save env id) in
    (record f { identity = w.0 }, w.1)

-- The name and the fingerprint of the identity on disk; `none` where it cannot be read.
abbrev pub seed_fp : Env → Text → Option Bytes → Option (Text × Text)
seed_fp env name none = none
seed_fp env name (some seed) =
    if eqb (length seed) seed_len
    then some (name, fingerprint env (env.dsa_public_key seed))
    else none

abbrev pub name_fp_from : Env → Option Bytes → Option (Text × Text)
name_fp_from env none = none
name_fp_from env (some text) =
    and_then (env.identity_json.decode text)
      (λ file. seed_fp env file.name (to_option (unb64 env file.seed)))

unfoldable pub load_name_fp : Env → Files → Option (Text × Text)
load_name_fp env f = name_fp_from env f.identity

abbrev pub unknown : Text
unknown = lit "unknown"

abbrev pub put_backup : Text → Option Bytes → TextMap Bytes → TextMap Bytes
put_backup path none backups = remove path backups
put_backup path (some text) backups = insert path text backups

abbrev pub backed_up : Files → Option Bytes → Text → Text → Files × Result Error (Option Text)
backed_up f none prefix fp = (f, ok none)
backed_up f (some text) prefix fp =
    let w = write_to f (prefix ++ fp) text in
    (record f { backups = put_backup (prefix ++ fp) w.0 f.backups }, w.1 >> ok (some fp))

-- `Identity::backup_existing`: the files, and the fingerprint of what was backed up.
unfoldable pub backup_identity : Env → Files → Files × Result Error (Option Text)
backup_identity env f =
    backed_up f f.identity (lit "identity.json.bak-")
      (unwrap_or (map_option (λ (p : Text × Text). p.1) (load_name_fp env f)) unknown)

-- `Authority::save`
unfoldable pub save_authority : Env → Files → Authority → Saved
save_authority env f a =
    let file = env.authority_json.encode (record { name = a.name; seed = b64 env a.signing_key }) in
    let w = write_to f (lit "authority.json") file in (record f { authority = w.0 }, w.1)

abbrev authority_from : Env → Option Bytes → Result Error Authority
authority_from env none = err no_authority
authority_from env (some text) = do
  file ←
      ok_or (env.authority_json.decode text)
        (crypto_error (lit "authority: " ++ env.json_error text))
  seed ← map_err (λ _. crypto_error (lit "bad seed")) (unb64 env file.seed)
  reject_if (not (eqb (length seed) seed_len)) (crypto_error (lit "seed must be 32 bytes"))
  ok (AuthorityToken.generate env file.name seed)

-- `Authority::load`
unfoldable pub load_authority : Env → Files → Result Error Authority
load_authority env f = authority_from env f.authority

abbrev pub authority_exists : Files → Bool
authority_exists f = is_some f.authority

abbrev pub fp_or_unknown : Env → Result Error Authority → Text
fp_or_unknown env (ok a) = fingerprint env a.public_key
fp_or_unknown env (err _) = unknown

-- `Authority::backup_existing`
unfoldable pub backup_authority : Env → Files → Files × Result Error (Option Text)
backup_authority env f =
    backed_up f f.authority (lit "authority.json.bak-") (fp_or_unknown env (load_authority env f))

-- A backup whose fingerprint is not used.
abbrev pub backup_done : Files × Result Error (Option Text) → Saved
backup_done (f, ok _) = (f, ok tt)
backup_done (f, err e) = (f, err e)

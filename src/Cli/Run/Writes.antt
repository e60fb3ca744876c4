-- ===== src/Cli/Run/Writes.antt =====
-- Where the data directory takes what is written, the commands of src/cli.rs on its files fail only before
-- they write.
use agent_mqtt_chat.Base.{
  Bytes, Text, lit, ◌++◌, ◌≡◌, refl, Bool, false, ◌&&◌, not, Option, none, some, inl, inr,
  Bool-cases, Result, ok, err, Result-cases, ◌>>=◌, map_err, reject_if,
}
use agent_mqtt_chat.External.{Env}
use agent_mqtt_chat.Errors.{Error, config_error}
use agent_mqtt_chat.Wire.Kid.{validate_name}
use agent_mqtt_chat.Config.{Config, validate_topic}
use agent_mqtt_chat.Identity.{Identity}
use agent_mqtt_chat.Token.IdentityToken
use agent_mqtt_chat.Token.AuthorityToken
use agent_mqtt_chat.Token.AuthorityToken.{Authority}
use agent_mqtt_chat.Trust.{TrustStore, current_key}
use agent_mqtt_chat.Files.{
  Files, Saved, after_saved, backup_done, backed_up, save_config, save_trust, save_identity,
  load_name_fp, load_identity, backup_identity, save_authority, backup_authority, authority_exists,
  load_trust, load_config, load_authority,
}
use agent_mqtt_chat.Cli.{Shell, Printed, read_token_input}
use agent_mqtt_chat.Cli.Keys.{
  Outcome, IdCmd, AgentCmd, printed_if, id_generate, id_cmd, agent_add, agent_cmd, refuse_overwrite,
  displaced, check_rotation,
}
use agent_mqtt_chat.Cli.Authorities.{AuthorityCmd, authority_generate, authority_add, authority_cmd}
use agent_mqtt_chat.Cli.Settings.{
  ConfigCmd, set_broker, set_creds, set_topic, add_topic, set_security, show, config_cmd, saved,
}
use agent_mqtt_chat.Cli.Machine.Unchanged.{is_err}

-- No write fails.
abbrev pub IsFaultless : Files → Type 0
IsFaultless f = (path : Text) → f.faults path ≡ none

-- An outcome without an error after a write.
abbrev pub Writes : Outcome → Type 0
Writes (err e) = Unit {0}
Writes (ok (f, r)) = is_err r ≡ false

then-Writes :
    {A : Type 0} (r : Result Error A) (k : A → Outcome)
    → ((a : A) → Writes (k a))
    → Writes (◌>>=◌ {B = Files × Result Error Printed} r k)
then-Writes (ok a) k h = h a
then-Writes (err e) k h = tt

printed_if-Writes : (s : Saved) (p : Printed) → s.1 ≡ ok tt → Writes (ok (printed_if s p))
printed_if-Writes (f, ok _) p h = refl
printed_if-Writes (f, err e) p h = cc

after_saved-eq : (s : Saved) (k : Files → Saved) → s.1 ≡ ok tt → after_saved s k ≡ k s.0
after_saved-eq (f, ok _) k h = refl
after_saved-eq (f, err e) k h = cc

save_trust-IsFine :
    (env : Env) (f : Files) (ts : TrustStore) → IsFaultless f → (save_trust env f ts).1 ≡ ok tt
unfolding save_trust
save_trust-IsFine env f ts fine = rw (fine (lit "trust.json")) refl

save_authority-IsFine :
    (env : Env) (f : Files) (a : Authority) → IsFaultless f → (save_authority env f a).1 ≡ ok tt
unfolding save_authority
save_authority-IsFine env f a fine = rw (fine (lit "authority.json")) refl

save_identity-IsFine :
    (env : Env) (f : Files) (id : Identity) → IsFaultless f → (save_identity env f id).1 ≡ ok tt
save_identity-IsFine env f id fine = rw (fine (lit "identity.json")) refl

-- A backup succeeds, and the files take writes as before.
abbrev IsKept : Saved → Type 0
IsKept s = (s.1 ≡ ok tt) × IsFaultless s.0

backed_up-IsKept :
    (f : Files) (o : Option Bytes) (name_prefix fp : Text)
    → IsFaultless f
    → IsKept (backup_done (backed_up f o name_prefix fp))
backed_up-IsKept f none name_prefix fp fine = (refl, fine)
backed_up-IsKept f (some text) name_prefix fp fine = rw (fine (name_prefix ++ fp)) (refl, fine)

displaced-IsKept :
    (env : Env) (f : Files) (o : Option (Text × Text)) → IsFaultless f → IsKept (displaced env f o)
unfolding backup_identity
displaced-IsKept env f none fine = (refl, fine)
displaced-IsKept env f (some old) fine = backed_up-IsKept f f.identity _ _ fine

backup_authority-IsKept :
    (env : Env) (f : Files) → IsFaultless f → IsKept (backup_done (backup_authority env f))
unfolding backup_authority
backup_authority-IsKept env f fine = backed_up-IsKept f f.authority _ _ fine

both-IsFine :
    (s : Saved) (k : Files → Saved)
    → IsKept s
    → ((g : Files) → IsFaultless g → (k g).1 ≡ ok tt)
    → (after_saved s k).1 ≡ ok tt
both-IsFine s k (done, fine) saves = rw (after_saved-eq s k done) (saves s.0 fine)

pub id_cmd-Writes :
    (env : Env) (sh : Shell) (json : Bool) (f : Files) (cmd : IdCmd)
    → IsFaultless f
    → Writes (id_cmd env sh json f cmd)
unfolding id_cmd id_generate
id_cmd-Writes env sh json f (IdCmd.generate name force) fine =
    then-Writes (map_err _ (validate_name name)) _ λ _.
      then-Writes (refuse_overwrite name force (load_name_fp env f)) _ λ _. printed_if-Writes _ _ (
        both-IsFine (displaced env f (load_name_fp env f)) _ (displaced-IsKept env f _ fine)
          (λ g. save_identity-IsFine env g _))
id_cmd-Writes env sh json f IdCmd.show fine = then-Writes (load_identity env f) _ (λ _. refl)
id_cmd-Writes env sh json f IdCmd.token fine = then-Writes (load_identity env f) _ (λ _. refl)

pub agent_cmd-Writes :
    (env : Env) (sh : Shell) (json : Bool) (f : Files) (cmd : AgentCmd)
    → IsFaultless f
    → Writes (agent_cmd env sh json f cmd)
unfolding agent_cmd agent_add
agent_cmd-Writes env sh json f (AgentCmd.add tok file rotate) fine =
    then-Writes (read_token_input sh tok file) _ λ input.
      then-Writes (IdentityToken.decode env input) _ λ parsed.
        then-Writes (load_trust env f) _ λ ts.
          then-Writes (check_rotation env parsed rotate (current_key env ts parsed.name)) _
            λ _. printed_if-Writes _ _ (save_trust-IsFine env f _ fine)
agent_cmd-Writes env sh json f AgentCmd.list fine = then-Writes (load_trust env f) _ (λ _. refl)
agent_cmd-Writes env sh json f (AgentCmd.remove name) fine =
    then-Writes (load_trust env f) _ λ ts. printed_if-Writes _ _ (save_trust-IsFine env f _ fine)

pub authority_cmd-Writes :
    (env : Env) (sh : Shell) (json : Bool) (f : Files) (cmd : AuthorityCmd)
    → IsFaultless f
    → Writes (authority_cmd env sh json f cmd)
unfolding authority_cmd authority_generate authority_add
authority_cmd-Writes env sh json f (AuthorityCmd.generate name force) fine =
    then-Writes (map_err _ (validate_name name)) _ λ _.
      then-Writes (reject_if (authority_exists f && not force) _) _ λ _.
        elim (Bool-cases (authority_exists f)) [
          | inl e ↦ rw e (
              printed_if-Writes _ _ (
                both-IsFine (backup_done (backup_authority env f)) _
                  (backup_authority-IsKept env f fine) (λ g. save_authority-IsFine env g _)))
          | inr e ↦ rw e (printed_if-Writes _ _ (save_authority-IsFine env f _ fine))
        ]
authority_cmd-Writes env sh json f AuthorityCmd.show fine =
    then-Writes (load_authority env f) _ (λ _. refl)
authority_cmd-Writes env sh json f AuthorityCmd.token fine =
    then-Writes (load_authority env f) _ (λ _. refl)
authority_cmd-Writes env sh json f (AuthorityCmd.add tok file) fine =
    then-Writes (read_token_input sh tok file) _ λ input.
      then-Writes (AuthorityToken.decode env input) _ λ parsed.
        then-Writes (load_trust env f) _
          λ ts. printed_if-Writes _ _ (save_trust-IsFine env f _ fine)
authority_cmd-Writes env sh json f AuthorityCmd.list fine =
    then-Writes (load_trust env f) _ (λ _. refl)
authority_cmd-Writes env sh json f (AuthorityCmd.remove name) fine =
    then-Writes (load_trust env f) _ λ ts. printed_if-Writes _ _ (save_trust-IsFine env f _ fine)

saved-Writes :
    (env : Env) (f : Files) (c : Config) (p : Printed) → IsFaultless f → Writes (saved env f c p)
unfolding save_config
saved-Writes env f c p fine = elim (Result-cases (map_err config_error (env.toml_encode c))) [
  | inr (_, e) ↦ rw e tt
  | inl (text, e) ↦ rw (e, fine (lit "config.toml")) refl
]

pub config_cmd-Writes :
    (env : Env) (sh : Shell) (json : Bool) (f : Files) (cmd : ConfigCmd)
    → IsFaultless f
    → Writes (config_cmd env sh json f cmd)
unfolding config_cmd
config_cmd-Writes env sh json f (set_broker host port no_tls) fine =
    then-Writes (load_config env f) _ λ c. saved-Writes env f _ _ fine
config_cmd-Writes env sh json f (set_creds username password) fine =
    then-Writes (load_config env f) _ λ c. saved-Writes env f _ _ fine
config_cmd-Writes env sh json f (set_topic topic) fine =
    then-Writes (validate_topic topic) _
      λ _. then-Writes (load_config env f) _ λ c. saved-Writes env f _ _ fine
config_cmd-Writes env sh json f (add_topic topic) fine =
    then-Writes (validate_topic topic) _
      λ _. then-Writes (load_config env f) _ λ c. saved-Writes env f _ _ fine
config_cmd-Writes env sh json f (set_security u v e r) fine =
    then-Writes (load_config env f) _ λ c. saved-Writes env f _ _ fine
config_cmd-Writes env sh json f show fine = then-Writes (load_config env f) _ (λ _. refl)

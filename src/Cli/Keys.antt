-- ===== src/Cli/Keys.antt =====
-- The commands of src/cli.rs on the keys: `id` and `agent`.
pub mod Guards
use agent_mqtt_chat.Base.{
  ℕ, Bytes, Text, lit, text_eq, ◌==◌, Bool, true, false, not, ◌&&◌, List, [], ◌∷◌, ◌++◌, map,
  Option, none, some, is_some, Result, ok, err, map_err, reject_if, ◌>>=◌, ◌>>◌, if◌then◌else◌,
  em_dash,
}
use agent_mqtt_chat.External.{Env}
use agent_mqtt_chat.Errors.{
  Error, config_error, identity_name_mismatch, identity_exists, rotation_required,
}
use agent_mqtt_chat.Docs.{GrantClaims}
use agent_mqtt_chat.Wire.Kid.{fingerprint, validate_name}
use agent_mqtt_chat.Identity
use agent_mqtt_chat.Identity.{Identity}
use agent_mqtt_chat.Token.IdentityToken
use agent_mqtt_chat.Token.IdentityToken.{IdentityToken}
use agent_mqtt_chat.Token.AuthorityToken
use agent_mqtt_chat.Token.AuthorityToken.{Authority, AuthorityToken}
use agent_mqtt_chat.Grant.{mint, encode_token}
use agent_mqtt_chat.Trust
use agent_mqtt_chat.Trust.{
  TrustStore, KnownAgent, add_with_kem, current_key, remove_agent, add_authority, remove_authority,
  list_authorities,
}
use agent_mqtt_chat.Files.{
  Files, Saved, after_saved, backup_done, load_identity, save_identity, load_name_fp,
  backup_identity, load_authority, save_authority, authority_exists, backup_authority, load_trust,
  save_trust,
}
use agent_mqtt_chat.Cli.{
  Shell, Printed, Payload, text, flag, key_is, agent_is, entries, grant_is, ok_json,
  read_token_input, identity_token,
}

pub data IdCmd : Type 0 where
  generate : Text → Bool → IdCmd
  show token : IdCmd

pub data AgentCmd : Type 0 where
  add : Option Text → Option Text → Bool → AgentCmd
  list : AgentCmd
  remove : Text → AgentCmd

-- An error before anything is written; or the files afterwards, and what was printed, or the error of a
-- write.
abbrev pub Outcome : Type 0
Outcome = Result Error (Files × Result Error Printed)

abbrev pub printed_if : Saved → Printed → Files × Result Error Printed
printed_if (f, ok _) p = (f, ok p)
printed_if (f, err e) p = (f, err e)

-- The guard of `id generate`.
unfoldable pub refuse_overwrite : Text → Bool → Option (Text × Text) → Result Error (Unit {0})
refuse_overwrite name force none = ok tt
refuse_overwrite name true (some _) = ok tt
refuse_overwrite name false (some (existing, fp)) =
    if not (existing == name)
    then err (
        identity_name_mismatch (
          lit "an identity '"
          ++ existing
          ++ lit "' ("
          ++ fp
          ++ lit ") already exists; refusing to generate '"
          ++ name
          ++ lit "' "
          ++ em_dash
          ++ lit " pass --force to replace it"))
    else err (identity_exists (lit "use --force to overwrite"))

abbrev pub displaced : Env → Files → Option (Text × Text) → Saved
displaced env f none = (f, ok tt)
displaced env f (some _) = backup_done (backup_identity env f)

abbrev pub key_lines : Text → Text → Text → List Text
key_lines name fp tok =
    (lit "name:        " ++ name) ∷ (lit "fingerprint: " ++ fp) ∷ (lit "token:       " ++ tok) ∷ []

unfoldable pub id_generate : Env → Shell → Bool → Files → Text → Bool → Outcome
id_generate env sh json f name force = do
  map_err (λ e. config_error (lit "invalid identity name: " ++ e)) (validate_name name)
  refuse_overwrite name force (load_name_fp env f)
  let id = Identity.generate env name sh.seed
  let fp = fingerprint env id.public_key
  let tok = IdentityToken.encode env (identity_token id)
  ok (
      printed_if
        (after_saved (displaced env f (load_name_fp env f)) (λ f'. save_identity env f' id))
        (ok_json json (key_is name fp tok) (
          (lit "Generated identity '" ++ name ++ lit "' (" ++ fp ++ lit ")")
          ∷ []
          ∷ lit "Share this token with other agents:"
          ∷ tok
          ∷ [])))

unfoldable pub id_cmd : Env → Shell → Bool → Files → IdCmd → Outcome
id_cmd env sh json f (IdCmd.generate name force) = id_generate env sh json f name force
id_cmd env sh json f IdCmd.show = do
  id ← load_identity env f
  let fp = fingerprint env id.public_key
  let tok = IdentityToken.encode env (identity_token id)
  ok (f, ok (ok_json json (key_is id.name fp tok) (key_lines id.name fp tok)))
id_cmd env sh json f IdCmd.token = do
  id ← load_identity env f
  let tok = IdentityToken.encode env (identity_token id)
  ok (f, ok (ok_json json (text tok) (tok ∷ [])))

-- The old fingerprint, where the token brings another key; refused without `--rotate`.
unfoldable pub check_rotation :
    Env → IdentityToken → Bool → Option Bytes → Result Error (Option Text)
check_rotation env t rotate none = ok none
check_rotation env t rotate (some old) =
    if old == t.public_key
    then ok none
    else if rotate
    then ok (some (fingerprint env old))
    else err (
        rotation_required (
          lit "agent '"
          ++ t.name
          ++ lit "' is already known with key "
          ++ fingerprint env old
          ++ lit "; pass --rotate to replace it with "
          ++ fingerprint env t.public_key))

abbrev added_line : Text → Text → Option Text → Text
added_line name fp none = lit "Added '" ++ name ++ lit "' (" ++ fp ++ lit ")"
added_line name fp (some old) = lit "Rotated '" ++ name ++ lit "' " ++ old ++ lit " -> " ++ fp

unfoldable pub agent_add : Env → Shell → Bool → Files → Option Text → Option Text → Bool → Outcome
agent_add env sh json f tok file rotate = do
  input ← read_token_input sh tok file
  parsed ← IdentityToken.decode env input
  ts ← load_trust env f
  rotated_from ← check_rotation env parsed rotate (current_key env ts parsed.name)
  let fp = fingerprint env parsed.public_key
  ok (
      printed_if
        (save_trust env f (add_with_kem env ts parsed.name parsed.public_key parsed.kem_public_key))
        (ok_json json (agent_is parsed.name fp rotated_from)
          (added_line parsed.name fp rotated_from ∷ [])))

abbrev pub entry : Env → KnownAgent → Text × Text
entry env a = (a.name, fingerprint env a.public_key)

abbrev pub entry_lines : Text → List (Text × Text) → List Text
entry_lines nobody [] = nobody ∷ []
entry_lines nobody (e ∷ es) = map (λ (e : Text × Text). e.1 ++ lit "  " ++ e.0) (e ∷ es)

unfoldable pub agent_cmd : Env → Shell → Bool → Files → AgentCmd → Outcome
agent_cmd env sh json f (AgentCmd.add tok file rotate) = agent_add env sh json f tok file rotate
agent_cmd env sh json f AgentCmd.list = do
  ts ← load_trust env f
  let rows = map (entry env) (Trust.list env ts)
  ok (f, ok (ok_json json (entries rows) (entry_lines (lit "(no known agents)") rows)))
agent_cmd env sh json f (AgentCmd.remove name) = do
  ts ← load_trust env f
  let (left, removed) = remove_agent ts name
  ok (
      printed_if (save_trust env f left) (
        ok_json json (flag removed) (
          (if removed
            then lit "Removed '" ++ name ++ lit "'"
            else lit "'" ++ name ++ lit "' was not in the trust store")
          ∷ [])))

-- ===== src/Cli/Authorities.antt =====
-- The commands of src/cli.rs on authorities and grants: `authority` and `grant`.
use agent_mqtt_chat.Base.{
  Text, lit, text_eq, Bool, not, ◌&&◌, List, [], ◌∷◌, ◌++◌, map, Option, none, some, Result, ok,
  err, map_err, reject_if, ◌>>=◌, ◌>>◌, if◌then◌else◌,
}
use agent_mqtt_chat.External.{Env}
use agent_mqtt_chat.Errors.{Error, config_error, identity_exists}
use agent_mqtt_chat.Docs.{GrantClaims}
use agent_mqtt_chat.Wire.Kid.{fingerprint, validate_name}
use agent_mqtt_chat.Token.AuthorityToken
use agent_mqtt_chat.Token.AuthorityToken.{Authority, AuthorityToken}
use agent_mqtt_chat.Grant.{mint, encode_token}
use agent_mqtt_chat.Trust.{add_authority, remove_authority, list_authorities}
use agent_mqtt_chat.Files.{
  Files, after_saved, backup_done, load_authority, save_authority, authority_exists,
  backup_authority, load_trust, save_trust,
}
use agent_mqtt_chat.Cli.{
  Shell, Printed, text, flag, key_is, agent_is, entries, grant_is, ok_json, read_token_input,
}
use agent_mqtt_chat.Cli.Keys.{Outcome, printed_if, key_lines, entry, entry_lines}

pub data AuthorityCmd : Type 0 where
  generate : Text → Bool → AuthorityCmd
  show token : AuthorityCmd
  add : Option Text → Option Text → AuthorityCmd
  list : AuthorityCmd
  remove : Text → AuthorityCmd

unfoldable pub authority_generate : Env → Shell → Bool → Files → Text → Bool → Outcome
authority_generate env sh json f name force = do
  map_err (λ e. config_error (lit "invalid authority name: " ++ e)) (validate_name name)
  reject_if (authority_exists f && not force)
      (identity_exists (lit "an authority key already exists; use --force to overwrite"))
  let auth = AuthorityToken.generate env name sh.seed
  let fp = fingerprint env auth.public_key
  let tok = AuthorityToken.encode env (AuthorityToken.token auth)
  ok (
      printed_if
        (after_saved
          (if authority_exists f then backup_done (backup_authority env f) else (f, ok tt))
          (λ f'. save_authority env f' auth))
        (ok_json json (key_is name fp tok) (
          (lit "Generated authority '" ++ name ++ lit "' (" ++ fp ++ lit ")")
          ∷ []
          ∷ lit "Share this authority token with agents that must trust it:"
          ∷ tok
          ∷ [])))

unfoldable pub authority_add : Env → Shell → Bool → Files → Option Text → Option Text → Outcome
authority_add env sh json f tok file = do
  input ← read_token_input sh tok file
  parsed ← AuthorityToken.decode env input
  ts ← load_trust env f
  let fp = fingerprint env parsed.public_key
  ok (
      printed_if (save_trust env f (add_authority env ts parsed.name parsed.public_key)) (
        ok_json json (agent_is parsed.name fp none)
          ((lit "Trusted authority '" ++ parsed.name ++ lit "' (" ++ fp ++ lit ")") ∷ [])))

unfoldable pub authority_cmd : Env → Shell → Bool → Files → AuthorityCmd → Outcome
authority_cmd env sh json f (AuthorityCmd.generate name force) =
    authority_generate env sh json f name force
authority_cmd env sh json f AuthorityCmd.show = do
  auth ← load_authority env f
  let fp = fingerprint env auth.public_key
  let tok = AuthorityToken.encode env (AuthorityToken.token auth)
  ok (f, ok (ok_json json (key_is auth.name fp tok) (key_lines auth.name fp tok)))
authority_cmd env sh json f AuthorityCmd.token = do
  auth ← load_authority env f
  let tok = AuthorityToken.encode env (AuthorityToken.token auth)
  ok (f, ok (ok_json json (text tok) (tok ∷ [])))
authority_cmd env sh json f (AuthorityCmd.add tok file) = authority_add env sh json f tok file
authority_cmd env sh json f AuthorityCmd.list = do
  ts ← load_trust env f
  let rows = map (entry env) (list_authorities env ts)
  ok (f, ok (ok_json json (entries rows) (entry_lines (lit "(no trusted authorities)") rows)))
authority_cmd env sh json f (AuthorityCmd.remove name) = do
  ts ← load_trust env f
  let (left, removed) = remove_authority ts name
  ok (
      printed_if (save_trust env f left) (
        ok_json json (flag removed) (
          (if removed
            then lit "Removed authority '" ++ name ++ lit "'"
            else lit "'" ++ name ++ lit "' was not a trusted authority")
          ∷ [])))

-- The arguments of `grant`.
pub record GrantArgs : Type 0 where
  pub subject : Text
  pub action : Text
  pub scope : Text
  pub expiry : Text
  pub out : Option Text

abbrev claims_of : Shell → GrantArgs → GrantClaims
claims_of sh a = record {
  id = sh.ulid;
  action = a.action;
  scope = a.scope;
  subject = a.subject;
  expiry = a.expiry;
  nonce = sh.ulid_nonce;
}

abbrev write_out : Shell → Option Text → Result Error (Unit {0})
write_out sh none = ok tt
write_out sh (some path) = elim (sh.write_error path) [ none ↦ ok tt | some e ↦ err e ]

abbrev out_lines : Option Text → Text → List Text
out_lines (some path) tok = (lit "wrote token to " ++ path) ∷ []
out_lines none tok = [] ∷ tok ∷ []

-- What is printed; the token also goes to `--out`.
unfoldable pub grant_cmd : Env → Shell → Bool → Files → GrantArgs → Result Error Printed
grant_cmd env sh json f a = do
  authority ← load_authority env f
  let claims = claims_of sh a
  let tok = encode_token env (mint env authority claims)
  write_out sh a.out
  ok (
      ok_json json (grant_is claims tok) (
        (lit "Minted grant "
          ++ claims.id
          ++ lit " authorizing '"
          ++ claims.subject
          ++ lit "' to '"
          ++ claims.action
          ++ lit "' (scope '"
          ++ claims.scope
          ++ lit "', expires "
          ++ claims.expiry
          ++ lit ")")
        ∷ out_lines a.out tok))

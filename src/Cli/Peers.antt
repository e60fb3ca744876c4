-- ===== src/Cli/Peers.antt =====
-- The commands `presence`, `pair` and `status` of src/cli.rs.
use agent_mqtt_chat.Base.{
  Text, lit, ℤ, Bool, true, [], ◌∷◌, ◌++◌, text_eq, ◌==◌, find, Option, none, map_option, and_then,
  unwrap_or, Result, ok, err, to_option, ok_or_default, decimal, em_dash, if◌then◌else◌,
}
use agent_mqtt_chat.Errors.{Error, ipc_error, daemon_not_running, no_identity}
use agent_mqtt_chat.Wire.Kid.{fingerprint}
use agent_mqtt_chat.Config.{Config, default_config}
use agent_mqtt_chat.Trust
use agent_mqtt_chat.Trust.{TrustStore, KnownAgent}
use agent_mqtt_chat.Ipc.{Request, Response, done, status_is, presence_is, pairs, failure}
use agent_mqtt_chat.Files.{Files, load_identity, load_config, load_trust}
use agent_mqtt_chat.Cli.{
  Shell, Printed, Payload, flag, agent_is, presence_are, pairs_are, down_is, ok_json,
}
use agent_mqtt_chat.Cli.Machine.{Machine, M, ◌>>=◌, ◌>>◌, lift, from_files, Caller, call, hello}
use agent_mqtt_chat.Cli.Print.{print_presence, print_pairs, status_lines}
use agent_mqtt_chat.Cli.Calls.{render_simple}

pub data PresenceCmd : Type 0 where
  set : Text → Option ℤ → Option Text → PresenceCmd
  list : PresenceCmd

pub data PairCmd : Type 0 where
  start : Option Text → PairCmd
  list : PairCmd
  confirm : Text → PairCmd

abbrev render_presence : Shell → Bool → Response → Result Error Printed
render_presence sh json (presence_is rows) =
    ok (ok_json json (presence_are rows) (print_presence rows))
render_presence sh json (failure e) = err (ipc_error e)
render_presence sh json other = render_simple sh json other (lit "presence")

unfoldable pub presence_cmd : Caller → Shell → Bool → PresenceCmd → M Printed
presence_cmd c sh json (set state ttl detail) = do
  hello c
  resp ← call c (Request.presence state ttl detail)
  lift (render_simple sh json resp (lit "presence sent"))
presence_cmd c sh json PresenceCmd.list = do
  resp ← call c Request.presence_list
  lift (render_presence sh json resp)

abbrev pub render_start : Shell → Bool → Response → Result Error Printed
render_start sh json done = ok (
    ok_json json (flag true) (
      lit "broadcast your identity on the pairing topic."
      ∷ lit
          "ask the peer to run `agentmsg pair start` too, then compare the 6-digit code from `agentmsg pair list` and run `agentmsg pair confirm <name>`."
      ∷ []))
render_start sh json (failure e) = err (ipc_error e)
render_start sh json other = render_simple sh json other (lit "pair start")

abbrev render_pairs : Shell → Bool → Response → Result Error Printed
render_pairs sh json (pairs rows) = ok (ok_json json (pairs_are rows) (print_pairs rows))
render_pairs sh json (failure e) = err (ipc_error e)
render_pairs sh json other = render_simple sh json other (lit "pair list")

-- The fingerprint that the trust store now has for a name.
unfoldable pub trusted_fp : Caller → Files → Text → Text
trusted_fp c f name =
    unwrap_or
      (and_then (to_option (load_trust c.env f)) λ ts.
        map_option (λ (a : KnownAgent). fingerprint c.env a.public_key)
          (find (λ (a : KnownAgent). a.name == name) (Trust.list c.env ts)))
      []

abbrev pub render_confirm : Shell → Bool → Text → Text → Response → Result Error Printed
render_confirm sh json name fp done = ok (
    ok_json json (agent_is name fp none) (
      (lit "paired with "
        ++ name
        ++ lit " ("
        ++ fp
        ++ lit ") "
        ++ em_dash
        ++ lit " added to trust store")
      ∷ []))
render_confirm sh json name fp (failure e) = err (ipc_error e)
render_confirm sh json name fp other = render_simple sh json other (lit "pair confirm")

unfoldable pub pair_cmd : Caller → Shell → Bool → PairCmd → M Printed
pair_cmd c sh json (start topic) = do
  hello c
  resp ← call c (Request.pair_start topic)
  lift (render_start sh json resp)
pair_cmd c sh json PairCmd.list = do
  resp ← call c Request.pair_list
  lift (render_pairs sh json resp)
pair_cmd c sh json (confirm name) = do
  resp ← call c (Request.pair_confirm name)
  fp ← from_files (λ f. ok (trusted_fp c f name))
  lift (render_confirm sh json name fp resp)

abbrev broker_of : Config → Text
broker_of cfg =
    if cfg.broker_host == [] then [] else cfg.broker_host ++ lit ":" ++ decimal cfg.broker_port

-- What is known without a daemon.
unfoldable pub status_down : Caller → Bool → Files → Printed
status_down c json f =
    let name = map_option (λ id. id.name) (to_option (load_identity c.env f)) in
    let cfg = ok_or_default (load_config c.env f) default_config in
    ok_json json (down_is name (broker_of cfg) cfg.topics) (
      lit "daemon:    not running"
      ∷ (lit "identity:  " ++ unwrap_or name [])
      ∷ (lit "broker:    " ++ broker_of cfg)
      ∷ [])

-- No daemon, or no identity, is no error.
abbrev pub render_status :
    Caller → Shell → Bool → Files → Result Error Response → Result Error Printed
render_status c sh json f (ok (status_is info)) =
    ok (ok_json json (Payload.status_is info) (status_lines sh info))
render_status c sh json f (ok other) = render_simple sh json other (lit "status")
render_status c sh json f (err (daemon_not_running _)) = ok (status_down c json f)
render_status c sh json f (err no_identity) = ok (status_down c json f)
render_status c sh json f (err e) = err e

abbrev pub status_of :
    Caller → Shell → Bool → Machine × Result Error Response → Machine × Result Error Printed
status_of c sh json (m, r) = (m, render_status c sh json m.files r)

unfoldable pub status_cmd : Caller → Shell → Bool → M Printed
status_cmd c sh json m = status_of c sh json (call c Request.status m)

-- ===== src/Cli/Machine.antt =====
-- A machine with its data directory and its daemon, and the calls of src/cli.rs over IPC. The frames
-- are as in `Ipc.Framing`, and a document that is sent is read as it was written. Nothing else happens
-- to the machine during a call.
pub mod Unchanged
use agent_mqtt_chat.Base.{
  lookup, Text, lit, text_eq, ◌==◌, Bool, true, false, ◌++◌, Option, none, some, Result, ok, err,
  if◌then◌else◌,
}
use agent_mqtt_chat.External.{Env}
use agent_mqtt_chat.Errors.{Error, daemon_not_running}
use agent_mqtt_chat.Trust.{TrustStore}
use agent_mqtt_chat.Ipc.{Request, Response, done, failure, pong, ipc_proto_version}
use agent_mqtt_chat.Daemon.State.{Daemon, Moment, PendingPair}
use agent_mqtt_chat.Daemon.Requests.{handle}
use agent_mqtt_chat.Files.{Files, load_config, load_trust, load_identity, save_trust}

pub record Machine : Type 0 where
  pub files : Files
  pub running : Option Daemon

-- A command: it changes the machine, and gives a result or fails.
abbrev pub M : Type 0 → Type 0
M A = Machine → Machine × Result Error A

infixl 5 ◌>>=◌ ◌>>◌
abbrev pub continue :
    {A B : Type 0} → Machine × Result Error A → (A → M B) → Machine × Result Error B
continue (m, ok a) k = k a m
continue (m, err e) k = (m, err e)

abbrev pub ◌>>=◌ : {A B : Type 0} → M A → (A → M B) → M B
◌>>=◌ c k m = continue (c m) k

abbrev pub ◌>>◌ : {A B : Type 0} → M A → M B → M B
◌>>◌ c k = c >>= λ _. k

abbrev pub give : {A : Type 0} → A → M A
give a m = (m, ok a)

-- `r?`
abbrev pub lift : {A : Type 0} → Result Error A → M A
lift r m = (m, r)

-- A reading of the files.
abbrev pub from_files : {A : Type 0} → (Files → Result Error A) → M A
from_files f m = (m, f m.files)

-- The daemon loads the configuration and the trust store for each request.
abbrev pub reloaded : Env → Files → Daemon → Daemon
reloaded env f d = record d { config = load_config env f; trust = load_trust env f }

-- A confirmed pairing is the only request that writes a file; a save that fails may have cut it.
abbrev pub trust_written : Env → Files → Result Error TrustStore → Files
trust_written env f (ok ts) = record f { trust = some (env.trust_json.encode ts) }
trust_written env f (err _) = f

abbrev pub confirm_failed :
    Option Error → Moment → Files → Option PendingPair → Result Error TrustStore → Files
confirm_failed none at f entry trust = f
confirm_failed (some _) at f (some _) (ok _) = record f { trust = at.torn }
confirm_failed (some _) at f (some _) (err _) = f
confirm_failed (some _) at f none trust = f

abbrev pub files_after : Env → Moment → Files → Daemon → Request → Daemon × Response → Files
files_after env at f d (Request.pair_confirm _) (d', done) = trust_written env f d'.trust
files_after env at f d (Request.pair_confirm name) (d', failure _) =
    confirm_failed at.save_error at f (lookup name d.pending) d.trust
files_after env at f d _ _ = f

-- `Shutdown` is answered, and ends the process.
abbrev pub running_after : Request → Daemon → Option Daemon
running_after Request.shutdown d = none
running_after _ d = some d

abbrev pub endpoint : Text → Text
endpoint agent = lit "agentmsg-" ++ agent ++ lit ".sock"

-- `ipc::call`; `os_error` is the text of a refused connection.
abbrev pub answered :
    Env → Moment → Machine → Daemon → Request → Daemon × Response → Machine × Result Error Response
answered env at m before req (d, resp) = (
  record { files = files_after env at m.files before req (d, resp); running = running_after req d },
  ok resp,
)

abbrev pub not_running : Machine → Text → Text → Machine × Result Error Response
not_running m agent os_error =
    (m, err (daemon_not_running (endpoint agent ++ lit " (" ++ os_error ++ lit ")")))

abbrev pub connected_to :
    Env
    → Text
    → Text
    → Moment
    → Text
    → Request
    → Machine
    → Option Daemon
    → Machine × Result Error Response
connected_to env version os_error at agent req m none = not_running m agent os_error
connected_to env version os_error at agent req m (some d) =
    if d.identity.name == agent
    then answered env at m (reloaded env m.files d) req
        (handle env version at (reloaded env m.files d) req)
    else not_running m agent os_error

unfoldable pub ipc_call : Env → Text → Text → Moment → Text → Request → M Response
ipc_call env version os_error at agent req m =
    connected_to env version os_error at agent req m m.running

-- What the commands share: the crates, the version of the build, the text of a refused connection, and
-- the moment of the call.
pub record Caller : Type 0 where
  pub env : Env
  pub version : Text
  pub os_error : Text
  pub at : Moment

-- `local_agent`
unfoldable pub local_agent : Caller → M Text
local_agent c = from_files (λ f. load_identity c.env f) >>= λ id. give id.name

-- The daemon of the local agent.
unfoldable pub call : Caller → Request → M Response
call c req = local_agent c >>= λ agent. ipc_call c.env c.version c.os_error c.at agent req

unfoldable pub hello : Caller → M (Unit {0})
hello c = call c (Request.hello ipc_proto_version) >>= λ _. give tt

abbrev is_pong : Result Error Response → Bool
is_pong (ok pong) = true
is_pong _ = false

-- `ipc::daemon_running`
unfoldable pub daemon_running : Caller → Text → Machine → Bool
daemon_running c agent m = is_pong (ipc_call c.env c.version c.os_error c.at agent Request.ping m).1

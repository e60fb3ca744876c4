-- ===== src/Cli/Run/Unchanged.antt =====
-- A command of src/cli.rs that fails.
use agent_mqtt_chat.Cli.Run.Writes.{Writes}
use agent_mqtt_chat.Base.{◌<◌, ◌≡◌, Bool, true, false, Option, some, Result}
use agent_mqtt_chat.External.{Env}
use agent_mqtt_chat.Errors.{Error}
use agent_mqtt_chat.Files.{Files}
use agent_mqtt_chat.Cli.Machine.{Machine}
use agent_mqtt_chat.Cli.Machine.Unchanged.{IsSame}
use agent_mqtt_chat.Cli.Starting.{DaemonCmd}
use agent_mqtt_chat.Cli.Run.{Command, Shown, Exit, ended, run}

-- The commands during which others act: the waits of `read` and of `daemon start`, and a daemon
-- in the foreground.
abbrev pub is_waiting : Command → Bool
is_waiting (Command.read _) = true
is_waiting (Command.daemon (DaemonCmd.start _ _)) = true
is_waiting (Command.daemon DaemonCmd.run) = true
is_waiting _ = false

-- A command ends, and changes nothing if its exit code is one of failure.
abbrev pub Concludes : Env → Bool → Machine → Option (Machine × Result Error Shown) → Type 0
Concludes env json m o =
    (m' : Machine) × (x : Exit) × (ended json o ≡ some (m', x)) × (0 < x.code → IsSame env m m')

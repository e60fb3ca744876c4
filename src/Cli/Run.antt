-- ===== src/Cli/Run.antt =====
-- `dispatch`, `run` and `fail` of src/cli.rs.
pub mod Writes
pub mod Safe
pub mod Unchanged
use agent_mqtt_chat.Base.{
  ℕ, Text, lit, ℤ, Bool, true, false, List, ◌++◌, Option, none, some, Result, ok, err,
}
use agent_mqtt_chat.Errors.{Error, exit_code}
use agent_mqtt_chat.Errors.Display.{error_text}
use agent_mqtt_chat.Ipc.{Request}
use agent_mqtt_chat.Files.{Files}
use agent_mqtt_chat.Cli.{Shell, Printed}
use agent_mqtt_chat.Cli.Keys.{Outcome, IdCmd, AgentCmd, id_cmd, agent_cmd}
use agent_mqtt_chat.Cli.Authorities.{AuthorityCmd, GrantArgs, authority_cmd, grant_cmd}
use agent_mqtt_chat.Cli.Settings.{ConfigCmd, config_cmd}
use agent_mqtt_chat.Cli.Machine.{Machine, Caller}
use agent_mqtt_chat.Cli.Calls.{
  SendArgs, send_cmd, reply_cmd, ack_cmd, browse_cmd, log_cmd, receipts_cmd, rejections_cmd,
  consumers_cmd,
}
use agent_mqtt_chat.Cli.Peers.{PresenceCmd, PairCmd, presence_cmd, pair_cmd, status_cmd}
use agent_mqtt_chat.Cli.Reading.{ReadArgs, ReadOut, World, Arrival, read_cmd}
use agent_mqtt_chat.Cli.Starting.{DaemonCmd, Launch, Started, start_cmd, control}

pub data Command : Type 0 where
  id : IdCmd → Command
  agent : AgentCmd → Command
  authority : AuthorityCmd → Command
  config : ConfigCmd → Command
  daemon : DaemonCmd → Command
  presence : PresenceCmd → Command
  pair : PairCmd → Command
  status consumers : Command
  send : SendArgs → Command
  read : ReadArgs → Command
  browse : ℤ → Option Text → Option Text → Bool → Bool → Command
  log : ℤ → Option Text → Option Text → Option Text → Command
  reply : Text → Text → Text → Command
  rejections : ℤ → Option Text → Option Text → Command
  receipts : Option Text → ℤ → Option Text → Command
  grant : GrantArgs → Command
  ack : ℤ → Option Text → Command

-- What a command did not take from the machine: the user's shell, the process that it may start, what
-- happens while it waits, what a stream brings, fuel for the waits, and what has become of a daemon that
-- runs in the foreground, if it has ended.
pub record Setting : Type 0 where
  pub shell : Shell
  pub launch : Launch
  pub world : World
  pub arrivals : List Arrival
  pub fuel : ℕ
  pub foreground : Machine → Option (Machine × Result Error (Unit {0}))

-- What was printed by a command that succeeded.
pub data Shown : Type 0 where
  simply : Printed → Shown
  reading : ReadOut → Shown
  starting : Option Printed → Text → Shown
  nothing : Shown

abbrev pub simply_of : Result Error Printed → Result Error Shown
simply_of (ok p) = ok (simply p)
simply_of (err e) = err e

abbrev pub finished : Machine → Outcome → Machine × Result Error Shown
finished m (ok (f, r)) = (record m { files = f }, simply_of r)
finished m (err e) = (m, err e)

abbrev pub on_files : (Files → Outcome) → Machine → Machine × Result Error Shown
on_files cmd m = finished m (cmd m.files)

abbrev pub simply_shown : Machine × Result Error Printed → Machine × Result Error Shown
simply_shown (m, ok p) = (m, ok (simply p))
simply_shown (m, err e) = (m, err e)

abbrev read_shown : Option (Machine × Result Error ReadOut) → Option (Machine × Result Error Shown)
read_shown none = none
read_shown (some (m, ok r)) = some (m, ok (reading r))
read_shown (some (m, err e)) = some (m, err e)

abbrev start_result : Started → Result Error (Unit {0}) → Result Error Shown
start_result s (ok _) = ok (starting s.printed s.diagnosis)
start_result s (err e) = err e

abbrev start_shown : Option (Machine × Started) → Option (Machine × Result Error Shown)
start_shown none = none
start_shown (some (m, s)) = some (m, start_result s s.outcome)

abbrev ran : Option (Machine × Result Error (Unit {0})) → Option (Machine × Result Error Shown)
ran none = none
ran (some (m, ok _)) = some (m, ok nothing)
ran (some (m, err e)) = some (m, err e)

-- `none` where the fuel of a wait ran out, and where a daemon in the foreground still runs.
unfoldable pub dispatch :
    Caller → Setting → Bool → Command → Machine → Option (Machine × Result Error Shown)
dispatch c s json (id cmd) m = some (on_files (λ f. id_cmd c.env s.shell json f cmd) m)
dispatch c s json (agent cmd) m = some (on_files (λ f. agent_cmd c.env s.shell json f cmd) m)
dispatch c s json (authority cmd) m =
    some (on_files (λ f. authority_cmd c.env s.shell json f cmd) m)
dispatch c s json (config cmd) m = some (on_files (λ f. config_cmd c.env s.shell json f cmd) m)
dispatch c s json (daemon (DaemonCmd.start wait no_wait)) m =
    start_shown (start_cmd c s.launch s.world json wait no_wait s.fuel m)
dispatch c s json (daemon DaemonCmd.run) m = ran (s.foreground m)
dispatch c s json (daemon DaemonCmd.stop) m =
    some (simply_shown (control c s.shell json Request.shutdown (lit "daemon stopped") m))
dispatch c s json (daemon DaemonCmd.connect) m =
    some (simply_shown (control c s.shell json Request.connect (lit "connect requested") m))
dispatch c s json (daemon DaemonCmd.disconnect) m =
    some (simply_shown (control c s.shell json Request.disconnect (lit "disconnected") m))
dispatch c s json (presence cmd) m = some (simply_shown (presence_cmd c s.shell json cmd m))
dispatch c s json (pair cmd) m = some (simply_shown (pair_cmd c s.shell json cmd m))
dispatch c s json status m = some (simply_shown (status_cmd c s.shell json m))
dispatch c s json consumers m = some (simply_shown (consumers_cmd c s.shell json m))
dispatch c s json (send a) m = some (simply_shown (send_cmd c s.shell json a m))
dispatch c s json (read a) m = read_shown (read_cmd c s.shell json s.world a s.arrivals s.fuel m)
dispatch c s json (browse limit from to mine all) m =
    some (simply_shown (browse_cmd c s.shell json limit from to mine all m))
dispatch c s json (log limit from to peer) m =
    some (simply_shown (log_cmd c s.shell json limit from to peer m))
dispatch c s json (reply msg_id body ctype) m =
    some (simply_shown (reply_cmd c s.shell json msg_id body ctype m))
dispatch c s json (rejections limit reason since) m =
    some (simply_shown (rejections_cmd c s.shell json limit reason since m))
dispatch c s json (receipts msg_id limit state) m =
    some (simply_shown (receipts_cmd c s.shell json msg_id limit state m))
dispatch c s json (grant a) m = some (simply_shown (m, grant_cmd c.env s.shell json m.files a))
dispatch c s json (ack seq consumer) m = some (simply_shown (ack_cmd c s.shell json seq consumer m))

-- The error output of `fail`: the envelope with the error's text, or a line.
pub data Complaint : Type 0 where
  error_envelope : Text → Complaint
  error_line : Text → Complaint

unfoldable pub complaint : Bool → Error → Complaint
complaint true e = error_envelope (error_text e)
complaint false e = error_line (lit "error: " ++ error_text e)

-- How the process ends.
pub record Exit : Type 0 where
  pub code : ℕ
  pub out : Option Shown
  pub complained : Option Complaint

abbrev pub exit_of : Bool → Result Error Shown → Exit
exit_of json (ok shown) = record { code = 0; out = some shown; complained = none }
exit_of json (err e) = record {
  code = exit_code e;
  out = none;
  complained = some (complaint json e);
}

abbrev pub ended : Bool → Option (Machine × Result Error Shown) → Option (Machine × Exit)
ended json none = none
ended json (some (m, r)) = some (m, exit_of json r)

unfoldable pub run : Caller → Setting → Bool → Command → Machine → Option (Machine × Exit)
run c s json cmd m = ended json (dispatch c s json cmd m)

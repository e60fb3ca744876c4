-- ===== src/Example/Commands.antt =====
-- The theorems on the command line at concrete inputs.
use agent_mqtt_chat.Base.{
  chars, is_whitespace, is_control, ℕ, suc, ◌*◌, ◌≤◌, Bytes, lit, pos, ◌≡◌, refl, Bool, true, false,
  [], ◌∷◌, none, some, ok, err, arith,
}
use agent_mqtt_chat.Errors.{io}
use agent_mqtt_chat.Config.{default_config, validate_topic}
use agent_mqtt_chat.Identity
use agent_mqtt_chat.Files.{
  Files, load_config, save_config, load_identity, save_identity, load_name_fp, load_trust,
  save_trust, backup_identity,
}
use agent_mqtt_chat.Token.IdentityToken
use agent_mqtt_chat.Cli.{Shell, Printed, read_token_input}
use agent_mqtt_chat.Trust.{current_key}
use agent_mqtt_chat.Example.Codes.{token, decoded}
use agent_mqtt_chat.Wire.Codec.{unb64}
use agent_mqtt_chat.Wire.Kid.{validate_name}
use agent_mqtt_chat.Cli.Keys.{Outcome, id_generate, agent_add, refuse_overwrite, check_rotation}
use agent_mqtt_chat.Cli.Keys.Guards.{
  Displaced, SameOthers, id_generate-Displaced, IsAdded, agent_add-IsAdded,
}
use agent_mqtt_chat.Cli.Settings.{config_cmd, add_topic}
use agent_mqtt_chat.Cli.Settings.Topics.{AreTopics, reconfigured, config_cmd-reconfigured}
use agent_mqtt_chat.Cli.Machine.{Machine, Caller}
use agent_mqtt_chat.Cli.Reading.{ReadArgs, World}
use agent_mqtt_chat.Cli.Starting.{Launch}
use agent_mqtt_chat.Cli.Run.{Command, Setting}
use agent_mqtt_chat.Cli.Reading.Wait.{Ends, drain-Ends}
use agent_mqtt_chat.Example.Crates.{toy, toy-IsLawful}
use agent_mqtt_chat.Example.World.{alice_name, daemon, moment, topic}

abbrev long_seed : Bytes
long_seed =
    1 ∷ 2 ∷ 3 ∷ 4 ∷ 5 ∷ 6 ∷ 7 ∷ 8 ∷ 1 ∷ 2 ∷ 3 ∷ 4 ∷ 5 ∷ 6 ∷ 7 ∷ 8 ∷ 1 ∷ 2 ∷ 3 ∷ 4 ∷ 5 ∷ 6 ∷ 7 ∷ 8
    ∷ 1 ∷ 2 ∷ 3 ∷ 4 ∷ 5 ∷ 6 ∷ 7 ∷ 8 ∷ []

abbrev shell : Shell
shell = record {
  stdin = ok [];
  read_file = λ path. err (io path);
  write_error = λ _. none;
  seed = long_seed;
  ulid = lit "01A";
  ulid_nonce = lit "01B";
  debug_texts = λ _. [];
  debug_response = λ _. [];
}

abbrev no_files : Files
no_files = record {
  identity = none;
  authority = none;
  config = none;
  trust = none;
  backups = [];
  faults = λ _. none;
}

-- The files and the print of a success.
abbrev files_of : Outcome → Files
files_of (ok (f, p)) = f
files_of (err e) = no_files

abbrev print_of : Outcome → Printed
print_of (ok (f, ok p)) = p
print_of (ok (f, err e)) = Printed.human []
print_of (err e) = Printed.human []

abbrev is_success : Outcome → Bool
is_success (ok (f, ok p)) = true
is_success (ok (f, err e)) = false
is_success (err _) = false

success : (r : Outcome) → is_success r ≡ true → r ≡ ok (files_of r, ok (print_of r))
success (ok (f, ok p)) h = refl
success (ok (f, err e)) h = cc
success (err e) h = cc

-- An identity is there, and is replaced by force.
abbrev old_files : Files
old_files = (save_identity toy no_files (Identity.generate toy (lit "old") long_seed)).0

abbrev generated : Outcome
generated = id_generate toy shell false old_files alice_name true

generated_ok : is_success generated ≡ true
unfolding id_generate validate_name refuse_overwrite load_name_fp chars is_whitespace is_control
    Identity.save Identity.from_seed unb64 backup_identity
generated_ok = refl

id_generate-Displaced_example :
    (load_identity toy (files_of generated) ≡ ok (Identity.generate toy alice_name shell.seed))
    × Displaced toy old_files true (files_of generated)
    × SameOthers old_files (files_of generated)
id_generate-Displaced_example =
    id_generate-Displaced toy toy-IsLawful shell false old_files alice_name true
      (files_of generated) (print_of generated) refl (success generated generated_ok)

added_topic : is_success (config_cmd toy shell false no_files (add_topic topic)) ≡ true
unfolding config_cmd validate_topic load_config save_config
added_topic = refl

no_topics : load_config toy no_files ≡ ok default_config
unfolding load_config
no_topics = refl

abbrev configured : Outcome
configured = config_cmd toy shell false no_files (add_topic topic)

config_cmd-reconfigured_example :
    (load_config toy (files_of configured)
      ≡ ok (reconfigured toy toy-IsLawful default_config (add_topic topic)))
    × AreTopics (reconfigured toy toy-IsLawful default_config (add_topic topic)).topics
config_cmd-reconfigured_example =
    config_cmd-reconfigured toy toy-IsLawful shell false no_files (add_topic topic) default_config
      (files_of configured) (print_of configured) no_topics tt (success configured added_topic)

abbrev caller : Caller
caller = record { env = toy; version = lit "0.2"; os_error = lit "refused"; at = moment }

abbrev world : World
world = record { meanwhile = λ n m. m; clock = λ n. n * 251 }

abbrev waits : ReadArgs
waits = record {
  consumer = none;
  limit = pos 5;
  wait = true;
  wait_timeout = some 2;
  ack = false;
  follow = false;
}

abbrev machine : Machine
machine = record { files = no_files; running = some daemon }

slow : (n : ℕ) → n * 250 ≤ world.clock n
slow n = omega arith

drain-Ends_example : Ends caller shell false world waits (lit "main") (suc (2 * 4)) 0 machine
drain-Ends_example = drain-Ends caller shell false world waits (lit "main") 1 machine refl slow

-- A shell with the token of an agent in a file.
abbrev with_token : Shell
with_token = record shell { read_file = λ path. ok (IdentityToken.encode toy token) }

abbrev introduced : Outcome
introduced = agent_add toy with_token false no_files none (some (lit "t")) false

introduced_ok : is_success introduced ≡ true
unfolding agent_add read_token_input load_trust check_rotation current_key save_trust
introduced_ok = rw decoded refl

agent_add-IsAdded_example :
    IsAdded toy toy-IsLawful with_token no_files none (some (lit "t")) false (files_of introduced)
agent_add-IsAdded_example =
    agent_add-IsAdded toy toy-IsLawful with_token false no_files none (some (lit "t")) false
      (files_of introduced) (print_of introduced) (success introduced introduced_ok)

-- A reply to a message that the running daemon does not have.
abbrev launch : Launch
launch = record { spawn_error = none; spawned = λ m. m; log = none }

abbrev setting : Setting
setting = record {
  shell = shell;
  launch = launch;
  world = world;
  arrivals = [];
  fuel = 9;
  foreground = λ _. none;
}

abbrev with_alice : Machine
with_alice = record {
  files = (save_identity toy no_files (Identity.generate toy alice_name long_seed)).0;
  running = some daemon;
}

abbrev lost_reply : Command
lost_reply = Command.reply (lit "01Z") (lit "hi") (lit "text/plain")

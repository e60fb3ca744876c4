-- ===== src/Cli/Starting.antt =====
-- The `daemon` commands of src/cli.rs but `daemon run`, which is the daemon itself. Starting the process
-- is up to the operating system: it is given by what the machine is afterwards.
use agent_mqtt_chat.Base.{
  ℕ, zero, suc, ◌+◌, ◌-◌, ◌*◌, ◌≤◌, ◌<◌, leb, eqb, ◌≡◌, refl, Text, lit, Bool, true, false, List,
  [], ◌∷◌, ◌++◌, length, drop, Option, none, some, unwrap_or, Result, ok, err, decimal,
  if◌then◌else◌, Bool-cases, inl, inr, arith,
}
use agent_mqtt_chat.Errors.{Error, daemon_already_running, daemon_not_running}
use agent_mqtt_chat.Ipc.{Request}
use agent_mqtt_chat.Cli.{Shell, Printed, flag, ok_json}
use agent_mqtt_chat.Cli.Machine.{Machine, M, ◌>>=◌, lift, Caller, call, local_agent, daemon_running}
use agent_mqtt_chat.Cli.Calls.{render_simple}
use agent_mqtt_chat.Cli.Reading.{World}

pub data DaemonCmd : Type 0 where
  start : Option ℕ → Bool → DaemonCmd
  run stop connect disconnect : DaemonCmd

-- Starting a process: why it fails, if it does, and the machine with it; and what the log holds.
pub record Launch : Type 0 where
  pub spawn_error : Option Error
  pub spawned : Machine → Machine
  pub log : Option Text

abbrev cons_head : ℕ → List Text → List Text
cons_head b [] = (b ∷ []) ∷ []
cons_head b (l ∷ ls) = (b ∷ l) ∷ ls

abbrev strip_cr : Text → Text
strip_cr [] = []
strip_cr (b ∷ []) = if eqb b 13 then [] else b ∷ []
strip_cr (b ∷ c ∷ s) = b ∷ strip_cr (c ∷ s)

abbrev raw_lines : Text → List Text
raw_lines [] = []
raw_lines (b ∷ s) = let rest = raw_lines s in if eqb b 10 then [] ∷ rest else cons_head b rest

abbrev strip_all : List Text → List Text
strip_all [] = []
strip_all (l ∷ ls) = strip_cr l ∷ strip_all ls

-- `s.lines()`
unfoldable pub lines : Text → List Text
lines s = strip_all (raw_lines s)

abbrev join : List Text → Text
join [] = []
join (l ∷ []) = l
join (l ∷ k ∷ ls) = l ++ 10 ∷ join (k ∷ ls)

-- The last lines of the log, for a diagnosis.
unfoldable pub tail_log : Launch → ℕ → Text
tail_log launch n = let all = lines (unwrap_or launch.log []) in join (drop (length all - n) all)

-- The readiness poll, on fuel: whether the daemon answered before the deadline.
unfoldable pub ready : Caller → World → ℕ → Text → ℕ → ℕ → Machine → Option (Machine × Bool)
ready c w secs agent zero i m = none
ready c w secs agent (suc fuel) i m =
    let later = ready c w secs agent fuel (suc i) (w.meanwhile i m) in
    if daemon_running c agent m
    then some (m, true)
    else if leb (secs * 1000) (w.clock i)
    then some (m, false)
    else later

-- What a start prints, to the error output too.
pub record Started : Type 0 where
  pub printed : Option Printed
  pub diagnosis : Text
  pub outcome : Result Error (Unit {0})

abbrev is_started : Bool → Started
is_started json = record {
  printed = some (ok_json json (flag true) (lit "daemon started" ∷ []));
  diagnosis = [];
  outcome = ok tt;
}

abbrev refused : Error → Started
refused e = record { printed = none; diagnosis = []; outcome = err e }

abbrev after_poll : Launch → Bool → ℕ → Machine × Bool → Machine × Started
after_poll launch json secs (m, true) = (m, is_started json)
after_poll launch json secs (m, false) = (
  m,
  record {
    printed = none;
    diagnosis = tail_log launch 20;
    outcome =
        err (
          daemon_not_running
            (lit "daemon did not become ready within " ++ decimal secs ++ lit "s"));
  },
)

abbrev polled : Launch → Bool → ℕ → Option (Machine × Bool) → Option (Machine × Started)
polled launch json secs none = none
polled launch json secs (some r) = some (after_poll launch json secs r)

abbrev spawn :
    Caller
    → Launch
    → World
    → Bool
    → Option ℕ
    → Bool
    → ℕ
    → Text
    → Machine
    → Option Error
    → Option (Machine × Started)
spawn c launch w json wait no_wait fuel agent m (some e) = some (m, refused e)
spawn c launch w json wait no_wait fuel agent m none =
    let secs = unwrap_or wait 10 in
    let up = launch.spawned m in
    if no_wait
    then some (up, is_started json)
    else polled launch json secs (ready c w secs agent fuel 0 up)

abbrev start_as :
    Caller
    → Launch
    → World
    → Bool
    → Option ℕ
    → Bool
    → ℕ
    → Machine × Result Error Text
    → Option (Machine × Started)
start_as c launch w json wait no_wait fuel (m, err e) = some (m, refused e)
start_as c launch w json wait no_wait fuel (m, ok agent) =
    if daemon_running c agent m
    then some (m, refused daemon_already_running)
    else spawn c launch w json wait no_wait fuel agent m launch.spawn_error

unfoldable pub start_cmd :
    Caller → Launch → World → Bool → Option ℕ → Bool → ℕ → Machine → Option (Machine × Started)
start_cmd c launch w json wait no_wait fuel m =
    start_as c launch w json wait no_wait fuel (local_agent c m)

-- The other commands of `daemon`.
unfoldable pub control : Caller → Shell → Bool → Request → Text → M Printed
control c sh json req human = do resp ← call c req; lift (render_simple sh json resp human)

-- The poll ends by its deadline, if each of its sleeps takes 200 ms at least.
module _ (c : Caller) (w : World) (secs : ℕ) (agent : Text) where
  ready-Ends_from :
      ((n : ℕ) → n * 200 ≤ w.clock n)
      → (fuel i : ℕ) (m : Machine) → i ≤ secs * 5
      → secs * 5 < fuel + i
      → (r : Machine × Bool) × (ready c w secs agent fuel i m ≡ some r)
  unfolding ready
  ready-Ends_from clock zero i m le h = absurd (omega arith)
  ready-Ends_from clock (suc fuel) i m le h = elim (Bool-cases (daemon_running c agent m)) [
    | inl e ↦ ((m, true), rw e refl)
    | inr e ↦ elim (Bool-cases (leb (secs * 1000) (w.clock i))) [
      | inl e' ↦ ((m, false), rw (e, e') refl)
      | inr e' ↦
          let early : w.clock i < secs * 1000 = ground arith in
          let (r, ends) =
            ready-Ends_from clock fuel (suc i) (w.meanwhile i m) (omega (arith, clock i))
              (omega arith) in
          (r, rw (e, e') ends)
    ]
  ]

  pub ready-Ends :
      (m : Machine)
      → ((n : ℕ) → n * 200 ≤ w.clock n)
      → (r : Machine × Bool) × (ready c w secs agent (suc (secs * 5)) 0 m ≡ some r)
  ready-Ends m clock = ready-Ends_from clock (suc (secs * 5)) 0 m (omega arith) (omega arith)

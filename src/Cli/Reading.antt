-- ===== src/Cli/Reading.antt =====
-- `read` of src/cli.rs: the drain of the queue, its wait, and the stream of `--follow`. Between two
-- rounds of the wait anything may happen to the machine; the clock is in milliseconds since the start.
pub mod Wait
use agent_mqtt_chat.Base.{
  ℕ, zero, suc, ◌*◌, leb, ltb, pos, Text, lit, ℤ, Bool, true, false, not, ◌&&◌, List, [], ◌∷◌, ◌++◌,
  Option, none, some, unwrap_or, Result, ok, err, decimal, if◌then◌else◌,
}
use agent_mqtt_chat.Errors.{Error, ipc_error, timeout, serde_error}
use agent_mqtt_chat.Store.Types.{StoredMsg}
use agent_mqtt_chat.Ipc.{Request, Response, StreamFrame, message, lagged, messages, failure}
use agent_mqtt_chat.Cli.{Shell, Printed, messages_are, ok_json}
use agent_mqtt_chat.Cli.Machine.{Machine, ◌>>=◌, give, Caller, call}
use agent_mqtt_chat.Cli.Print.{print_messages}
use agent_mqtt_chat.Cli.Calls.{render_simple, default_consumer}

-- The arguments of `read`.
pub record ReadArgs : Type 0 where
  pub consumer : Option Text
  pub limit : ℤ
  pub wait : Bool
  pub wait_timeout : Option ℕ
  pub ack : Bool
  pub follow : Bool

-- What happens while the command sleeps for the n-th time, and what the clock then reads.
pub record World : Type 0 where
  pub meanwhile : ℕ → Machine → Machine
  pub clock : ℕ → ℕ

-- A deadline that has passed; no timeout, or one of 0, is none.
abbrev pub expired : Option ℕ → ℕ → Bool
expired none now = false
expired (some s) now = ltb 0 s && leb (s * 1000) now

-- What ends the drain.
pub data Drained : Type 0 where
  got : List StoredMsg → Option Text → Drained
  stop : Result Error Printed → Drained

abbrev pub no_messages : List StoredMsg → Bool
no_messages [] = true
no_messages (_ ∷ _) = false

abbrev pub timed_out : Option ℕ → Error
timed_out s = timeout (lit "no message within " ++ decimal (unwrap_or s 0) ++ lit "s")

-- What a round of the drain makes of the answer; `none` sleeps and goes round again.
abbrev pub drained : Shell → Bool → ReadArgs → ℕ → Result Error Response → Option Drained
drained sh json a now (ok (messages ms warning)) =
    if no_messages ms && (a.wait && not a.follow)
    then if expired a.wait_timeout now then some (stop (err (timed_out a.wait_timeout))) else none
    else some (got ms warning)
drained sh json a now (ok (failure e)) = some (stop (err (ipc_error e)))
drained sh json a now (ok other) = some (stop (render_simple sh json other (lit "read")))
drained sh json a now (err e) = some (stop (err e))

-- The loop, on fuel.
unfoldable pub drain :
    Caller → Shell → Bool → World → ReadArgs → Text → ℕ → ℕ → Machine → Option (Machine × Drained)
drain c sh json w a consumer zero i m = none
drain c sh json w a consumer (suc fuel) i m =
    let answer = call c (Request.read consumer a.limit) m in
    elim (drained sh json a (w.clock i) answer.1) [
      | none ↦ drain c sh json w a consumer fuel (suc i) (w.meanwhile i answer.0)
      | some end ↦ some (answer.0, end)
    ]

-- What comes on the socket of a subscription: a frame, one that does not parse, the end at a frame's
-- boundary, or another error.
pub data Arrival : Type 0 where
  frame : StreamFrame → Arrival
  unreadable : Text → Arrival
  eof : Arrival
  broken : Text → Arrival

-- What was printed to the two outputs, and how the stream ended, if it did.
pub record Followed : Type 0 where
  pub out : List Printed
  pub warnings : List Text
  pub ended : Option (Result Error (Unit {0}))

abbrev pub nothing_yet : Followed
nothing_yet = record { out = []; warnings = []; ended = none }

abbrev with_frame : Bool → StreamFrame → Followed → Followed
with_frame json (message m) rest = record rest {
  out = ok_json json (messages_are (m ∷ [])) (print_messages (m ∷ [])) ∷ rest.out;
}
with_frame json (lagged dropped) rest = record rest {
  warnings =
      (lit "warning: subscription lagged, " ++ decimal dropped ++ lit " message(s) dropped")
      ∷ rest.warnings;
}

unfoldable pub follow_stream : Bool → List Arrival → Followed
follow_stream json [] = nothing_yet
follow_stream json (frame f ∷ rest) = with_frame json f (follow_stream json rest)
follow_stream json (unreadable e ∷ rest) = record nothing_yet { ended = some (err (serde_error e)) }
follow_stream json (eof ∷ rest) = record nothing_yet { ended = some (ok tt) }
follow_stream json (broken e ∷ rest) = record nothing_yet {
  ended = some (err (ipc_error (lit "follow stream ended unexpectedly: " ++ e)));
}

abbrev last : List StoredMsg → Option StoredMsg
last [] = none
last (m ∷ []) = some m
last (_ ∷ m ∷ ms) = last (m ∷ ms)

-- The acknowledgement of what was read, by its last row.
abbrev acked : Caller → Text → Bool → Option StoredMsg → Machine → Machine × Result Error (Unit {0})
acked c consumer true (some m) machine =
    (call c (Request.ack consumer (pos m.seq)) >>= λ _. give tt) machine
acked c consumer true none machine = (machine, ok tt)
acked c consumer false _ machine = (machine, ok tt)

-- What `read` prints: a warning, the messages, and what was followed.
pub record ReadOut : Type 0 where
  pub warning : Option Text
  pub printed : Printed
  pub followed : Option Followed

abbrev followed_if : Bool → Bool → List Arrival → Option Followed
followed_if json true arrivals = some (follow_stream json arrivals)
followed_if json false arrivals = none

abbrev shown :
    Bool
    → ReadArgs
    → List Arrival
    → List StoredMsg
    → Option Text
    → Machine × Result Error (Unit {0})
    → Machine × Result Error ReadOut
shown json a arrivals ms warning (m, err e) = (m, err e)
shown json a arrivals ms warning (m, ok _) = (
  m,
  ok (record {
    warning = warning;
    printed = ok_json json (messages_are ms) (print_messages ms);
    followed = followed_if json a.follow arrivals;
  }),
)

abbrev other_answer : Result Error Printed → Result Error ReadOut
other_answer (err e) = err e
other_answer (ok p) = ok (record { warning = none; printed = p; followed = none })

abbrev read_on :
    Caller
    → Bool
    → ReadArgs
    → List Arrival
    → Text
    → Machine × Drained
    → Machine × Result Error ReadOut
read_on c json a arrivals consumer (m, got ms warning) =
    shown json a arrivals ms warning (acked c consumer a.ack (last ms) m)
read_on c json a arrivals consumer (m, stop r) = (m, other_answer r)

abbrev read_as :
    Caller
    → Shell
    → Bool
    → World
    → ReadArgs
    → List Arrival
    → ℕ
    → Machine × Result Error Text
    → Option (Machine × Result Error ReadOut)
read_as c sh json w a arrivals fuel (m, err e) = some (m, err e)
read_as c sh json w a arrivals fuel (m, ok consumer) =
    elim (drain c sh json w a consumer fuel 0 m) [
      | none ↦ none
      | some r ↦ some (read_on c json a arrivals consumer r)
    ]

unfoldable pub read_cmd :
    Caller
    → Shell
    → Bool
    → World
    → ReadArgs
    → List Arrival
    → ℕ
    → Machine
    → Option (Machine × Result Error ReadOut)
read_cmd c sh json w a arrivals fuel m =
    read_as c sh json w a arrivals fuel (default_consumer c a.consumer m)

-- ===== src/Cli/Reading/Wait.antt =====
-- The wait of `read` in src/cli.rs ends.
use agent_mqtt_chat.Base.{
  ℕ, zero, suc, ◌+◌, ◌*◌, ◌≤◌, ◌<◌, ◌≡◌, refl, Text, Bool, false, not, ◌&&◌, List, Option, none,
  some, Result, ok, err, Bool-cases, inl, inr, arith,
}
use agent_mqtt_chat.Errors.{Error}
use agent_mqtt_chat.Store.Types.{StoredMsg}
use agent_mqtt_chat.Ipc.{Request, Response, messages}
use agent_mqtt_chat.Cli.{Shell}
use agent_mqtt_chat.Cli.Machine.{Machine, Caller, call}
use agent_mqtt_chat.Cli.Reading.{
  ReadArgs, World, Drained, got, stop, expired, no_messages, drained, drain,
}

-- The drain is over: with messages, or without a wait, or with what is to be printed or is wrong.
abbrev pub IsDrained : ReadArgs → Drained → Type 0
IsDrained a (got ms warning) = (no_messages ms && (a.wait && not a.follow)) ≡ false
IsDrained a (stop r) = Unit

-- A round that does not end the wait is before the deadline.
abbrev Round : ReadArgs → ℕ → Option Drained → Type 0
Round a now none = expired a.wait_timeout now ≡ false
Round a now (some end) = IsDrained a end

messages-Round :
    (sh : Shell) (json : Bool) (a : ReadArgs) (now : ℕ) (ms : List StoredMsg)
    (warning : Option Text)
    → Round a now (drained sh json a now (ok (messages ms warning)))
messages-Round sh json a now ms warning =
    elim (Bool-cases (no_messages ms && (a.wait && not a.follow))) [
      | inr e ↦ rw e e
      | inl e ↦ elim (Bool-cases (expired a.wait_timeout now)) [
        | inl e' ↦ rw (e, e') tt
        | inr e' ↦ rw (e, e') e'
      ]
    ]

drained-Round :
    (sh : Shell) (json : Bool) (a : ReadArgs) (now : ℕ) (r : Result Error Response)
    → Round a now (drained sh json a now r)
drained-Round sh json a now (err e) = tt
drained-Round sh json a now (ok (messages ms warning)) = messages-Round sh json a now ms warning
drained-Round sh json a now (ok other) = tt

-- Before the deadline the clock has not come to it.
before_deadline : (s now : ℕ) → expired (some (suc s)) now ≡ false → now < suc s * 1000
before_deadline s now h = ground arith

module _ (c : Caller) (sh : Shell) (json : Bool) (w : World) (a : ReadArgs) (consumer : Text) where
  -- The drain from one round on.
  abbrev pub Ends : ℕ → ℕ → Machine → Type 0
  Ends fuel i m =
      (r : Machine × Drained) × (drain c sh json w a consumer fuel i m ≡ some r) × IsDrained a r.1

  -- One round, by its outcome.
  drain_step-Ends :
      (s fuel i : ℕ) (m : Machine) (o : Option Drained)
      → a.wait_timeout ≡ some (suc s)
      → i * 250 ≤ w.clock i
      → drained sh json a (w.clock i) (call c (Request.read consumer a.limit) m).1 ≡ o
      → Round a (w.clock i) o
      → (suc i ≤ suc s * 4
          → Ends fuel (suc i) (w.meanwhile i (call c (Request.read consumer a.limit) m).0))
      → Ends (suc fuel) i m
  unfolding drain
  drain_step-Ends s fuel i m (some end) e clock o ended rest =
      (((call c (Request.read consumer a.limit) m).0, end), rw (drain, o) refl, ended)
  drain_step-Ends s fuel i m none e clock o early rest =
      let lt = before_deadline s (w.clock i) (rw e at early) in
      let (r, ends, done) = rest (omega arith) in (r, rw (drain, o) ends, done)

  drain-Ends_from :
      (s : ℕ)
      → a.wait_timeout ≡ some (suc s)
      → ((n : ℕ) → n * 250 ≤ w.clock n)
      → (fuel i : ℕ) (m : Machine) → i ≤ suc s * 4
      → suc s * 4 < fuel + i
      → Ends fuel i m
  drain-Ends_from s e clock zero i m le h = absurd (omega arith)
  drain-Ends_from s e clock (suc fuel) i m le h =
      drain_step-Ends s fuel i m
        (drained sh json a (w.clock i) (call c (Request.read consumer a.limit) m).1) e (clock i)
        refl (drained-Round sh json a (w.clock i) (call c (Request.read consumer a.limit) m).1)
        (λ le'. drain-Ends_from s e clock fuel (suc i) _ le' (omega arith))

  -- With a timeout the wait ends, whatever the daemon answers and whatever happens meanwhile, if each of
  -- its sleeps takes 250 ms at least: after four rounds for each second and one more at most it has
  -- messages, or no need to wait for any, or reports an error, the timeout being one.
  pub drain-Ends :
      (s : ℕ) (m : Machine)
      → a.wait_timeout ≡ some (suc s)
      → ((n : ℕ) → n * 250 ≤ w.clock n)
      → Ends (suc (suc s * 4)) 0 m
  drain-Ends s m e clock =
      drain-Ends_from s e clock (suc (suc s * 4)) 0 m (omega arith) (omega arith)

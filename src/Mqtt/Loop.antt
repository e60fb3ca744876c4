-- ===== src/Mqtt/Loop.antt =====
-- The event loop of src/mqtt.rs against a plain account of the events.
use agent_mqtt_chat.Base.{
  ℕ, zero, suc, ◌*◌, min, Bytes, Text, ◌≡◌, refl, Bool, true, false, List, [], ◌∷◌, ◌++◌, map,
  Option, none, some, Bool-cases, inl, inr, if◌then◌else◌, arith,
}
use agent_mqtt_chat.Mqtt.Sleep.{sleep_interruptible-IsSlept}
use agent_mqtt_chat.Mqtt.{
  Session, Poll, BrokerEvent, conn_ack, publish, other, poll_error, opened, poll, on_event,
  on_error, backed_off, stopped, event_loop, sleep_interruptible, first_backoff, max_backoff,
}

abbrev pub doubled : ℕ → ℕ
doubled zero = 1
doubled (suc n) = doubled n * 2

-- The delay after so many errors in a row.
abbrev pub delay : ℕ → ℕ
delay errors = min (first_backoff * doubled errors) max_backoff

delay-suc : (n : ℕ) → min (delay n * 2) max_backoff ≡ delay (suc n)
delay-suc n = omega arith

-- A plain account of the events: whether the last connection event was an acknowledgement, the errors
-- since, the subscriptions, and the callback's work.
pub record Account (W : Type 0) : Type 0 where
  pub up : Bool
  pub errors : ℕ
  pub asked : List Text
  pub world : W

module _ {W : Type 0} (on_message : W → Text → Bytes → W) (topics : List Text) where
  abbrev pub record_event : Account W → BrokerEvent → Account W
  record_event a conn_ack = record a { up = true; errors = 0; asked = a.asked ++ topics }
  record_event a (publish topic payload) = record a { world = on_message a.world topic payload }
  record_event a other = a
  record_event a poll_error = record a { up = false; errors = suc a.errors }

  abbrev pub account : Account W → List BrokerEvent → Account W
  account a [] = a
  account a (e ∷ es) = account (record_event a e) es

  pub record Agrees (s : Session W) (a : Account W) : Type 0 where
    pub same_flag : s.connected ≡ a.up
    pub same_delay : s.backoff ≡ delay a.errors
    pub same_asked : s.asked ≡ a.asked
    pub same_world : s.world ≡ a.world

  backed_off-Agrees :
      (s : Session W) (a : Account W) (r : Option (ℕ × Bool)) (x : ℕ × Bool)
      → r ≡ some x
      → Agrees s a
      → (backed_off on_message topics (record s { connected = false }) r).running ≡ true
      → Agrees
          (backed_off on_message topics (record s { connected = false }) r)
          (record a { up = false; errors = suc a.errors })
  backed_off-Agrees s a none x e h k = cc
  backed_off-Agrees s a (some (_, true)) x e h k = cc
  backed_off-Agrees s a (some (_, false)) x e h k = record {
    same_flag = refl;
    same_delay = omega (arith, h.same_delay, delay-suc a.errors);
    same_asked = h.same_asked;
    same_world = h.same_world;
  }

  on_error-Agrees :
      (s : Session W) (a : Account W) (p : Poll)
      → Agrees s a
      → (on_error on_message topics s p).running ≡ true
      → Agrees (on_error on_message topics s p) (record_event a poll_error)
  unfolding on_error
  on_error-Agrees s a p h k = elim (Bool-cases p.stop_after) [
    | inl e ↦ let impossible : false ≡ true = rw e at k in cc
    | inr e ↦
        let (r, slept, _) =
          sleep_interruptible-IsSlept s.backoff (suc s.backoff) p.stop_asleep
            (λ u lo hi. absurd (omega arith)) in
        rw e (
          backed_off-Agrees s a (sleep_interruptible s.backoff p.stop_asleep) r slept h (rw e at k))
  ]

  on_event-Agrees :
      (s : Session W) (a : Account W) (p : Poll) (e : BrokerEvent)
      → Agrees s a
      → (on_event on_message topics s p e).running ≡ true
      → Agrees (on_event on_message topics s p e) (record_event a e)
  on_event-Agrees s a p conn_ack h k = record {
    same_flag = refl;
    same_delay = omega arith;
    same_asked = rw h.same_asked refl;
    same_world = h.same_world;
  }
  on_event-Agrees s a p (publish topic payload) h k = record {
    same_flag = h.same_flag;
    same_delay = h.same_delay;
    same_asked = h.same_asked;
    same_world = rw h.same_world refl;
  }
  on_event-Agrees s a p other h k = h
  on_event-Agrees s a p poll_error h k = on_error-Agrees s a p h k

  -- A round of which nothing is known but its tests.
  guarded-Agrees :
      (runs stops : Bool) (s s' : Session W) (a : Account W)
      → runs ≡ s.running
      → (s'.running ≡ true → Agrees s' a)
      → (if runs then if stops then stopped on_message topics s else s' else s).running ≡ true
      → Agrees (if runs then if stops then stopped on_message topics s else s' else s) a
  guarded-Agrees true true s s' a e h k = cc
  guarded-Agrees true false s s' a e h k = h k
  guarded-Agrees false stops s s' a e h k = cc

  poll-Agrees :
      (s : Session W) (a : Account W) (p : Poll)
      → Agrees s a
      → (poll on_message topics s p).running ≡ true
      → Agrees (poll on_message topics s p) (record_event a p.event)
  unfolding poll
  poll-Agrees s a p h k =
      guarded-Agrees s.running p.stop_before s (on_event on_message topics s p p.event) _ refl
        (on_event-Agrees s a p p.event h) k

  poll-running : (s : Session W) (p : Poll) → s.running ≡ false → poll on_message topics s p ≡ s
  unfolding poll
  poll-running s p e = rw e refl

  -- A loop that has ended does nothing more.
  pub event_loop_ended :
      (s : Session W) (ps : List Poll) → s.running ≡ false → event_loop on_message topics s ps ≡ s
  unfolding event_loop
  event_loop_ended s [] e = refl
  event_loop_ended s (p ∷ ps) e = rw (poll-running s p e) (event_loop_ended s ps e)

  event_loop-Agrees_from :
      (s : Session W) (a : Account W) (ps : List Poll)
      → Agrees s a
      → (event_loop on_message topics s ps).running ≡ true
      → Agrees (event_loop on_message topics s ps) (account a (map (λ (p : Poll). p.event) ps))
  unfolding event_loop
  event_loop-Agrees_from s a [] h k = h
  event_loop-Agrees_from s a (p ∷ ps) h k = elim (Bool-cases (poll on_message topics s p).running) [
    | inl e ↦
        event_loop-Agrees_from (poll on_message topics s p) (record_event a p.event) ps
          (poll-Agrees s a p h e) k
    | inr e ↦ cc (e, rw (event_loop_ended (poll on_message topics s p) ps e) at k)
  ]

  -- While the loop runs, the session is as a plain account of the events has it: it is connected just
  -- if the last connection event was an acknowledgement, each of which asked for every topic again;
  -- each publication was handed to the callback once and in order; and the next delay is 250 ms,
  -- doubled for each error since the last acknowledgement and at most 30 s.
  pub event_loop-Agrees :
      (w : W) (ps : List Poll)
      → (event_loop on_message topics (opened w) ps).running ≡ true
      → Agrees (event_loop on_message topics (opened w) ps) (
          account
            (record { up = false; errors = 0; asked = []; world = w })
            (map (λ (p : Poll). p.event) ps))
  event_loop-Agrees w ps k =
      event_loop-Agrees_from (opened w) _ ps
        (record {
          same_flag = refl;
          same_delay = omega arith;
          same_asked = refl;
          same_world = refl;
        })
        k

-- ===== src/Example/Clients.antt =====
-- The theorems on the session, the whole daemon and the command line at concrete inputs.
use agent_mqtt_chat.Store.Types.{empty_db}
use agent_mqtt_chat.Errors.{store_error}
use agent_mqtt_chat.Daemon.State.{Moment}
use agent_mqtt_chat.Base.{
  ℕ, suc, ◌≤◌, leb, Bytes, Text, lit, pos, ◌≡◌, refl, Bool, true, false, List, [], ◌∷◌, map, some,
  ok, inl, All, arith,
}
use agent_mqtt_chat.Store.Types.{Db, Outbound}
use agent_mqtt_chat.Store.Queue.{consumers}
use agent_mqtt_chat.Store.Queue.Unread.{Counted, consumers-Counted}
use agent_mqtt_chat.Store.Invariant.Steps.{fresh, called, step, acknowledge}
use agent_mqtt_chat.Mqtt.{
  sleep_interruptible, BrokerEvent, Poll, conn_ack, publish, poll_error, opened, event_loop,
}
use agent_mqtt_chat.Mqtt.Sleep.{IsSlept, sleep_interruptible-IsSlept}
use agent_mqtt_chat.Mqtt.Loop.{Agrees, account, event_loop-Agrees}
use agent_mqtt_chat.Daemon.State.{Daemon}
use agent_mqtt_chat.Daemon.Invariant.{IsSound}
use agent_mqtt_chat.Daemon.Outgoing.{outbound}
use agent_mqtt_chat.Daemon.Outgoing.Fair.{
  Tick, round, session, enqueue, ticks, Served, is_served, ticks-Served,
}
use agent_mqtt_chat.Daemon.System.{arrive, subscribe, act, boot}
use agent_mqtt_chat.Daemon.System.Reachable.{Reachable, booted, acted, Reachable-IsSound}
use agent_mqtt_chat.Example.Crates.{toy}
use agent_mqtt_chat.Example.World.{bob, db, config, trust, daemon, moment, topic, wrapper}

-- The flag is raised after 120 ms of a sleep of 250 ms.
abbrev raised : ℕ → Bool
raised now = leb 120 now

raised_stays : (u : ℕ) → 120 ≤ u → u ≤ 250 → raised u ≡ true
raised_stays u lo hi = ground arith

sleep_interruptible-IsSlept_example :
    (r : ℕ × Bool) × (sleep_interruptible 250 raised ≡ some r) × IsSlept 250 120 raised r.0 r.1
sleep_interruptible-IsSlept_example = sleep_interruptible-IsSlept 250 120 raised raised_stays

abbrev never : ℕ → Bool
never _ = false

abbrev calm : BrokerEvent → Poll
calm e = record { event = e; stop_before = false; stop_after = false; stop_asleep = never }

abbrev polls : List Poll
polls = calm conn_ack ∷ calm (publish topic (lit "x")) ∷ calm poll_error ∷ []

-- The callback counts.
abbrev counted : ℕ → Text → Bytes → ℕ
counted n _ _ = suc n

still_running : (event_loop counted (topic ∷ []) (opened 0) polls).running ≡ true
unfolding event_loop agent_mqtt_chat.Mqtt.poll agent_mqtt_chat.Mqtt.on_error sleep_interruptible
    agent_mqtt_chat.Mqtt.sleep_go
still_running = refl

event_loop-Agrees_example :
    Agrees counted (topic ∷ []) (event_loop counted (topic ∷ []) (opened 0) polls) (
      account counted
        (topic ∷ [])
        (record { up = false; errors = 0; asked = []; world = 0 })
        (map (λ (p : Poll). p.event) polls))
event_loop-Agrees_example = event_loop-Agrees counted (topic ∷ []) 0 polls still_running

abbrev waiting_message : Outbound
waiting_message = outbound (lit "1") topic (lit "x")

abbrev with_message : Daemon
with_message = record daemon { db = record db { outbox = waiting_message ∷ [] } }

abbrev refuses : Text → Bool
refuses _ = false

abbrev takes : Text → Bool
takes _ = true

abbrev rounds : List Tick
rounds =
    round (lit "t") refuses
    ∷ session (some false)
    ∷ round (lit "t") takes
    ∷ session (some true)
    ∷ enqueue (outbound (lit "2") topic (lit "y"))
    ∷ round (lit "t") takes
    ∷ []

ticks-Served_example :
    Served waiting_message
      (is_served waiting_message.id with_message.mqtt rounds)
      (ticks with_message rounds)
ticks-Served_example = ticks-Served with_message waiting_message rounds (inl refl)

-- The outbox refuses a message.
abbrev full : Moment
full = record moment { queue_error = some (store_error (lit "disk full")) }

abbrev started : Daemon
started = boot bob (empty_db (λ _. 0)) (ok config) (ok trust)

abbrev visited : Daemon
visited =
    act toy (act toy started (subscribe (lit "main")))
      (arrive moment topic (toy.wrapper_json.encode wrapper))

visited-Reachable : Reachable toy visited
visited-Reachable =
    acted (act toy started (subscribe (lit "main")))
      (arrive moment topic (toy.wrapper_json.encode wrapper))
      (acted started (subscribe (lit "main")) (booted bob (λ _. 0) (ok config) (ok trust)))

Reachable-IsSound_example : IsSound toy visited
Reachable-IsSound_example = Reachable-IsSound toy visited visited-Reachable

abbrev acked_db : Db
acked_db = step db (acknowledge (lit "t") (lit "main") (pos 3))

consumers-Counted_example : All (Counted acked_db) (consumers acked_db)
consumers-Counted_example =
    consumers-Counted acked_db
      (called db (acknowledge (lit "t") (lit "main") (pos 3)) (fresh (λ _. 0)))

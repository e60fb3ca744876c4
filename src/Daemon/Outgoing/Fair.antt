-- ===== src/Daemon/Outgoing/Fair.antt =====
-- The outbox of src/daemon.rs over time: rounds of the pump, changes of the session, and messages
-- that are queued meanwhile.
use agent_mqtt_chat.Base.{
  Text, text_eq, ◌≡◌, refl, ap, Bool, true, false, not, ◌&&◌, ◌||◌, List, [], ◌∷◌, ◌++◌, map, any,
  keep, Option, Bool-cases, ◌⊎◌, inl, inr,
}
use agent_mqtt_chat.Store.Types.{Outbound}
use agent_mqtt_chat.Store.Outbox.{enqueue_outbound, pending_outbound}
use agent_mqtt_chat.Store.Invariant.{queued}
use agent_mqtt_chat.Daemon.State.{Daemon, Publication, is_connected, connected_session, with_db}
use agent_mqtt_chat.Daemon.Outgoing.Pump.{pump, flush, publication, pump_lem}

-- An element of a list.
abbrev pub Among : {A : Type 0} → A → List A → Type 0
Among x [] = ⊥
Among x (y ∷ ys) = (x ≡ y) ⊎ Among x ys

pub data Tick : Type 0 where
  round : Text → (Text → Bool) → Tick
  session : Option Bool → Tick
  enqueue : Outbound → Tick

unfoldable pub tick : Daemon → Tick → Daemon
tick d (round now takes) = pump now takes d
tick d (session s) = record d { mqtt = s }
tick d (enqueue ob) = with_db d (enqueue_outbound d.db ob)

unfoldable pub ticks : Daemon → List Tick → Daemon
ticks d [] = d
ticks d (t ∷ ts) = ticks (tick d t) ts

-- Some round finds the session connected, and the client takes the message.
abbrev pub is_served : Text → Option Bool → List Tick → Bool
is_served id mqtt [] = false
is_served id mqtt (round now takes ∷ ts) =
    (connected_session mqtt && takes id) || is_served id mqtt ts
is_served id mqtt (session s ∷ ts) = is_served id s ts
is_served id mqtt (enqueue ob ∷ ts) = is_served id mqtt ts

module _ {A : Type 0} where
  Among-append : (x : A) (xs ys : List A) → Among x xs → Among x (xs ++ ys)
  Among-append x [] ys h = absurd h
  Among-append x (z ∷ xs) ys (inl e) = inl e
  Among-append x (z ∷ xs) ys (inr h) = inr (Among-append x xs ys h)

  Among-append_right : (x : A) (xs ys : List A) → Among x ys → Among x (xs ++ ys)
  Among-append_right x [] ys h = h
  Among-append_right x (z ∷ xs) ys h = inr (Among-append_right x xs ys h)

  Among-keep : (p : A → Bool) (x : A) (xs : List A) → p x ≡ true → Among x xs → Among x (keep p xs)
  Among-keep p x [] e h = h
  Among-keep p x (z ∷ xs) e (inl same) =
      let yes_z : p z ≡ true = rw (← same) e in rw yes_z (inl same)
  Among-keep p x (z ∷ xs) e (inr h) = elim (Bool-cases (p z)) [
    | inl kept ↦ rw kept (inr (Among-keep p x xs e h))
    | inr gone ↦ rw gone (Among-keep p x xs e h)
  ]

Among-map : {A B : Type 0} (f : A → B) (x : A) (xs : List A) → Among x xs → Among (f x) (map f xs)
Among-map f x [] h = h
Among-map f x (z ∷ xs) (inl e) = inl (ap f e)
Among-map f x (z ∷ xs) (inr h) = inr (Among-map f x xs h)

flush-mqtt :
    (now : Text) (takes : Text → Bool) (obs : List Outbound) (d : Daemon)
    → (flush now takes obs d).mqtt ≡ d.mqtt
unfolding flush
flush-mqtt now takes [] d = refl
flush-mqtt now takes (ob ∷ obs) d = elim (Bool-cases (takes ob.id)) [
  | inl e ↦ rw (flush, e) (flush-mqtt now takes obs _)
  | inr e ↦ rw (flush, e) (flush-mqtt now takes obs d)
]

pump-mqtt : (now : Text) (takes : Text → Bool) (d : Daemon) → (pump now takes d).mqtt ≡ d.mqtt
unfolding pump
pump-mqtt now takes d = elim (Bool-cases (is_connected d)) [
  | inl e ↦ rw e (flush-mqtt now takes (pending_outbound d.db) d)
  | inr e ↦ rw e refl
]

-- What one round does with one queued message.
abbrev pub Served : Outbound → Bool → Daemon → Type 0
Served ob true d = Among (publication ob) d.published
Served ob false d = Among ob d.db.outbox

pump_away :
    (now : Text) (takes : Text → Bool) (d : Daemon) → is_connected d ≡ false → pump now takes d ≡ d
unfolding pump
pump_away now takes d e = rw e refl

pump_up :
    (now : Text) (takes : Text → Bool) (d : Daemon)
    → is_connected d ≡ true
    → ((pump now takes d).published
        ≡ d.published ++ map publication (keep (λ (o : Outbound). takes o.id) d.db.outbox))
      × ((pump now takes d).db.outbox ≡ keep (λ (o : Outbound). not (takes o.id)) d.db.outbox)
pump_up now takes d e = rw e at (pump_lem now takes d)

published-pump :
    (now : Text) (takes : Text → Bool) (d : Daemon) (p : Publication)
    → Among p d.published
    → Among p (pump now takes d).published
published-pump now takes d p h = elim (Bool-cases (is_connected d)) [
  | inl e ↦ rw ((pump_up now takes d e).0) (Among-append p d.published _ h)
  | inr e ↦ rw (pump_away now takes d e) h
]

published-tick :
    (d : Daemon) (t : Tick) (p : Publication) → Among p d.published → Among p (tick d t).published
unfolding tick
published-tick d (round now takes) p h = published-pump now takes d p h
published-tick d (session s) p h = h
published-tick d (enqueue ob) p h = h

published-ticks :
    (d : Daemon) (ts : List Tick) (p : Publication)
    → Among p d.published
    → Among p (ticks d ts).published
unfolding ticks
published-ticks d [] p h = h
published-ticks d (t ∷ ts) p h = published-ticks (tick d t) ts p (published-tick d t p h)

pump-Served :
    (now : Text) (takes : Text → Bool) (d : Daemon) (ob : Outbound)
    → Among ob d.db.outbox
    → Served ob (connected_session d.mqtt && takes ob.id) (pump now takes d)
unfolding is_connected
pump-Served now takes d ob h = elim (Bool-cases (connected_session d.mqtt)) [
  | inr e ↦ rw (e, pump_away now takes d (unfold is_connected in e)) h
  | inl e ↦
      let (published, left) = pump_up now takes d (unfold is_connected in e) in
      elim (Bool-cases (takes ob.id)) [
        | inl e' ↦
            rw (e, e', published)
              (Among-append_right (publication ob) d.published _ (
                Among-map publication ob _
                  (Among-keep (λ (o : Outbound). takes o.id) ob d.db.outbox e' h)))
        | inr e' ↦
            rw (e, e', left)
              (Among-keep (λ (o : Outbound). not (takes o.id)) ob d.db.outbox (rw e' refl) h)
      ]
]

enqueue_outbound-Among :
    (d : Daemon) (o ob : Outbound)
    → Among ob d.db.outbox
    → Among ob (enqueue_outbound d.db o).outbox
unfolding enqueue_outbound
enqueue_outbound-Among d o ob h = elim (Bool-cases (any (queued o.id) d.db.outbox)) [
  | inl e ↦ rw e h
  | inr e ↦ rw e (Among-append ob d.db.outbox (o ∷ []) h)
]

-- The rest of the time, once a round has passed.
after_round :
    (ob : Outbound) (served : Bool) (d : Daemon) (ts : List Tick) (later : Bool)
    → Served ob served d
    → (Among ob d.db.outbox → Served ob later (ticks d ts))
    → Served ob (served || later) (ticks d ts)
after_round ob true d ts later h k = published-ticks d ts (publication ob) h
after_round ob false d ts later h k = k h

-- A message that waits in the outbox is published as soon as a round of the pump finds the session
-- connected and the client takes it, whatever the session does before and whatever else is queued;
-- until then it stays in the outbox.
pub ticks-Served :
    (d : Daemon) (ob : Outbound) (ts : List Tick)
    → Among ob d.db.outbox
    → Served ob (is_served ob.id d.mqtt ts) (ticks d ts)
unfolding ticks tick
ticks-Served d ob [] h = h
ticks-Served d ob (round now takes ∷ ts) h =
    after_round ob (connected_session d.mqtt && takes ob.id) (pump now takes d) ts
      (is_served ob.id d.mqtt ts) (pump-Served now takes d ob h)
      (λ k.
        rw (ap (λ (m : Option Bool). is_served ob.id m ts) (pump-mqtt now takes d)) at
          (ticks-Served (pump now takes d) ob ts k))
ticks-Served d ob (session s ∷ ts) h = ticks-Served (record d { mqtt = s }) ob ts h
ticks-Served d ob (enqueue o ∷ ts) h =
    ticks-Served (with_db d (enqueue_outbound d.db o)) ob ts (enqueue_outbound-Among d o ob h)

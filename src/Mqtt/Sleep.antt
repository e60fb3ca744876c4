-- ===== src/Mqtt/Sleep.antt =====
-- The interruptible sleep of src/mqtt.rs ends, sleeps in full unless it is stopped, and heeds a stop.
use agent_mqtt_chat.Base.{
  ℕ, zero, suc, ◌+◌, ◌-◌, ◌≤◌, ◌<◌, ◌≡◌, refl, min, ltb, Bool, true, false, some, ◌⊎◌, inl, inr,
  Bool-cases, arith,
}
use agent_mqtt_chat.Mqtt.{sleep_go, sleep_interruptible, sleep_step}

-- A sleep that is over: how long it was, and that a stop was seen if it was not in full. A stop that
-- is raised after `raised` milliseconds is heeded within a slice.
pub record IsSlept (dur raised : ℕ) (stop : ℕ → Bool) (slept : ℕ) (seen : Bool) : Type 0 where
  pub within : slept ≤ dur
  pub observed : stop slept ≡ seen
  pub full : (seen ≡ true) ⊎ (slept ≡ dur)
  pub prompt : slept < raised + sleep_step

slice-le : (dur slept : ℕ) → slept < dur → slept + min sleep_step (dur - slept) ≤ dur
slice-le dur slept h = omega arith

slice-lt : (dur slept : ℕ) → slept < dur → slept < slept + min sleep_step (dur - slept)
slice-lt dur slept h = omega arith

slice_le_step : (dur slept : ℕ) → slept + min sleep_step (dur - slept) ≤ slept + sleep_step
slice_le_step dur slept = omega arith

before_raised :
    (dur raised slept : ℕ) (stop : ℕ → Bool)
    → ((u : ℕ) → raised ≤ u → u ≤ dur → stop u ≡ true)
    → slept ≤ dur
    → stop slept ≡ false
    → slept < raised
before_raised dur raised slept stop h le e = elim (Bool-cases (ltb slept raised)) [
  | inl lt ↦ ground arith
  | inr ge ↦ ground (arith, h slept (ground arith) le)
]

sleep_go-IsSlept :
    (fuel dur slept raised : ℕ) (stop : ℕ → Bool)
    → ((u : ℕ) → raised ≤ u → u ≤ dur → stop u ≡ true)
    → slept ≤ dur
    → dur < slept + fuel
    → slept < raised + sleep_step
    → (r : ℕ × Bool) × (sleep_go fuel dur slept stop ≡ some r) × IsSlept dur raised stop r.0 r.1
unfolding sleep_go
sleep_go-IsSlept zero dur slept raised stop h le m near = absurd (omega arith)
sleep_go-IsSlept (suc fuel) dur slept raised stop h le m near = elim (Bool-cases (ltb slept dur)) [
  | inr over ↦ (
    (slept, stop slept),
    rw over refl,
    record { within = le; observed = refl; full = inr (ground arith); prompt = near },
  )
  | inl more ↦ elim (Bool-cases (stop slept)) [
    | inl seen ↦ (
      (slept, true),
      rw (more, seen) refl,
      record { within = le; observed = seen; full = inl refl; prompt = near },
    )
    | inr unseen ↦
        let lt : slept < dur = ground arith in
        let before = before_raised dur raised slept stop h le unseen in
        rw (more, unseen)
          (sleep_go-IsSlept fuel dur (slept + min sleep_step (dur - slept)) raised stop h
            (slice-le dur slept lt) (omega (arith, slice-lt dur slept lt))
            (omega (arith, slice_le_step dur slept, before)))
  ]
]

-- The interruptible sleep always ends. It sleeps in full unless it observes the stop flag, it reports
-- the flag as it then is, and a flag that is raised after some time of it, and stays, ends it within
-- a slice of 100 ms.
pub sleep_interruptible-IsSlept :
    (dur raised : ℕ) (stop : ℕ → Bool)
    → ((u : ℕ) → raised ≤ u → u ≤ dur → stop u ≡ true)
    → (r : ℕ × Bool) × (sleep_interruptible dur stop ≡ some r) × IsSlept dur raised stop r.0 r.1
unfolding sleep_interruptible
sleep_interruptible-IsSlept dur raised stop h =
    sleep_go-IsSlept (suc dur) dur 0 raised stop h (omega arith) (omega arith) (omega arith)

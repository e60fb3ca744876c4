-- ===== src/Daemon/Heartbeat.antt =====
-- `spawn_heartbeat` of src/daemon.rs: one round of its loop, after its sleep.
use agent_mqtt_chat.Base.{
  ℕ, ◌-◌, ◌*◌, ◌%◌, ◌^◌, Text, lit, ℤ, pos, negsuc, eqb, ltb, Option, none, some, if◌then◌else◌,
}
use agent_mqtt_chat.External.{Env}
use agent_mqtt_chat.Docs.{PresenceBeacon}
use agent_mqtt_chat.Config.{primary_topic}
use agent_mqtt_chat.Daemon.State.{Daemon, Moment, config_of, with_db}
use agent_mqtt_chat.Daemon.Outgoing.{enqueue_presence}

-- `n as i64` of a `u64`
abbrev pub as_i64 : ℕ → ℤ
as_i64 n = if ltb n (2 ^ 63) then pos n else negsuc (2 ^ 64 - 1 - n)

-- `(secs * 3) as i64`, where the product wraps.
abbrev pub heartbeat_ttl : ℕ → ℤ
heartbeat_ttl secs = as_i64 (secs * 3 % 2 ^ 64)

abbrev pub heartbeat_beacon : Moment → ℕ → PresenceBeacon
heartbeat_beacon at secs = record {
  state = lit "online";
  source = lit "daemon";
  ttl_secs = heartbeat_ttl secs;
  seq = at.now_seq;
  detail = none;
}

abbrev pub beat_on : Env → Moment → Daemon → ℕ → Option Text → Daemon
beat_on env at d secs none = d
beat_on env at d secs (some topic) =
    with_db d (enqueue_presence env d.identity at.fresh d.db topic (heartbeat_beacon at secs))

unfoldable pub heartbeat : Env → Moment → Daemon → Daemon
heartbeat env at d =
    let cfg = config_of d in
    if eqb cfg.heartbeat_secs 0 then d else beat_on env at d cfg.heartbeat_secs (primary_topic cfg)

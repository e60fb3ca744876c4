-- ===== src/Daemon/Outgoing/Durable.antt =====
-- What a `send` of src/daemon.rs leaves in the log, in the outbox and with the broker's client.
use agent_mqtt_chat.Daemon.Outgoing.Kept.{Logged, Queued, Unqueued, marked_state}
use agent_mqtt_chat.Errors.{Error}
use agent_mqtt_chat.Errors.Display.{error_text}
use agent_mqtt_chat.Store.Types.{DeliveryState}
use agent_mqtt_chat.Base.{Text, some}
use agent_mqtt_chat.Base.{
  Text, lit, text_eq, ◌≡◌, true, false, ◌&&◌, [], ◌∷◌, ◌++◌, any, Result, ok, err, ◌⊎◌,
}
use agent_mqtt_chat.External.{Env}
use agent_mqtt_chat.Wire.Types.{Inner, Wrapper}
use agent_mqtt_chat.Wire.Codec.{to_bytes}
use agent_mqtt_chat.Store.Messages.{contains_id}
use agent_mqtt_chat.Store.Invariant.{queued}
use agent_mqtt_chat.Ipc.{Response, sent, failure}
use agent_mqtt_chat.Daemon.State.{Daemon, Moment, is_connected}

pub record IsRefused (at : Moment) (d : Daemon) (inner : Inner) (topic : Text)
    (r : Daemon × Response) : Type 0 where
  pub error : Error
  pub refused : at.queue_error ≡ some error
  pub answered : r.1 ≡ failure (error_text error)
  pub unpublished : r.0.published ≡ d.published
  pub same_outbox : r.0.db.outbox ≡ d.db.outbox
  pub in_log : Logged at.log_fails r.0.db inner topic DeliveryState.pending

pub record IsPublished (env : Env) (at : Moment) (d : Daemon) (inner : Inner) (w : Wrapper)
    (topic : Text) (r : Daemon × Response) : Type 0 where
  pub answered : r.1 ≡ sent inner.id (lit "sent")
  pub taken : (is_connected d && at.publish_ok) ≡ true
  pub published :
      r.0.published
      ≡ d.published ++ record { topic = topic; payload = to_bytes env w; retain = false } ∷ []
  pub in_log : Logged at.log_fails r.0.db inner topic (marked_state at.mark_fails)
  pub off_outbox : Unqueued at.mark_fails r.0.db inner.id topic (to_bytes env w)

pub record IsPending (env : Env) (at : Moment) (d : Daemon) (inner : Inner) (w : Wrapper)
    (topic : Text) (r : Daemon × Response) : Type 0 where
  pub answered : r.1 ≡ sent inner.id (lit "pending")
  pub not_taken : (is_connected d && at.publish_ok) ≡ false
  pub unpublished : r.0.published ≡ d.published
  pub in_log : Logged at.log_fails r.0.db inner topic DeliveryState.pending
  pub in_outbox : Queued r.0.db inner.id topic (to_bytes env w)

-- The id of what is prepared is in neither the log nor the outbox.
abbrev pub IsNew : Daemon → Result Text ((Inner × Wrapper) × Text) → Type 0
IsNew d (err e) = Unit {0}
IsNew d (ok ((inner, w), topic)) =
    (contains_id d.db inner.id ≡ false) × (any (queued inner.id) d.db.outbox ≡ false)

-- The outcome of `send`, by what it prepares.
abbrev pub SendOutcome :
    Env → Moment → Daemon → Result Text ((Inner × Wrapper) × Text) → Daemon × Response → Type 0
SendOutcome env at d (err e) r = (r.0 ≡ d) × (r.1 ≡ failure e)
SendOutcome env at d (ok ((inner, w), topic)) r =
    IsRefused at d inner topic r
    ⊎ IsPublished env at d inner w topic r
    ⊎ IsPending env at d inner w topic r

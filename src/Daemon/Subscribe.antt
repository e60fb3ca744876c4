-- ===== src/Daemon/Subscribe.antt =====
-- `serve_subscribe` of src/daemon.rs: the thread that forwards the frames of one subscription.
use agent_mqtt_chat.Base.{
  ℕ, pos, Text, eqb, Bool, true, false, map, Option, none, some, find, and_then, if◌then◌else◌,
}
use agent_mqtt_chat.External.{Env}
use agent_mqtt_chat.Ipc.{StreamFrame, message, lagged}
use agent_mqtt_chat.Daemon.State.{Daemon, Moment, Subscriber}
use agent_mqtt_chat.Daemon.Stream.{receive, deregister}
use agent_mqtt_chat.Daemon.Requests.{acknowledge}

abbrev pub frame_seq : StreamFrame → Option ℕ
frame_seq (message m) = some m.seq
frame_seq (lagged _) = none

abbrev pub has_sub_id : ℕ → Subscriber → Bool
has_sub_id id s = eqb s.id id

abbrev pub replace_subscriber : Subscriber → Subscriber → Subscriber
replace_subscriber s t = if eqb t.id s.id then s else t

abbrev pub set_subscriber : Daemon → Subscriber → Daemon
set_subscriber d s = record d { subscribers = map (replace_subscriber s) d.subscribers }

-- Only a frame that was delivered advances the cursor.
abbrev pub ack_frame : Env → Moment → Daemon → Text → Bool → Option ℕ → Daemon
ack_frame env at d consumer true (some seq) = acknowledge env at d consumer (pos seq)
ack_frame env at d consumer true none = d
ack_frame env at d consumer false _ = d

-- The frame that the thread received, `written` to the socket or not. With none it waits.
abbrev pub forward :
    Env → Moment → Bool → Bool → Daemon → ℕ → Option (StreamFrame × Subscriber) → Daemon
forward env at ack written d id none = d
forward env at ack written d id (some (frame, s)) =
    let taken = set_subscriber d s in
    if written then ack_frame env at taken s.consumer ack (frame_seq frame) else deregister taken id

-- One round of the loop. A write error ends it and removes the subscriber.
unfoldable pub serve_frame : Env → Moment → Bool → Bool → Daemon → ℕ → Daemon
serve_frame env at ack written d id =
    forward env at ack written d id (and_then (find (has_sub_id id) d.subscribers) receive)

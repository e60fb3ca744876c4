-- ===== src/Example/Daemons.antt =====
-- The theorems on the daemon at concrete inputs.
use agent_mqtt_chat.Store.Messages.{contains_id}
use agent_mqtt_chat.Base.{
  ◌+◌, Bytes, Text, lit, ◌≡◌, refl, Bool, true, false, not, List, [], ◌∷◌, ◌++◌, none, some, keep,
  map, if◌then◌else◌, arith, pos, text_eq, ◌==◌,
}
use agent_mqtt_chat.Errors.{replayed_grant}
use agent_mqtt_chat.Wire.Types.{Inner, ctype_receipt, receipt}
use agent_mqtt_chat.Wire.Codec.{to_bytes}
use agent_mqtt_chat.Store.Types.{StoredMsg, incoming, untracked, Outbound}
use agent_mqtt_chat.Store.Messages.{row_of, contains_id}
use agent_mqtt_chat.Store.Invariant.{IsValid}
use agent_mqtt_chat.Store.Invariant.Steps.{IsReachable-IsValid, fresh}
use agent_mqtt_chat.Ipc.{Request, SendParams}
use agent_mqtt_chat.Daemon.State.{Daemon, Subscriber, is_connected}
use agent_mqtt_chat.Daemon.Stream.Lag.{
  StreamEvent, push, pull, play_all, play_all_lem, IsLive, accounted, pushes,
}
use agent_mqtt_chat.Daemon.Outgoing.{send, outbound}
use agent_mqtt_chat.Daemon.Outgoing.Pump.{pump, publication, pump_lem}
use agent_mqtt_chat.Daemon.Ingest.{on_message, on_accepted, on_plain, rejected}
use agent_mqtt_chat.Daemon.Ingest.Frame.{SameFrame, on_message-SameFrame}
use agent_mqtt_chat.Store.Invariant.Steps.{step, acknowledge}
use agent_mqtt_chat.Store.Invariant.Grants.{at_once, after}
use agent_mqtt_chat.Daemon.State.{Daemon, with_db}
use agent_mqtt_chat.Daemon.Ingest.Replay.{on_plain_replayed}
use agent_mqtt_chat.Daemon.Ingest.Effects.{
  IsHandled, on_message-IsHandled, on_accepted_duplicate, on_accepted-SameMail, SameMail,
}
use agent_mqtt_chat.Daemon.Requests.{handle}
use agent_mqtt_chat.Daemon.Requests.Trusted.{TrustOutcome, handle-TrustOutcome}
use agent_mqtt_chat.Example.Crates.{toy}
use agent_mqtt_chat.Example.World.{
  alice_name, inner, wrapper, topic, db, daemon, moment, grant_of_human, claims,
}
use agent_mqtt_chat.Example.Mail.{granted}

abbrev payload : Bytes
payload = to_bytes toy wrapper

on_message-IsHandled_example :
    IsHandled toy moment daemon topic payload (on_message toy moment daemon topic payload)
on_message-IsHandled_example = on_message-IsHandled toy moment daemon topic payload

empty-IsValid : IsValid db
empty-IsValid = IsReachable-IsValid db (fresh (λ _. 0))

on_message-SameFrame_example : SameFrame daemon (on_message toy moment daemon topic payload)
on_message-SameFrame_example = on_message-SameFrame toy moment daemon topic payload

-- The message is in the log already.
abbrev second : Daemon
second = record daemon {
  db = record db { messages = row_of 1 incoming untracked inner topic ∷ []; last_seq = 1 };
}

stored : contains_id second.db inner.id ≡ true
unfolding contains_id
stored = refl

on_accepted_duplicate_example : on_accepted toy moment second topic inner ≡ second
on_accepted_duplicate_example =
    on_accepted_duplicate toy moment second topic inner stored refl refl refl

abbrev receipt_inner : Inner
receipt_inner = record inner { kind = receipt; ctype = ctype_receipt }

on_accepted-SameMail_example : SameMail daemon (on_accepted toy moment daemon topic receipt_inner)
on_accepted-SameMail_example = on_accepted-SameMail toy moment daemon topic receipt_inner refl

abbrev first_use : Inner
first_use = record inner { grant = some grant_of_human }

abbrev second_use : Inner
second_use = record inner { id = lit "02B"; grant = some grant_of_human }

-- Another session of the daemon, with the store after the first use and an acknowledgement.
abbrev after_restart : Daemon
after_restart = with_db daemon (
    step (on_plain toy moment daemon topic first_use).db
      (acknowledge (lit "now") (lit "main") (pos 1)))

on_plain_replayed_example :
    on_plain toy moment after_restart topic second_use
    ≡ rejected moment after_restart replayed_grant (some second_use.from) topic []
on_plain_replayed_example =
    on_plain_replayed toy moment moment daemon after_restart topic topic first_use second_use
      grant_of_human grant_of_human claims claims refl refl granted
      (after _ (acknowledge (lit "now") (lit "main") (pos 1)) at_once) granted refl

abbrev pub params : SendParams
params = record {
  to = alice_name;
  ctype = lit "text/plain";
  body = lit "hi";
  in_reply_to = none;
  topic = none;
  kind = [];
  correlation_id = none;
  supersedes = none;
  encrypt = false;
  grant = none;
  unsigned = false;
}

handle-TrustOutcome_example :
    TrustOutcome toy moment daemon
      (Request.send params)
      (handle toy (lit "0.2") moment daemon (Request.send params))
handle-TrustOutcome_example =
    handle-TrustOutcome toy (lit "0.2") moment daemon (Request.send params)

abbrev waiting : Daemon
waiting = record daemon {
  db = record db {
    outbox = outbound (lit "1") topic (lit "x") ∷ outbound (lit "2") topic (lit "y") ∷ [];
  };
}

abbrev only_first : Text → Bool
only_first id = id == lit "1"

pump_lem_example :
    if is_connected waiting
    then ((pump (lit "t") only_first waiting).published
        ≡ waiting.published
          ++ map publication (keep (λ (o : Outbound). only_first o.id) waiting.db.outbox))
      × ((pump (lit "t") only_first waiting).db.outbox
          ≡ keep (λ (o : Outbound). not (only_first o.id)) waiting.db.outbox)
    else pump (lit "t") only_first waiting ≡ waiting
pump_lem_example = pump_lem (lit "t") only_first waiting

abbrev subscriber : Subscriber
subscriber = record { id = 1; consumer = lit "main"; channel = []; receiving = true; dropped = 0 }

abbrev row : StoredMsg
row = row_of 1 incoming untracked inner topic

subscriber-IsLive : IsLive subscriber
subscriber-IsLive = record { receiving = refl; bounded = omega arith }

abbrev stream_events : List StreamEvent
stream_events = push row ∷ pull ∷ push row ∷ []

play_all_lem_example :
    IsLive (play_all ([], subscriber) stream_events).1
    × (accounted (play_all ([], subscriber) stream_events)
        ≡ accounted ([], subscriber) + pushes stream_events)
play_all_lem_example = play_all_lem [] subscriber stream_events subscriber-IsLive

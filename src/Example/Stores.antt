-- ===== src/Example/Stores.antt =====
-- The theorems on the store at concrete inputs.
use agent_mqtt_chat.Base.{length, ◌-◌}
use agent_mqtt_chat.Store.Messages.{limit_rows}
use agent_mqtt_chat.Base.{
  lit, pos, ◌≤ℤ◌, ◌≡◌, refl, false, List, [], ◌∷◌, none, some, keep, text_eq, ◌==◌, if◌then◌else◌,
  arith, ◌⊎◌,
}
use agent_mqtt_chat.Store.Types.{Db, StoredMsg, incoming, outgoing, untracked, pending}
use agent_mqtt_chat.Store.Messages.{row_of, insert_inbound, get_message}
use agent_mqtt_chat.Store.Messages.Dedupe.{Inserted, insert_inbound_lem}
use agent_mqtt_chat.Store.Queue.{ack, cursor, is_unread, read_after_cursor}
use agent_mqtt_chat.Store.Queue.Drain.{no_limit, read_after_cursor-ack}
use agent_mqtt_chat.Store.Outbox.Lifecycle.{
  Event, broker_ack, delivery_receipt, read_receipt, react_all, level, highest, SameMessage,
  get_message-react_all,
}
use agent_mqtt_chat.Store.Presence.{
  presence_of, upsert_presence, presence_row, newest, presence_of-upsert_presence,
}
use agent_mqtt_chat.Store.Bounds.{enforce_bounds, within_bounds}
use agent_mqtt_chat.Store.Bounds.Enforce.{Evicts, IsBounded, IsNeeded, enforce_bounds_lem}
use agent_mqtt_chat.Store.Invariant.{IsValid}
use agent_mqtt_chat.Store.Invariant.Steps.{
  step, insert_message, acknowledge, fresh, called, IsReachable-IsValid,
}
use agent_mqtt_chat.Example.World.{inner, topic, db, alice_name}

abbrev message : StoredMsg
message = row_of 1 incoming untracked inner topic

abbrev outbound : StoredMsg
outbound = row_of 2 outgoing pending (record inner { id = lit "02B" }) topic

-- A store with an inbound and an outbound message.
abbrev two : Db
two = record db { messages = message ∷ outbound ∷ []; last_seq = 2 }

insert_inbound_lem_example : Inserted db inner topic (insert_inbound db inner topic)
insert_inbound_lem_example = insert_inbound_lem db inner topic tt

at_start : cursor two (lit "main") ≤ℤ pos 1
unfolding cursor
at_start = omega arith

read_after_cursor-ack_example :
    read_after_cursor (ack two (lit "t") (lit "main") (pos 1)) (lit "main") (pos 50)
    ≡ limit_rows (pos 50) (keep (is_unread (pos 1)) (read_after_cursor two (lit "main") no_limit))
read_after_cursor-ack_example =
    read_after_cursor-ack two (lit "t") (lit "main") (pos 1) (pos 50) at_start

abbrev events : List Event
events =
    read_receipt (lit "t2") (lit "02B")
    ∷ broker_ack (lit "t1") (lit "02B")
    ∷ delivery_receipt (lit "t3") (lit "02B")
    ∷ []

found : get_message two (lit "02B") ≡ some outbound
unfolding get_message
found = refl

get_message-react_all_example :
    (m' : StoredMsg) × (get_message (react_all two events) (lit "02B") ≡ some m')
    × SameMessage outbound m'
    × (level m'.delivery_state ≡ highest (lit "02B") 1 events)
get_message-react_all_example = get_message-react_all two events (lit "02B") outbound found refl

presence_of-upsert_presence_example :
    presence_of
      (upsert_presence db alice_name (lit "busy") (lit "agent") (pos 60) (pos 3) none (lit "t"))
      alice_name
    ≡ (if alice_name == alice_name
        then some (
            newest
              (presence_row alice_name (lit "busy") (lit "agent") (pos 60) (pos 3) none (lit "t"))
              (presence_of db alice_name))
        else presence_of db alice_name)
presence_of-upsert_presence_example =
    presence_of-upsert_presence db alice_name alice_name (lit "busy") (lit "agent") (pos 60) (pos 3)
      none (lit "t")

enforce_bounds_lem_example :
    Evicts two.messages (enforce_bounds two 1 1000).0.messages (enforce_bounds two 1 1000).1
    × IsBounded 1 1000 (enforce_bounds two 1 1000).0.messages
    × IsNeeded (length two.messages - 1) 1000 two.messages (enforce_bounds two 1 1000).1
    × ((within_bounds 1 1000 two.messages ≡ false) ⊎ ((enforce_bounds two 1 1000).1 ≡ 0))
enforce_bounds_lem_example = enforce_bounds_lem two 1 1000

IsReachable-IsValid_example :
    IsValid
      (step (step db (insert_message inner topic)) (acknowledge (lit "t") (lit "main") (pos 1)))
IsReachable-IsValid_example =
    IsReachable-IsValid
      (step (step db (insert_message inner topic)) (acknowledge (lit "t") (lit "main") (pos 1)))
      (called (step db (insert_message inner topic)) (acknowledge (lit "t") (lit "main") (pos 1))
        (called db (insert_message inner topic) (fresh (λ _. 0))))

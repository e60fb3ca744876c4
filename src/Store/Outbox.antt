-- ===== src/Store/Outbox.antt =====
-- The durable outbox and the delivery lifecycle of src/store.rs.
pub mod Lifecycle
use agent_mqtt_chat.Base.{
  Text, text_eq, ◌==◌, Bool, true, false, not, ◌&&◌, List, [], ◌∷◌, ◌++◌, map, Option, some, any,
  keep, if◌then◌else◌,
}
use agent_mqtt_chat.Store.Types.{
  Db, StoredMsg, Outbound, DeliveryState, untracked, pending, sent, delivered, read, failed, is_out,
}
use agent_mqtt_chat.Store.Messages.{has_id}

-- `INSERT OR IGNORE` by id
unfoldable pub enqueue_outbound : Db → Outbound → Db
enqueue_outbound db ob =
    if any (λ (o : Outbound). o.id == ob.id) db.outbox
    then db
    else record db { outbox = db.outbox ++ ob ∷ [] }

unfoldable pub pending_outbound : Db → List Outbound
pending_outbound db = db.outbox

-- `delivery_state IN ('pending','none')`
abbrev pub may_send : DeliveryState → Bool
may_send untracked = true
may_send pending = true
may_send _ = false

-- `delivery_state NOT IN ('read','failed')`
abbrev pub may_deliver : DeliveryState → Bool
may_deliver read = false
may_deliver failed = false
may_deliver _ = true

-- `delivery_state != 'failed'`
abbrev pub may_read : DeliveryState → Bool
may_read failed = false
may_read _ = true

-- `UPDATE messages … WHERE id=? AND direction='out' AND <guard of the state>`
abbrev pub update_when :
    (DeliveryState → Bool) → Text → (StoredMsg → StoredMsg) → StoredMsg → StoredMsg
update_when guard id change m =
    if has_id id m && (is_out m.direction && guard m.delivery_state) then change m else m

abbrev pub update_out : Db → (DeliveryState → Bool) → Text → (StoredMsg → StoredMsg) → Db
update_out db guard id change = record db {
  messages = map (update_when guard id change) db.messages;
}

-- The broker took the message: advance the log to `sent`, and drop it from the outbox.
unfoldable pub mark_delivered : Db → Text → Text → Db
mark_delivered db now id =
    let db' =
      update_out db may_send id
        (λ m. record m { delivery_state = sent; broker_ack_ts = some now }) in
    record db' { outbox = keep (λ (o : Outbound). not (o.id == id)) db'.outbox }

unfoldable pub apply_delivery_receipt : Db → Text → Text → Db
apply_delivery_receipt db orig_id ts =
    update_out db may_deliver orig_id
      (λ m. record m { delivery_state = delivered; delivered_ts = some ts })

unfoldable pub apply_read_receipt : Db → Text → Text → Db
apply_read_receipt db orig_id ts =
    update_out db may_read orig_id (λ m. record m { delivery_state = read; read_ts = some ts })

unfoldable pub mark_failed : Db → Text → Db
mark_failed db id = update_out db (λ _. true) id (λ m. record m { delivery_state = failed })

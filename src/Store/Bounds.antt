-- ===== src/Store/Bounds.antt =====
-- Bounds and retention of src/store.rs: `enforce_bounds`.
pub mod Evict
pub mod Enforce
use agent_mqtt_chat.Base.{
  ℕ, zero, suc, ◌+◌, ◌-◌, Text, ltb, leb, eqb, Bool, true, false, not, ◌&&◌, ◌||◌, List, [], ◌∷◌,
  length, chars, if◌then◌else◌,
}
use agent_mqtt_chat.Store.Types.{
  Db, StoredMsg, DeliveryState, untracked, pending, sent, delivered, read, failed, is_out,
}

-- `delivery_state NOT IN ('delivered','read','failed','none')`
abbrev pub is_awaiting : DeliveryState → Bool
is_awaiting pending = true
is_awaiting sent = true
is_awaiting _ = false

-- `NOT (direction='out' AND delivery_state NOT IN (…))`
abbrev pub is_evictable : StoredMsg → Bool
is_evictable m = not (is_out m.direction && is_awaiting m.delivery_state)

until_nul : Text → Text
until_nul [] = []
until_nul (b ∷ s) = let rest = until_nul s in if eqb b 0 then [] else b ∷ rest

-- SQL's `LENGTH` of a TEXT value: its characters before the first NUL.
pub sql_length : Text → ℕ
unfolding until_nul
sql_length body = length (chars (until_nul body))

-- `COALESCE(SUM(LENGTH(body)),0)`
unfoldable pub total_length : List StoredMsg → ℕ
total_length [] = 0
total_length (m ∷ ms) = sql_length m.body + total_length ms

-- Delete the oldest evictable rows, `n` at most; the rows left and the number deleted.
unfoldable pub evict : ℕ → List StoredMsg → List StoredMsg × ℕ
evict zero rows = (rows, 0)
evict (suc n) [] = ([], 0)
evict (suc n) (m ∷ ms) =
    let gone = is_evictable m in
    let (rest, k) = evict (if gone then n else suc n) ms in
    if gone then (rest, suc k) else (m ∷ rest, k)

-- The loop that trims 64 rows at a time until the total fits or nothing is evictable.
unfoldable pub trim_bytes : ℕ → ℕ → List StoredMsg → List StoredMsg × ℕ
trim_bytes zero max_bytes rows = (rows, 0)
trim_bytes (suc fuel) max_bytes rows =
    let (rows', n) = evict 64 rows in
    let more = trim_bytes fuel max_bytes rows' in
    if leb (total_length rows) max_bytes
    then (rows, 0)
    else if eqb n 0
    then (rows', 0)
    else (more.0, n + more.1)

abbrev pub within_bounds : ℕ → ℕ → List StoredMsg → Bool
within_bounds max_messages max_bytes rows =
    not (ltb max_messages (length rows) || ltb max_bytes (total_length rows))

-- Evict down to the message cap, then down to the byte cap. A round of the loop deletes a row, so
-- one round more than there are rows is enough.
unfoldable pub enforce_rows : ℕ → ℕ → List StoredMsg → List StoredMsg × ℕ
enforce_rows max_messages max_bytes rows =
    let (capped, n) = evict (length rows - max_messages) rows in
    let (trimmed, k) = trim_bytes (suc (length capped)) max_bytes capped in
    if within_bounds max_messages max_bytes rows then (rows, 0) else (trimmed, n + k)

-- Evict the oldest messages until the store is within its bounds; the number evicted.
unfoldable pub enforce_bounds : Db → ℕ → ℕ → Db × ℕ
enforce_bounds db max_messages max_bytes =
    let (rows, n) = enforce_rows max_messages max_bytes db.messages in
    (record db { messages = rows }, n)

-- ===== src/Store/Bounds/Enforce.antt =====
-- `enforce_bounds` ends within its bounds or with nothing left to evict, and deletes the oldest
-- evictable rows only.
use agent_mqtt_chat.Base.{
  ℕ, zero, suc, ◌+◌, ◌-◌, ◌≤◌, ◌<◌, ◌≡◌, ◌∙◌, ap, refl, false, List, [], length, keep, drop, leb,
  eqb, Bool-cases, ◌⊎◌, inl, inr, arith,
}
use agent_mqtt_chat.Store.Types.{Db, StoredMsg}
use agent_mqtt_chat.Store.Bounds.{
  is_evictable, evict, total_length, trim_bytes, within_bounds, enforce_rows, enforce_bounds,
}
use agent_mqtt_chat.Store.Bounds.Evict.{
  is_protected, length-evict, protected-evict, evictable-evict, evicted_count, drop-drop, drop-all,
}

-- `rows'` is `rows` less its `n` oldest evictable rows.
pub record Evicts (rows rows' : List StoredMsg) (n : ℕ) : Type 0 where
  pub protected_kept : keep is_protected rows' ≡ keep is_protected rows
  pub oldest_gone : keep is_evictable rows' ≡ drop n (keep is_evictable rows)
  pub counted : length rows' + n ≡ length rows

Evicts-none : (rows : List StoredMsg) → Evicts rows rows 0
Evicts-none rows = record { protected_kept = refl; oldest_gone = refl; counted = omega arith }

Evicts-evict : (n : ℕ) (rows : List StoredMsg) → Evicts rows (evict n rows).0 (evict n rows).1
Evicts-evict n rows = record {
  protected_kept = protected-evict n rows;
  oldest_gone = evictable-evict n rows;
  counted = length-evict n rows;
}

Evicts-trans : {a b c : List StoredMsg} {n k : ℕ} → Evicts a b n → Evicts b c k → Evicts a c (n + k)
Evicts-trans {a} {n = n} {k = k} h h' = record {
  protected_kept = h'.protected_kept ∙ h.protected_kept;
  oldest_gone = h'.oldest_gone ∙ ap (drop k) h.oldest_gone ∙ drop-drop n k (keep is_evictable a);
  counted = omega (arith, h.counted, h'.counted);
}

-- The loop has ended by one of its own tests.
abbrev IsTrimmed : ℕ → List StoredMsg → Type 0
IsTrimmed max_bytes rows = (total_length rows ≤ max_bytes) ⊎ (keep is_evictable rows ≡ [])

evict-nothing :
    (rows : List StoredMsg) → (evict 64 rows).1 ≡ 0 → keep is_evictable (evict 64 rows).0 ≡ []
evict-nothing rows h =
    evictable-evict 64 rows
    ∙ drop-all (evict 64 rows).1 (keep is_evictable rows) (omega (arith, evicted_count 64 rows))

trim_bytes_lem :
    (fuel max_bytes : ℕ) (rows : List StoredMsg)
    → length rows < fuel
    → let (rows', n) = trim_bytes fuel max_bytes rows in
      Evicts rows rows' n × IsTrimmed max_bytes rows'
unfolding trim_bytes
trim_bytes_lem zero max_bytes rows h = elim h [ ]
trim_bytes_lem (suc fuel) max_bytes rows h = elim (Bool-cases (leb (total_length rows) max_bytes)) [
  | inl fits ↦ rw fits (Evicts-none rows, inl (ground arith))
  | inr over ↦ elim (Bool-cases (eqb (evict 64 rows).1 0)) [
    | inl stuck ↦
        let none_gone : (evict 64 rows).1 ≡ 0 = ground arith in
        rw (over, stuck)
          (rw none_gone at (Evicts-evict 64 rows), inr (evict-nothing rows none_gone))
    | inr some_gone ↦
        let shorter : length (evict 64 rows).0 < fuel = ground (arith, length-evict 64 rows) in
        let (gone, trimmed) = trim_bytes_lem fuel max_bytes (evict 64 rows).0 shorter in
        rw (over, some_gone) (Evicts-trans (Evicts-evict 64 rows) gone, trimmed)
  ]
]

-- Within the message cap, or nothing is left to evict.
capped_lem :
    (max_messages : ℕ) (rows : List StoredMsg)
    → let rows' = (evict (length rows - max_messages) rows).0 in
      (length rows' ≤ max_messages) ⊎ (keep is_evictable rows' ≡ [])
capped_lem max_messages rows =
    let over = length rows - max_messages in
    elim (Bool-cases (leb (length (keep is_evictable rows)) over)) [
      | inl all_gone ↦ inr (
          evictable-evict over rows
          ∙ drop-all (evict over rows).1 (keep is_evictable rows)
              (ground (arith, evicted_count over rows)))
      | inr some_left ↦ inl (ground (arith, evicted_count over rows, length-evict over rows))
    ]

-- Bounded, or nothing is left to evict.
abbrev pub IsBounded : ℕ → ℕ → List StoredMsg → Type 0
IsBounded max_messages max_bytes rows =
    ((length rows ≤ max_messages) × (total_length rows ≤ max_bytes)) ⊎ (keep is_evictable rows ≡ [])

-- Nothing is evictable after a further eviction, if nothing was before it.
Evicts-empty :
    {a b : List StoredMsg} {n : ℕ}
    → Evicts a b n
    → keep is_evictable a ≡ []
    → keep is_evictable b ≡ []
Evicts-empty {n = n} h e = h.oldest_gone ∙ ap (drop n) e ∙ drop-all n [] (omega arith)

IsBounded-of_trimmed :
    (max_messages max_bytes : ℕ) {capped trimmed : List StoredMsg} {n : ℕ}
    → (length capped ≤ max_messages) ⊎ (keep is_evictable capped ≡ [])
    → Evicts capped trimmed n
    → IsTrimmed max_bytes trimmed
    → IsBounded max_messages max_bytes trimmed
IsBounded-of_trimmed mm mb (inl few) gone (inl fits) = inl (omega (arith, gone.counted), fits)
IsBounded-of_trimmed mm mb (inl few) gone (inr none_left) = inr none_left
IsBounded-of_trimmed mm mb (inr none_left) gone trimmed = inr (Evicts-empty gone none_left)

-- No row goes without need: the last of `n` went in a round of 64 at most, before which the byte bound was
-- not met, or there are no more than the message cap asks for.
abbrev pub IsNeeded : ℕ → ℕ → List StoredMsg → ℕ → Type 0
IsNeeded over max_bytes rows n =
    (n ≤ over)
    ⊎ ((earlier : List StoredMsg) × (k : ℕ) × Evicts rows earlier k
        × (max_bytes < total_length earlier)
        × (n ≤ k + 64))

IsNeeded-after :
    (max_bytes : ℕ) {a b : List StoredMsg} {n k : ℕ}
    → Evicts a b n
    → max_bytes < total_length a
    → n ≤ 64
    → IsNeeded 0 max_bytes b k
    → IsNeeded 0 max_bytes a (n + k)
IsNeeded-after max_bytes {a} {n = n} gone over few (inl none_more) =
    inr (a, 0, Evicts-none a, over, omega (arith, none_more, few))
IsNeeded-after max_bytes {n = n} gone over few (inr (earlier, k, before, still, bound)) =
    inr (earlier, n + k, Evicts-trans gone before, still, omega (arith, bound))

trim_bytes-IsNeeded :
    (fuel max_bytes : ℕ) (rows : List StoredMsg)
    → IsNeeded 0 max_bytes rows (trim_bytes fuel max_bytes rows).1
unfolding trim_bytes
trim_bytes-IsNeeded zero max_bytes rows = inl (omega arith)
trim_bytes-IsNeeded (suc fuel) max_bytes rows =
    elim (Bool-cases (leb (total_length rows) max_bytes)) [
      | inl fits ↦ rw fits (inl (omega arith))
      | inr over ↦ elim (Bool-cases (eqb (evict 64 rows).1 0)) [
        | inl stuck ↦ rw (over, stuck) (inl (omega arith))
        | inr some_gone ↦
            let more = trim_bytes-IsNeeded fuel max_bytes (evict 64 rows).0 in
            let exceeded : max_bytes < total_length rows = ground arith in
            let few : (evict 64 rows).1 ≤ 64 = omega (arith, evicted_count 64 rows) in
            rw (over, some_gone) (IsNeeded-after max_bytes (Evicts-evict 64 rows) exceeded few more)
      ]
    ]

IsNeeded-capped :
    (over max_bytes : ℕ) {a b : List StoredMsg} {n k : ℕ}
    → Evicts a b n
    → n ≤ over
    → IsNeeded 0 max_bytes b k
    → IsNeeded over max_bytes a (n + k)
IsNeeded-capped over max_bytes gone few (inl none_more) = inl (omega (arith, none_more, few))
IsNeeded-capped over max_bytes {n = n} gone few (inr (earlier, k, before, still, bound)) =
    inr (earlier, n + k, Evicts-trans gone before, still, omega (arith, bound))

-- `enforce_bounds` always ends, with both bounds met or nothing left that may be evicted, where the byte
-- bound counts the characters of each body before its first NUL and not its bytes; the rows that it
-- deletes are the oldest of those that may be evicted, as many as it reports; no outbound message that
-- awaits a receipt is deleted; no more rows are deleted than exceed the message cap, or else 64 less of
-- them would have left the byte bound exceeded; and within the bounds it deletes nothing.
pub enforce_bounds_lem :
    (db : Db) (max_messages max_bytes : ℕ)
    → let (db', n) = enforce_bounds db max_messages max_bytes in
      Evicts db.messages db'.messages n
      × IsBounded max_messages max_bytes db'.messages
      × IsNeeded (length db.messages - max_messages) max_bytes db.messages n
      × ((within_bounds max_messages max_bytes db.messages ≡ false) ⊎ (n ≡ 0))
unfolding enforce_bounds enforce_rows
enforce_bounds_lem db max_messages max_bytes =
    elim (Bool-cases (within_bounds max_messages max_bytes db.messages)) [
      | inl inside ↦
          rw inside (Evicts-none db.messages, inl (ground arith), inl (omega arith), inr refl)
      | inr outside ↦
          let over = length db.messages - max_messages in
          let capped = (evict over db.messages).0 in
          let (gone, trimmed) =
            trim_bytes_lem (suc (length capped)) max_bytes capped (omega arith) in
          rw outside (
            Evicts-trans (Evicts-evict over db.messages) gone,
            IsBounded-of_trimmed max_messages max_bytes (capped_lem max_messages db.messages) gone
                trimmed,
            IsNeeded-capped over max_bytes (Evicts-evict over db.messages)
                (omega (arith, evicted_count over db.messages))
                (trim_bytes-IsNeeded (suc (length capped)) max_bytes capped),
            inl refl,
          )
    ]

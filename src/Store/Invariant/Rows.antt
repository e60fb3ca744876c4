-- ===== src/Store/Invariant/Rows.antt =====
-- The order and the uniqueness of the rows under eviction and under a filter.
use agent_mqtt_chat.Base.{
  ℕ, zero, suc, ◌-◌, Text, text_eq, text_beq_iff, ◌==◌, ◌≡◌, refl, Bool, false, List, [], ◌∷◌, ◌++◌,
  any, keep, Bool-cases, inl, inr, leb, eqb, length, arith,
}
use agent_mqtt_chat.Store.Types.{StoredMsg, Outbound}
use agent_mqtt_chat.Store.Messages.{has_id}
use agent_mqtt_chat.Store.Bounds.{
  is_evictable, evict, trim_bytes, enforce_rows, total_length, within_bounds,
}
use agent_mqtt_chat.Store.Invariant.{
  Ascending, Ascending-weaken, UniqueIds, UniqueOutbox, UniqueGrants, queued, is_grant,
}

Ascending-evict :
    (n lo hi : ℕ) (rows : List StoredMsg) → Ascending lo rows hi → Ascending lo (evict n rows).0 hi
unfolding evict
Ascending-evict zero lo hi rows h = h
Ascending-evict (suc n) lo hi [] h = h
Ascending-evict (suc n) lo hi (m ∷ ms) h = elim (Bool-cases (is_evictable m)) [
  | inl e ↦ rw e (
      Ascending-weaken m.seq lo hi (evict n ms).0 (omega (arith, h.0))
        (Ascending-evict n m.seq hi ms h.1))
  | inr e ↦ rw e (h.0, Ascending-evict (suc n) m.seq hi ms h.1)
]

any-evict :
    (id : Text) (n : ℕ) (rows : List StoredMsg)
    → any (has_id id) rows ≡ false
    → any (has_id id) (evict n rows).0 ≡ false
unfolding evict
any-evict id zero rows h = h
any-evict id (suc n) [] h = h
any-evict id (suc n) (m ∷ ms) h = elim (Bool-cases (is_evictable m)) [
  | inl e ↦ rw e (ground (arith, any-evict id n ms))
  | inr e ↦ rw e (ground (arith, any-evict id (suc n) ms))
]

UniqueIds-evict : (n : ℕ) (rows : List StoredMsg) → UniqueIds rows → UniqueIds (evict n rows).0
unfolding evict
UniqueIds-evict zero rows h = h
UniqueIds-evict (suc n) [] h = h
UniqueIds-evict (suc n) (m ∷ ms) h = elim (Bool-cases (is_evictable m)) [
  | inl e ↦ rw e (UniqueIds-evict n ms h.1)
  | inr e ↦ rw e (any-evict m.id (suc n) ms h.0, UniqueIds-evict (suc n) ms h.1)
]

-- The order of the rows and the uniqueness of their ids.
abbrev pub IsLog : ℕ → List StoredMsg → Type 0
IsLog hi rows = Ascending 0 rows hi × UniqueIds rows

IsLog-evict : (n hi : ℕ) (rows : List StoredMsg) → IsLog hi rows → IsLog hi (evict n rows).0
IsLog-evict n hi rows h = (Ascending-evict n 0 hi rows h.0, UniqueIds-evict n rows h.1)

IsLog-trim_bytes :
    (fuel max_bytes hi : ℕ) (rows : List StoredMsg)
    → IsLog hi rows
    → IsLog hi (trim_bytes fuel max_bytes rows).0
unfolding trim_bytes
IsLog-trim_bytes zero max_bytes hi rows h = h
IsLog-trim_bytes (suc fuel) max_bytes hi rows h =
    elim (Bool-cases (leb (total_length rows) max_bytes)) [
      | inl fits ↦ rw fits h
      | inr over ↦ elim (Bool-cases (eqb (evict 64 rows).1 0)) [
        | inl stuck ↦ rw (over, stuck) (IsLog-evict 64 hi rows h)
        | inr some_gone ↦
            rw (over, some_gone)
              (IsLog-trim_bytes fuel max_bytes hi (evict 64 rows).0 (IsLog-evict 64 hi rows h))
      ]
    ]

pub IsLog-enforce_rows :
    (max_messages max_bytes hi : ℕ) (rows : List StoredMsg)
    → IsLog hi rows
    → IsLog hi (enforce_rows max_messages max_bytes rows).0
unfolding enforce_rows
IsLog-enforce_rows max_messages max_bytes hi rows h =
    elim (Bool-cases (within_bounds max_messages max_bytes rows)) [
      | inl inside ↦ rw inside h
      | inr outside ↦
          let over = length rows - max_messages in
          rw outside (
            IsLog-trim_bytes (suc (length (evict over rows).0)) max_bytes hi (evict over rows).0
              (IsLog-evict over hi rows h))
    ]

any-queued-append :
    (id : Text) (rows : List Outbound) (row : Outbound)
    → any (queued id) rows ≡ false
    → (row.id == id) ≡ false
    → any (queued id) (rows ++ row ∷ []) ≡ false
any-queued-append id [] row h e = ground arith
any-queued-append id (m ∷ ms) row h e = ground (arith, any-queued-append id ms row)

pub UniqueOutbox-append :
    (rows : List Outbound) (row : Outbound)
    → UniqueOutbox rows
    → any (queued row.id) rows ≡ false
    → UniqueOutbox (rows ++ row ∷ [])
UniqueOutbox-append [] row h e = ground arith
UniqueOutbox-append (m ∷ ms) row h e = (
  any-queued-append m.id ms row h.0
      (ground (arith, text_beq_iff m.id row.id, text_beq_iff row.id m.id)),
  UniqueOutbox-append ms row h.1 (ground arith),
)

any-queued-keep :
    (id : Text) (p : Outbound → Bool) (rows : List Outbound)
    → any (queued id) rows ≡ false
    → any (queued id) (keep p rows) ≡ false
any-queued-keep id p [] h = refl
any-queued-keep id p (m ∷ ms) h = ground (arith, any-queued-keep id p ms)

pub UniqueOutbox-keep :
    (p : Outbound → Bool) (rows : List Outbound) → UniqueOutbox rows → UniqueOutbox (keep p rows)
UniqueOutbox-keep p [] h = tt
UniqueOutbox-keep p (m ∷ ms) h = elim (Bool-cases (p m)) [
  | inl e ↦ rw e (any-queued-keep m.id p ms h.0, UniqueOutbox-keep p ms h.1)
  | inr e ↦ rw e (UniqueOutbox-keep p ms h.1)
]

any_grant-append :
    (g g' : Text) (gs : List Text)
    → any (is_grant g) gs ≡ false
    → (g' == g) ≡ false
    → any (is_grant g) (gs ++ g' ∷ []) ≡ false
any_grant-append g g' [] h e = ground arith
any_grant-append g g' (x ∷ xs) h e = ground (arith, any_grant-append g g' xs)

pub UniqueGrants-append :
    (gs : List Text) (g : Text)
    → UniqueGrants gs
    → any (is_grant g) gs ≡ false
    → UniqueGrants (gs ++ g ∷ [])
UniqueGrants-append [] g h e = ground arith
UniqueGrants-append (x ∷ xs) g h e = (
  any_grant-append x g xs h.0 (ground (arith, text_beq_iff x g, text_beq_iff g x)),
  UniqueGrants-append xs g h.1 (ground arith),
)

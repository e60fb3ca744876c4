-- ===== src/Store/Bounds/Evict.antt =====
-- One eviction: it deletes a prefix of the evictable rows, and no other row.
use agent_mqtt_chat.Base.{
  ℕ, zero, suc, ◌+◌, ◌≤◌, min, ◌≡◌, ◌∙◌, sym, refl, Bool, not, List, [], ◌∷◌, length, keep, drop,
  arith,
}
use agent_mqtt_chat.Store.Types.{StoredMsg}
use agent_mqtt_chat.Store.Bounds.{is_evictable, evict}

-- An outbound message that still awaits a receipt.
abbrev pub is_protected : StoredMsg → Bool
is_protected m = not (is_evictable m)

pub length-evict :
    (n : ℕ) (rows : List StoredMsg) → length (evict n rows).0 + (evict n rows).1 ≡ length rows
unfolding evict
length-evict zero rows = omega arith
length-evict (suc n) [] = omega arith
length-evict (suc n) (m ∷ ms) = ground (arith, length-evict n ms, length-evict (suc n) ms)

pub protected-evict :
    (n : ℕ) (rows : List StoredMsg) → keep is_protected (evict n rows).0 ≡ keep is_protected rows
unfolding evict
protected-evict zero rows = refl
protected-evict (suc n) [] = refl
protected-evict (suc n) (m ∷ ms) = ground (arith, protected-evict n ms, protected-evict (suc n) ms)

pub evictable-evict :
    (n : ℕ) (rows : List StoredMsg)
    → keep is_evictable (evict n rows).0 ≡ drop (evict n rows).1 (keep is_evictable rows)
unfolding evict
evictable-evict zero rows = refl
evictable-evict (suc n) [] = refl
evictable-evict (suc n) (m ∷ ms) = ground (arith, evictable-evict n ms, evictable-evict (suc n) ms)

pub evicted_count :
    (n : ℕ) (rows : List StoredMsg) → (evict n rows).1 ≡ min n (length (keep is_evictable rows))
unfolding evict
evicted_count zero rows = omega arith
evicted_count (suc n) [] = omega arith
evicted_count (suc n) (m ∷ ms) = ground (arith, evicted_count n ms, evicted_count (suc n) ms)

drop-nil {ℓ} : {A : Type ℓ} (n : ℕ) → drop {A = A} n [] ≡ []
drop-nil zero = refl
drop-nil (suc n) = refl

pub drop-drop {ℓ} : {A : Type ℓ} (a b : ℕ) (l : List A) → drop b (drop a l) ≡ drop (a + b) l
drop-drop zero b l = ground arith
drop-drop {A} (suc a) b [] = drop-nil b ∙ sym (drop-nil {A = A} (suc a + b))
drop-drop (suc a) b (x ∷ l) =
    let e : suc a + b ≡ suc (a + b) = omega arith in rw e (drop-drop a b l)

pub drop-all {ℓ} : {A : Type ℓ} (n : ℕ) (l : List A) → length l ≤ n → drop n l ≡ []
drop-all zero [] h = refl
drop-all zero (x ∷ l) h = elim h [ ]
drop-all (suc n) [] h = refl
drop-all (suc n) (x ∷ l) h = drop-all n l (omega arith)

-- ===== src/Daemon/Outgoing/Pump.antt =====
-- The outbox pump of src/daemon.rs: one round of its loop. `takes` says of each queued message in turn
-- whether the client takes it.
use agent_mqtt_chat.Base.{
  All, sym, ◌&&◌, ◌||◌, Text, text_eq, text_beq_iff, ◌==◌, ◌≡◌, refl, ap, ◌∙◌, Bool, true, false,
  not, List, [], ◌∷◌, ◌++◌, map, keep, if◌then◌else◌, Bool-cases, inl, inr, arith,
}
use agent_mqtt_chat.Store.Types.{Outbound}
use agent_mqtt_chat.Store.Outbox.{pending_outbound, mark_delivered}
use agent_mqtt_chat.Daemon.State.{Daemon, Publication, is_connected}

-- Publish each message that was pending, and mark those that the client took.
unfoldable pub flush : Text → (Text → Bool) → List Outbound → Daemon → Daemon
flush now takes [] d = d
flush now takes (ob ∷ obs) d =
    let after = record d {
      db = mark_delivered d.db now ob.id;
      published =
          d.published ++ record { topic = ob.topic; payload = ob.payload; retain = ob.retain } ∷ [];
    } in
    flush now takes obs (if takes ob.id then after else d)

-- A round: nothing while the broker is away.
unfoldable pub pump : Text → (Text → Bool) → Daemon → Daemon
pump now takes d = if is_connected d then flush now takes (pending_outbound d.db) d else d

abbrev pub publication : Outbound → Publication
publication ob = record { topic = ob.topic; payload = ob.payload; retain = ob.retain }

abbrev took : (Text → Bool) → List Outbound → Outbound → Bool
took takes [] o = false
took takes (ob ∷ obs) o = (o.id == ob.id && takes ob.id) || took takes obs o

keep-keep :
    (p q r : Outbound → Bool) (xs : List Outbound)
    → ((o : Outbound) → r o ≡ (q o && p o))
    → keep p (keep q xs) ≡ keep r xs
keep-keep p q r [] h = refl
keep-keep p q r (x ∷ xs) h = ground (arith, h x, keep-keep p q r xs h)

keep-cong :
    (p q : Outbound → Bool) (xs : List Outbound) → All (λ o. p o ≡ q o) xs → keep p xs ≡ keep q xs
keep-cong p q [] h = refl
keep-cong p q (x ∷ xs) h = rw (h.0, keep-cong p q xs h.1) refl

append_assoc : (xs ys zs : List Publication) → (xs ++ ys) ++ zs ≡ xs ++ (ys ++ zs)
append_assoc [] ys zs = refl
append_assoc (x ∷ xs) ys zs = ap (λ (s : List Publication). x ∷ s) (append_assoc xs ys zs)

append_nil : (xs : List Publication) → xs ++ [] ≡ xs
append_nil [] = refl
append_nil (x ∷ xs) = ap (λ (s : List Publication). x ∷ s) (append_nil xs)

-- What a round has published and what it has left in the outbox.
abbrev Flushed : (Text → Bool) → List Outbound → Daemon → Daemon → Type 0
Flushed takes obs d d' =
    (d'.published ≡ d.published ++ map publication (keep (λ o. takes o.id) obs))
    × (d'.db.outbox ≡ keep (λ o. not (took takes obs o)) d.db.outbox)

All-of : {P : Outbound → Type 0} → ((o : Outbound) → P o) → (xs : List Outbound) → All P xs
All-of f [] = tt
All-of f (x ∷ xs) = (f x, All-of f xs)

All-weaken :
    {P Q : Outbound → Type 0}
    → ((o : Outbound) → P o → Q o)
    → (xs : List Outbound) → All P xs
    → All Q xs
All-weaken f [] h = tt
All-weaken f (x ∷ xs) h = (f x h.0, All-weaken f xs h.1)

keep_all : (xs : List Outbound) → keep (λ _. true) xs ≡ xs
keep_all [] = refl
keep_all (x ∷ xs) = ap (λ (s : List Outbound). x ∷ s) (keep_all xs)

flush_lem :
    (now : Text) (takes : Text → Bool) (obs : List Outbound) (d : Daemon)
    → Flushed takes obs d (flush now takes obs d)
unfolding flush mark_delivered
flush_lem now takes [] d = (sym (append_nil d.published), sym (keep_all d.db.outbox))
flush_lem now takes (ob ∷ obs) d = elim (Bool-cases (takes ob.id)) [
  | inl e ↦
      let after = record d {
        db = mark_delivered d.db now ob.id;
        published = d.published ++ publication ob ∷ [];
      } in
      let (published, left) = flush_lem now takes obs after in
      rw (flush, e)
        (
          published
              ∙ append_assoc d.published (publication ob ∷ [])
                  (map publication (keep (λ o. takes o.id) obs)),
          left
              ∙ keep-keep (λ o. not (took takes obs o)) (λ o. not (o.id == ob.id))
                  (λ o. not ((o.id == ob.id && true) || took takes obs o)) d.db.outbox
                  (λ o. ground arith),
        )
  | inr e ↦
      let (published, left) = flush_lem now takes obs d in
      rw (flush, e)
        (
          published,
          left
              ∙ keep-cong (λ o. not (took takes obs o))
                  (λ o. not ((o.id == ob.id && false) || took takes obs o)) d.db.outbox
                  (All-of (λ o. ground arith) d.db.outbox),
        )
]

took_takes :
    (takes : Text → Bool) (obs : List Outbound) (o : Outbound)
    → took takes obs o ≡ true
    → takes o.id ≡ true
took_takes takes [] o h = cc
took_takes takes (ob ∷ obs) o h = elim (Bool-cases (o.id == ob.id && takes ob.id)) [
  | inl e ↦
      let same : o.id ≡ ob.id = ground (arith, text_beq_iff o.id ob.id) in
      ap takes same ∙ ground arith
  | inr e ↦ took_takes takes obs o (rw e at h)
]

-- Each queued message is taken just if the client takes it.
took_itself :
    (takes : Text → Bool) (obs : List Outbound)
    → All (λ o. not (took takes obs o) ≡ not (takes o.id)) obs
took_itself takes [] = tt
took_itself takes (ob ∷ obs) = (
  ground (arith, text_beq_iff ob.id ob.id, took_takes takes obs ob),
  All-weaken (λ o h. ground (arith, h, text_beq_iff o.id ob.id, took_takes takes (ob ∷ obs) o)) obs
      (took_itself takes obs),
)

-- A round of the pump over a connected session publishes the queued messages that the client takes,
-- in their order, and leaves just the others in the outbox; while the broker is away it changes
-- nothing.
pub pump_lem :
    (now : Text) (takes : Text → Bool) (d : Daemon)
    → let d' = pump now takes d in
      if is_connected d
      then (d'.published ≡ d.published ++ map publication (keep (λ o. takes o.id) d.db.outbox))
        × (d'.db.outbox ≡ keep (λ o. not (takes o.id)) d.db.outbox)
      else d' ≡ d
unfolding pump pending_outbound
pump_lem now takes d = elim (Bool-cases (is_connected d)) [
  | inr e ↦ rw e refl
  | inl e ↦
      let (published, left) = flush_lem now takes d.db.outbox d in
      rw e (
        published,
        left
            ∙ keep-cong (λ o. not (took takes d.db.outbox o)) (λ o. not (takes o.id)) d.db.outbox
                (took_itself takes d.db.outbox),
      )
]

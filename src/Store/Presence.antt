-- ===== src/Store/Presence.antt =====
-- Application presence of src/store.rs: one record per agent, of the highest sequence number.
use agent_mqtt_chat.Base.{
  Text, text_eq, text_beq_iff, ◌==◌, ◌≡◌, ℤ, leb_ℤ, ◌<ℤ◌, Option-cases, inl, inr, List, [], ◌∷◌,
  Option, none, some, TextMap, lookup, insert, lookup-insert, if◌then◌else◌, arith,
}
use agent_mqtt_chat.Store.Types.{Db, PresenceRow}

abbrev pub put_presence : Db → PresenceRow → Db
put_presence db row = record db { presence = insert row.agent row db.presence }

abbrev pub newer_presence : Db → PresenceRow → Option PresenceRow → Db
newer_presence db row none = put_presence db row
newer_presence db row (some old) = if leb_ℤ old.seq row.seq then put_presence db row else db

-- The record of an upsert's values.
abbrev pub presence_row : Text → Text → Text → ℤ → ℤ → Option Text → Text → PresenceRow
presence_row agent state source ttl_secs seq detail last_seen = record {
  agent = agent;
  state = some state;
  source = some source;
  ttl_secs = some ttl_secs;
  detail = detail;
  seq = seq;
  last_seen = last_seen;
}

-- Insert or replace an agent's record, unless the one there has a higher sequence number.
unfoldable pub upsert_presence : Db → Text → Text → Text → ℤ → ℤ → Option Text → Text → Db
upsert_presence db agent state source ttl_secs seq detail last_seen =
    newer_presence db (presence_row agent state source ttl_secs seq detail last_seen)
      (lookup agent db.presence)

abbrev values : TextMap PresenceRow → List PresenceRow
values [] = []
values ((_, row) ∷ m) = row ∷ values m

-- All records, by agent.
unfoldable pub list_presence : Db → List PresenceRow
list_presence db = values db.presence

-- The record that an upsert leaves for an agent.
abbrev pub newest : PresenceRow → Option PresenceRow → PresenceRow
newest row none = row
newest row (some old) = if leb_ℤ old.seq row.seq then row else old

abbrev pub presence_of : Db → Text → Option PresenceRow
presence_of db agent = lookup agent db.presence

-- An upsert leaves an agent its new record, unless the old one has a higher sequence number; a tie
-- goes to the new one; every other agent's record is as before.
pub presence_of-upsert_presence :
    (db : Db) (agent other state source : Text) (ttl seq : ℤ) (detail : Option Text)
    (last_seen : Text)
    → presence_of (upsert_presence db agent state source ttl seq detail last_seen) other ≡ (
        if agent == other
        then some (
            newest
              (presence_row agent state source ttl seq detail last_seen)
              (presence_of db agent))
        else presence_of db other)
unfolding upsert_presence
presence_of-upsert_presence db agent other state source ttl seq detail last_seen =
    let row = presence_row agent state source ttl seq detail last_seen in
    elim (Option-cases (lookup agent db.presence)) [
      | inl e ↦ ground (arith, text_beq_iff agent other, lookup-insert agent other row db.presence)
      | inr (old, e) ↦
          ground (arith, text_beq_iff agent other, lookup-insert agent other row db.presence)
    ]

-- A beacon that arrives late, with a lower sequence number than the record, changes nothing.
pub upsert_presence_late :
    (db : Db) (agent state source : Text) (ttl seq : ℤ) (detail : Option Text) (last_seen : Text)
    (old : PresenceRow)
    → presence_of db agent ≡ some old
    → seq <ℤ old.seq
    → upsert_presence db agent state source ttl seq detail last_seen ≡ db
unfolding upsert_presence
upsert_presence_late db agent state source ttl seq detail last_seen old e late = ground arith

-- ===== src/Cli/Print.antt =====
-- The tables that src/cli.rs prints for a human; a line break inside an entry starts a line here.
use agent_mqtt_chat.Base.{
  ℕ, Text, lit, ℤ, pos, negsuc, ◌+◌, Bool, true, false, List, [], ◌∷◌, ◌++◌, map_option, unwrap_or,
  decimal, em_dash,
}
use agent_mqtt_chat.Store.Types.{StoredMsg, RejectionRow, ConsumerRow, PresenceRow, state_str}
use agent_mqtt_chat.Ipc.{PendingPairView, StatusInfo}
use agent_mqtt_chat.Cli.{Shell, bool_text}
use agent_mqtt_chat.Cli.Settings.{security_text}

abbrev int_text : ℤ → Text
int_text (pos n) = decimal n
int_text (negsuc n) = lit "-" ++ decimal (n + 1)

-- The lines of each row, or one line if there is none.
abbrev table : {A : Type 0} → (A → List Text) → List A → List Text
table row [] = []
table row (x ∷ xs) = row x ++ table row xs

abbrev or_line : {A : Type 0} → Text → (A → List Text) → List A → List Text
or_line nothing row [] = nothing ∷ []
or_line nothing row (x ∷ xs) = table row (x ∷ xs)

abbrev marked : Bool → Text → Text
marked true mark = mark
marked false mark = []

abbrev message_lines : StoredMsg → List Text
message_lines m =
    (lit "#"
      ++ decimal m.seq
      ++ lit " ["
      ++ m.ts
      ++ lit "] "
      ++ m.from
      ++ lit " -> "
      ++ m.to
      ++ lit " ("
      ++ m.ctype
      ++ lit "/"
      ++ m.kind
      ++ lit ")"
      ++ marked m.encrypted (lit " [enc]")
      ++ unwrap_or (map_option (λ (r : Text). lit " reply-to=" ++ r) m.in_reply_to) [])
    ∷ (lit "    " ++ m.body)
    ∷ []

unfoldable pub print_messages : List StoredMsg → List Text
print_messages = or_line (lit "(no messages)") message_lines

abbrev receipt_lines : StoredMsg → List Text
receipt_lines m =
    (m.id
      ++ lit " "
      ++ state_str m.delivery_state
      ++ lit " (to "
      ++ m.to
      ++ lit ") sent="
      ++ m.ts
      ++ lit " delivered="
      ++ unwrap_or m.delivered_ts (lit "-")
      ++ lit " read="
      ++ unwrap_or m.read_ts (lit "-"))
    ∷ []

unfoldable pub print_receipts : List StoredMsg → List Text
print_receipts = or_line (lit "(no outbound messages)") receipt_lines

abbrev rejection_lines : RejectionRow → List Text
rejection_lines r =
    (lit "#"
      ++ decimal r.seq
      ++ lit " ["
      ++ r.at
      ++ lit "] "
      ++ r.reason
      ++ lit " from="
      ++ unwrap_or r.claimed_sender (lit "?")
      ++ lit " topic="
      ++ unwrap_or r.topic []
      ++ lit " "
      ++ em_dash
      ++ lit " "
      ++ r.detail)
    ∷ []

unfoldable pub print_rejections : List RejectionRow → List Text
print_rejections = or_line (lit "(no rejections)") rejection_lines

abbrev consumer_lines : ConsumerRow → List Text
consumer_lines c =
    (c.consumer
      ++ lit "  last_seq="
      ++ int_text c.last_seq
      ++ lit " unread="
      ++ decimal c.unread
      ++ lit " last_read="
      ++ unwrap_or c.last_read_at (lit "-"))
    ∷ []

unfoldable pub print_consumers : List ConsumerRow → List Text
print_consumers = or_line (lit "(no consumers)") consumer_lines

abbrev presence_lines : PresenceRow → List Text
presence_lines p =
    (p.agent
      ++ lit "  "
      ++ unwrap_or p.state (lit "?")
      ++ lit " (source="
      ++ unwrap_or p.source []
      ++ lit ", seq="
      ++ int_text p.seq
      ++ lit ", last_seen="
      ++ p.last_seen
      ++ lit ")"
      ++ unwrap_or (map_option (λ (d : Text). lit " " ++ em_dash ++ lit " " ++ d) p.detail) [])
    ∷ []

unfoldable pub print_presence : List PresenceRow → List Text
print_presence = or_line (lit "(no presence records)") presence_lines

abbrev pair_lines : PendingPairView → List Text
pair_lines p =
    (p.name
      ++ lit "  SAS "
      ++ p.sas
      ++ lit "  ("
      ++ p.fingerprint
      ++ marked p.kem (lit " +kem")
      ++ lit ")")
    ∷ (lit "    compare the SAS with the peer, then: agentmsg pair confirm " ++ p.name)
    ∷ []

unfoldable pub print_pairs : List PendingPairView → List Text
print_pairs =
    or_line
      (lit "(no peers pairing " ++ em_dash ++ lit " ask the peer to run `agentmsg pair start`)")
      pair_lines

abbrev presence_count : ℕ → List Text
presence_count ℕ.zero = []
presence_count n = (lit "presence:  " ++ decimal n ++ lit " record(s)") ∷ []

abbrev row_count : {A : Type 0} → List A → ℕ
row_count [] = 0
row_count (_ ∷ xs) = row_count xs + 1

unfoldable pub status_lines : Shell → StatusInfo → List Text
status_lines sh info =
    (lit "identity:  " ++ unwrap_or info.identity [])
    ∷ (lit "broker:    " ++ info.broker)
    ∷ (lit "connected: " ++ bool_text info.connected)
    ∷ (lit "topics:    " ++ sh.debug_texts info.topics)
    ∷ (lit "stored:    " ++ decimal info.stored)
    ∷ (lit "rejected:  " ++ decimal info.rejected)
    ∷ (lit "pending:   " ++ decimal info.pending_out)
    ∷ (lit "known:     " ++ decimal info.known_agents ++ lit " agent(s)")
    ∷ (lit "security:  "
        ++ security_text info.allow_unsigned info.accept_v1 info.require_encryption
            info.auto_receipts)
    ∷ presence_count (row_count info.presence)

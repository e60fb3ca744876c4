-- ===== src/Cli/Calls.antt =====
-- The commands of src/cli.rs that ask the daemon.
use agent_mqtt_chat.Base.{
  Text, lit, ℤ, Bool, true, false, List, [], ◌∷◌, ◌++◌, text_eq, ◌==◌, Option, none, some, Result,
  ok, err, trim, strip_prefix, if◌then◌else◌,
}
use agent_mqtt_chat.Errors.{Error, config_error, ipc_error}
use agent_mqtt_chat.Wire.Types.{broadcast}
use agent_mqtt_chat.Ipc.{
  Request, Response, SendParams, pong, done, sent, messages, rejections_are, consumers_are, failure,
}
use agent_mqtt_chat.Files.{load_identity}
use agent_mqtt_chat.Store.Types.{StoredMsg}
use agent_mqtt_chat.Cli.{Shell, Printed, Payload, flag, text, sent_is, messages_are, ok_json}
use agent_mqtt_chat.Cli.Machine.{M, ◌>>=◌, ◌>>◌, give, lift, from_files, Caller, call, hello}
use agent_mqtt_chat.Cli.Print.{print_messages, print_receipts, print_rejections, print_consumers}

unfoldable pub render_simple : Shell → Bool → Response → Text → Result Error Printed
render_simple sh json done human = ok (ok_json json (flag true) (human ∷ []))
render_simple sh json pong human = ok (ok_json json (flag true) (human ∷ []))
render_simple sh json (failure e) human = err (ipc_error e)
render_simple sh json other human =
    ok (ok_json json (text (sh.debug_response other)) (sh.debug_response other ∷ []))

unfoldable pub render_sent : Shell → Bool → Response → Result Error Printed
render_sent sh json (sent id state) =
    ok (ok_json json (sent_is id state) ((lit "sent " ++ id ++ lit " (" ++ state ++ lit ")") ∷ []))
render_sent sh json (failure e) = err (ipc_error e)
render_sent sh json other = render_simple sh json other (lit "sent")

-- The arguments of `send`.
pub record SendArgs : Type 0 where
  pub to : Option Text
  pub body : Option Text
  pub broadcast : Bool
  pub ctype : Text
  pub reply_to : Option Text
  pub topic : Option Text
  pub kind : Text
  pub correlation_id : Option Text
  pub supersedes : Option Text
  pub encrypt : Bool
  pub grant : Option Text
  pub unsigned : Bool
  pub file : Option Text

abbrev or_error : Option Text → Text → Result Error Text
or_error none e = err (config_error e)
or_error (some t) e = ok t

-- The body from `--file` (`-` is standard input), or the positional argument.
unfoldable pub resolve_body : Shell → Option Text → Option Text → Result Error Text
resolve_body sh body none = or_error body (lit "provide a message body or --file <f>")
resolve_body sh body (some f) = if f == lit "-" then sh.stdin else sh.read_file f

abbrev trimmed : Result Error Text → Result Error (Option Text)
trimmed (ok t) = ok (some (trim t))
trimmed (err e) = err e

abbrev grant_input : Shell → Text → Option Text → Result Error (Option Text)
grant_input sh g none = ok (some g)
grant_input sh g (some path) = trimmed (sh.read_file path)

-- A grant token, or `@<file>`.
unfoldable pub resolve_grant : Shell → Option Text → Result Error (Option Text)
resolve_grant sh none = ok none
resolve_grant sh (some g) = grant_input sh g (strip_prefix (lit "@") g)

unfoldable pub recipient : SendArgs → Result Error Text
recipient a =
    if a.broadcast then ok broadcast else or_error a.to (lit "specify a recipient or --broadcast")

abbrev pub send_params : SendArgs → Text → Text → Option Text → SendParams
send_params a to body grant = record {
  to = to;
  ctype = a.ctype;
  body = body;
  in_reply_to = a.reply_to;
  topic = a.topic;
  kind = a.kind;
  correlation_id = a.correlation_id;
  supersedes = a.supersedes;
  encrypt = a.encrypt;
  grant = grant;
  unsigned = a.unsigned;
}

unfoldable pub send_cmd : Caller → Shell → Bool → SendArgs → M Printed
send_cmd c sh json a = do
  to ← lift (recipient a)
  body ← lift (resolve_body sh a.body a.file)
  grant ← lift (resolve_grant sh a.grant)
  hello c
  resp ← call c (Request.send (send_params a to body grant))
  lift (render_sent sh json resp)

unfoldable pub reply_cmd : Caller → Shell → Bool → Text → Text → Text → M Printed
reply_cmd c sh json msg_id body ctype = do
  hello c
  resp ← call c (Request.reply msg_id ctype body)
  lift (render_sent sh json resp)

unfoldable pub default_consumer : Caller → Option Text → M Text
default_consumer c (some name) = give name
default_consumer c none = from_files (λ f. load_identity c.env f) >>= λ id. give id.name

unfoldable pub ack_cmd : Caller → Shell → Bool → ℤ → Option Text → M Printed
ack_cmd c sh json seq consumer = do
  name ← default_consumer c consumer
  resp ← call c (Request.ack name seq)
  lift (render_simple sh json resp (lit "acknowledged"))

-- A list of messages, or what else was answered.
abbrev pub render_messages :
    Shell → Bool → (List StoredMsg → List Text) → Text → Response → Result Error Printed
render_messages sh json print human (messages ms warning) =
    ok (ok_json json (messages_are ms) (print ms))
render_messages sh json print human (failure e) = err (ipc_error e)
render_messages sh json print human other = render_simple sh json other human

abbrev pub browse_request : Bool → ℤ → Option Text → Option Text → Request
browse_request true limit from to = Request.transcript limit from to none
browse_request false limit from to = Request.browse limit from to

abbrev pub addressee : Caller → Bool → Option Text → M (Option Text)
addressee c true to = from_files (λ f. load_identity c.env f) >>= λ id. give (some id.name)
addressee c false to = give to

-- `--all` spans both directions, by the transcript.
unfoldable pub browse_cmd :
    Caller → Shell → Bool → ℤ → Option Text → Option Text → Bool → Bool → M Printed
browse_cmd c sh json limit from to mine all = do
  to' ← addressee c mine to
  resp ← call c (browse_request all limit from to')
  lift (render_messages sh json print_messages (lit "browse") resp)

unfoldable pub log_cmd :
    Caller → Shell → Bool → ℤ → Option Text → Option Text → Option Text → M Printed
log_cmd c sh json limit from to peer = do
  resp ← call c (Request.transcript limit from to peer)
  lift (render_messages sh json print_messages (lit "log") resp)

unfoldable pub receipts_cmd : Caller → Shell → Bool → Option Text → ℤ → Option Text → M Printed
receipts_cmd c sh json id limit state = do
  resp ← call c (Request.receipts id limit state)
  lift (render_messages sh json print_receipts (lit "receipts") resp)

abbrev render_rejections : Shell → Bool → Response → Result Error Printed
render_rejections sh json (rejections_are rows) =
    ok (ok_json json (Payload.rejections_are rows) (print_rejections rows))
render_rejections sh json (failure e) = err (ipc_error e)
render_rejections sh json other = render_simple sh json other (lit "rejections")

unfoldable pub rejections_cmd : Caller → Shell → Bool → ℤ → Option Text → Option Text → M Printed
rejections_cmd c sh json limit reason since = do
  resp ← call c (Request.rejections limit reason since)
  lift (render_rejections sh json resp)

abbrev render_consumers : Shell → Bool → Response → Result Error Printed
render_consumers sh json (consumers_are rows) =
    ok (ok_json json (Payload.consumers_are rows) (print_consumers rows))
render_consumers sh json (failure e) = err (ipc_error e)
render_consumers sh json other = render_simple sh json other (lit "consumers")

unfoldable pub consumers_cmd : Caller → Shell → Bool → M Printed
consumers_cmd c sh json = do resp ← call c Request.consumers; lift (render_consumers sh json resp)

-- ===== src/Cli/Run/Safe.antt =====
-- The commands of src/cli.rs that ask the daemon change nothing if they fail.
use agent_mqtt_chat.Base.{Text, ℤ, ◌≡◌, refl, Bool, true, false, inl, Option, none, some, Result}
use agent_mqtt_chat.External.{Env}
use agent_mqtt_chat.Errors.{Error}
use agent_mqtt_chat.Files.{load_identity}
use agent_mqtt_chat.Ipc.{
  Request, Response, pong, done, status_is, hello_is, sent, messages, rejections_are, consumers_are,
  presence_is, pairs, failure,
}
use agent_mqtt_chat.Daemon.Requests.Failures.{is_failure}
use agent_mqtt_chat.Cli.{Shell}
use agent_mqtt_chat.Cli.Machine.{M, lift, from_files, ◌>>=◌, Caller, call, hello}
use agent_mqtt_chat.Cli.Machine.Unchanged.{
  IsUnfailing, IsQuiet, IsSafe, is_err, is_question, then-IsSafe, then-IsQuiet, question-IsQuiet,
  hello-IsQuiet, request-IsSafe,
}
use agent_mqtt_chat.Cli.Calls.{
  SendArgs, render_simple, render_sent, recipient, resolve_body, resolve_grant, send_params,
  send_cmd, reply_cmd, default_consumer, ack_cmd, addressee, browse_cmd,
}
use agent_mqtt_chat.Cli.Peers.{
  PresenceCmd, PairCmd, presence_cmd, pair_cmd, status_cmd, render_start, render_confirm,
  trusted_fp,
}

-- Only a refusal is printed as an error.
render_simple_refused :
    (sh : Shell) (json : Bool) (human : Text) (resp : Response)
    → is_err (render_simple sh json resp human) ≡ true
    → is_failure resp ≡ true
unfolding render_simple render_sent
render_simple_refused sh json human pong h = h
render_simple_refused sh json human done h = h
render_simple_refused sh json human (status_is _) h = h
render_simple_refused sh json human (hello_is _ _ _) h = h
render_simple_refused sh json human (sent _ _) h = h
render_simple_refused sh json human (messages _ _) h = h
render_simple_refused sh json human (rejections_are _) h = h
render_simple_refused sh json human (consumers_are _) h = h
render_simple_refused sh json human (presence_is _) h = h
render_simple_refused sh json human (pairs _) h = h
render_simple_refused sh json human (failure _) h = refl

render_sent_refused :
    (sh : Shell) (json : Bool) (resp : Response)
    → is_err (render_sent sh json resp) ≡ true
    → is_failure resp ≡ true
unfolding render_simple render_sent
render_sent_refused sh json pong h = h
render_sent_refused sh json done h = h
render_sent_refused sh json (status_is _) h = h
render_sent_refused sh json (hello_is _ _ _) h = h
render_sent_refused sh json (sent _ _) h = h
render_sent_refused sh json (messages _ _) h = h
render_sent_refused sh json (rejections_are _) h = h
render_sent_refused sh json (consumers_are _) h = h
render_sent_refused sh json (presence_is _) h = h
render_sent_refused sh json (pairs _) h = h
render_sent_refused sh json (failure _) h = refl

render_start_refused :
    (sh : Shell) (json : Bool) (resp : Response)
    → is_err (render_start sh json resp) ≡ true
    → is_failure resp ≡ true
unfolding render_simple render_sent
render_start_refused sh json pong h = h
render_start_refused sh json done h = h
render_start_refused sh json (status_is _) h = h
render_start_refused sh json (hello_is _ _ _) h = h
render_start_refused sh json (sent _ _) h = h
render_start_refused sh json (messages _ _) h = h
render_start_refused sh json (rejections_are _) h = h
render_start_refused sh json (consumers_are _) h = h
render_start_refused sh json (presence_is _) h = h
render_start_refused sh json (pairs _) h = h
render_start_refused sh json (failure _) h = refl

render_confirm_refused :
    (sh : Shell) (json : Bool) (name fp : Text) (resp : Response)
    → is_err (render_confirm sh json name fp resp) ≡ true
    → is_failure resp ≡ true
unfolding render_simple render_sent
render_confirm_refused sh json name fp pong h = h
render_confirm_refused sh json name fp done h = h
render_confirm_refused sh json name fp (status_is _) h = h
render_confirm_refused sh json name fp (hello_is _ _ _) h = h
render_confirm_refused sh json name fp (sent _ _) h = h
render_confirm_refused sh json name fp (messages _ _) h = h
render_confirm_refused sh json name fp (rejections_are _) h = h
render_confirm_refused sh json name fp (consumers_are _) h = h
render_confirm_refused sh json name fp (presence_is _) h = h
render_confirm_refused sh json name fp (pairs _) h = h
render_confirm_refused sh json name fp (failure _) h = refl

lift-IsQuiet : {A : Type 0} (env : Env) (r : Result Error A) → IsQuiet env (lift r)
lift-IsQuiet env r m = inl refl

pub lift_then-IsSafe :
    {A B : Type 0} (env : Env) (r : Result Error A) (f : A → M B)
    → ((a : A) → IsSafe env (f a))
    → IsSafe env (lift r >>= f)
lift_then-IsSafe env r f = then-IsSafe env (lift r) f (lift-IsQuiet env r)

pub simple-IsSafe :
    (c : Caller) (q : IsUnfailing c) (sh : Shell) (json : Bool) (req : Request) (human : Text)
    → IsSafe c.env (call c req >>= λ resp. lift (render_simple sh json resp human))
simple-IsSafe c q sh json req human =
    request-IsSafe c q req _ (λ _ _. refl) (λ resp _. render_simple_refused sh json human resp)

pub sent-IsSafe :
    (c : Caller) (q : IsUnfailing c) (sh : Shell) (json : Bool) (req : Request)
    → IsSafe c.env (call c req >>= λ resp. lift (render_sent sh json resp))
sent-IsSafe c q sh json req =
    request-IsSafe c q req _ (λ _ _. refl) (λ resp _. render_sent_refused sh json resp)

pub question-IsSafe :
    {A : Type 0} (c : Caller) (q : IsUnfailing c) (req : Request) (show : Response → Result Error A)
    → is_question req ≡ true
    → IsSafe c.env (call c req >>= λ resp. lift (show resp))
question-IsSafe c q req show h m _ =
    then-IsQuiet c.env (call c req) (λ resp. lift (show resp)) (question-IsQuiet c q req h)
      (λ resp. lift-IsQuiet c.env (show resp)) m

pub send_cmd-IsSafe :
    (c : Caller) (q : IsUnfailing c) (sh : Shell) (json : Bool) (a : SendArgs)
    → IsSafe c.env (send_cmd c sh json a)
unfolding send_cmd
send_cmd-IsSafe c q sh json a = lift_then-IsSafe c.env (recipient a) _ λ to.
    lift_then-IsSafe c.env (resolve_body sh a.body a.file) _ λ body.
      lift_then-IsSafe c.env (resolve_grant sh a.grant) _ λ grant.
        then-IsSafe c.env (hello c) _ (hello-IsQuiet c q)
          λ _. sent-IsSafe c q sh json (Request.send (send_params a to body grant))

pub reply_cmd-IsSafe :
    (c : Caller) (q : IsUnfailing c) (sh : Shell) (json : Bool) (msg_id body ctype : Text)
    → IsSafe c.env (reply_cmd c sh json msg_id body ctype)
unfolding reply_cmd
reply_cmd-IsSafe c q sh json msg_id body ctype =
    then-IsSafe c.env (hello c) _ (hello-IsQuiet c q)
      λ _. sent-IsSafe c q sh json (Request.reply msg_id ctype body)

default_consumer-IsQuiet :
    (c : Caller) (consumer : Option Text) → IsQuiet c.env (default_consumer c consumer)
unfolding default_consumer
default_consumer-IsQuiet c none =
    then-IsQuiet c.env (from_files (λ f. load_identity c.env f)) _ (λ m. inl refl) (λ _ m. inl refl)
default_consumer-IsQuiet c (some name) = λ m. inl refl

addressee-IsQuiet :
    (c : Caller) (mine : Bool) (to : Option Text) → IsQuiet c.env (addressee c mine to)
addressee-IsQuiet c true to =
    then-IsQuiet c.env (from_files (λ f. load_identity c.env f)) _ (λ m. inl refl) (λ _ m. inl refl)
addressee-IsQuiet c false to = λ m. inl refl

pub ack_cmd-IsSafe :
    (c : Caller) (q : IsUnfailing c) (sh : Shell) (json : Bool) (seq : ℤ) (consumer : Option Text)
    → IsSafe c.env (ack_cmd c sh json seq consumer)
unfolding ack_cmd
ack_cmd-IsSafe c q sh json seq consumer =
    then-IsSafe c.env (default_consumer c consumer) _ (default_consumer-IsQuiet c consumer)
      λ name. simple-IsSafe c q sh json (Request.ack name seq) _

pub browse_cmd-IsSafe :
    (c : Caller) (q : IsUnfailing c) (sh : Shell) (json : Bool) (limit : ℤ) (from to : Option Text)
    (mine all : Bool)
    → IsSafe c.env (browse_cmd c sh json limit from to mine all)
unfolding browse_cmd
browse_cmd-IsSafe c q sh json limit from to mine true =
    then-IsSafe c.env (addressee c mine to) _ (addressee-IsQuiet c mine to)
      λ _. question-IsSafe c q _ _ refl
browse_cmd-IsSafe c q sh json limit from to mine false =
    then-IsSafe c.env (addressee c mine to) _ (addressee-IsQuiet c mine to)
      λ _. question-IsSafe c q _ _ refl

pub presence_cmd-IsSafe :
    (c : Caller) (q : IsUnfailing c) (sh : Shell) (json : Bool) (cmd : PresenceCmd)
    → IsSafe c.env (presence_cmd c sh json cmd)
unfolding presence_cmd
presence_cmd-IsSafe c q sh json (PresenceCmd.set state ttl detail) =
    then-IsSafe c.env (hello c) _ (hello-IsQuiet c q)
      λ _. simple-IsSafe c q sh json (Request.presence state ttl detail) _
presence_cmd-IsSafe c q sh json PresenceCmd.list = question-IsSafe c q Request.presence_list _ refl

pub pair_cmd-IsSafe :
    (c : Caller) (q : IsUnfailing c) (sh : Shell) (json : Bool) (cmd : PairCmd)
    → IsSafe c.env (pair_cmd c sh json cmd)
unfolding pair_cmd
pair_cmd-IsSafe c q sh json (PairCmd.start topic) =
    then-IsSafe c.env (hello c) _ (hello-IsQuiet c q) λ _.
      request-IsSafe c q (Request.pair_start topic) _ (λ _ _. refl)
        (λ resp _. render_start_refused sh json resp)
pair_cmd-IsSafe c q sh json PairCmd.list = question-IsSafe c q Request.pair_list _ refl
pair_cmd-IsSafe c q sh json (PairCmd.confirm name) =
    request-IsSafe c q (Request.pair_confirm name) _ (λ _ _. refl)
      (λ resp m. render_confirm_refused sh json name (trusted_fp c m.files name) resp)

pub status_cmd-IsSafe :
    (c : Caller) (q : IsUnfailing c) (sh : Shell) (json : Bool)
    → IsSafe c.env (status_cmd c sh json)
unfolding status_cmd
status_cmd-IsSafe c q sh json m h = question-IsQuiet c q Request.status refl m

-- ===== src/Cli/Machine/Unchanged.antt =====
-- What a call of the daemon leaves on a machine.
use agent_mqtt_chat.Base.{
  Text, text_eq, ◌==◌, ◌≡◌, refl, ◌||◌, Bool, true, false, ◌⊎◌, inl, inr, Option, none, some,
  map_option, Result, ok, err, Result-cases, Bool-cases, arith,
}
use agent_mqtt_chat.External.{Env}
use agent_mqtt_chat.Errors.{Error}
use agent_mqtt_chat.Files.{Files, load_identity}
use agent_mqtt_chat.Ipc.{
  Request, Response, pong, done, status_is, hello_is, sent, messages, rejections_are, consumers_are,
  presence_is, pairs, failure,
}
use agent_mqtt_chat.Daemon.State.{Daemon, Moment}
use agent_mqtt_chat.Daemon.Requests.{handle, pair_confirm}
use agent_mqtt_chat.Daemon.Requests.Failures.{is_failure, is_query, handle_unchanged}
use agent_mqtt_chat.Cli.Machine.{
  Machine, M, continue, ◌>>=◌, Caller, local_agent, ipc_call, connected_to, answered, call, hello,
  reloaded, files_after, running_after,
}

-- While the caller's daemon answers, its outbox and its trust file take what is written.
abbrev pub IsUnfailing : Caller → Type 0
IsUnfailing c = (c.at.queue_error ≡ none) × (c.at.save_error ≡ none)

-- The machine whose daemon has loaded the configuration and the trust store again.
abbrev pub settled : Env → Machine → Machine
settled env m = record m { running = map_option (reloaded env m.files) m.running }

abbrev pub IsSame : Env → Machine → Machine → Type 0
IsSame env m m' = (m' ≡ m) ⊎ (m' ≡ settled env m)

reload_twice :
    (env : Env) (f : Files) (o : Option Daemon)
    → map_option (reloaded env f) (map_option (reloaded env f) o) ≡ map_option (reloaded env f) o
reload_twice env f none = refl
reload_twice env f (some d) = refl

settled_twice : (env : Env) (m : Machine) → settled env (settled env m) ≡ settled env m
settled_twice env m = rw (reload_twice env m.files m.running) refl

pub IsSame-trans :
    (env : Env) {m m' m'' : Machine} → IsSame env m m' → IsSame env m' m'' → IsSame env m m''
IsSame-trans env {m} (inl e) (inl e') = inl (rw (e', e) refl)
IsSame-trans env {m} (inl e) (inr e') = inr (rw (e', e) refl)
IsSame-trans env {m} (inr e) (inl e') = inr (rw (e', e) refl)
IsSame-trans env {m} (inr e) (inr e') = inr (rw (e', e) (settled_twice env m))

-- The requests that ask for something, and go on.
abbrev pub is_question : Request → Bool
is_question req = is_query req

abbrev pub is_err : {A : Type 0} → Result Error A → Bool
is_err (ok _) = false
is_err (err _) = true

abbrev pub is_refused : Result Error Response → Bool
is_refused (ok resp) = is_failure resp
is_refused (err _) = true

files_after_confirm :
    (env : Env) (at : Moment) (f : Files) (before d : Daemon) (name : Text) (resp : Response)
    → at.save_error ≡ none
    → is_failure resp ≡ true
    → files_after env at f before (Request.pair_confirm name) (d, resp) ≡ f
files_after_confirm env at f before d name pong save h = refl
files_after_confirm env at f before d name done save h = cc
files_after_confirm env at f before d name (status_is _) save h = refl
files_after_confirm env at f before d name (hello_is _ _ _) save h = refl
files_after_confirm env at f before d name (sent _ _) save h = refl
files_after_confirm env at f before d name (messages _ _) save h = refl
files_after_confirm env at f before d name (rejections_are _) save h = refl
files_after_confirm env at f before d name (consumers_are _) save h = refl
files_after_confirm env at f before d name (presence_is _) save h = refl
files_after_confirm env at f before d name (pairs _) save h = refl
files_after_confirm env at f before d name (failure _) save h = rw save refl

-- A refused request, and a question, neither write a file nor end the daemon.
after_lem :
    (env : Env) (version : Text) (c : Caller) (f : Files) (d : Daemon) (req : Request)
    → c.at.save_error ≡ none
    → (is_failure (handle env version c.at d req).1 || is_question req) ≡ true
    → (files_after env c.at f d req (handle env version c.at d req) ≡ f)
      × (running_after req (handle env version c.at d req).0
          ≡ some (handle env version c.at d req).0)
      × ((is_failure (handle env version c.at d req).1 || is_query req) ≡ true)
unfolding handle
after_lem env version c f d Request.ping save h = (refl, refl, h)
after_lem env version c f d Request.status save h = (refl, refl, h)
after_lem env version c f d Request.consumers save h = (refl, refl, h)
after_lem env version c f d Request.presence_list save h = (refl, refl, h)
after_lem env version c f d Request.pair_list save h = (refl, refl, h)
after_lem env version c f d Request.connect save h = (refl, refl, h)
after_lem env version c f d Request.disconnect save h = (refl, refl, h)
after_lem env version c f d Request.shutdown save h = cc
after_lem env version c f d (Request.hello _) save h = (refl, refl, h)
after_lem env version c f d (Request.send _) save h = (refl, refl, h)
after_lem env version c f d (Request.read _ _) save h = (refl, refl, h)
after_lem env version c f d (Request.ack _ _) save h = (refl, refl, h)
after_lem env version c f d (Request.subscribe _ _) save h = (refl, refl, h)
after_lem env version c f d (Request.browse _ _ _) save h = (refl, refl, h)
after_lem env version c f d (Request.transcript _ _ _ _) save h = (refl, refl, h)
after_lem env version c f d (Request.rejections _ _ _) save h = (refl, refl, h)
after_lem env version c f d (Request.receipts _ _ _) save h = (refl, refl, h)
after_lem env version c f d (Request.reply _ _ _) save h = (refl, refl, h)
after_lem env version c f d (Request.presence _ _ _) save h = (refl, refl, h)
after_lem env version c f d (Request.pair_start _) save h = (refl, refl, h)
after_lem env version c f d (Request.pair_confirm name) save h =
    let r = pair_confirm env c.at d name in
    (files_after_confirm env c.at f d r.0 name r.1 save (ground arith), refl, h)

-- A call that is refused or only asks leaves the machine as it was.
answered-IsSame :
    (c : Caller) (q : IsUnfailing c) (m : Machine) (d : Daemon) (req : Request)
    → m.running ≡ some d
    → (is_failure (handle c.env c.version c.at (reloaded c.env m.files d) req).1 || is_question req)
      ≡ true
    → (answered c.env c.at m
        (reloaded c.env m.files d)
        req
        (handle c.env c.version c.at (reloaded c.env m.files d) req)).0
      ≡ settled c.env m
answered-IsSame c q m d req e h =
    let (files, running, safe) =
      after_lem c.env c.version c m.files (reloaded c.env m.files d) req q.1 h in
    rw
      (
        files,
        running,
        e,
        handle_unchanged c.env c.version c.at (reloaded c.env m.files d) req q.0 q.1 safe,
      )
      refl

connected_to-IsSame :
    (c : Caller) (q : IsUnfailing c) (agent : Text) (req : Request) (m : Machine)
    (o : Option Daemon)
    → m.running ≡ o
    → (is_refused (connected_to c.env c.version c.os_error c.at agent req m o).1 || is_question req)
      ≡ true
    → IsSame c.env m (connected_to c.env c.version c.os_error c.at agent req m o).0
connected_to-IsSame c q agent req m none e h = inl refl
connected_to-IsSame c q agent req m (some d) e h = elim (Bool-cases (d.identity.name == agent)) [
  | inl e' ↦ rw e' (inr (answered-IsSame c q m d req e (rw e' at h)))
  | inr e' ↦ rw e' (inl refl)
]

pub call-IsSame :
    (c : Caller) (q : IsUnfailing c) (req : Request) (m : Machine)
    → (is_refused (call c req m).1 || is_question req) ≡ true
    → IsSame c.env m (call c req m).0
unfolding call ipc_call local_agent
call-IsSame c q req m h = elim (Result-cases (load_identity c.env m.files)) [
  | inl (id, e) ↦ rw e (connected_to-IsSame c q id.name req m m.running refl (rw e at h))
  | inr (_, e) ↦ rw e (inl refl)
]

-- What changes nothing, and what changes nothing if it fails.
abbrev pub IsQuiet : {A : Type 0} → Env → M A → Type 0
IsQuiet env k = (m : Machine) → IsSame env m (k m).0

abbrev pub IsSafe : {A : Type 0} → Env → M A → Type 0
IsSafe env k = (m : Machine) → is_err (k m).1 ≡ true → IsSame env m (k m).0

continue-IsSame :
    {A B : Type 0} (env : Env) (m : Machine) (r : Machine × Result Error A) (k : A → M B)
    → IsSame env m r.0
    → ((a : A) → IsSafe env (k a))
    → is_err (continue r k).1 ≡ true
    → IsSame env m (continue r k).0
continue-IsSame env m (m', ok a) k same safe h = IsSame-trans env same (safe a m' h)
continue-IsSame env m (m', err e) k same safe h = same

pub then-IsSafe :
    {A B : Type 0} (env : Env) (k : M A) (f : A → M B)
    → IsQuiet env k
    → ((a : A) → IsSafe env (f a))
    → IsSafe env (k >>= f)
then-IsSafe env k f quiet safe m h = continue-IsSame env m (k m) f (quiet m) safe h

continue_quiet :
    {A B : Type 0} (env : Env) (m : Machine) (r : Machine × Result Error A) (k : A → M B)
    → IsSame env m r.0
    → ((a : A) → IsQuiet env (k a))
    → IsSame env m (continue r k).0
continue_quiet env m (m', ok a) k same quiet = IsSame-trans env same (quiet a m')
continue_quiet env m (m', err e) k same quiet = same

pub then-IsQuiet :
    {A B : Type 0} (env : Env) (k : M A) (f : A → M B)
    → IsQuiet env k
    → ((a : A) → IsQuiet env (f a))
    → IsQuiet env (k >>= f)
then-IsQuiet env k f quiet rest m = continue_quiet env m (k m) f (quiet m) rest

pub question-IsQuiet :
    (c : Caller) (q : IsUnfailing c) (req : Request)
    → is_question req ≡ true
    → IsQuiet c.env (call c req)
question-IsQuiet c q req h m = call-IsSame c q req m (ground (arith))

pub hello-IsQuiet : (c : Caller) (q : IsUnfailing c) → IsQuiet c.env (hello c)
unfolding hello
hello-IsQuiet c q =
    then-IsQuiet c.env (call c (Request.hello _)) _ (question-IsQuiet c q _ refl) (λ _ m. inl refl)

-- A request whose answer is shown: only a refusal may be an error.
shown_answer :
    {B : Type 0} (c : Caller) (m : Machine) (r : Machine × Result Error Response)
    (k : Response → M B)
    → (is_refused r.1 ≡ true → IsSame c.env m r.0)
    → ((resp : Response) (m' : Machine) → (k resp m').0 ≡ m')
    → ((resp : Response) (m' : Machine) → is_err (k resp m').1 ≡ true → is_failure resp ≡ true)
    → is_err (continue r k).1 ≡ true
    → IsSame c.env m (continue r k).0
shown_answer c m (m', ok resp) k same shows refused h =
    rw (shows resp m') (same (refused resp m' h))
shown_answer c m (m', err e) k same shows refused h = same refl

pub request-IsSafe :
    {B : Type 0} (c : Caller) (q : IsUnfailing c) (req : Request) (k : Response → M B)
    → ((resp : Response) (m : Machine) → (k resp m).0 ≡ m)
    → ((resp : Response) (m : Machine) → is_err (k resp m).1 ≡ true → is_failure resp ≡ true)
    → IsSafe c.env (call c req >>= k)
request-IsSafe c q req k shows refused m h =
    shown_answer c m (call c req m) k (λ r. call-IsSame c q req m (ground (arith))) shows refused h

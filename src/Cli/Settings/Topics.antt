-- ===== src/Cli/Settings/Topics.antt =====
-- The chat topics of src/cli.rs: the `config` commands keep them publishable and without repetition.
use agent_mqtt_chat.Base.{
  Text, text_eq, text_beq_iff, ◌==◌, ◌≡◌, refl, Bool, false, List, [], ◌∷◌, ◌++◌, any, ok, Result,
  ◌∙◌, ap, ◌>>=◌, not, unwrap_or, if◌then◌else◌, bind-eq-ok, Bool-cases, inl, inr, arith,
}
use agent_mqtt_chat.External.{Env, IsLawful}
use agent_mqtt_chat.Config.{Config, validate_topic}
use agent_mqtt_chat.Files.{Files, load_config, save_config}
use agent_mqtt_chat.Files.Laws.{load_config-save_config}
use agent_mqtt_chat.Cli.{Shell, Printed}
use agent_mqtt_chat.Cli.Keys.{Outcome, printed_if}
use agent_mqtt_chat.Cli.Keys.Guards.{printed_if-eq-ok}
use agent_mqtt_chat.Errors.{Error}
use agent_mqtt_chat.Cli.Settings.{
  ConfigCmd, set_broker, set_creds, set_topic, add_topic, set_security, show, config_cmd, saved,
  added_config,
}

-- Every topic passes the check, and none stands there twice.
abbrev pub AreTopics : List Text → Type 0
AreTopics [] = Unit
AreTopics (t ∷ ts) =
    (validate_topic t ≡ ok tt) × (any (λ (u : Text). u == t) ts ≡ false) × AreTopics ts

any-append_other :
    (t topic : Text) (ts : List Text)
    → any (λ (u : Text). u == t) ts ≡ false
    → (topic == t) ≡ false
    → any (λ (u : Text). u == t) (ts ++ topic ∷ []) ≡ false
any-append_other t topic [] h e = ground arith
any-append_other t topic (u ∷ ts) h e = ground (arith, any-append_other t topic ts)

AreTopics-append :
    (ts : List Text) (topic : Text)
    → AreTopics ts
    → validate_topic topic ≡ ok tt
    → any (λ (u : Text). u == topic) ts ≡ false
    → AreTopics (ts ++ topic ∷ [])
AreTopics-append [] topic h v e = (v, refl, tt)
AreTopics-append (t ∷ ts) topic h v e = (
  h.0,
  any-append_other t topic ts h.1 (ground (arith, text_beq_iff topic t, text_beq_iff t topic)),
  AreTopics-append ts topic h.2 v (ground arith),
)

-- A topic at the end, unless it is there.
abbrev pub adjoin : Text → List Text → List Text
adjoin topic [] = topic ∷ []
adjoin topic (t ∷ ts) = if t == topic then t ∷ ts else t ∷ adjoin topic ts

any-adjoin :
    (topic : Text) (ts : List Text)
    → (if any (λ (u : Text). u == topic) ts then ts else ts ++ topic ∷ []) ≡ adjoin topic ts
any-adjoin topic [] = refl
any-adjoin topic (t ∷ ts) = ground (arith, any-adjoin topic ts)

added_config-adjoin :
    (c : Config) (topic : Text) → added_config c topic ≡ record c { topics = adjoin topic c.topics }
added_config-adjoin c topic = elim (Bool-cases (any (λ (u : Text). u == topic) c.topics)) [
  | inl e ↦ ground (arith, any-adjoin topic c.topics)
  | inr e ↦ ground (arith, any-adjoin topic c.topics)
]

AreTopics-adjoin :
    (ts : List Text) (topic : Text)
    → AreTopics ts
    → validate_topic topic ≡ ok tt
    → AreTopics (adjoin topic ts)
AreTopics-adjoin ts topic h v =
    rw (← (any-adjoin topic ts)) (elim (Bool-cases (any (λ (u : Text). u == topic) ts)) [
      | inl e ↦ rw e h
      | inr e ↦ rw e (AreTopics-append ts topic h v e)
    ])

module _ (env : Env) (lawful : IsLawful env) where
  saved-topics :
      (f : Files) (c : Config) (printed : Printed) (f' : Files) (p : Printed)
      → saved env f c printed ≡ ok (f', ok p)
      → load_config env f' ≡ ok c
  saved-topics f c printed f' p h =
      let (g, written, same) =
        bind-eq-ok {B = Files × Result Error Printed} (save_config env f c)
          (λ w. ok (printed_if w printed)) h in
      (load_config-save_config env lawful f f' c
        (written ∙ ap ok (printed_if-eq-ok g printed p f' same))).0

  -- What a command of `config` shall make of the configuration, said field by field.
  abbrev pub reconfigured : Config → ConfigCmd → Config
  reconfigured c (set_broker host port no_tls) = record c {
    broker_host = host;
    broker_port = port;
    tls = not no_tls;
  }
  reconfigured c (set_creds username password) = record c {
    username = username;
    password = password;
  }
  reconfigured c (set_topic topic) = record c { topics = topic ∷ [] }
  reconfigured c (add_topic topic) = record c { topics = adjoin topic c.topics }
  reconfigured c (set_security u v e r) = record c {
    allow_unsigned = unwrap_or u c.allow_unsigned;
    accept_v1 = unwrap_or v c.accept_v1;
    require_encryption = unwrap_or e c.require_encryption;
    auto_receipts = unwrap_or r c.auto_receipts;
  }
  reconfigured c show = c

  -- The rest of a command, once the configuration is loaded.
  load-saved :
      (f : Files) (c : Config) (k : Config → Outcome) (new : Config) (printed : Printed)
      (f' : Files) (p : Printed)
      → load_config env f ≡ ok c
      → k c ≡ saved env f new printed
      → (load_config env f >>= k) ≡ ok (f', ok p)
      → load_config env f' ≡ ok new
  load-saved f c k new printed f' p loaded e h =
      saved-topics f new printed f' p (rw (← e) (rw loaded at h))

  show-loaded :
      (f : Files) (c : Config) (k : Config → Printed) (f' : Files) (p : Printed)
      → load_config env f ≡ ok c
      → ◌>>=◌ {B = Files × Result Error Printed} (load_config env f) (λ c. ok (f, ok (k c)))
        ≡ ok (f', ok p)
      → load_config env f' ≡ ok c
  show-loaded f c k f' p loaded h =
      let (c', loaded', same) =
        bind-eq-ok {B = Files × Result Error Printed} (load_config env f) (λ c. ok (f, ok (k c)))
          h in
      let e : f ≡ f' = cc in rw (← e) loaded

  -- A `config` command that succeeds saves the configuration that was loaded, with the change that was
  -- asked for and no other, and the topics remain publishable, and each stands there once.
  pub config_cmd-reconfigured :
      (sh : Shell) (json : Bool) (f : Files) (cmd : ConfigCmd) (c : Config) (f' : Files)
      (p : Printed)
      → load_config env f ≡ ok c
      → AreTopics c.topics
      → config_cmd env sh json f cmd ≡ ok (f', ok p)
      → (load_config env f' ≡ ok (reconfigured c cmd)) × AreTopics (reconfigured c cmd).topics
  unfolding config_cmd
  config_cmd-reconfigured sh json f (set_broker host port no_tls) c f' p loaded topics h =
      (load-saved f c _ _ _ f' p loaded refl h, topics)
  config_cmd-reconfigured sh json f (set_creds username password) c f' p loaded topics h =
      (load-saved f c _ _ _ f' p loaded refl h, topics)
  config_cmd-reconfigured sh json f (set_topic topic) c f' p loaded topics h =
      let (_, valid, h') = bind-eq-ok (validate_topic topic) _ h in
      (load-saved f c _ _ _ f' p loaded refl h', (valid, refl, tt))
  config_cmd-reconfigured sh json f (add_topic topic) c f' p loaded topics h =
      let (_, valid, h') = bind-eq-ok (validate_topic topic) _ h in
      (
        rw (← (added_config-adjoin c topic)) (load-saved f c _ _ _ f' p loaded refl h'),
        AreTopics-adjoin c.topics topic topics valid,
      )
  config_cmd-reconfigured sh json f (set_security u v e r) c f' p loaded topics h =
      (load-saved f c _ _ _ f' p loaded refl h, topics)
  config_cmd-reconfigured sh json f show c f' p loaded topics h =
      (show-loaded f c _ f' p loaded h, topics)

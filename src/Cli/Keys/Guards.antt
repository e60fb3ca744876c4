-- ===== src/Cli/Keys/Guards.antt =====
-- The guards of the key commands of src/cli.rs: no key is lost, and none is replaced unasked.
use agent_mqtt_chat.Base.{
  Bytes, Text, lit, text_eq, text_beq_iff, ◌==◌, ◌≡◌, refl, ◌++◌, Bool, true, false, length, Option,
  none, some, ok, err, map_err, bind-eq-ok, ◌⊎◌, inl, inr, lookup, insert, ◌∙◌, ap, is_some,
  lookup-insert, Option-cases, Bool-cases, arith, if◌then◌else◌,
}
use agent_mqtt_chat.External.{Env, IsLawful}
use agent_mqtt_chat.Wire.Kid.{validate_name}
use agent_mqtt_chat.Identity
use agent_mqtt_chat.Identity.{Identity, load-save}
use agent_mqtt_chat.Token.IdentityToken
use agent_mqtt_chat.Token.IdentityToken.{IdentityToken}
use agent_mqtt_chat.Trust.{
  TrustStore, add_with_kem, current_key, public_key, kem_public_key, authority_public_key,
}
use agent_mqtt_chat.Trust.Laws.{public_key-add_with_kem}
use agent_mqtt_chat.Files.{
  Files, Saved, after_saved, backup_done, write_to, load_identity, save_identity, load_name_fp,
  backup_identity, backed_up, name_fp_from, load_trust, save_trust,
}
use agent_mqtt_chat.Files.Laws.{load_trust-save_trust, write_to-eq-ok}
use agent_mqtt_chat.Cli.{Shell, Printed, read_token_input}
use agent_mqtt_chat.Cli.Keys.{
  Outcome, printed_if, id_generate, refuse_overwrite, displaced, agent_add, check_rotation,
}

-- What has become of the identity that was there.
abbrev pub Displaced : Env → Files → Bool → Files → Type 0
Displaced env f force f' =
    ((load_name_fp env f ≡ none) × (f'.backups ≡ f.backups))
    ⊎ ((old : Text × Text) × (load_name_fp env f ≡ some old)
        × (force ≡ true)
        × (lookup (lit "identity.json.bak-" ++ old.1) f'.backups ≡ f.identity))

refuse_overwrite-eq-ok :
    (name : Text) (force : Bool) (old : Text × Text)
    → refuse_overwrite name force (some old) ≡ ok tt
    → force ≡ true
unfolding refuse_overwrite
refuse_overwrite-eq-ok name true old h = refl
refuse_overwrite-eq-ok name false (existing, fp) h = ground arith

load_name_fp_lem :
    (env : Env) (f : Files) (old : Text × Text)
    → load_name_fp env f ≡ some old
    → name_fp_from env f.identity ≡ some old
unfolding load_name_fp
load_name_fp_lem env f old h = h

identity_there :
    (env : Env) (o : Option Bytes) (old : Text × Text)
    → name_fp_from env o ≡ some old
    → is_some o ≡ true
identity_there env none old h = cc
identity_there env (some text) old h = refl

-- Nothing but the identity and the backups is written.
abbrev pub SameOthers : Files → Files → Type 0
SameOthers f f' = (f'.authority ≡ f.authority) × (f'.config ≡ f.config) × (f'.trust ≡ f.trust)

-- A backup that succeeds has written the file under its name, and nothing else.
backed_up-eq-ok :
    (f : Files) (o : Option Bytes) (text : Bytes) (name_prefix fp : Text) (g : Files)
    → o ≡ some text
    → backup_done (backed_up f o name_prefix fp) ≡ (g, ok tt)
    → g ≡ record f { backups = insert (name_prefix ++ fp) text f.backups }
backed_up-eq-ok f none text name_prefix fp g there h = cc
backed_up-eq-ok f (some t) text name_prefix fp g there h =
    elim (Option-cases (f.faults (name_prefix ++ fp))) [
      | inr ((left, e), e') ↦ absurd (cc (rw e' at h))
      | inl e' ↦
          let same : t ≡ text = cc in
          let written_to : record f { backups = insert (name_prefix ++ fp) t f.backups } ≡ g =
            ap (λ (s : Saved). s.0) (rw e' at h) in
          rw (← written_to, same) refl
    ]

backup_identity-eq-ok :
    (env : Env) (f : Files) (old : Text × Text) (text : Bytes) (g : Files)
    → load_name_fp env f ≡ some old
    → f.identity ≡ some text
    → backup_done (backup_identity env f) ≡ (g, ok tt)
    → g ≡ record f { backups = insert (lit "identity.json.bak-" ++ old.1) text f.backups }
unfolding backup_identity
backup_identity-eq-ok env f old text g known there h =
    backed_up-eq-ok f f.identity text (lit "identity.json.bak-") old.1 g there (rw known at h)

displaced_by_backup :
    (env : Env) (f : Files) (old : Text × Text) (o : Option Bytes) (g : Files)
    → f.identity ≡ o
    → is_some o ≡ true
    → load_name_fp env f ≡ some old
    → backup_done (backup_identity env f) ≡ (g, ok tt)
    → (lookup (lit "identity.json.bak-" ++ old.1) g.backups ≡ o) × SameOthers f g
displaced_by_backup env f old none g there is known h = cc
displaced_by_backup env f old (some text) g there is known h =
    let path = lit "identity.json.bak-" ++ old.1 in
    let e = backup_identity-eq-ok env f old text g known there h in
    (
      ap (λ (g : Files). lookup path g.backups) e
          ∙ ground (arith, lookup-insert path path text f.backups, text_beq_iff path path),
      (
        ap (λ (g : Files). g.authority) e,
        ap (λ (g : Files). g.config) e,
        ap (λ (g : Files). g.trust) e,
      ),
    )

displaced_lem :
    (env : Env) (f : Files) (name : Text) (force : Bool) (o : Option (Text × Text)) (g : Files)
    → load_name_fp env f ≡ o
    → refuse_overwrite name force o ≡ ok tt
    → displaced env f o ≡ (g, ok tt)
    → Displaced env f force g × SameOthers f g
displaced_lem env f name force none g known allowed h =
    let e : f ≡ g = ap (λ (s : Saved). s.0) h in rw (← e) (inl (known, refl), (refl, refl, refl))
displaced_lem env f name force (some old) g known allowed h =
    let (kept, others) =
      displaced_by_backup env f old f.identity g refl
        (identity_there env f.identity old (load_name_fp_lem env f old known)) known h in
    (inr (old, known, refuse_overwrite-eq-ok name force old allowed, kept), others)

save_identity-eq-ok :
    (env : Env) (g : Files) (id : Identity) (f' : Files)
    → save_identity env g id ≡ (f', ok tt)
    → f' ≡ record g { identity = some (Identity.save env id) }
save_identity-eq-ok env g id f' h =
    let fine : (write_to g (lit "identity.json") (Identity.save env id)).1 ≡ ok tt =
      ap (λ (s : Saved). s.1) h in
    let full = write_to-eq-ok (g.faults (lit "identity.json")) (Identity.save env id) fine in
    rw (← (ap (λ (s : Saved). s.0) h)) (ap (λ (o : Option Bytes). record g { identity = o }) full)

-- A printed success is one of the save.
pub printed_if-eq-ok :
    (s : Saved) (q p : Printed) (f' : Files)
    → ◌≡◌ {A = Outcome} (ok (printed_if s q)) (ok (f', ok p))
    → s ≡ (f', ok tt)
printed_if-eq-ok (f, ok _) q p f' h = cc
printed_if-eq-ok (f, err e) q p f' h = cc

after_saved-eq-ok :
    (s : Saved) (k : Files → Saved) (f' : Files)
    → after_saved s k ≡ (f', ok tt)
    → (g : Files) × (s ≡ (g, ok tt)) × (k g ≡ (f', ok tt))
after_saved-eq-ok (g, ok _) k f' h = (g, refl, h)
after_saved-eq-ok (g, err e) k f' h = cc

module _ (env : Env) (lawful : IsLawful env) where
  -- An `id generate` that succeeds leaves the new identity on disk, under the given name and with the
  -- keys of the fresh seed, and no other file but a backup is written. An identity that could be read
  -- was replaced only with `--force`, and its file lies in a backup that is named for its fingerprint;
  -- a file that could not be read as an identity is replaced without a backup.
  pub id_generate-Displaced :
      (sh : Shell) (json : Bool) (f : Files) (name : Text) (force : Bool) (f' : Files) (p : Printed)
      → length sh.seed ≡ 32
      → id_generate env sh json f name force ≡ ok (f', ok p)
      → (load_identity env f' ≡ ok (Identity.generate env name sh.seed))
        × Displaced env f force f'
        × SameOthers f f'
  unfolding id_generate
  id_generate-Displaced sh json f name force f' p len h =
      let (_, named, h1) = bind-eq-ok (map_err _ (validate_name name)) _ h in
      let (_, allowed, h2) = bind-eq-ok (refuse_overwrite name force (load_name_fp env f)) _ h1 in
      let id = Identity.generate env name sh.seed in
      let (g, moved, saved) =
        after_saved-eq-ok (displaced env f (load_name_fp env f)) (λ f'. save_identity env f' id) f'
          (printed_if-eq-ok _ _ p f' h2) in
      let (gone, others) =
        displaced_lem env f name force (load_name_fp env f) g refl allowed moved in
      rw (save_identity-eq-ok env g id f' saved)
        (load-save env lawful name sh.seed len, gone, others)

  -- What `agent add` has done: the token's keys stand under its name in place of what was there, every
  -- other agent and every authority has the keys it had, and the signing key that was known under the
  -- name, if one could be read, is the same unless a rotation was asked for.
  pub record IsAdded (sh : Shell) (f : Files) (token file : Option Text) (rotate : Bool)
      (f' : Files) : Type 0 where
    pub input : Text
    pub parsed : IdentityToken
    pub old : TrustStore
    pub given : read_token_input sh token file ≡ ok input
    pub decoded : IdentityToken.decode env input ≡ ok parsed
    pub loaded : load_trust env f ≡ ok old
    pub guarded :
        (current_key env old parsed.name ≡ none)
        ⊎ (current_key env old parsed.name ≡ some parsed.public_key)
        ⊎ (rotate ≡ true)
    pub new : TrustStore
    pub saved : load_trust env f' ≡ ok new
    pub keys :
        (other : Text)
        → (public_key env new other
            ≡ (if parsed.name == other then ok parsed.public_key else public_key env old other))
          × (kem_public_key env new other ≡ (
              if parsed.name == other then parsed.kem_public_key else kem_public_key env old other))
          × (authority_public_key env new other ≡ authority_public_key env old other)

  check_rotation-eq-ok :
      (t : IdentityToken) (rotate : Bool) (old : Option Bytes) {from : Option Text}
      → check_rotation env t rotate old ≡ ok from
      → (old ≡ none) ⊎ (old ≡ some t.public_key) ⊎ (rotate ≡ true)
  unfolding check_rotation
  check_rotation-eq-ok t rotate none h = inl refl
  check_rotation-eq-ok t true (some old) h = inr (inr refl)
  check_rotation-eq-ok t false (some old) h = elim (Bool-cases (old == t.public_key)) [
    | inl e ↦
        let same : old ≡ t.public_key = ground (arith, text_beq_iff old t.public_key) in
        inr (inl (rw same refl))
    | inr e ↦ cc (rw e at h)
  ]

  written-IsAdded :
      (sh : Shell) (f : Files) (token file : Option Text) (rotate : Bool) (f' : Files)
      (input : Text) (parsed : IdentityToken) (old : TrustStore) {from : Option Text}
      → read_token_input sh token file ≡ ok input
      → IdentityToken.decode env input ≡ ok parsed
      → load_trust env f ≡ ok old
      → check_rotation env parsed rotate (current_key env old parsed.name) ≡ ok from
      → save_trust env f (add_with_kem env old parsed.name parsed.public_key parsed.kem_public_key)
        ≡ (f', ok tt)
      → IsAdded sh f token file rotate f'
  written-IsAdded sh f token file rotate f' input parsed old given decoded loaded checked e =
      record {
        input = input;
        parsed = parsed;
        old = old;
        given = given;
        decoded = decoded;
        loaded = loaded;
        guarded = check_rotation-eq-ok parsed rotate (current_key env old parsed.name) checked;
        new = add_with_kem env old parsed.name parsed.public_key parsed.kem_public_key;
        keys =
            public_key-add_with_kem env lawful old parsed.name parsed.public_key
              parsed.kem_public_key;
        saved = rw (← (ap (λ (s : Saved). s.0) e)) (
            load_trust-save_trust env lawful f
              (add_with_kem env old parsed.name parsed.public_key parsed.kem_public_key)
              (ap (λ (s : Saved). s.1) e));
      }

  -- After an `agent add` that succeeds, the keys that the saved trust store has for the token's name are
  -- those of the token, in place of the old ones: a token without an encapsulation key leaves none
  -- there, with or without `--rotate`. Every other agent and every authority has the keys it had. Where
  -- a signing key was known for the name, the token bears the same one or `--rotate` was given.
  pub agent_add-IsAdded :
      (sh : Shell) (json : Bool) (f : Files) (token file : Option Text) (rotate : Bool) (f' : Files)
      (p : Printed)
      → agent_add env sh json f token file rotate ≡ ok (f', ok p)
      → IsAdded sh f token file rotate f'
  unfolding agent_add
  agent_add-IsAdded sh json f token file rotate f' p h =
      let (input, given, h1) = bind-eq-ok (read_token_input sh token file) _ h in
      let (parsed, decoded, h2) = bind-eq-ok (IdentityToken.decode env input) _ h1 in
      let (old, loaded, h3) = bind-eq-ok (load_trust env f) _ h2 in
      let (from, checked, h4) =
        bind-eq-ok (check_rotation env parsed rotate (current_key env old parsed.name)) _ h3 in
      written-IsAdded sh f token file rotate f' input parsed old given decoded loaded checked
        (printed_if-eq-ok _ _ p f' h4)

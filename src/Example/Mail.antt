-- ===== src/Example/Mail.antt =====
-- The theorems on messages, grants and pairings at concrete inputs.
use agent_mqtt_chat.Base.{
  ◌≤◌, ◌≡◌, refl, true, false, length, none, some, ok, err, if◌then◌else◌, arith, ◌∙◌, chars,
  is_whitespace, is_control,
}
use agent_mqtt_chat.Wire.Types.{Inner, Wrapper, broadcast, ctype_pair}
use agent_mqtt_chat.Wire.Codec.{to_bytes, from_bytes}
use agent_mqtt_chat.Wire.Kid.{validate_name}
use agent_mqtt_chat.Errors.{grant_expired}
use agent_mqtt_chat.Identity.{from_seed, generate}
use agent_mqtt_chat.Crypto.{encapsulate, derive_from_seed}
use agent_mqtt_chat.Trust.{empty_trust, public_key, authority_public_key}
use agent_mqtt_chat.Trust.Laws.{public_key-add_with_kem, authority_public_key-add_authority}
use agent_mqtt_chat.Token.AuthorityToken
use agent_mqtt_chat.Grant.{verify_grant, mint, is_expired}
use agent_mqtt_chat.Grant.Laws.{IsGranted, verify_grant-IsGranted, verify_grant-mint}
use agent_mqtt_chat.Message.Build.{
  aad, build, build_pair, encrypt_inner, BuildOpts, plain_inner, wrap, pair_body, new_opts,
}
use agent_mqtt_chat.Message.Verify.{verify_incoming, fresh_enough, check_grant}
use agent_mqtt_chat.Message.Deliver.{IsWritten, verify_incoming-build}
use agent_mqtt_chat.Message.Sealed.{verify_incoming-build_sealed}
use agent_mqtt_chat.Message.Pairing.{
  verify_pair, verify_pair-build_pair, verify_pair-ProvesPossession, ProvesPossession, hello_of,
}
use agent_mqtt_chat.Example.Crates.{toy, toy-IsLawful}
use agent_mqtt_chat.Example.World.{
  alice_name, alice_seed, alice, bob_name, bob_seed, bob, human_name, human_seed, trust, now, fresh,
  policy, opts, inner, wrapper, claims, grant_of_human,
}

pub alice_valid : validate_name alice_name ≡ ok tt
unfolding validate_name chars is_whitespace is_control
alice_valid = refl

pub bob_valid : validate_name bob_name ≡ ok tt
unfolding validate_name chars is_whitespace is_control
bob_valid = refl

human_valid : validate_name human_name ≡ ok tt
unfolding validate_name chars is_whitespace is_control
human_valid = refl

pub built : build toy alice fresh opts ≡ ok (inner, wrapper)
unfolding build encrypt_inner
built = refl

pub knows_alice : public_key toy trust alice_name ≡ ok alice_seed
knows_alice =
    (authority_public_key-add_authority toy toy-IsLawful _ human_name human_seed alice_name).1
    ∙ (public_key-add_with_kem toy toy-IsLawful empty_trust alice_name alice_seed none alice_name).0

pub knows_human : authority_public_key toy trust human_name ≡ ok human_seed
knows_human =
    (authority_public_key-add_authority toy toy-IsLawful _ human_name human_seed human_name).0

in_time : fresh_enough toy now inner.ts policy.freshness_secs ≡ true
unfolding fresh_enough
in_time = refl

no_grant : check_grant toy now trust opts.grant alice_name ≡ ok tt
unfolding check_grant
no_grant = refl

verify_incoming-build_example :
    IsWritten toy alice_name fresh opts inner
    × (verify_incoming toy bob now trust policy (to_bytes toy wrapper) ≡ ok inner)
verify_incoming-build_example =
    verify_incoming-build toy toy-IsLawful bob now trust policy alice_name alice_seed fresh opts
      inner wrapper built refl refl alice_valid knows_alice (omega arith) in_time no_grant

accepted : verify_incoming toy bob now trust policy (to_bytes toy wrapper) ≡ ok inner
accepted =
    (verify_incoming-build toy toy-IsLawful bob now trust policy alice_name alice_seed fresh opts
      inner wrapper built refl refl alice_valid knows_alice (omega arith) in_time no_grant).1

unexpired : is_expired toy now claims.expiry ≡ false
unfolding is_expired
unexpired = refl

verify_grant-mint_example :
    verify_grant toy now trust (mint toy (AuthorityToken.generate toy human_name human_seed) claims)
    ≡ (if is_expired toy now claims.expiry then err grant_expired else ok claims)
verify_grant-mint_example =
    verify_grant-mint toy toy-IsLawful now trust human_name human_seed claims human_valid
      (unfold AuthorityToken.generate in knows_human)

pub granted : verify_grant toy now trust grant_of_human ≡ ok claims
granted =
    let accepted =
      verify_grant-mint toy toy-IsLawful now trust human_name human_seed claims human_valid
        (unfold AuthorityToken.generate in knows_human) in
    rw unexpired at accepted

verify_grant-IsGranted_example : IsGranted toy now trust grant_of_human claims
verify_grant-IsGranted_example = verify_grant-IsGranted toy now trust grant_of_human claims granted

abbrev hello_inner : Inner
hello_inner =
    plain_inner toy alice fresh
      (new_opts broadcast ctype_pair (toy.pair_json.encode (pair_body toy alice)))

abbrev hello_wrapper : Wrapper
hello_wrapper = wrap toy alice false (toy.inner_json.encode hello_inner)

built_hello : build_pair toy alice fresh ≡ ok (hello_inner, hello_wrapper)
unfolding build_pair build encrypt_inner
built_hello = refl

verify_pair-build_pair_example : verify_pair toy (to_bytes toy hello_wrapper) ≡ ok (hello_of alice)
verify_pair-build_pair_example =
    verify_pair-build_pair toy toy-IsLawful alice_name alice_seed fresh hello_inner hello_wrapper
      alice_valid built_hello

proven : verify_pair toy (to_bytes toy hello_wrapper) ≡ ok (hello_of alice)
proven =
    verify_pair-build_pair toy toy-IsLawful alice_name alice_seed fresh hello_inner hello_wrapper
      alice_valid built_hello

verify_pair-ProvesPossession_example :
    (w : Wrapper) × (from_bytes toy (to_bytes toy hello_wrapper) ≡ ok w)
    × ProvesPossession toy w (hello_of alice)
verify_pair-ProvesPossession_example =
    verify_pair-ProvesPossession toy (to_bytes toy hello_wrapper) (hello_of alice) proven

abbrev sealed_opts : BuildOpts
sealed_opts = record opts { encrypt_to = some bob.kem_ek }

built_sealed : (p : Inner × Wrapper) × (build toy alice fresh sealed_opts ≡ ok p)
unfolding build encrypt_inner encapsulate from_seed derive_from_seed
built_sealed = (_, refl)

abbrev sealed_inner : Inner
sealed_inner = built_sealed.0.0

abbrev sealed_wrapper : Wrapper
sealed_wrapper = built_sealed.0.1

sealed_in_time : fresh_enough toy now sealed_inner.ts policy.freshness_secs ≡ true
unfolding fresh_enough built_sealed
sealed_in_time = refl

sealed_fits : length sealed_inner.body ≤ policy.max_payload
unfolding built_sealed aad
sealed_fits = omega arith

verify_incoming-build_sealed_example :
    (opened : Inner) × IsWritten toy alice_name fresh sealed_opts opened
    × (verify_incoming toy
          (generate toy bob_name bob_seed)
          now
          trust
          policy
          (to_bytes toy sealed_wrapper)
        ≡ ok opened)
verify_incoming-build_sealed_example =
    verify_incoming-build_sealed toy toy-IsLawful bob_name bob_seed now trust policy alice_name
      alice_seed fresh sealed_opts sealed_inner sealed_wrapper built_sealed.1 refl refl refl refl
      alice_valid knows_alice sealed_fits sealed_in_time no_grant

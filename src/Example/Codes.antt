-- ===== src/Example/Codes.antt =====
-- The theorems on tokens, keys, names and frames at concrete inputs.
use agent_mqtt_chat.Base.{
  ℕ, zero, suc, Bytes, lit, ◌≡◌, refl, [], ◌∷◌, ◌++◌, length, some, ok, err, if◌then◌else◌, arith,
  ltb, text_eq,
}
use agent_mqtt_chat.Identity.{generate, save, load, load-save}
use agent_mqtt_chat.Pair.{sas, sas_comm}
use agent_mqtt_chat.Token.IdentityToken
use agent_mqtt_chat.Token.IdentityToken.Laws.{IsToken, decode-encode, decode-IsToken}
use agent_mqtt_chat.Token.IdentityToken.{IdentityToken}
use agent_mqtt_chat.Token.AuthorityToken
use agent_mqtt_chat.Token.AuthorityToken.Laws.{decode_authority-encode}
use agent_mqtt_chat.Token.AuthorityToken.{AuthorityToken}
use agent_mqtt_chat.Ipc.Framing.{
  invalid_data, write_frame, read_frame, read_frame-write_frame, max_frame_len, write_frames,
  read_frames, read_frames-write_frames,
}
use agent_mqtt_chat.Example.Crates.{toy, toy-IsLawful}
use agent_mqtt_chat.Example.World.{alice_name, alice_seed, bob_seed}

abbrev pub filled : ℕ → Bytes
filled zero = []
filled (suc n) = 7 ∷ filled n

length-filled : (n : ℕ) → length (filled n) ≡ n
length-filled zero = refl
length-filled (suc n) = omega (arith, length-filled n)

load-save_example :
    load toy (some (save toy (generate toy alice_name (filled 32))))
    ≡ ok (generate toy alice_name (filled 32))
load-save_example = load-save toy toy-IsLawful alice_name (filled 32) (length-filled 32)

sas_comm_example : sas toy alice_seed bob_seed ≡ sas toy bob_seed alice_seed
sas_comm_example = sas_comm toy alice_seed bob_seed

abbrev pub token : IdentityToken
token = record { name = alice_name; public_key = filled 1952; kem_public_key = some bob_seed }

token-IsToken : IsToken token
token-IsToken = record { named = ground arith; key_length = length-filled 1952 }

decode-encode_example : IdentityToken.decode toy (IdentityToken.encode toy token) ≡ ok token
decode-encode_example = decode-encode toy toy-IsLawful token token-IsToken

pub decoded : IdentityToken.decode toy (IdentityToken.encode toy token) ≡ ok token
decoded = decode-encode toy toy-IsLawful token token-IsToken

decode-IsToken_example : IsToken token
decode-IsToken_example = decode-IsToken toy (IdentityToken.encode toy token) token decoded

abbrev authority_token : AuthorityToken
authority_token = record { name = alice_name; public_key = filled 1952 }

decode_authority-encode_example :
    AuthorityToken.decode toy (AuthorityToken.encode toy authority_token) ≡ ok authority_token
decode_authority-encode_example =
    decode_authority-encode toy toy-IsLawful authority_token (ground arith) (length-filled 1952)

read_frame-write_frame_example : read_frame (write_frame [] (lit "hello") ++ lit "next") ≡ (
    if ltb max_frame_len (length (lit "hello"))
    then err (invalid_data (length (lit "hello")))
    else ok (lit "hello", lit "next"))
read_frame-write_frame_example = read_frame-write_frame (lit "hello") (lit "next") (omega arith)

read_frames-write_frames_example :
    read_frames (length (lit "hello" ∷ [] ∷ [])) (write_frames [] (lit "hello" ∷ [] ∷ []))
    ≡ ok (lit "hello" ∷ [] ∷ [], [])
read_frames-write_frames_example =
    read_frames-write_frames (lit "hello" ∷ [] ∷ []) (omega arith, (omega arith, tt))

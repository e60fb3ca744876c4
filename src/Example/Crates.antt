-- ===== src/Example/Crates.antt =====
-- Concrete functions in place of the third-party crates, for the examples: they have the documented
-- behaviour that `IsLawful` states. A signature is the seed before the text, a shared secret is the
-- start of the ciphertext, and an instant is a length of text.
use agent_mqtt_chat.Base.{
  ℕ, zero, suc, ◌+◌, ◌-◌, ◌/◌, ◌%◌, ◌^◌, Bytes, Text, text_eq, text_beq_iff, ◌==◌, ℤ, pos, negsuc,
  Result, ok, ok_or, ltb_ℤ, ltb, eqb, ◌≡◌, refl, true, [], ◌∷◌, ◌++◌, Option, none, some,
  map_option, if◌then◌else◌, all, length, strip_prefix, strip_prefix-append, lit, arith,
}
use agent_mqtt_chat.External.{Env, IsLawful, Instant, is_b64}
use agent_mqtt_chat.Example.Codec.{json_of, json_of-IsRoundTrip}
use agent_mqtt_chat.Config.{Config}
use agent_mqtt_chat.Example.Documents
use agent_mqtt_chat.Example.Papers

abbrev encode_byte : ℕ → Text → Text
encode_byte zero s = b'B' ∷ s
encode_byte (suc n) s = b'A' ∷ encode_byte n s

abbrev encode : Bytes → Text
encode [] = []
encode (b ∷ s) = encode_byte b (encode s)

abbrev decode : ℕ → Text → Option Bytes
decode n [] = if eqb n 0 then some [] else none
decode n (c ∷ s) =
    let more = decode (suc n) s in
    let next = decode 0 s in
    if eqb c b'A' then more else if eqb c b'B' then map_option (λ (t : Bytes). n ∷ t) next else none

decode-encode_byte :
    (n b : ℕ) (s : Text)
    → decode n (encode_byte b s) ≡ map_option (λ (t : Bytes). (n + b) ∷ t) (decode 0 s)
decode-encode_byte n zero s = ground arith
decode-encode_byte n (suc b) s = ground (arith, decode-encode_byte (suc n) b s)

decode-encode_toy : (s : Bytes) → decode 0 (encode s) ≡ some s
decode-encode_toy [] = refl
decode-encode_toy (b ∷ s) = ground (arith, decode-encode_byte 0 b (encode s), decode-encode_toy s)

alphabet-encode_byte :
    (b : ℕ) (s : Text) → all is_b64 s ≡ true → all is_b64 (encode_byte b s) ≡ true
alphabet-encode_byte zero s h = h
alphabet-encode_byte (suc b) s h = alphabet-encode_byte b s h

alphabet-encode : (s : Bytes) → all is_b64 (encode s) ≡ true
alphabet-encode [] = refl
alphabet-encode (b ∷ s) = alphabet-encode_byte b (encode s) (alphabet-encode s)

abbrev hex_digit : ℕ → ℕ
hex_digit n = if ltb n 10 then b'0' + n else b'a' + (n - 10)

abbrev hex : Bytes → Text
hex [] = []
hex (b ∷ s) = hex_digit (b / 16 % 16) ∷ hex_digit (b % 16) ∷ hex s

-- The first bytes, filled up with zeros.
abbrev pad : ℕ → Bytes → Bytes
pad zero s = []
pad (suc n) [] = 0 ∷ pad n []
pad (suc n) (b ∷ s) = b ∷ pad n s

length-pad : (n : ℕ) (s : Bytes) → length (pad n s) ≡ n
length-pad zero s = refl
length-pad (suc n) [] = omega (arith, length-pad n [])
length-pad (suc n) (b ∷ s) = omega (arith, length-pad n s)

abbrev total : Bytes → ℕ
total [] = 0
total (b ∷ s) = b + total s

abbrev digits : ℕ → Text
digits zero = []
digits (suc n) = b'0' ∷ digits n

abbrev format : Instant → Option Text
format (pos n) = some (digits n)
format (negsuc _) = none

abbrev difference : ℤ → ℤ → ℤ
difference (pos a) (pos b) = if ltb a b then negsuc (b - a - 1) else pos (a - b)
difference (pos a) (negsuc b) = pos (a + b + 1)
difference (negsuc a) (pos b) = negsuc (a + b)
difference (negsuc a) (negsuc b) = if ltb b a then negsuc (a - b - 1) else pos (b - a)

toml_toy :
    (cfg : Config) (text : Bytes)
    → (let r : Result Text Bytes = ok ((json_of Papers.config).encode cfg) in r) ≡ ok text
    → ok_or ((json_of Papers.config).decode text) (lit "invalid document") ≡ ok cfg
toml_toy cfg text h =
    let same : (json_of Papers.config).encode cfg ≡ text = cc in
    rw (← same) (rw (json_of-IsRoundTrip Papers.config cfg) refl)

abbrev pub toy : Env
toy = record {
  b64_encode = encode;
  b64_decode = decode 0;
  b64_error = λ _. lit "invalid byte";
  json_error = λ _. lit "invalid document";
  hex_encode = hex;
  sha256 = pad 32;
  crc32 = λ b. total b % 2 ^ 32;
  is_utf8 = all (λ b. ltb b 128);
  wrapper_json = json_of Documents.wrapper;
  inner_json = json_of Documents.inner;
  grant_json = json_of Documents.signed_grant;
  claims_json = json_of Papers.claims;
  token_v1_json = json_of Papers.token_v1;
  token_v2_json = json_of Papers.token_v2;
  auth_token_json = json_of Papers.auth_token;
  pair_json = json_of Papers.pair;
  presence_json = json_of Papers.presence;
  identity_json = json_of Papers.identity;
  authority_json = json_of Papers.authority;
  trust_json = json_of Papers.trust_store;
  toml_encode = λ cfg. ok ((json_of Papers.config).encode cfg);
  toml_decode = λ text. ok_or ((json_of Papers.config).decode text) (lit "invalid document");
  dsa_public_key = λ seed. seed;
  dsa_sign = λ seed msg. seed ++ msg;
  dsa_verifying_key = some;
  dsa_signature = some;
  dsa_verify = λ key msg sig. sig == key ++ msg;
  kem_keypair = λ d z. (d, d);
  kem_encapsulation_key = some;
  kem_decapsulation_key = some;
  kem_ciphertext = some;
  kem_encapsulate = λ ek rand. some (rand, pad 32 rand);
  kem_decapsulate = λ dk ct. some (pad 32 ct);
  aes_encrypt = λ key nonce aad text. (key ++ nonce ++ aad) ++ text;
  aes_decrypt = λ key nonce aad text. strip_prefix (key ++ nonce ++ aad) text;
  parse_rfc3339 = λ s. some (pos (length s));
  format_rfc3339 = format;
  seconds_between = difference;
  is_after = λ a b. ltb_ℤ b a;
}

pub toy-IsLawful : IsLawful toy
toy-IsLawful = record {
  b64_roundtrip = decode-encode_toy;
  b64_alphabet = alphabet-encode;
  wrapper_roundtrip = json_of-IsRoundTrip Documents.wrapper;
  inner_roundtrip = json_of-IsRoundTrip Documents.inner;
  grant_roundtrip = json_of-IsRoundTrip Documents.signed_grant;
  crc_range = λ b. omega arith;
  claims_roundtrip = json_of-IsRoundTrip Papers.claims;
  token_v1_roundtrip = json_of-IsRoundTrip Papers.token_v1;
  token_v2_roundtrip = json_of-IsRoundTrip Papers.token_v2;
  auth_token_roundtrip = json_of-IsRoundTrip Papers.auth_token;
  pair_roundtrip = json_of-IsRoundTrip Papers.pair;
  presence_roundtrip = json_of-IsRoundTrip Papers.presence;
  identity_roundtrip = json_of-IsRoundTrip Papers.identity;
  authority_roundtrip = json_of-IsRoundTrip Papers.authority;
  trust_roundtrip = json_of-IsRoundTrip Papers.trust_store;
  toml_roundtrip = toml_toy;
  signs = λ seed msg. record {
    key = seed;
    signature = seed ++ msg;
    key_decodes = refl;
    signature_decodes = refl;
    accepts = (text_beq_iff (seed ++ msg) (seed ++ msg)).1 refl;
  };
  encapsulation = λ d z rand. record {
    ek = d;
    dk = d;
    ct = rand;
    secret = pad 32 rand;
    ct' = rand;
    ek_decodes = refl;
    dk_decodes = refl;
    encapsulates = refl;
    ct_decodes = refl;
    decapsulates = refl;
    secret_length = length-pad 32 rand;
  };
  aes_roundtrip = λ key nonce aad text. strip_prefix-append (key ++ nonce ++ aad) text;
}

-- ===== src/Pair.antt =====
-- src/pair.rs: the Short Authentication String of two public keys.
use agent_mqtt_chat.Base.{
  ℕ, zero, suc, ◌+◌, ◌*◌, ◌/◌, ◌%◌, ◌^◌, ◌≤◌, Bytes, Text, text_ltb, text_ltb_antisymm,
  text_ltb_asymm, ◌≡◌, ap, sym, ◌∙◌, Bool-cases, inl, inr, [], ◌∷◌, ◌++◌, Option, if◌then◌else◌,
  arith,
}
use agent_mqtt_chat.External.{Env}

-- A verified pairing hello.
pub record PairHello : Type 0 where
  pub name : Text
  pub public_key : Bytes
  pub kem_public_key : Option Bytes

-- `digest[i]`, of a digest that has such a byte.
abbrev byte_at : Bytes → ℕ → ℕ
byte_at [] i = 0
byte_at (b ∷ bs) zero = b
byte_at (b ∷ bs) (suc i) = byte_at bs i

-- `{:03}` of a number below 1000
abbrev three_digits : ℕ → Text
three_digits n = (48 + n / 100) ∷ (48 + n / 10 % 10) ∷ (48 + n % 10) ∷ []

-- The first three bytes, as a number, reduced to six decimal digits.
sas_code : Bytes → ℕ
sas_code digest =
    (byte_at digest 0 * 2 ^ 16 + byte_at digest 1 * 2 ^ 8 + byte_at digest 2) % 1_000_000

-- The two keys one behind the other, the smaller first.
ordered : Bytes → Bytes → Bytes
ordered pk_a pk_b = if text_ltb pk_b pk_a then pk_b ++ pk_a else pk_a ++ pk_b

render : Env → Bytes → Text
unfolding sas_code
render env keys =
    let code = sas_code (env.sha256 keys) in
    three_digits (code / 1000) ++ b' ' ∷ three_digits (code % 1000)

unfoldable pub sas : Env → Bytes → Bytes → Text
unfolding ordered render
sas env pk_a pk_b = render env (ordered pk_a pk_b)

ordered_comm : (a b : Bytes) → ordered a b ≡ ordered b a
unfolding ordered
ordered_comm a b = elim (Bool-cases (text_ltb b a)) [
  | inl e ↦ rw (e, text_ltb_asymm b a e)
  | inr e ↦ elim (Bool-cases (text_ltb a b)) [
    | inl e' ↦ rw (e, e')
    | inr e' ↦
        ap (λ (t : Bytes). ordered t b) (text_ltb_antisymm a b e' e)
        ∙ ap (λ (t : Bytes). ordered b t) (sym (text_ltb_antisymm a b e' e))
  ]
]

-- Both peers see the same code, whoever computes it.
pub sas_comm : (env : Env) (a b : Bytes) → sas env a b ≡ sas env b a
unfolding sas
sas_comm env a b = ap (render env) (ordered_comm a b)

-- A digit
abbrev pub IsDigit : ℕ → Type 0
IsDigit c = (48 ≤ c) × (c ≤ 57)

-- The code reads `NNN NNN`.
abbrev pub IsSas : Text → Type 0
IsSas (a ∷ b ∷ c ∷ s ∷ d ∷ e ∷ f ∷ []) =
    IsDigit a × IsDigit b × IsDigit c × (s ≡ b' ') × IsDigit d × IsDigit e × IsDigit f
IsSas _ = ⊥

pub sas-IsSas : (env : Env) (a b : Bytes) → IsSas (sas env a b)
unfolding sas
sas-IsSas env a b = omega arith

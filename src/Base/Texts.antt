-- ===== src/Base/Texts.antt =====
-- Bytes and texts. A Rust `String` is valid UTF-8, so a text here is its UTF-8 bytes: `as_bytes` is
-- the identity and `len` the length. `chars` cuts a text into characters.
use Prim.Native.Nat.{ℕ}
use Prim.Native.Char.{code}
use Prim.Native.String.{String}
use mathlib.Core.Path.{◌≡◌}
use mathlib.Core.Logic.{◌↔◌}
use mathlib.Core.Bool.{Bool, true, false, ◌&&◌, ◌||◌}
use mathlib.Core.List.{List, [], ◌∷◌}
use native.Mathlib.Omega.{arith}
use agent_mqtt_chat.Base.Tests.{eqb, HasEquality}

abbrev pub Bytes : Type 0
Bytes = List ℕ

abbrev pub Text : Type 0
Text = List ℕ

-- The code points of a literal: its bytes, since the program's literals are ASCII.
abbrev pub lit : String → Text
lit String.[] = []
lit (String.◌∷◌ c s) = code c ∷ lit s

abbrev pub text_beq : Text → Text → Bool
text_beq [] [] = true
text_beq (a ∷ s) (b ∷ t) = eqb a b && text_beq s t
text_beq _ _ = false

pub text_beq_iff : (s t : Text) → (text_beq s t ≡ true) ↔ (s ≡ t)
text_beq_iff [] [] = ground arith
text_beq_iff [] (b ∷ t) = ground arith
text_beq_iff (a ∷ s) [] = ground arith
text_beq_iff (a ∷ s) (b ∷ t) = ground (arith, text_beq_iff s t)

instance abbrev pub text_eq : HasEquality Text
text_eq = record { same = text_beq; same_iff = text_beq_iff }

-- `s.contains(c)` for an ASCII character
abbrev pub contains_byte : ℕ → Text → Bool
contains_byte c [] = false
contains_byte c (b ∷ s) = eqb b c || contains_byte c s

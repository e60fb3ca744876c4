-- ===== src/Base/Chars.antt =====
-- Characters of a UTF-8 text, `is_whitespace`, `is_control` and `trim` of the standard library.
use mathlib.Core.Path.{◌≡◌, refl}
use mathlib.Core.Bool.{Bool, true, false, ◌&&◌, ◌||◌}
use mathlib.Core.List.{List, [], ◌∷◌, ◌++◌}
use native.Mathlib.Omega.{arith}
use Prim.Native.Nat.{ℕ}
use agent_mqtt_chat.Base.Tests.{leb, eqb, if◌then◌else◌}
use agent_mqtt_chat.Base.Texts.{Text}
use agent_mqtt_chat.Base.Lists.{all}

is_continuation : ℕ → Bool
is_continuation b = leb 128 b && leb b 191

join_char : ℕ → List Text → List Text
join_char b [] = (b ∷ []) ∷ []
join_char b ([] ∷ ws) = (b ∷ []) ∷ ws
join_char b ((c ∷ w) ∷ ws) = if is_continuation c then (b ∷ c ∷ w) ∷ ws else (b ∷ []) ∷ (c ∷ w) ∷ ws

-- `s.chars()`, each character as its bytes: a continuation byte belongs to the one before it.
unfoldable pub chars : Text → List Text
unfolding join_char is_continuation
chars [] = []
chars (b ∷ s) = join_char b (chars s)

-- `c.is_whitespace()`: Unicode White_Space
unfoldable pub is_whitespace : Text → Bool
is_whitespace (a ∷ []) = eqb a 32 || leb 9 a && leb a 13
is_whitespace (a ∷ b ∷ []) = eqb a 194 && (eqb b 133 || eqb b 160)
is_whitespace (a ∷ b ∷ c ∷ []) =
    eqb a 225 && eqb b 154 && eqb c 128
    || eqb a 226 && eqb b 128 && (leb 128 c && leb c 138 || eqb c 168 || eqb c 169 || eqb c 175)
    || eqb a 226 && eqb b 129 && eqb c 159
    || eqb a 227 && eqb b 128 && eqb c 128
is_whitespace _ = false

-- `c.is_control()`: Unicode category Cc
unfoldable pub is_control : Text → Bool
is_control (a ∷ []) = leb a 31 || eqb a 127
is_control (a ∷ b ∷ []) = eqb a 194 && leb b 159
is_control _ = false

trim_start : List Text → List Text
trim_start [] = []
trim_start (w ∷ ws) = if is_whitespace w then trim_start ws else w ∷ ws

unless_blank : Text → List Text → List Text
unless_blank w [] = if is_whitespace w then [] else w ∷ []
unless_blank w (v ∷ ws) = w ∷ v ∷ ws

trim_end : List Text → List Text
trim_end [] = []
trim_end (w ∷ ws) = unless_blank w (trim_end ws)

concat : List Text → Text
concat [] = []
concat (w ∷ ws) = w ++ concat ws

-- `s.trim()`
unfoldable pub trim : Text → Text
unfolding chars is_whitespace trim_start trim_end unless_blank concat
trim s = concat (trim_end (trim_start (chars s)))

-- A printable ASCII character other than the space.
abbrev pub is_visible : ℕ → Bool
is_visible b = leb 33 b && leb b 126

singles : Text → List Text
singles [] = []
singles (b ∷ s) = (b ∷ []) ∷ singles s

chars-visible : (s : Text) → all is_visible s ≡ true → chars s ≡ singles s
unfolding chars singles
chars-visible [] h = refl
chars-visible (b ∷ []) h = refl
chars-visible (b ∷ c ∷ s) h = ground (arith, chars-visible (c ∷ s))

trim_end-singles : (s : Text) → all is_visible s ≡ true → trim_end (singles s) ≡ singles s
unfolding trim_end unless_blank singles is_whitespace
trim_end-singles [] h = refl
trim_end-singles (b ∷ []) h = ground arith
trim_end-singles (b ∷ c ∷ s) h = ground (arith, trim_end-singles (c ∷ s))

trim_start-singles : (s : Text) → all is_visible s ≡ true → trim_start (singles s) ≡ singles s
unfolding trim_start singles is_whitespace
trim_start-singles [] h = refl
trim_start-singles (b ∷ s) h = ground arith

concat-singles : (s : Text) → concat (singles s) ≡ s
unfolding concat singles
concat-singles [] = refl
concat-singles (b ∷ s) = ground (arith, concat-singles s)

-- A text of visible characters has nothing to trim.
pub trim-visible : (s : Text) → all is_visible s ≡ true → trim s ≡ s
trim-visible s h =
    unfold trim in
    rw (chars-visible s h, trim_start-singles s h, trim_end-singles s h) (concat-singles s)

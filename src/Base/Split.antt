-- ===== src/Base/Split.antt =====
-- The standard library's `strip_prefix`, `split_once` and `rsplit_once` on texts.
use mathlib.Core.Path.{◌≡◌, refl}
use mathlib.Core.Bool.{Bool, true, false}
use mathlib.Core.List.{[], ◌∷◌, ◌++◌}
use mathlib.Core.Option.{Option, none, some}
use native.Mathlib.Omega.{arith}
use Prim.Native.Nat.{ℕ}
use agent_mqtt_chat.Base.Tests.{eqb, if◌then◌else◌}
use agent_mqtt_chat.Base.Texts.{Text, contains_byte}

-- `s.strip_prefix(p)`
unfoldable pub strip_prefix : Text → Text → Option Text
strip_prefix [] s = some s
strip_prefix (a ∷ p) [] = none
strip_prefix (a ∷ p) (b ∷ s) = if eqb a b then strip_prefix p s else none

abbrev prepend : ℕ → Option (Text × Text) → Option (Text × Text)
prepend b none = none
prepend b (some (x, y)) = some (b ∷ x, y)

-- `s.split_once(c)`: at the first `c`
unfoldable pub split_once : ℕ → Text → Option (Text × Text)
split_once c [] = none
split_once c (b ∷ s) = if eqb b c then some ([], s) else prepend b (split_once c s)

abbrev or_here : Bool → ℕ → Text → Option (Text × Text) → Option (Text × Text)
or_here _ b s (some (x, y)) = some (b ∷ x, y)
or_here true b s none = some ([], s)
or_here false b s none = none

-- `s.rsplit_once(c)`: at the last `c`
unfoldable pub rsplit_once : ℕ → Text → Option (Text × Text)
rsplit_once c [] = none
rsplit_once c (b ∷ s) = or_here (eqb b c) b s (rsplit_once c s)

pub strip_prefix-append : (p s : Text) → strip_prefix p (p ++ s) ≡ some s
unfolding strip_prefix
strip_prefix-append [] s = refl
strip_prefix-append (a ∷ p) s = ground (arith, strip_prefix-append p s)

-- What `strip_prefix` leaves, put behind the prefix, is the text.
pub strip_prefix-eq-some : (p s rest : Text) → strip_prefix p s ≡ some rest → s ≡ p ++ rest
unfolding strip_prefix
strip_prefix-eq-some [] s rest h = ground arith
strip_prefix-eq-some (a ∷ p) [] rest h = cc
strip_prefix-eq-some (a ∷ p) (b ∷ s) rest h = ground (arith, strip_prefix-eq-some p s rest)

pub split_once-append :
    (c : ℕ) (x y : Text) → contains_byte c x ≡ false → split_once c (x ++ c ∷ y) ≡ some (x, y)
unfolding split_once
split_once-append c [] y h = ground arith
split_once-append c (b ∷ x) y h = ground (arith, split_once-append c x y)

-- The two parts of a split make up the text, and the first holds no separator.
pub split_once-eq-some :
    (c : ℕ) (s x y : Text)
    → split_once c s ≡ some (x, y)
    → (s ≡ x ++ c ∷ y) × (contains_byte c x ≡ false)
unfolding split_once
split_once-eq-some c [] x y h = cc
split_once-eq-some c (b ∷ s) [] y h = ground arith
split_once-eq-some c (b ∷ s) (a ∷ x) y h = ground (arith, split_once-eq-some c s x y)

rsplit_once-none : (c : ℕ) (s : Text) → contains_byte c s ≡ false → rsplit_once c s ≡ none
unfolding rsplit_once
rsplit_once-none c [] h = refl
rsplit_once-none c (b ∷ s) h = ground (arith, rsplit_once-none c s)

pub rsplit_once-append :
    (c : ℕ) (x y : Text) → contains_byte c y ≡ false → rsplit_once c (x ++ c ∷ y) ≡ some (x, y)
unfolding rsplit_once
rsplit_once-append c [] y h = ground (arith, rsplit_once-none c y h)
rsplit_once-append c (b ∷ x) y h = ground (arith, rsplit_once-append c x y h)

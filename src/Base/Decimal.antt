-- ===== src/Base/Decimal.antt =====
-- Decimal printing of unsigned integers, as `{}` formats them.
use mathlib.Core.List.{[], ◌∷◌, ◌++◌}
use Prim.Native.Nat.{ℕ, zero, suc, ◌+◌, ◌/◌, ◌%◌}
use agent_mqtt_chat.Base.Tests.{ltb, if◌then◌else◌}
use agent_mqtt_chat.Base.Texts.{Text}

-- On fuel: a number has at most as many digits as itself and one.
decimal_go : ℕ → ℕ → Text
decimal_go zero n = []
decimal_go (suc fuel) n =
    let front = decimal_go fuel (n / 10) in
    if ltb n 10 then (48 + n) ∷ [] else front ++ (48 + n % 10) ∷ []

unfoldable pub decimal : ℕ → Text
unfolding decimal_go
decimal n = decimal_go (n + 1) n

-- An em dash in UTF-8.
abbrev pub em_dash : Text
em_dash = 226 ∷ 128 ∷ 148 ∷ []

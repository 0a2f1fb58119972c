-- ===== src/Prelude/Decimal.antt =====
-- Numbers in decimal, as strconv.Itoa and the verb %d write them.
use Prim.Native.Nat.{ℕ, zero, suc, ◌+◌, ◌/◌, ◌%◌}
use mathlib.Core.List.{[], ◌∷◌}
use discobox.Prelude.Tests.{if◌then◌else◌, ltb}
use discobox.Prelude.Text.{Str}

-- The digits, put in front of those found so far; a number has fewer digits than its value plus
-- one, which is the fuel.
decimal_from : ℕ → ℕ → Str → Str
decimal_from zero n acc = acc
decimal_from (suc fuel) n acc =
    let digit = (b'0' + n % 10) ∷ acc in
    let rest = decimal_from fuel (n / 10) digit in if ltb n 10 then digit else rest

unfoldable pub decimal : ℕ → Str
unfolding decimal_from
decimal n = decimal_from (suc n) n []

-- ===== src/Common/Decimals.antt =====
-- The decimal digits of a number, as `%d` prints them.
use Prim.Native.Nat.{ℕ, zero, suc, ◌+◌, ◌/◌, ◌%◌}
use mathlib.Core.List.{[], ◌∷◌, ◌++◌}
use sfc_controller.Common.Tests.{ltb, if◌then◌else◌}
use sfc_controller.Common.Texts.{Text}

-- At most `rounds` digits.
unfoldable pub decimal_digits : ℕ → ℕ → Text
decimal_digits zero n = []
decimal_digits (suc rounds) n =
    let front = decimal_digits rounds (n / 10) in
    if ltb n 10 then (48 + n) ∷ [] else front ++ (48 + n % 10) ∷ []

-- A 64-bit number has at most 20 digits.
unfoldable pub decimal : ℕ → Text
unfolding decimal_digits
decimal n = decimal_digits 20 n

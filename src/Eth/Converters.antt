-- ===== src/Eth/Converters.antt =====
-- eth/converters.go: fractions of an ether in wei. `none` is the panic of a division by zero.
pub mod Laws
use ethier.Common.{ℕ, zero, suc, ◌+◌, ◌-◌, ◌*◌, ◌/◌, ◌^◌, Option, none, some, ◌≡◌, refl}
use ethier.Common.Int.{ℤ, pos, negsuc, negated, ◌*ℤ◌}

-- `params.Ether`, as the documentation of the functions has it.
abbrev pub wei : ℕ
wei = 10 ^ 18

-- `(*big.Int).Div`, the Euclidean quotient: the remainder is never negative.
unfoldable pub div : ℤ → ℤ → Option ℤ
div x (pos zero) = none
div (pos n) (pos (suc d)) = some (pos (n / suc d))
div (pos n) (negsuc d) = some (negated (n / suc d))
div (negsuc n) (pos (suc d)) = some (negated ((n + suc d) / suc d))
div (negsuc n) (negsuc d) = some (pos ((n + suc d) / suc d))

-- `EtherFraction`
unfoldable pub ether_fraction : ℤ → ℤ → Option ℤ
unfolding div
ether_fraction numerator denominator = div (numerator *ℤ pos wei) denominator

-- `Ether`
unfoldable pub ether : ℤ → Option ℤ
unfolding ether_fraction
ether e = ether_fraction e (pos 1)

half_down :
    (ether_fraction (negsuc 0) (pos 2) ≡ some (negsuc (5 * 10 ^ 17 - 1)))
    × (ether (pos 3) ≡ some (pos (3 * 10 ^ 18)))
unfolding ether
half_down = (refl, refl)

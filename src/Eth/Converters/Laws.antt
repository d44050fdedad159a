-- ===== src/Eth/Converters/Laws.antt =====
-- The quotient of `EtherFraction`, by its defining property.
use native.Mathlib.Nat.{div-add-mod}
use ethier.Common.{ℕ, zero, suc, ◌+◌, ◌-◌, ◌*◌, ◌/◌, ◌%◌, ◌<◌, some, ◌≡◌, ◌≢◌, refl, arith}
use ethier.Common.Int.{
  ℤ, pos, negsuc, negated, magnitude, IsSum, ◌*ℤ◌, negated_parts, negated_mul_pos,
  negated_mul_negsuc,
}
use ethier.Eth.Converters.{wei, div, ether_fraction}

-- `x` is `q * y` and a remainder from 0 to below the magnitude of `y`.
pub record IsQuotient (x y q : ℤ) : Type 0 where
  pub remainder : ℕ
  pub small : remainder < magnitude y
  pub whole : IsSum (q *ℤ y) (pos remainder) x

div-IsQuotient : (x y : ℤ) → y ≢ pos 0 → (q : ℤ) × (div x y ≡ some q) × IsQuotient x y q
unfolding div
div-IsQuotient x (pos zero) h = absurd (h refl)
div-IsQuotient (pos n) (pos (suc d)) h = (
  pos (n / suc d),
  refl,
  record {
    remainder = n % suc d;
    small = omega arith;
    whole = omega (arith, div-add-mod n (suc d));
  },
)
div-IsQuotient (pos n) (negsuc d) h = (
  negated (n / suc d),
  refl,
  record {
    remainder = n % suc d;
    small = omega arith;
    whole = omega (arith, div-add-mod n (suc d), negated_mul_negsuc (n / suc d) d);
  },
)
div-IsQuotient (negsuc n) (pos (suc d)) h = (
  negated ((n + suc d) / suc d),
  refl,
  record {
    remainder = d - (n + suc d) % suc d;
    small = omega arith;
    whole =
        omega
          (arith, div-add-mod (n + suc d) (suc d), negated_mul_pos ((n + suc d) / suc d) (suc d));
  },
)
div-IsQuotient (negsuc n) (negsuc d) h = (
  pos ((n + suc d) / suc d),
  refl,
  record {
    remainder = d - (n + suc d) % suc d;
    small = omega arith;
    whole =
        omega (arith, div-add-mod (n + suc d) (suc d), negated_parts ((n + suc d) / suc d * suc d));
  },
)

-- For every denominator other than 0, EtherFraction returns the Euclidean quotient of the numerator
-- in wei by the denominator: the remainder is at least 0 and below the denominator's magnitude.
pub ether_fraction-IsQuotient :
    (numerator denominator : ℤ)
    → denominator ≢ pos 0
    → (q : ℤ) × (ether_fraction numerator denominator ≡ some q)
      × IsQuotient (numerator *ℤ pos wei) denominator q
unfolding ether_fraction
ether_fraction-IsQuotient numerator denominator h =
    div-IsQuotient (numerator *ℤ pos wei) denominator h

-- ===== src/Common/Int.antt =====
-- Go's signed integers as mathematical ones, over the native numbers.
use Prim.Native.Nat.{ℕ, zero, suc, ◌+◌, ◌-◌, ◌*◌, ◌^◌}
use mathlib.Core.Path.{◌≡◌, refl}
use native.Mathlib.Omega.{arith}
use mathlib.Core.Bool.{Bool, true, false}
use ethier.Common.Tests.{ltb, if◌then◌else◌}

-- `negsuc n` is -(n + 1).
pub data ℤ : Type 0 where
  pos : ℕ → ℤ
  negsuc : ℕ → ℤ

abbrev pub is_negative : ℤ → Bool
is_negative (pos n) = false
is_negative (negsuc n) = true

-- The bits of a uint64, read as an int64.
abbrev pub to_int64 : ℕ → ℤ
to_int64 w = if ltb w (2 ^ 63) then pos w else negsuc (2 ^ 64 - w - 1)

-- -n
abbrev pub negated : ℕ → ℤ
negated zero = pos 0
negated (suc n) = negsuc n

abbrev pub positive_part : ℤ → ℕ
positive_part (pos n) = n
positive_part (negsuc n) = 0

abbrev pub negative_part : ℤ → ℕ
negative_part (pos n) = 0
negative_part (negsuc n) = suc n

abbrev pub magnitude : ℤ → ℕ
magnitude z = positive_part z + negative_part z

-- `a + b` is `c`, by the two parts.
abbrev pub IsSum : ℤ → ℤ → ℤ → Type 0
IsSum a b c =
    positive_part a + positive_part b + negative_part c
    ≡ negative_part a + negative_part b + positive_part c

infixl 70 ◌*ℤ◌
-- `a * b`, with the sign from the signs.
abbrev pub ◌*ℤ◌ : ℤ → ℤ → ℤ
pos a *ℤ pos b = pos (a * b)
pos a *ℤ negsuc b = negated (a * suc b)
negsuc a *ℤ pos b = negated (suc a * b)
negsuc a *ℤ negsuc b = pos (suc a * suc b)

pub negated_parts : (n : ℕ) → (positive_part (negated n) ≡ 0) × (negative_part (negated n) ≡ n)
negated_parts zero = (refl, refl)
negated_parts (suc n) = (refl, refl)

pub negated_mul_pos :
    (q d : ℕ)
    → (positive_part (negated q *ℤ pos d) ≡ 0) × (negative_part (negated q *ℤ pos d) ≡ q * d)
negated_mul_pos zero d = omega arith
negated_mul_pos (suc q) d = negated_parts (suc q * d)

pub negated_mul_negsuc :
    (q d : ℕ)
    → (positive_part (negated q *ℤ negsuc d) ≡ q * suc d)
      × (negative_part (negated q *ℤ negsuc d) ≡ 0)
negated_mul_negsuc zero d = (let (p, n) = negated_parts (0 * suc d) in omega arith)
negated_mul_negsuc (suc q) d = (refl, refl)

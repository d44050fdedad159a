-- ===== src/Golang/Print.antt =====
-- `%d` of an int.
pub mod Laws
use ethier.Common.{
  ℕ, zero, suc, ◌+◌, ◌/◌, ◌%◌, [], ◌∷◌, ◌++◌, ◌≡◌, refl, Bytes, codes, ltb, if◌then◌else◌,
}
use ethier.Common.Int.{ℤ, pos, negsuc}

-- The digits of a number; each round is for one digit.
unfoldable pub print_digits : ℕ → ℕ → Bytes
print_digits zero n = []
print_digits (suc fuel) n =
    let before = print_digits fuel (n / 10) in
    if ltb n 10 then (n + 48) ∷ [] else before ++ (n % 10 + 48) ∷ []

-- A 64-bit int has twenty digits at most.
unfoldable pub print_int : ℤ → Bytes
unfolding print_digits
print_int (pos n) = print_digits 20 n
print_int (negsuc n) = codes "-" ++ print_digits 20 (n + 1)

printed : (print_int (pos 120) ≡ codes "120") × (print_int (negsuc 0) ≡ codes "-1")
unfolding print_int
printed = (refl, refl)

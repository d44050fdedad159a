-- ===== src/Golang/Atoi.antt =====
-- `strconv.Atoi` on a 64-bit machine: an optional sign, one or more digits, the range of int.
use ethier.Common.{
  ℕ, ◌+◌, ◌-◌, ◌*◌, ◌^◌, ◌&&◌, [], ◌∷◌, Option, none, some, ◌≡◌, refl, Bytes, codes, leb, nat_beq,
  if◌then◌else◌,
}
use ethier.Common.Int.{ℤ, pos, negsuc}

-- The value of a run of digits behind `n`.
unfoldable pub read_digits : Bytes → ℕ → Option ℕ
read_digits [] n = some n
read_digits (c ∷ s) n =
    let rest = read_digits s (n * 10 + (c - 48)) in if leb 48 c && leb c 57 then rest else none

-- One digit at least.
unfoldable pub read_number : Bytes → Option ℕ
unfolding read_digits
read_number [] = none
read_number (c ∷ s) = read_digits (c ∷ s) 0

-- The largest int, `math.MaxInt64`.
abbrev pub max_int : ℕ
max_int = 2 ^ 63 - 1

non_negative : Option ℕ → Option ℤ
non_negative none = none
non_negative (some n) = if leb n max_int then some (pos n) else none

negative : Option ℕ → Option ℤ
negative none = none
negative (some n) =
    if nat_beq n 0 then some (pos 0) else if leb n (2 ^ 63) then some (negsuc (n - 1)) else none

unfoldable pub atoi : Bytes → Option ℤ
unfolding read_number non_negative negative
atoi [] = none
atoi (c ∷ s) =
    if nat_beq c 45
    then negative (read_number s)
    else if nat_beq c 43
    then non_negative (read_number s)
    else non_negative (read_number (c ∷ s))

signs : (atoi (codes "-1") ≡ some (negsuc 0)) × (atoi (codes "+42") ≡ some (pos 42))
unfolding atoi
signs = (refl, refl)

refused : (atoi [] ≡ none) × (atoi (codes "-") ≡ none) × (atoi (codes "9223372036854775808") ≡ none)
unfolding atoi
refused = (refl, refl, refl)

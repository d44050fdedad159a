-- ===== src/Golang/Space.antt =====
-- `bytes.TrimSpace`: leading and trailing Unicode white space of UTF-8 text goes. The white space
-- runes are those of `unicode.IsSpace`; the longest take three bytes.
pub mod Laws
use mathlib.Core.List.{reverse}
use ethier.Common.{
  ℕ, zero, suc, Bool, ◌&&◌, ◌||◌, [], ◌∷◌, ◌≡◌, refl, Bytes, codes, length, drop, leb, nat_beq,
  if◌then◌else◌,
}

-- Tab, line feed, vertical tab, form feed, carriage return, space.
unfoldable pub is_ascii_space : ℕ → Bool
is_ascii_space c = (leb 9 c && leb c 13) || nat_beq c 32

-- U+0085 and U+00A0.
unfoldable pub is_space_pair : ℕ → ℕ → Bool
is_space_pair a b = nat_beq a 0xc2 && (nat_beq b 0x85 || nat_beq b 0xa0)

-- U+1680, U+2000 to U+200A, U+2028, U+2029, U+202F, U+205F, U+3000.
unfoldable pub is_space_triple : ℕ → ℕ → ℕ → Bool
is_space_triple a b c =
    (nat_beq a 0xe1 && nat_beq b 0x9a && nat_beq c 0x80)
    || (nat_beq a 0xe2
        && nat_beq b 0x80
        && ((leb 0x80 c && leb c 0x8a) || nat_beq c 0xa8 || nat_beq c 0xa9 || nat_beq c 0xaf))
    || (nat_beq a 0xe2 && nat_beq b 0x81 && nat_beq c 0x9f)
    || (nat_beq a 0xe3 && nat_beq b 0x80 && nat_beq c 0x80)

-- The number of bytes of the white space rune at the front, 0 if there is none.
unfoldable pub leading : Bytes → ℕ
leading [] = 0
leading (a ∷ []) = if is_ascii_space a then 1 else 0
leading (a ∷ b ∷ []) = if is_ascii_space a then 1 else if is_space_pair a b then 2 else 0
leading (a ∷ b ∷ c ∷ s) =
    if is_ascii_space a
    then 1
    else if is_space_pair a b
    then 2
    else if is_space_triple a b c
    then 3
    else 0

-- The same at the end of a text that is given backwards.
unfoldable pub trailing : Bytes → ℕ
trailing [] = 0
trailing (c ∷ []) = if is_ascii_space c then 1 else 0
trailing (c ∷ b ∷ []) = if is_ascii_space c then 1 else if is_space_pair b c then 2 else 0
trailing (c ∷ b ∷ a ∷ s) =
    if is_ascii_space c
    then 1
    else if is_space_pair b c
    then 2
    else if is_space_triple a b c
    then 3
    else 0

-- Runes go until there is none; each is a byte at least, so the length is fuel enough.
unfoldable pub strip : (Bytes → ℕ) → ℕ → Bytes → Bytes
strip rune zero s = s
strip rune (suc fuel) s = elim (rune s) [ zero ↦ s | suc k ↦ strip rune fuel (drop (suc k) s) ]

unfoldable pub trim_space : Bytes → Bytes
unfolding strip leading trailing is_ascii_space is_space_pair is_space_triple
trim_space s =
    let left = strip leading (length s) s in reverse (strip trailing (length left) (reverse left))

inner_space_stays : trim_space (codes " \tfoo bar\r\n") ≡ codes "foo bar"
unfolding trim_space
inner_space_stays = refl

wide_space_goes : trim_space (0xc2 ∷ 0xa0 ∷ 65 ∷ 0xe3 ∷ 0x80 ∷ 0x80 ∷ []) ≡ 65 ∷ []
unfolding trim_space
wide_space_goes = refl

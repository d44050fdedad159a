-- ===== src/Shuffle/Entropy.antt =====
-- ethier/shuffle.go, type `entropy`: a 64-bit word into which sources of entropy are folded by
-- exclusive or. A run-time panic is `none`.
pub mod Laws
use Prim.Native.Nat.{bit_xor}
use mathlib.Core.List.{foldl}
use ethier.Common.Optional.{◌>>=◌}
use ethier.Common.{
  ℕ, zero, suc, ◌+◌, ◌-◌, ◌*◌, ◌/◌, ◌%◌, ◌≤◌, ◌&&◌, List, [], ◌∷◌, ◌++◌, Option, none, some, Bytes,
  length, take, drop, replicate, ltb, leb, if◌then◌else◌, ◌≡◌, refl,
}

-- `make([]byte, n)`
abbrev pub zeros : ℕ → Bytes
zeros n = replicate n 0

-- `binary.BigEndian.Uint64` of eight bytes.
abbrev pub big_endian_u64 : Bytes → ℕ
big_endian_u64 = foldl (λ n b. n * 256 + b) 0

-- `buf[i:j]`, a panic out of bounds.
unfoldable pub slice : Bytes → ℕ → ℕ → Option Bytes
slice buf i j = if leb i j && leb j (length buf) then some (take (j - i) (drop i buf)) else none

-- `for i, n := 0, len(buf); i < n; i += 8`, with fuel for the rounds.
unfoldable pub fold_words : ℕ → ℕ → Bytes → ℕ → Option ℕ
fold_words zero i buf e = none
fold_words (suc fuel) i buf e =
    let round = (do
      word ← slice buf i (i + 8)
      fold_words fuel (i + 8) buf (bit_xor e (big_endian_u64 word))) in
    if ltb i (length buf) then round else some e

-- `append(buf, make([]byte, 8-len(buf)%8)...)`
unfoldable pub pad : Bytes → Bytes
pad buf = buf ++ zeros (8 - length buf % 8)

-- `(*entropy).fold`; a loop over `n` bytes makes `n / 8` rounds and one last test.
unfoldable pub fold : ℕ → Bytes → Option ℕ
unfolding fold_words slice pad
fold e buf = fold_words (length (pad buf) / 8 + 1) 0 (pad buf) e

-- `(*entropy).hashAndFold`, over the hash that go-ethereum provides.
unfoldable pub hash_and_fold : (List Bytes → Bytes) → ℕ → List Bytes → Option ℕ
unfolding fold
hash_and_fold keccak256 e parts = fold e (keccak256 parts)

seven_bytes_of_padding : fold 0 (1 ∷ []) ≡ some 0x0100_0000_0000_0000
unfolding fold
seven_bytes_of_padding = refl

xor_with_prior : fold 42 (1 ∷ 0 ∷ 0 ∷ 0 ∷ 0 ∷ 0 ∷ 0 ∷ 43 ∷ []) ≡ some 0x0100_0000_0000_0001
unfolding fold
xor_with_prior = refl

-- ===== src/Shuffle/Tests.antt =====
-- Runs of ethier/shuffle.go, and its theorems at concrete inputs.
use mathlib.Core.List.{Perm, filter, map}
use mathlib.Core.List.Perm
use ethier.Common.{
  ℕ, zero, suc, ◌<◌, List, [], ◌∷◌, some, ◌≡◌, refl, Bytes, codes, All, length, take, nat_beq,
  if◌then◌else◌, min, ok, arith,
}
use ethier.Common.Int.{ℤ, pos}
use ethier.Golang.Sort.{IsSorted, sort_slice}
use ethier.Golang.Order.{bytes_less}
use ethier.Golang.Space.{trim_space}
use ethier.Golang.Text.{split, join}
use ethier.Shuffle.Entropy.{fold, hash_and_fold}
use ethier.Shuffle.Entropy.Laws.{words, xor_all, fold-words}
use ethier.Shuffle.Lines.{newline, sorted_non_empty}
use ethier.Shuffle.Lines.Laws.{IsLine, has_bytes, sorted_non_empty_result}
use ethier.Shuffle.Command.{Request, print_lines, shuffle}
use ethier.Shuffle.Command.Laws.{
  InRange, shuffle_result, shuffle-perm, IsComplete, shuffle-IsComplete,
}

abbrev ten_bytes : Bytes
ten_bytes = 1 ∷ 2 ∷ 3 ∷ 4 ∷ 5 ∷ 6 ∷ 7 ∷ 8 ∷ 255 ∷ 16 ∷ []

fold-words_example : fold 42 ten_bytes ≡ some (xor_all 42 (words ten_bytes))
fold-words_example = fold-words 42 ten_bytes

fold-ten_bytes : fold 42 ten_bytes ≡ some 0xfe12_0304_0506_0722
unfolding fold
fold-ten_bytes = refl

fold_short : fold 42 (1 ∷ []) ≡ some 0x0100_0000_0000_002a
unfolding fold
fold_short = refl

abbrev padded_lines : Bytes
padded_lines = codes " b \n\n\ta\nb"

abbrev clean_lines : List Bytes
clean_lines = codes "a" ∷ codes "b" ∷ codes "b" ∷ []

sorted_padded : sorted_non_empty (some padded_lines) ≡ some clean_lines
unfolding sorted_non_empty split trim_space sort_slice
sorted_padded = refl

sorted_non_empty_result_example :
    (ls : List Bytes) × (sorted_non_empty (some padded_lines) ≡ some ls)
    × IsSorted bytes_less ls
    × All IsLine ls
    × Perm ls (filter has_bytes (map trim_space (split newline padded_lines)))
sorted_non_empty_result_example = sorted_non_empty_result padded_lines

abbrev one_order : List Bytes
one_order = codes "x" ∷ codes " y" ∷ codes "z" ∷ []

abbrev other_order : List Bytes
other_order = codes " y" ∷ codes "x" ∷ codes "z" ∷ []

orders-perm : Perm one_order other_order
orders-perm = Perm.swap (codes " y") (codes "x") (codes "z" ∷ [])

-- A generator that reverses the ends, over a hash that joins its parts.
abbrev last_index : ℕ → List (ℕ × ℕ)
last_index zero = []
last_index (suc n) = (0, n) ∷ []

abbrev swap_ends : ℤ → ℕ → List (ℕ × ℕ)
swap_ends seed n = last_index n

abbrev toy_hash : List Bytes → Bytes
toy_hash parts = join 0 parts

last_index-InRange : (n : ℕ) → All (λ p. (p.0 < n) × (p.1 < n)) (last_index n)
last_index-InRange zero = tt
last_index-InRange (suc n) = omega arith

swap_ends-InRange : InRange swap_ends
swap_ends-InRange seed n = last_index-InRange n

abbrev two_of_three : Request
two_of_three = record { number = some (pos 2); entropy = some (7 ∷ []); stdin = some padded_lines }

shuffle_two : shuffle toy_hash swap_ends two_of_three ≡ ok (codes "b\nb\n")
unfolding shuffle fold hash_and_fold sorted_non_empty split join trim_space sort_slice
shuffle_two = refl

shuffle_result_example :
    (lines : List Bytes) × (out : List Bytes) × (sorted_non_empty (some padded_lines) ≡ some lines)
    × Perm out lines
    × (shuffle toy_hash swap_ends two_of_three
        ≡ ok (print_lines (take (if nat_beq 2 0 then length lines else min 2 (length lines)) out)))
shuffle_result_example =
    shuffle_result toy_hash swap_ends swap_ends-InRange two_of_three 2 7 [] padded_lines refl refl
      refl

shuffle-perm_example :
    shuffle toy_hash swap_ends (record {
      number = some (pos 1);
      entropy = some (7 ∷ []);
      stdin = some (join newline one_order);
    })
    ≡ shuffle toy_hash swap_ends (record {
      number = some (pos 1);
      entropy = some (7 ∷ []);
      stdin = some (join newline other_order);
    })
shuffle-perm_example =
    shuffle-perm toy_hash swap_ends (some (pos 1)) (some (7 ∷ [])) one_order other_order
      (omega arith) (omega arith) orders-perm

shuffle-IsComplete_example : IsComplete two_of_three
shuffle-IsComplete_example =
    shuffle-IsComplete toy_hash swap_ends two_of_three (codes "b\nb\n") shuffle_two

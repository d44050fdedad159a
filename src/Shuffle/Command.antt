-- ===== src/Shuffle/Command.antt =====
-- ethier/shuffle.go, the command `ethier shuffle`. The flags and the standard input are read by
-- cobra and the operating system, the hash is go-ethereum's, and `math/rand` picks the exchanges;
-- all four are parameters. A run-time panic is `panics`.
pub mod Laws
use ethier.Common.{
  ℕ, ◌||◌, List, [], ◌∷◌, ◌++◌, Option, none, some, Bytes, length, take, get_elem?, set, ltb,
  nat_beq, if◌then◌else◌, Outcome, ok, err, or_panic, or_err, ◌>>=◌,
}
use ethier.Common.Int.{ℤ, pos, negsuc, to_int64}
use ethier.Golang.Text.{join}
use ethier.Shuffle.Entropy.{hash_and_fold}
use ethier.Shuffle.Lines.{newline, sorted_non_empty}

-- What the command reads; `none` is the error of reading it.
pub record Request : Type 0 where
  pub number : Option ℤ
  pub entropy : Option Bytes
  pub stdin : Option Bytes

pub data ShuffleError : Type 0 where
  number_flag entropy_flag entropy_missing unreadable : ShuffleError

abbrev pub Result : Type 0 → Type 0
Result A = Outcome ShuffleError A

-- `lines[i], lines[j] = lines[j], lines[i]`, a panic out of range.
unfoldable pub swap : ℕ → ℕ → List Bytes → Option (List Bytes)
swap i j lines = elim (get_elem? lines i) [
  | none ↦ none
  | some a ↦ elim (get_elem? lines j) [ none ↦ none | some b ↦ some (set (set lines i b) j a) ]
]

-- The calls that `rand.Shuffle` makes of its callback, in turn.
unfoldable pub swap_all : List (ℕ × ℕ) → List Bytes → Option (List Bytes)
unfolding swap
swap_all [] lines = some lines
swap_all ((i, j) ∷ rest) lines = elim (swap i j lines) [
  | none ↦ none
  | some swapped ↦ swap_all rest swapped
]

-- `selectN` after its check against the number of lines `k`; a negative slice bound panics.
unfoldable pub select_count : ℤ → ℕ → Option ℕ
select_count (pos n) k = some (if nat_beq n 0 || ltb k n then k else n)
select_count (negsuc n) k = none

-- What is printed.
unfoldable pub print_lines : List Bytes → Bytes
print_lines lines = join newline lines ++ (newline ∷ [])

module _ (keccak256 : List Bytes → Bytes) (rand_swaps : ℤ → ℕ → List (ℕ × ℕ)) where
  unfoldable pub external_entropy : Option Bytes → Result ℕ
  external_entropy none = err entropy_flag
  external_entropy (some []) = err entropy_missing
  external_entropy (some (b ∷ buf)) = or_panic (hash_and_fold keccak256 0 ((b ∷ buf) ∷ []))

  -- `rand()` seeds with the entropy read as an int64.
  unfoldable pub shuffle : Request → Result Bytes
  unfolding external_entropy swap_all select_count print_lines
  shuffle r = do
    select_n ← or_err number_flag r.number
    seed ← external_entropy r.entropy
    lines ← or_err unreadable (sorted_non_empty r.stdin)
    seed' ← or_panic (hash_and_fold keccak256 seed lines)
    shuffled ← or_panic (swap_all (rand_swaps (to_int64 seed') (length lines)) lines)
    count ← or_panic (select_count select_n (length shuffled))
    ok (print_lines (take count shuffled))

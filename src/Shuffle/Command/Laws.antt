-- ===== src/Shuffle/Command/Laws.antt =====
-- The command's answers.
use mathlib.Core.List.{Perm}
use mathlib.Core.List.Perm
use ethier.Common.{
  ℕ, ◌<◌, ◌||◌, List, [], ◌∷◌, Option, none, some, ◌≡◌, refl, ◌∙◌, Bytes, All, length, take, set,
  ltb, nat_beq, if◌then◌else◌, ok, ap, or_err, or_panic, or_err-ok, or_panic-ok, bind-ok, arith,
  length-set, get_elem?_in_range, min,
}
use ethier.Common.Int.{ℤ, pos, negsuc, to_int64}
use ethier.Common.Perm.{swap-perm}
use ethier.Golang.Text.{join, Lacks}
use ethier.Shuffle.Entropy.{hash_and_fold}
use ethier.Shuffle.Entropy.Laws.{fold-words}
use ethier.Shuffle.Lines.{newline, sorted_non_empty}
use ethier.Shuffle.Lines.Laws.{sorted_non_empty_result, sorted_non_empty-perm}
use ethier.Shuffle.Command.{
  Request, number_flag, unreadable, swap, swap_all, select_count, print_lines, external_entropy,
  shuffle,
}

-- The documented contract of `rand.Shuffle(n, swap)`: it calls `swap` on indexes below `n` only.
abbrev pub InRange : (ℤ → ℕ → List (ℕ × ℕ)) → Type 0
InRange rand_swaps = (seed : ℤ) (n : ℕ) → All (λ p. (p.0 < n) × (p.1 < n)) (rand_swaps seed n)

swap_total :
    (lines : List Bytes) (i j : ℕ)
    → i < length lines
    → j < length lines
    → (out : List Bytes) × (swap i j lines ≡ some out)
      × (length out ≡ length lines)
      × Perm out lines
unfolding swap
swap_total lines i j hi hj =
    let (a, ha) = get_elem?_in_range lines i hi in
    let (b, hb) = get_elem?_in_range lines j hj in
    (
      set (set lines i b) j a,
      ground arith,
      length-set (set lines i b) j a ∙ length-set lines i b,
      swap-perm lines i j a b ha hb,
    )

swap_all_total :
    (pairs : List (ℕ × ℕ)) (n : ℕ) (lines : List Bytes)
    → length lines ≡ n
    → All (λ p. (p.0 < n) × (p.1 < n)) pairs
    → (out : List Bytes) × (swap_all pairs lines ≡ some out) × (length out ≡ n) × Perm out lines
unfolding swap_all
swap_all_total [] n lines e h = (lines, refl, e, Perm.rfl)
swap_all_total ((i, j) ∷ rest) n lines e ((hi, hj), hrest) =
    let (mid, done, same, rearranged) = swap_total lines i j (omega arith) (omega arith) in
    let (out, all_done, length_out, perm) = swap_all_total rest n mid (same ∙ e) hrest in
    (out, rw (done, swap_all) all_done, length_out, Perm.trans perm rearranged)

count-min :
    (n k : ℕ) → (if nat_beq n 0 || ltb k n then k else n) ≡ (if nat_beq n 0 then k else min n k)
count-min n k = ground arith

select_count-some :
    (z : ℤ) (k : ℕ) {count : ℕ} → select_count z k ≡ some count → (n : ℕ) × (z ≡ pos n)
unfolding select_count
select_count-some (pos n) k h = (n, refl)
select_count-some (negsuc n) k h = cc

sorted_non_empty-some :
    (stdin : Option Bytes) {lines : List Bytes}
    → sorted_non_empty stdin ≡ some lines
    → (buf : Bytes) × (stdin ≡ some buf)
unfolding sorted_non_empty
sorted_non_empty-some none h = cc
sorted_non_empty-some (some buf) h = (buf, refl)

-- What the command needs: a number that is not negative, an entropy, and an input.
pub record IsComplete (r : Request) : Type 0 where
  pub count : ℕ
  pub first : ℕ
  pub later : Bytes
  pub buf : Bytes
  pub number : r.number ≡ some (pos count)
  pub entropy : r.entropy ≡ some (first ∷ later)
  pub stdin : r.stdin ≡ some buf

module _ (keccak256 : List Bytes → Bytes) (rand_swaps : ℤ → ℕ → List (ℕ × ℕ)) where
  folded : (e : ℕ) (parts : List Bytes) → (e' : ℕ) × (hash_and_fold keccak256 e parts ≡ some e')
  unfolding hash_and_fold
  folded e parts = (_, fold-words e (keccak256 parts))

  -- With an entropy that is not empty, a number that is not negative and a readable input, and if
  -- the generator keeps to the indexes of the slice, the command succeeds: it prints the first n
  -- lines, or all where n is 0 or too large, of a rearrangement of the sorted lines.
  pub shuffle_result :
      InRange rand_swaps
      → (r : Request) (n c : ℕ) (entropy buf : Bytes) → r.number ≡ some (pos n)
      → r.entropy ≡ some (c ∷ entropy)
      → r.stdin ≡ some buf
      → (lines : List Bytes) × (out : List Bytes) × (sorted_non_empty (some buf) ≡ some lines)
        × Perm out lines
        × (shuffle keccak256 rand_swaps r
            ≡ ok (
                print_lines
                  (take (if nat_beq n 0 then length lines else min n (length lines)) out)))
  unfolding shuffle print_lines
  shuffle_result in_range r n c entropy buf hn he hs =
      let (lines, found, _, _, _) = sorted_non_empty_result buf in
      let (seed, h_seed) = folded 0 ((c ∷ entropy) ∷ []) in
      let (seed', h_seed') = folded seed lines in
      let (out, swapped, same, rearranged) =
        swap_all_total (rand_swaps (to_int64 seed') (length lines)) (length lines) lines refl
          (in_range (to_int64 seed') (length lines)) in
      (
        lines,
        out,
        found,
        rearranged,
        rw (hn, he, hs)
            (rw (h_seed, found) (rw (h_seed', swapped) (rw (same, count-min n (length lines))))),
      )

  -- Two inputs that hold the same lines, none with a line break, in whatever order get the same
  -- answer, whatever the flags, the hash and the generator are.
  pub shuffle-perm :
      (number : Option ℤ) (entropy : Option Bytes) (a b : List Bytes)
      → All (Lacks newline) a
      → All (Lacks newline) b
      → Perm a b
      → shuffle keccak256 rand_swaps
          (record { number = number; entropy = entropy; stdin = some (join newline a) })
        ≡ shuffle keccak256 rand_swaps
            (record { number = number; entropy = entropy; stdin = some (join newline b) })
  unfolding shuffle
  shuffle-perm number entropy a b ha hb p = rw (sorted_non_empty-perm a b ha hb p)

  external_entropy-ok :
      (entropy : Option Bytes) {seed : ℕ}
      → external_entropy keccak256 rand_swaps entropy ≡ ok seed
      → (c : ℕ) × (later : Bytes) × (entropy ≡ some (c ∷ later))
  unfolding external_entropy
  external_entropy-ok none h = cc
  external_entropy-ok (some []) h = cc
  external_entropy-ok (some (c ∷ later)) h = (c, later, refl)

  -- When the command succeeds, the number was read and is not negative, the entropy was read and is
  -- not empty, and the input was read.
  pub shuffle-IsComplete :
      (r : Request) (out : Bytes) → shuffle keccak256 rand_swaps r ≡ ok out → IsComplete r
  unfolding shuffle
  shuffle-IsComplete r out h =
      let (select_n, read_n, h1) = bind-ok (or_err number_flag r.number) _ h in
      let (seed, read_seed, h2) = bind-ok (external_entropy keccak256 rand_swaps r.entropy) _ h1 in
      let (lines, read_lines, h3) = bind-ok (or_err unreadable (sorted_non_empty r.stdin)) _ h2 in
      let (seed', _, h4) = bind-ok (or_panic (hash_and_fold keccak256 seed lines)) _ h3 in
      let (shuffled, _, h5) =
        bind-ok (or_panic (swap_all (rand_swaps (to_int64 seed') (length lines)) lines)) _ h4 in
      let (count, selected, _) =
        bind-ok (or_panic (select_count select_n (length shuffled))) _ h5 in
      let (n, is_number) = select_count-some select_n (length shuffled) (or_panic-ok _ selected) in
      let (c, later, is_entropy) = external_entropy-ok r.entropy read_seed in
      let (buf, is_input) = sorted_non_empty-some r.stdin (or_err-ok unreadable _ read_lines) in
      record {
        count = n;
        first = c;
        later = later;
        buf = buf;
        number = or_err-ok number_flag r.number read_n ∙ ap some is_number;
        entropy = is_entropy;
        stdin = is_input;
      }

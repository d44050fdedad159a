-- ===== src/Shuffle/Entropy/Laws.antt =====
-- What `fold` computes: the exclusive or of the big-endian words of its input.
use Prim.Native.Nat.{bit_xor}
use mathlib.Core.List.{foldl}
use ethier.Common.{
  ℕ, zero, suc, ◌+◌, ◌-◌, ◌*◌, ◌/◌, ◌%◌, ◌≤◌, ◌<◌, List, [], ◌∷◌, ◌++◌, some, Bytes, length, take,
  drop, length-append, length-drop, length-replicate, append_assoc, take-append-drop, length-take,
  ◌≡◌, refl, sym, ap, ◌∙◌, arith,
}
use ethier.Common.Xor.{zero-bit_xor, bit_xor-zero, bit_xor_comm, bit_xor_assoc, bit_xor_cancel}
use ethier.Shuffle.Entropy.{zeros, big_endian_u64, slice, fold_words, pad, fold}

-- The eight-byte words of a text, a short last one filled with zeros on the right.
pub words : Bytes → List ℕ
words [] = []
words (a ∷ b ∷ c ∷ d ∷ e ∷ f ∷ g ∷ h ∷ rest) =
    big_endian_u64 (a ∷ b ∷ c ∷ d ∷ e ∷ f ∷ g ∷ h ∷ []) ∷ words rest
words short = big_endian_u64 (short ++ zeros (8 - length short)) ∷ []

abbrev pub xor_all : ℕ → List ℕ → ℕ
xor_all = foldl bit_xor

-- The words that the loop reads: `k` full ones.
blocks : ℕ → Bytes → List ℕ
blocks zero buf = []
blocks (suc k) buf = big_endian_u64 (take 8 buf) ∷ blocks k (drop 8 buf)

drop-append : (pre rest : Bytes) → drop (length pre) (pre ++ rest) ≡ rest
drop-append [] rest = refl
drop-append (x ∷ pre) rest = drop-append pre rest

slice-append :
    (pre rest : Bytes) (i : ℕ)
    → i ≡ length pre
    → 8 ≤ length rest
    → slice (pre ++ rest) i (i + 8) ≡ some (take 8 rest)
unfolding slice
slice-append pre rest i e h =
    rw e (ground (arith, length-append pre rest, drop-append pre rest, lem))
  where
    lem : length pre + 8 - length pre ≡ 8
    lem = omega arith

fold_words-blocks :
    (k fuel : ℕ) (pre rest : Bytes) (i e : ℕ)
    → i ≡ length pre
    → length rest ≡ 8 * k
    → k < fuel
    → fold_words fuel i (pre ++ rest) e ≡ some (xor_all e (blocks k rest))
unfolding fold_words blocks
fold_words-blocks k zero pre rest i e hi hr hf = absurd (omega arith)
fold_words-blocks zero (suc fuel) pre rest i e hi hr hf = ground (arith, length-append pre rest)
fold_words-blocks (suc k) (suc fuel) pre rest i e hi hr hf =
    let front : length (take 8 rest) ≡ 8 = omega (arith, length-take 8 rest) in
    let e' = bit_xor e (big_endian_u64 (take 8 rest)) in
    let later =
      fold_words-blocks k fuel (pre ++ take 8 rest) (drop 8 rest) (i + 8) e'
        (omega (arith, length-append pre (take 8 rest))) (omega (arith, length-drop 8 rest))
        (omega arith) in
    let whole =
      append_assoc pre (take 8 rest) (drop 8 rest) ∙ ap (λ t. pre ++ t) (take-append-drop 8 rest) in
    ground
      (arith, length-append pre rest, slice-append pre rest i hi (omega arith), rw whole at later)

-- The zero word that `fold` appends to a full buffer is neutral.
blocks-words :
    (buf : Bytes) (e : ℕ)
    → xor_all e (blocks (length buf / 8 + 1) (pad buf)) ≡ xor_all e (words buf)
unfolding blocks words pad
blocks-words [] e = bit_xor-zero e
blocks-words (a ∷ []) e = refl
blocks-words (a ∷ b ∷ []) e = refl
blocks-words (a ∷ b ∷ c ∷ []) e = refl
blocks-words (a ∷ b ∷ c ∷ d ∷ []) e = refl
blocks-words (a ∷ b ∷ c ∷ d ∷ f ∷ []) e = refl
blocks-words (a ∷ b ∷ c ∷ d ∷ f ∷ g ∷ []) e = refl
blocks-words (a ∷ b ∷ c ∷ d ∷ f ∷ g ∷ h ∷ []) e = refl
blocks-words (a ∷ b ∷ c ∷ d ∷ f ∷ g ∷ h ∷ i ∷ rest) e =
    rw (count, remainder)
      (blocks-words rest (bit_xor e (big_endian_u64 (a ∷ b ∷ c ∷ d ∷ f ∷ g ∷ h ∷ i ∷ []))))
  where
    count : length (a ∷ b ∷ c ∷ d ∷ f ∷ g ∷ h ∷ i ∷ rest) / 8 + 1 ≡ suc (length rest / 8 + 1)
    count = omega arith

    remainder : length (a ∷ b ∷ c ∷ d ∷ f ∷ g ∷ h ∷ i ∷ rest) % 8 ≡ length rest % 8
    remainder = omega arith

length-pad : (buf : Bytes) → length (pad buf) ≡ 8 * (length buf / 8 + 1)
unfolding pad
length-pad buf = omega (
  arith,
  length-append buf (zeros (8 - length buf % 8)),
  length-replicate {A = ℕ} (8 - length buf % 8) 0,
)

-- fold returns for every entropy and input: the exclusive or of the entropy with the big-endian
-- words of the input, a short last word filled with zeros on the right.
pub fold-words : (e : ℕ) (buf : Bytes) → fold e buf ≡ some (xor_all e (words buf))
unfolding fold
fold-words e buf =
    fold_words-blocks (length buf / 8 + 1) (length (pad buf) / 8 + 1) [] (pad buf) 0 e refl
      (length-pad buf) (omega (arith, length-pad buf))
    ∙ ap some (blocks-words buf e)

xor_all-bit_xor : (ws : List ℕ) (e : ℕ) → xor_all e ws ≡ bit_xor e (xor_all 0 ws)
xor_all-bit_xor [] e = sym (bit_xor-zero e)
xor_all-bit_xor (w ∷ ws) e =
    rw (xor_all-bit_xor ws (bit_xor e w), xor_all-bit_xor ws (bit_xor 0 w), zero-bit_xor w)
      (bit_xor_assoc e w (xor_all 0 ws))

-- The new entropy is the old one under a mask that the input alone determines.
fold-mask : (e e' : ℕ) (buf : Bytes) → fold e buf ≡ some e' → e' ≡ bit_xor e (xor_all 0 (words buf))
fold-mask e e' buf h = cc (fold-words e buf, xor_all-bit_xor (words buf) e)

-- Folding the same input in a second time restores the entropy from before.
fold_undo : (e e' : ℕ) (buf : Bytes) → fold e buf ≡ some e' → fold e' buf ≡ some e
fold_undo e e' buf h =
    let mask = xor_all 0 (words buf) in
    fold-words e' buf
    ∙ ap some (
        xor_all-bit_xor (words buf) e'
        ∙ ap (λ t. bit_xor t mask) (fold-mask e e' buf h)
        ∙ bit_xor_cancel e mask)

-- The order in which two sources are folded into the entropy does not matter.
fold_comm :
    (e e₁ e₂ : ℕ) (a b : Bytes) → fold e a ≡ some e₁ → fold e b ≡ some e₂ → fold e₁ b ≡ fold e₂ a
fold_comm e e₁ e₂ a b ha hb =
    let to₁ = fold-mask e e₁ a ha in
    let to₂ = fold-mask e e₂ b hb in
    let mask_a = xor_all 0 (words a) in
    let mask_b = xor_all 0 (words b) in
    rw
      (fold-words e₁ b, fold-words e₂ a, xor_all-bit_xor (words b) e₁, xor_all-bit_xor (words a) e₂)
      (rw (to₁, to₂, bit_xor_assoc e mask_a mask_b, bit_xor_assoc e mask_b mask_a)
        (rw (bit_xor_comm mask_a mask_b)))

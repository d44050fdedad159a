-- ===== src/Golang/Space/Laws.antt =====
-- A trimmed text has no white space at either end, and trimming it again changes nothing.
use mathlib.Core.List.{reverse, reverse_aux, reverse-reverse, reverse-append}
use ethier.Common.{
  ℕ, zero, suc, ◌+◌, ◌≤◌, [], ◌∷◌, ◌++◌, ◌≡◌, refl, sym, ap, ◌∙◌, arith, Bytes, append_assoc,
  length, drop, take, All, length-drop, take-append-drop, inl, inr, ◌⊎◌,
}
use ethier.Golang.Space.{leading, trailing, strip, trim_space}

abbrev pub IsTrimmed : Bytes → Type 0
IsTrimmed s = (leading s ≡ 0) × (trailing (reverse s) ≡ 0)

ℕ-cases : (n : ℕ) → (n ≡ 0) ⊎ ((k : ℕ) × (n ≡ suc k))
ℕ-cases zero = inl refl
ℕ-cases (suc k) = inr (k, refl)

-- Enough fuel strips every rune at the front.
strip_done :
    (rune : Bytes → ℕ) (fuel : ℕ) (s : Bytes)
    → rune [] ≡ 0
    → length s ≤ fuel
    → rune (strip rune fuel s) ≡ 0
unfolding strip
strip_done rune zero [] e h = e
strip_done rune zero (x ∷ s) e h = absurd (omega arith)
strip_done rune (suc fuel) s e h = elim (ℕ-cases (rune s)) [
  | inl none_left ↦ rw (none_left, strip) none_left
  | inr (k, more) ↦
      rw (more, strip)
        (strip_done rune fuel (drop (suc k) s) e (omega (arith, length-drop (suc k) s)))
]

strip_same : (rune : Bytes → ℕ) (fuel : ℕ) (s : Bytes) → rune s ≡ 0 → strip rune fuel s ≡ s
unfolding strip
strip_same rune zero s h = refl
strip_same rune (suc fuel) s h = rw (h, strip)

-- Stripping keeps a suffix.
strip-append :
    (rune : Bytes → ℕ) (fuel : ℕ) (s : Bytes) → (front : Bytes) × (s ≡ front ++ strip rune fuel s)
unfolding strip
strip-append rune zero s = ([], refl)
strip-append rune (suc fuel) s = elim (ℕ-cases (rune s)) [
  | inl none_left ↦ ([], rw (none_left, strip))
  | inr (k, more) ↦
      let (front, e) = strip-append rune fuel (drop (suc k) s) in
      (
        take (suc k) s ++ front,
        rw (more, strip)
            (sym (take-append-drop (suc k) s)
              ∙ ap (λ t. take (suc k) s ++ t) e
              ∙ sym (append_assoc (take (suc k) s) front (strip rune fuel (drop (suc k) s)))),
      )
]

-- No rune appears at the front when bytes at the end go.
leading_prefix : (u v : Bytes) → leading (u ++ v) ≡ 0 → leading u ≡ 0
unfolding leading
leading_prefix [] v h = refl
leading_prefix (a ∷ []) [] h = h
leading_prefix (a ∷ []) (b ∷ []) h = ground arith
leading_prefix (a ∷ []) (b ∷ c ∷ v) h = ground arith
leading_prefix (a ∷ b ∷ []) [] h = h
leading_prefix (a ∷ b ∷ []) (c ∷ v) h = ground arith
leading_prefix (a ∷ b ∷ c ∷ u) v h = h

leading-nil : leading [] ≡ 0
unfolding leading
leading-nil = refl

trailing-nil : trailing [] ≡ 0
unfolding trailing
trailing-nil = refl

length-reverse_aux : (l r : Bytes) → length (reverse_aux l r) ≡ length l + length r
length-reverse_aux [] r = omega arith
length-reverse_aux (x ∷ l) r = omega (arith, length-reverse_aux l (x ∷ r))

-- The two passes of `trim_space`, with the rune tests left shut.
trim_space_passes :
    (s : Bytes)
    → let left = strip leading (length s) s in
      trim_space s ≡ reverse (strip trailing (length left) (reverse left))
unfolding trim_space
trim_space_passes s = refl

-- What is left has no white space at either end.
pub trim_space-IsTrimmed : (s : Bytes) → IsTrimmed (trim_space s)
trim_space-IsTrimmed s =
    let left = strip leading (length s) s in
    let back = strip trailing (length left) (reverse left) in
    let (cut, e) = strip-append trailing (length left) (reverse left) in
    let whole : left ≡ reverse back ++ reverse cut =
      sym (reverse-reverse left) ∙ ap reverse e ∙ reverse-append cut back in
    let left_done : leading left ≡ 0 = strip_done leading (length s) s leading-nil (omega arith) in
    let back_done : trailing back ≡ 0 =
      strip_done trailing (length left) (reverse left) trailing-nil
        (omega (arith, length-reverse_aux left [])) in
    rw (trim_space_passes s) (
      leading_prefix (reverse back) (reverse cut) (rw whole at left_done),
      rw (reverse-reverse back) back_done,
    )

-- Trimming leaves a trimmed text alone.
pub trim_space_of_IsTrimmed : (s : Bytes) → IsTrimmed s → trim_space s ≡ s
trim_space_of_IsTrimmed s (front, back) =
    rw (trim_space_passes s, strip_same leading (length s) s front)
      (rw (strip_same trailing (length s) (reverse s) back) (reverse-reverse s))

module _ (P : ℕ → Type 0) where
  All-drop : (n : ℕ) (s : Bytes) → All P s → All P (drop n s)
  All-drop zero s h = h
  All-drop (suc n) [] h = h
  All-drop (suc n) (x ∷ s) (_, h) = All-drop n s h

  All-reverse_aux : (l r : Bytes) → All P l → All P r → All P (reverse_aux l r)
  All-reverse_aux [] r hl hr = hr
  All-reverse_aux (x ∷ l) r (hx, hl) hr = All-reverse_aux l (x ∷ r) hl (hx, hr)

  All-strip : (rune : Bytes → ℕ) (fuel : ℕ) (s : Bytes) → All P s → All P (strip rune fuel s)
  unfolding strip
  All-strip rune zero s h = h
  All-strip rune (suc fuel) s h = elim (ℕ-cases (rune s)) [
    | inl none_left ↦ rw (none_left, strip) h
    | inr (k, more) ↦ rw (more, strip) (All-strip rune fuel (drop (suc k) s) (All-drop (suc k) s h))
  ]

  -- Trimming only removes bytes.
  pub All-trim_space : (s : Bytes) → All P s → All P (trim_space s)
  All-trim_space s h =
      let left = strip leading (length s) s in
      let kept : All P left = All-strip leading (length s) s h in
      rw (trim_space_passes s) (
        All-reverse_aux (strip trailing (length left) (reverse left)) []
          (All-strip trailing (length left) (reverse left) (All-reverse_aux left [] kept tt)) tt)

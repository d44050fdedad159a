-- ===== src/Golang/Text.antt =====
-- `bytes.Split`, `strings.Split` and `bytes.Join` with a separator of one byte.
use ethier.Common.{
  ℕ, List, [], ◌∷◌, ◌++◌, ◌≡◌, ◌≢◌, refl, ap, ◌∙◌, inl, inr, arith, Bytes, All, All-append, nat_beq,
  if◌then◌else◌, Bool-cases,
}

-- A byte in front of the first part.
push : ℕ → List Bytes → List Bytes
push c [] = (c ∷ []) ∷ []
push c (p ∷ ps) = (c ∷ p) ∷ ps

-- There is always at least one part.
unfoldable pub split : ℕ → Bytes → List Bytes
unfolding push
split sep [] = [] ∷ []
split sep (c ∷ s) = if nat_beq c sep then [] ∷ split sep s else push c (split sep s)

unfoldable pub join : ℕ → List Bytes → Bytes
join sep [] = []
join sep (p ∷ []) = p
join sep (p ∷ q ∷ ps) = p ++ (sep ∷ join sep (q ∷ ps))

-- The separator does not occur.
abbrev pub Lacks : ℕ → Bytes → Type 0
Lacks b = All (λ c. c ≢ b)

push-ne-nil : (c : ℕ) (ps : List Bytes) → push c ps ≢ []
unfolding push
push-ne-nil c [] e = cc
push-ne-nil c (p ∷ ps) e = cc

All-push :
    (sep c : ℕ) (ps : List Bytes) → c ≢ sep → All (Lacks sep) ps → All (Lacks sep) (push c ps)
unfolding push
All-push sep c [] h hp = ((h, tt), tt)
All-push sep c (p ∷ ps) h (hp, hps) = ((h, hp), hps)

-- No part holds the separator.
pub split-Lacks : (sep : ℕ) (s : Bytes) → All (Lacks sep) (split sep s)
unfolding split
split-Lacks sep [] = (tt, tt)
split-Lacks sep (c ∷ s) = elim (Bool-cases (nat_beq c sep)) [
  | inl e ↦ rw e (tt, split-Lacks sep s)
  | inr e ↦ rw e (All-push sep c (split sep s) (ground arith) (split-Lacks sep s))
]

split_last : (sep : ℕ) (p : Bytes) → Lacks sep p → split sep p ≡ p ∷ []
unfolding split
split_last sep [] h = refl
split_last sep (c ∷ p) (hc, hp) = ground (arith, split_last sep p hp)

split_first :
    (sep : ℕ) (p rest : Bytes) → Lacks sep p → split sep (p ++ (sep ∷ rest)) ≡ p ∷ split sep rest
unfolding split
split_first sep [] rest h = ground arith
split_first sep (c ∷ p) rest (hc, hp) = ground (arith, split_first sep p rest hp)

-- Parts without the separator come back from their join.
pub split-join :
    (sep : ℕ) (p : Bytes) (ps : List Bytes)
    → All (Lacks sep) (p ∷ ps)
    → split sep (join sep (p ∷ ps)) ≡ p ∷ ps
unfolding join
split-join sep p [] (hp, _) = split_last sep p hp
split-join sep p (q ∷ ps) (hp, hps) =
    split_first sep p (join sep (q ∷ ps)) hp ∙ ap (λ t. p ∷ t) (split-join sep q ps hps)

-- What no part holds, and the separator is not, does not show in the join.
pub join-Lacks : (b sep : ℕ) (ps : List Bytes) → sep ≢ b → All (Lacks b) ps → Lacks b (join sep ps)
unfolding join
join-Lacks b sep [] h hp = tt
join-Lacks b sep (p ∷ []) h (hp, _) = hp
join-Lacks b sep (p ∷ q ∷ ps) h (hp, hps) =
    All-append (λ c. c ≢ b) p (sep ∷ join sep (q ∷ ps)) hp (h, join-Lacks b sep (q ∷ ps) h hps)

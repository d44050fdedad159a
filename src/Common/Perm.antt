-- ===== src/Common/Perm.antt =====
-- An exchange of two entries of a list rearranges it.
use mathlib.Core.List.{Perm}
use mathlib.Core.List.Perm
use ethier.Common.{ℕ, zero, suc, List, [], ◌∷◌, ◌≡◌, some, get_elem?, set}

module _ {ℓ} {A : Type ℓ} where
  set-perm :
      (xs : List A) (j : ℕ) (a b : A) → get_elem? xs j ≡ some b → Perm (b ∷ set xs j a) (a ∷ xs)
  set-perm [] j a b h = cc
  set-perm (x ∷ xs) zero a b h = let same : x ≡ b = cc in rw same (Perm.swap a b xs)
  set-perm (x ∷ xs) (suc j) a b h =
      Perm.trans (Perm.swap x b (set xs j a))
        (Perm.trans (Perm.cons x (set-perm xs j a b h)) (Perm.swap a x xs))

  pub swap-perm :
      (xs : List A) (i j : ℕ) (a b : A)
      → get_elem? xs i ≡ some a
      → get_elem? xs j ≡ some b
      → Perm (set (set xs i b) j a) xs
  swap-perm [] i j a b hi hj = cc
  swap-perm (x ∷ xs) zero zero a b hi hj = let same : x ≡ a = cc in rw same Perm.rfl
  swap-perm (x ∷ xs) zero (suc j) a b hi hj =
      let same : x ≡ a = cc in rw same (set-perm xs j a b hj)
  swap-perm (x ∷ xs) (suc i) zero a b hi hj =
      let same : x ≡ b = cc in rw same (set-perm xs i b a hi)
  swap-perm (x ∷ xs) (suc i) (suc j) a b hi hj = Perm.cons x (swap-perm xs i j a b hi hj)

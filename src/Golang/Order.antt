-- ===== src/Golang/Order.antt =====
-- `bytes.Compare(a, b) == -1` and the order of strings.
use ethier.Common.{Bool, true, false, ◌&&◌, ◌||◌, [], ◌∷◌, ◌≡◌, refl, arith, Bytes, ltb, nat_beq}
use ethier.Golang.Sort.{IsLess}

abbrev pub bytes_less : Bytes → Bytes → Bool
bytes_less [] [] = false
bytes_less [] (y ∷ ys) = true
bytes_less (x ∷ xs) [] = false
bytes_less (x ∷ xs) (y ∷ ys) = ltb x y || (nat_beq x y && bytes_less xs ys)

bytes_less_asymm : (a b : Bytes) → bytes_less a b ≡ true → bytes_less b a ≡ false
bytes_less_asymm [] [] h = refl
bytes_less_asymm [] (y ∷ ys) h = refl
bytes_less_asymm (x ∷ xs) [] h = cc
bytes_less_asymm (x ∷ xs) (y ∷ ys) h = ground (arith, bytes_less_asymm xs ys)

bytes_less_trans :
    (a b c : Bytes) → bytes_less b a ≡ false → bytes_less c b ≡ false → bytes_less c a ≡ false
bytes_less_trans [] [] c p q = q
bytes_less_trans [] (y ∷ ys) [] p q = cc
bytes_less_trans [] (y ∷ ys) (z ∷ zs) p q = refl
bytes_less_trans (x ∷ xs) [] c p q = cc
bytes_less_trans (x ∷ xs) (y ∷ ys) [] p q = cc
bytes_less_trans (x ∷ xs) (y ∷ ys) (z ∷ zs) p q = ground (arith, bytes_less_trans xs ys zs)

bytes_less_antisymm : (a b : Bytes) → bytes_less a b ≡ false → bytes_less b a ≡ false → a ≡ b
bytes_less_antisymm [] [] p q = refl
bytes_less_antisymm [] (y ∷ ys) p q = cc
bytes_less_antisymm (x ∷ xs) [] p q = cc
bytes_less_antisymm (x ∷ xs) (y ∷ ys) p q = ground (arith, bytes_less_antisymm xs ys)

pub bytes_less-IsLess : IsLess bytes_less
bytes_less-IsLess = record {
  asymm = bytes_less_asymm;
  trans = bytes_less_trans;
  antisymm = bytes_less_antisymm;
}

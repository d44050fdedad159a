-- ===== src/Golang/Sort.antt =====
-- `sort.Slice` and `sort.Strings`. The algorithm is free, since the orders that the packages use
-- leave one sorted arrangement only; here it is insertion.
use mathlib.Core.List.{
  List, [], ◌∷◌, Mem, Perm, Pairwise, Pairwise-singleton, mem-cons_self, mem-cons_of_mem,
  forall_mem-cons,
}
use mathlib.Core.List.Perm
use mathlib.Core.List.Pairwise
use ethier.Common.{
  All, Bool, true, false, ◌≡◌, inl, inr, refl, ap, ap₂, ◌∙◌, Bool-cases, if◌then◌else◌,
}

Bool-set : IsSet Bool
Bool-set = hlevel

-- What makes `less` a total order: the laws of "not less, the other way round".
pub record IsLess {ℓ} {A : Type ℓ} (less : A → A → Bool) : Type ℓ where
  pub asymm : (a b : A) → less a b ≡ true → less b a ≡ false
  pub trans : (a b c : A) → less b a ≡ false → less c b ≡ false → less c a ≡ false
  pub antisymm : (a b : A) → less a b ≡ false → less b a ≡ false → a ≡ b

module _ {ℓ} {A : Type ℓ} (less : A → A → Bool) where
  insert_sorted : A → List A → List A
  insert_sorted x [] = x ∷ []
  insert_sorted x (y ∷ ys) = if less y x then y ∷ insert_sorted x ys else x ∷ y ∷ ys

  unfoldable pub sort_slice : List A → List A
  unfolding insert_sorted
  sort_slice [] = []
  sort_slice (x ∷ xs) = insert_sorted x (sort_slice xs)

  -- No later element is less than an earlier one.
  abbrev pub IsSorted : List A → Type ℓ
  IsSorted = Pairwise (λ a b. less b a ≡ false)

  insert_sorted-perm : (x : A) (l : List A) → Perm (insert_sorted x l) (x ∷ l)
  unfolding insert_sorted
  insert_sorted-perm x [] = Perm.rfl
  insert_sorted-perm x (y ∷ ys) = elim (Bool-cases (less y x)) [
    | inl p ↦ rw p (Perm.trans (Perm.cons y (insert_sorted-perm x ys)) (Perm.swap x y ys))
    | inr p ↦ rw p Perm.rfl
  ]

  -- Sorting rearranges.
  pub sort_slice-perm : (l : List A) → Perm (sort_slice l) l
  unfolding sort_slice
  sort_slice-perm [] = Perm.rfl
  sort_slice-perm (x ∷ xs) =
      Perm.trans (insert_sorted-perm x (sort_slice xs)) (Perm.cons x (sort_slice-perm xs))

  module _ {κ} (P : A → Type κ) where
    All-insert_sorted : (x : A) (l : List A) → P x → All P l → All P (insert_sorted x l)
    unfolding insert_sorted
    All-insert_sorted x [] hx hl = (hx, tt)
    All-insert_sorted x (y ∷ ys) hx (hy, hys) = elim (Bool-cases (less y x)) [
      | inl p ↦ rw p (hy, All-insert_sorted x ys hx hys)
      | inr p ↦ rw p (hx, (hy, hys))
    ]

    -- Sorting adds no element.
    pub All-sort_slice : (l : List A) → All P l → All P (sort_slice l)
    unfolding sort_slice
    All-sort_slice [] h = tt
    All-sort_slice (x ∷ xs) (hx, hxs) =
        All-insert_sorted x (sort_slice xs) hx (All-sort_slice xs hxs)

module _ {ℓ} {A : Type ℓ} {less : A → A → Bool} (order : IsLess less) where
  -- No element of the list is less than the bound.
  abbrev IsBelow : A → List A → Type ℓ
  IsBelow a l = (x : A) → Mem x l → less x a ≡ false

  IsBelow-cons : {a b : A} {l : List A} → less b a ≡ false → IsBelow a l → IsBelow a (b ∷ l)
  IsBelow-cons {a} p h = (forall_mem-cons (λ x. Bool-set _ _)).1 (p, h)

  IsBelow-perm : {a : A} {l r : List A} → Perm l r → IsBelow a r → IsBelow a l
  IsBelow-perm p h x m = h x ((Perm.mem_iff p).0 m)

  -- What is not above the head of a sorted list is not above the list.
  IsBelow-head :
      {a b : A} {l : List A} → less b a ≡ false → IsSorted less (b ∷ l) → IsBelow a (b ∷ l)
  IsBelow-head {a} {b} p (Pairwise.cons h _) = IsBelow-cons p (λ x m. order.trans a b x p (h x m))

  insert_sorted-IsSorted :
      (x : A) {l : List A} → IsSorted less l → IsSorted less (insert_sorted less x l)
  unfolding insert_sorted
  insert_sorted-IsSorted x Pairwise.nil = Pairwise-singleton _ x
  insert_sorted-IsSorted x (Pairwise.cons {a = y} {l = ys} below s) = elim (Bool-cases (less y x)) [
    | inl p ↦ rw p (
        Pairwise.cons
          (IsBelow-perm (insert_sorted-perm less x ys) (IsBelow-cons (order.asymm y x p) below))
          (insert_sorted-IsSorted x s))
    | inr p ↦ let whole = Pairwise.cons below s in rw p (Pairwise.cons (IsBelow-head p whole) whole)
  ]

  -- Sorting sorts.
  pub sort_slice-IsSorted : (l : List A) → IsSorted less (sort_slice less l)
  unfolding sort_slice
  sort_slice-IsSorted [] = Pairwise.nil
  sort_slice-IsSorted (x ∷ xs) = insert_sorted-IsSorted x (sort_slice-IsSorted xs)

  not_less_self : (c : A) → less c c ≡ false
  not_less_self c = elim (Bool-cases (less c c)) [ inl p ↦ order.asymm c c p | inr p ↦ p ]

  -- No element of a sorted list's rearrangement is less than the list's head.
  first_is_least : {a : A} {l r : List A} → IsSorted less (a ∷ l) → Perm r (a ∷ l) → IsBelow a r
  first_is_least {a} s p = IsBelow-perm p (IsBelow-head (not_less_self a) s)

  same_first :
      {a b : A} {l r : List A}
      → IsSorted less (a ∷ l)
      → IsSorted less (b ∷ r)
      → Perm (a ∷ l) (b ∷ r)
      → a ≡ b
  same_first {a} {b} sl sr p =
      order.antisymm a b (first_is_least sr p a mem-cons_self)
        (first_is_least sl (Perm.symm p) b mem-cons_self)

  -- A list has one sorted arrangement, whatever the algorithm.
  pub sorted_unique : (l r : List A) → IsSorted less l → IsSorted less r → Perm l r → l ≡ r
  sorted_unique [] r _ _ p = Perm.nil-eq p
  sorted_unique (a ∷ l) [] _ _ p = Perm.eq-nil p
  sorted_unique (a ∷ l) (b ∷ r) sl sr p =
      let first = same_first sl sr p in
      let aligned : Perm (b ∷ l) (b ∷ r) = rw first at p in
      ap₂ ◌∷◌ first
        (sorted_unique l r (Pairwise.of_cons sl) (Pairwise.of_cons sr) (Perm.cons_inv aligned))

  -- Rearranged inputs sort alike.
  pub sort_slice-eq_of_perm : {l r : List A} → Perm l r → sort_slice less l ≡ sort_slice less r
  sort_slice-eq_of_perm {l} {r} p =
      sorted_unique (sort_slice less l) (sort_slice less r) (sort_slice-IsSorted l)
        (sort_slice-IsSorted r)
        (Perm.trans (sort_slice-perm less l) (Perm.trans p (Perm.symm (sort_slice-perm less r))))

  -- A sorted list is left as it is.
  pub sort_slice_of_IsSorted : {l : List A} → IsSorted less l → sort_slice less l ≡ l
  sort_slice_of_IsSorted {l} s =
      sorted_unique (sort_slice less l) l (sort_slice-IsSorted l) s (sort_slice-perm less l)

module _ {ℓ} {A : Type ℓ} (less less' : A → A → Bool) where
  insert_sorted-agree :
      (x : A) (l : List A)
      → ((y : A) → Mem y l → less y x ≡ less' y x)
      → insert_sorted less x l ≡ insert_sorted less' x l
  unfolding insert_sorted
  insert_sorted-agree x [] h = refl
  insert_sorted-agree x (y ∷ ys) h =
      rw (h y mem-cons_self, insert_sorted-agree x ys (λ z m. h z (mem-cons_of_mem _ m)))

  -- Two tests that agree on the elements sort alike.
  pub sort_slice-agree :
      (l : List A)
      → Pairwise (λ a b. less b a ≡ less' b a) l
      → sort_slice less l ≡ sort_slice less' l
  unfolding sort_slice
  sort_slice-agree [] _ = refl
  sort_slice-agree (x ∷ xs) (Pairwise.cons h rest) =
      ap (insert_sorted less x) (sort_slice-agree xs rest)
      ∙ insert_sorted-agree x (sort_slice less' xs)
          (λ y m. h y ((Perm.mem_iff (sort_slice-perm less' xs)).0 m))

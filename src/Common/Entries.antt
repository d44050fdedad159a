-- ===== src/Common/Entries.antt =====
-- What holds of every entry of a list or a map, wherever the entry is found.
use mathlib.Core.List.{List, [], ◌∷◌}
use mathlib.Core.Option.{Option, some}
use mathlib.Core.Path.{◌≡◌, refl}
use mathlib.Core.Logic.{inl, inr}
use Prim.Native.Nat.{ℕ, zero, suc}
use ethier.Common.Tests.{Key, ◌==◌, Bool-cases}
use ethier.Common.Lists.{get_elem?}
use ethier.Common.ByteStrings.{All}
use ethier.Common.Maps.{lookup, assign}

module _ {ℓ} {A : Type ℓ} where
  -- A walk that visits nothing but entries of the list.
  abbrev pub Visits : List A → List A → Type ℓ
  Visits walked xs =
      (i : ℕ) (a : A) → get_elem? walked i ≡ some a → (j : ℕ) × (get_elem? xs j ≡ some a)

module _ {ℓ κ} {A : Type ℓ} (P : A → Type κ) where
  pub All-get_elem? : (xs : List A) (i : ℕ) (a : A) → All P xs → get_elem? xs i ≡ some a → P a
  All-get_elem? [] i a all h = cc
  All-get_elem? (x ∷ xs) zero a (p, all) h = let same : x ≡ a = cc in rw (← same) p
  All-get_elem? (x ∷ xs) (suc i) a (p, all) h = All-get_elem? xs i a all h

  pub to_All : (xs : List A) → ((i : ℕ) (a : A) → get_elem? xs i ≡ some a → P a) → All P xs
  to_All [] each = tt
  to_All (x ∷ xs) each = (each 0 x refl, to_All xs (λ i a h. each (suc i) a h))

  pub All-Visits : (walked xs : List A) → Visits walked xs → All P xs → All P walked
  All-Visits walked xs visits all =
      to_All walked (λ i a h. let (j, at) = visits i a h in All-get_elem? xs j a all at)

module _ {ℓ κ μ} {K : Type ℓ} {V : Type κ} ⦃key : Key K⦄ (P : V → Type μ) where
  -- Every value of a map.
  abbrev pub AllValues : List (K × V) → Type μ
  AllValues m = All (λ e. P e.1) m

  pub AllValues-lookup :
      (m : List (K × V)) (k : K) (v : V) → AllValues m → lookup m k ≡ some v → P v
  AllValues-lookup [] k v all h = cc
  AllValues-lookup ((k', w) ∷ m) k v (p, all) h = elim (Bool-cases (k' == k)) [
    | inl here ↦
        let found : ◌≡◌ {A = Option V} (some w) (some v) = rw here at h in
        let same : w ≡ v = cc in rw (← same) p
    | inr other ↦ AllValues-lookup m k v all (rw other at h)
  ]

  pub AllValues-assign :
      (m : List (K × V)) (k : K) (v : V) → P v → AllValues m → AllValues (assign m k v)
  AllValues-assign [] k v p all = (p, tt)
  AllValues-assign ((k', w) ∷ m) k v p (q, all) = elim (Bool-cases (k' == k)) [
    | inl here ↦ rw here (p, all)
    | inr other ↦ rw other (q, AllValues-assign m k v p all)
  ]

-- ===== src/Common/Maps.antt =====
-- Go's maps as association lists: one entry for each key, a new key at the end.
use mathlib.Core.List.{List, [], ◌∷◌}
use mathlib.Core.Option.{Option, none, some}
use mathlib.Core.Path.{◌≡◌, refl}
use native.Mathlib.Omega.{arith}
use ethier.Common.Tests.{Key, ◌==◌, if◌then◌else◌}

module _ {ℓ κ} {K : Type ℓ} {V : Type κ} ⦃key : Key K⦄ where
  -- `m[k]`
  abbrev pub lookup : List (K × V) → K → Option V
  lookup [] k = none
  lookup ((k', v) ∷ rest) k = if k' == k then some v else lookup rest k

  -- `m[k] = v`
  abbrev pub assign : List (K × V) → K → V → List (K × V)
  assign [] k v = (k, v) ∷ []
  assign ((k', v') ∷ rest) k v = if k' == k then (k', v) ∷ rest else (k', v') ∷ assign rest k v

  pub lookup-assign :
      (m : List (K × V)) (k : K) (v : V) (j : K)
      → lookup (assign m k v) j ≡ (if k == j then some v else lookup m j)
  lookup-assign [] k v j = refl
  lookup-assign ((i, w) ∷ rest) k v j =
      ground (arith, lookup-assign rest k v j, key.same_iff i k, key.same_iff i j, key.same_iff k j)

  pub lookup-assign_self : (m : List (K × V)) (k : K) (v : V) → lookup (assign m k v) k ≡ some v
  lookup-assign_self m k v = ground (arith, lookup-assign m k v k, key.same_iff k k)

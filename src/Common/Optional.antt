-- ===== src/Common/Optional.antt =====
-- Chains of steps each of which may have no result.
use mathlib.Core.Option.{Option, none, some}
use mathlib.Core.Path.{◌≡◌, refl}

infixl 5 ◌>>=◌
abbrev pub ◌>>=◌ {ℓ κ} : {A : Type ℓ} {B : Type κ} → Option A → (A → Option B) → Option B
none >>= f = none
some a >>= f = f a

-- A chain with a result has one at its first step, and in what follows it.
pub bind-some {ℓ κ} :
    {A : Type ℓ} {B : Type κ} (first : Option A) (later : A → Option B) {result : B}
    → (first >>= later) ≡ some result
    → (a : A) × (first ≡ some a) × (later a ≡ some result)
bind-some none later h = cc
bind-some (some a) later h = (a, refl, h)

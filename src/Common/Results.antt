-- ===== src/Common/Results.antt =====
-- What a Go function with a result and an error returns, or the run-time panic it ends in.
use mathlib.Core.Path.{◌≡◌, refl}
use mathlib.Core.Logic.{◌⊎◌, inl, inr}
use mathlib.Core.Option.{Option, none, some}

pub data Outcome {ℓ κ} (E : Type ℓ) (A : Type κ) : Type (ℓ ⊔ κ) where
  ok : A → Outcome E A
  err : E → Outcome E A
  panics : Outcome E A

infixl 5 ◌>>=◌ ◌>>◌
abbrev pub ◌>>=◌ {ℓ κ κ'} :
    {E : Type ℓ} {A : Type κ} {B : Type κ'} → Outcome E A → (A → Outcome E B) → Outcome E B
ok a >>= f = f a
err e >>= f = err e
panics >>= f = panics

abbrev pub ◌>>◌ {ℓ κ} : {E : Type ℓ} {B : Type κ} → Outcome E (Unit {0}) → Outcome E B → Outcome E B
m >> k = m >>= λ _. k

-- A lookup whose failure is a panic: an index out of range, a nil pointer, a nil map.
abbrev pub or_panic {ℓ κ} : {E : Type ℓ} {A : Type κ} → Option A → Outcome E A
or_panic none = panics
or_panic (some a) = ok a

-- A lookup whose failure is an error.
abbrev pub or_err {ℓ κ} : {E : Type ℓ} {A : Type κ} → E → Option A → Outcome E A
or_err e none = err e
or_err e (some a) = ok a

-- A chain that succeeds succeeded at its first step, and in what follows it.
pub bind-ok {ℓ κ κ'} :
    {E : Type ℓ} {A : Type κ} {B : Type κ'} (first : Outcome E A) (later : A → Outcome E B)
    {result : B}
    → (first >>= later) ≡ ok result
    → (a : A) × (first ≡ ok a) × (later a ≡ ok result)
bind-ok (ok a) later h = (a, refl, h)
bind-ok (err e) later h = cc
bind-ok panics later h = cc

pub or_panic-ok {ℓ κ} :
    {E : Type ℓ} {A : Type κ} (o : Option A) {a : A} → or_panic {E = E} o ≡ ok a → o ≡ some a
or_panic-ok none h = cc
or_panic-ok (some b) h = cc

pub or_err-ok {ℓ κ} :
    {E : Type ℓ} {A : Type κ} (e : E) (o : Option A) {a : A} → or_err e o ≡ ok a → o ≡ some a
or_err-ok e none h = cc
or_err-ok e (some b) h = cc

-- The result, where the caller panics on an error.
abbrev pub succeeded {ℓ κ} : {E : Type ℓ} {A : Type κ} → Outcome E A → Option A
succeeded (ok a) = some a
succeeded (err e) = none
succeeded panics = none

pub succeeded-some {ℓ κ} :
    {E : Type ℓ} {A : Type κ} (o : Outcome E A) {a : A} → succeeded o ≡ some a → o ≡ ok a
succeeded-some (ok b) h = cc
succeeded-some (err e) h = cc
succeeded-some panics h = cc

-- A branch of a call that succeeded.
pub ok-injective {ℓ κ} :
    {E : Type ℓ} {A : Type κ} {a b : A} → ◌≡◌ {A = Outcome E A} (ok a) (ok b) → a ≡ b
ok-injective h = cc

pub Outcome-cases {ℓ κ} :
    {E : Type ℓ} {A : Type κ} (o : Outcome E A)
    → ((a : A) × (o ≡ ok a)) ⊎ (((e : E) × (o ≡ err e)) ⊎ (o ≡ panics))
Outcome-cases (ok a) = inl (a, refl)
Outcome-cases (err e) = inr (inl (e, refl))
Outcome-cases panics = inr (inr refl)

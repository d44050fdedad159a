-- ===== src/Common/ByteStrings.antt =====
-- Byte strings: Go's `[]byte` and `string` as lists of numbers below 256.
use Prim.Native.Nat.{ℕ, ◌<◌}
use Prim.Native.Char.{code}
use Prim.Native.String.{String}
use mathlib.Core.Bool.{Bool, true, false, ◌&&◌}
use mathlib.Core.List.{List, [], ◌∷◌, ◌++◌}
use mathlib.Core.Logic.{◌↔◌}
use mathlib.Core.Path.{◌≡◌, refl}
use native.Mathlib.Omega.{arith}
use ethier.Common.Tests.{Key, nat_beq}

abbrev pub Bytes : Type 0
Bytes = List ℕ

-- The code points of a literal, its bytes where the text is ASCII.
abbrev pub codes : String → Bytes
codes String.[] = []
codes (String.◌∷◌ c s) = code c ∷ codes s

module _ {ℓ κ} {A : Type ℓ} (P : A → Type κ) where
  abbrev pub All : List A → Type κ
  All [] = Unit
  All (x ∷ xs) = P x × All xs

  pub All-append : (xs ys : List A) → All xs → All ys → All (xs ++ ys)
  All-append [] ys hx hy = hy
  All-append (x ∷ xs) ys (px, hx) hy = (px, All-append xs ys hx hy)

abbrev pub IsBytes : Bytes → Type 0
IsBytes = All (λ b. b < 256)

abbrev pub bytes_beq : Bytes → Bytes → Bool
bytes_beq [] [] = true
bytes_beq [] (b ∷ bs) = false
bytes_beq (a ∷ as') [] = false
bytes_beq (a ∷ as') (b ∷ bs) = nat_beq a b && bytes_beq as' bs

pub bytes_beq_sound : (as' bs : Bytes) → bytes_beq as' bs ≡ true → as' ≡ bs
bytes_beq_sound [] [] h = refl
bytes_beq_sound [] (b ∷ bs) h = cc
bytes_beq_sound (a ∷ as') [] h = cc
bytes_beq_sound (a ∷ as') (b ∷ bs) h = ground (arith, bytes_beq_sound as' bs)

pub bytes_beq_self : (as' : Bytes) → bytes_beq as' as' ≡ true
bytes_beq_self [] = refl
bytes_beq_self (a ∷ as') = ground (arith, bytes_beq_self as')

pub bytes_beq_iff : (as' bs : Bytes) → (bytes_beq as' bs ≡ true) ↔ (as' ≡ bs)
bytes_beq_iff as' bs = (bytes_beq_sound as' bs, λ e. rw e (bytes_beq_self bs))

instance abbrev pub bytes_key : Key Bytes
bytes_key = record { same = bytes_beq; same_iff = bytes_beq_iff }

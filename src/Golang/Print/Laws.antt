-- ===== src/Golang/Print/Laws.antt =====
-- A number that is printed is read back.
use ethier.Common.{
  ℕ, zero, suc, ◌+◌, ◌-◌, ◌*◌, ◌/◌, ◌%◌, ◌^◌, ◌<◌, true, [], ◌∷◌, ◌++◌, append_assoc, append-nil,
  Option, some, ◌≡◌, refl, sym, ap, ◌∙◌, Bytes, leb, ltb, Bool-cases, inl, inr, arith,
}
use native.Mathlib.Nat.{pow-suc}
use ethier.Golang.Atoi.{read_digits}
use ethier.Golang.Print.{print_digits}

read_digit :
    (d : ℕ) (s : Bytes) (n : ℕ) → d < 10 → read_digits ((d + 48) ∷ s) n ≡ read_digits s (n * 10 + d)
unfolding read_digits
read_digit d s n h =
    let low : leb 48 (d + 48) ≡ true = ground arith in
    let high : leb (d + 48) 57 ≡ true = ground arith in
    let value : d + 48 - 48 ≡ d = omega arith in rw (read_digits, low, high, value)

-- A text that begins with a printed number is read from behind it.
pub read_digits-print_digits :
    (fuel n : ℕ) (s : Bytes)
    → n < 10 ^ fuel
    → read_digits (print_digits fuel n ++ s) 0 ≡ read_digits s n
unfolding print_digits
read_digits-print_digits zero n s h = let e : 0 ≡ n = omega arith in ap (read_digits s) e
read_digits-print_digits (suc fuel) n s h = elim (Bool-cases (ltb n 10)) [
  | inl small ↦ rw small (read_digit n s 0 (ground arith) ∙ ap (read_digits s) (omega arith))
  | inr large ↦ rw large (
      ap (λ t. read_digits t 0) (append_assoc (print_digits fuel (n / 10)) ((n % 10 + 48) ∷ []) s)
      ∙ read_digits-print_digits fuel (n / 10) ((n % 10 + 48) ∷ s) (omega (arith, pow-suc 10 fuel))
      ∙ read_digit (n % 10) s (n / 10) (omega arith)
      ∙ ap (read_digits s) (omega arith))
]

-- Numbers that print alike are the same.
pub print_digits_injective :
    (fuel m n : ℕ)
    → m < 10 ^ fuel
    → n < 10 ^ fuel
    → print_digits fuel m ≡ print_digits fuel n
    → m ≡ n
print_digits_injective fuel m n hm hn h =
    let read : (k : ℕ) → k < 10 ^ fuel → read_digits (print_digits fuel k) 0 ≡ some k = λ k hk.
      ap (λ t. read_digits t 0) (sym (append-nil (print_digits fuel k)))
      ∙ read_digits-print_digits fuel k [] hk
      ∙ unfold read_digits in refl in
    let e : ◌≡◌ {A = Option ℕ} (some m) (some n) =
      sym (read m hm) ∙ ap (λ t. read_digits t 0) h ∙ read n hn in
    cc

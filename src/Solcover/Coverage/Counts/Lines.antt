-- ===== src/Solcover/Coverage/Counts/Lines.antt =====
-- The lines that a list of locations enters, and how often each of them is among these.
use ethier.Common.{
  ℕ, suc, ◌+◌, ◌&&◌, List, [], ◌∷◌, ◌++◌, ◌≡◌, refl, ap, Bytes, bytes_key, number_key, nat_beq,
  if◌then◌else◌, ◌==◌, Bool-cases, inl, inr, arith,
}
use ethier.Solcover.Location.{Location}

-- A line of a file, where it is not the line of the location before.
unfoldable pub entered : Location → List Location → List (Bytes × ℕ)
entered last [] = []
entered last (l ∷ ls) =
    let rest = entered l ls in
    if nat_beq l.file_idx last.file_idx && nat_beq l.line last.line
    then rest
    else (l.source, l.line) ∷ rest

-- How often a line of a file is among the lines.
unfoldable pub occurrences : Bytes → ℕ → List (Bytes × ℕ) → ℕ
occurrences f n [] = 0
occurrences f n ((g, m) ∷ lines) =
    let rest = occurrences f n lines in if g == f && m == n then suc rest else rest

unfoldable pub last_of : Location → List Location → Location
last_of last [] = last
last_of last (l ∷ ls) = last_of l ls

pub entered-append :
    (last : Location) (ls ms : List Location)
    → entered last (ls ++ ms) ≡ entered last ls ++ entered (last_of last ls) ms
unfolding entered last_of
entered-append last [] ms = refl
entered-append last (l ∷ ls) ms =
    elim (Bool-cases (nat_beq l.file_idx last.file_idx && nat_beq l.line last.line)) [
      | inl same ↦ rw (entered, same) (entered-append l ls ms)
      | inr moved ↦ rw (entered, moved) (ap ((l.source, l.line) ∷◌) (entered-append l ls ms))
    ]

pub last_of-append :
    (last : Location) (ls ms : List Location)
    → last_of last (ls ++ ms) ≡ last_of (last_of last ls) ms
unfolding last_of
last_of-append last [] ms = refl
last_of-append last (l ∷ ls) ms = last_of-append l ls ms

pub occurrences-append :
    (f : Bytes) (n : ℕ) (xs ys : List (Bytes × ℕ))
    → occurrences f n (xs ++ ys) ≡ occurrences f n xs + occurrences f n ys
unfolding occurrences
occurrences-append f n [] ys = omega arith
occurrences-append f n ((g, m) ∷ xs) ys = elim (Bool-cases (g == f && m == n)) [
  | inl here ↦ rw (occurrences, here) (omega (arith, occurrences-append f n xs ys))
  | inr other ↦ rw (occurrences, other) (occurrences-append f n xs ys)
]

-- ===== src/Shuffle/Lines/Laws.antt =====
-- The lines depend on what was written, not on its order, and sorting them again keeps them.
use mathlib.Core.List.{filter, map, Perm, cons-ne-nil}
use mathlib.Core.List.Perm
use ethier.Common.{
  ℕ, suc, List, [], ◌∷◌, ◌≡◌, ◌≢◌, refl, ap, some, false, inl, inr, Bytes, All, length, nat_beq,
  if◌then◌else◌, Bool-cases, arith,
}
use ethier.Golang.Sort.{
  sort_slice, IsSorted, sort_slice-IsSorted, sort_slice-perm, sort_slice-eq_of_perm,
  sort_slice_of_IsSorted, All-sort_slice,
}
use ethier.Golang.Order.{bytes_less, bytes_less-IsLess}
use ethier.Golang.Text.{split, join, split-join, split-Lacks, Lacks}
use ethier.Golang.Space.{trim_space}
use ethier.Golang.Space.Laws.{
  IsTrimmed, trim_space-IsTrimmed, trim_space_of_IsTrimmed, All-trim_space,
}
use ethier.Shuffle.Lines.{newline, trimmed_non_empty, sorted_non_empty}

-- A line of the result: trimmed, not empty, and on one line.
pub record IsLine (l : Bytes) : Type 0 where
  pub trimmed : IsTrimmed l
  pub non_empty : l ≢ []
  pub one_line : Lacks newline l

-- Whether a line has a byte.
pub has_bytes : (l : Bytes) → Dec (l ≢ [])
has_bytes [] = no (λ h. h refl)
has_bytes (c ∷ l) = yes (cons-ne-nil c l)

not_empty : (n : ℕ) → nat_beq (suc n) 0 ≡ false
not_empty n = ground arith

-- The loop is a map and a filter.
trimmed_non_empty-filter :
    (ls : List Bytes) → trimmed_non_empty ls ≡ filter has_bytes (map trim_space ls)
unfolding trimmed_non_empty
trimmed_non_empty-filter [] = refl
trimmed_non_empty-filter (l ∷ ls) = step (trim_space l) (trimmed_non_empty-filter ls)
  where
    step :
        (t : Bytes)
        → trimmed_non_empty ls ≡ filter has_bytes (map trim_space ls)
        → (if nat_beq (length t) 0 then trimmed_non_empty ls else t ∷ trimmed_non_empty ls)
          ≡ filter has_bytes (t ∷ map trim_space ls)
    step [] ih = unfold has_bytes in ih
    step (c ∷ t) ih = unfold has_bytes in rw (not_empty (length t)) (ap (λ r. (c ∷ t) ∷ r) ih)

trimmed_non_empty-perm :
    {a b : List Bytes} → Perm a b → Perm (trimmed_non_empty a) (trimmed_non_empty b)
trimmed_non_empty-perm {a} {b} p =
    rw (trimmed_non_empty-filter a, trimmed_non_empty-filter b)
      (Perm.filter has_bytes (Perm.map trim_space p))

trimmed_non_empty-IsLine :
    (ls : List Bytes) → All (Lacks newline) ls → All IsLine (trimmed_non_empty ls)
unfolding trimmed_non_empty
trimmed_non_empty-IsLine [] h = tt
trimmed_non_empty-IsLine (l ∷ ls) (hl, hls) =
    elim (Bool-cases (nat_beq (length (trim_space l)) 0)) [
      | inl e ↦ rw e (trimmed_non_empty-IsLine ls hls)
      | inr e ↦ rw e (line e, trimmed_non_empty-IsLine ls hls)
    ]
  where
    line : nat_beq (length (trim_space l)) 0 ≡ false → IsLine (trim_space l)
    line e = record {
      trimmed = trim_space-IsTrimmed l;
      non_empty = λ nothing. cc (rw nothing at e);
      one_line = All-trim_space (λ c. c ≢ newline) l hl;
    }

trimmed_non_empty_of_IsLine : (ls : List Bytes) → All IsLine ls → trimmed_non_empty ls ≡ ls
unfolding trimmed_non_empty
trimmed_non_empty_of_IsLine [] h = refl
trimmed_non_empty_of_IsLine ([] ∷ ls) (hl, hls) = absurd (hl.non_empty refl)
trimmed_non_empty_of_IsLine ((c ∷ l) ∷ ls) (hl, hls) =
    rw (trim_space_of_IsTrimmed (c ∷ l) hl.trimmed)
      (ground (arith, trimmed_non_empty_of_IsLine ls hls))

-- When the input can be read, sortedNonEmpty returns: the lines are in order, each is trimmed, not
-- empty and on one line, and they are, as often as they occur, the trimmed lines of the input that
-- are not empty.
pub sorted_non_empty_result :
    (buf : Bytes)
    → (ls : List Bytes) × (sorted_non_empty (some buf) ≡ some ls)
      × IsSorted bytes_less ls
      × All IsLine ls
      × Perm ls (filter has_bytes (map trim_space (split newline buf)))
unfolding sorted_non_empty
sorted_non_empty_result buf =
    let found = trimmed_non_empty (split newline buf) in
    let same = trimmed_non_empty-filter (split newline buf) in
    (
      sort_slice bytes_less found,
      refl,
      sort_slice-IsSorted bytes_less-IsLess found,
      All-sort_slice bytes_less IsLine found
          (trimmed_non_empty-IsLine (split newline buf) (split-Lacks newline buf)),
      Perm.trans (sort_slice-perm bytes_less found) (rw same (Perm.refl _)),
    )

split_lines :
    (ls : List Bytes) → ls ≢ [] → All (Lacks newline) ls → split newline (join newline ls) ≡ ls
split_lines [] h _ = absurd (h refl)
split_lines (l ∷ ls) _ h = split-join newline l ls h

-- Two inputs that hold the same lines, none with a line break, in different orders give the same
-- sorted lines.
pub sorted_non_empty-perm :
    (a b : List Bytes)
    → All (Lacks newline) a
    → All (Lacks newline) b
    → Perm a b
    → sorted_non_empty (some (join newline a)) ≡ sorted_non_empty (some (join newline b))
unfolding sorted_non_empty
sorted_non_empty-perm [] b ha hb p = rw (Perm.nil-eq p)
sorted_non_empty-perm (x ∷ a) [] ha hb p = cc (Perm.eq-nil p)
sorted_non_empty-perm (x ∷ a) (y ∷ b) ha hb p =
    rw (split_lines (x ∷ a) (cons-ne-nil x a) ha, split_lines (y ∷ b) (cons-ne-nil y b) hb)
      (ap some (sort_slice-eq_of_perm bytes_less-IsLess (trimmed_non_empty-perm p)))

IsLine-Lacks : (ls : List Bytes) → All IsLine ls → All (Lacks newline) ls
IsLine-Lacks [] h = tt
IsLine-Lacks (l ∷ ls) (hl, hls) = (hl.one_line, IsLine-Lacks ls hls)

-- Writing the sorted lines out and reading them again gives the same lines.
sorted_non_empty-join :
    (buf : Bytes) (ls : List Bytes)
    → sorted_non_empty (some buf) ≡ some ls
    → sorted_non_empty (some (join newline ls)) ≡ some ls
sorted_non_empty-join buf ls h =
    let (out, returns, sorted, lines, _) = sorted_non_empty_result buf in
    let same : out ≡ ls = cc in rw same at (again out sorted lines)
  where
    again :
        (out : List Bytes)
        → IsSorted bytes_less out
        → All IsLine out
        → sorted_non_empty (some (join newline out)) ≡ some out
    again [] s l =
        unfold sorted_non_empty split join trimmed_non_empty sort_slice trim_space in refl
    again (x ∷ out) s l =
        unfold sorted_non_empty in
        rw
          (
            split_lines (x ∷ out) (cons-ne-nil x out) (IsLine-Lacks (x ∷ out) l),
            trimmed_non_empty_of_IsLine (x ∷ out) l,
          )
          (ap some (sort_slice_of_IsSorted bytes_less-IsLess s))

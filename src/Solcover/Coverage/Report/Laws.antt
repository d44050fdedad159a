-- ===== src/Solcover/Coverage/Report/Laws.antt =====
-- The trace file does not depend on the order in which Go walks a map.
use mathlib.Core.List.{List, [], ◌∷◌, map, Perm, Pairwise}
use mathlib.Core.List.Perm
use mathlib.Core.List.Pairwise
use mathlib.Core.HLevel.{¬_prop}
use ethier.Common.{
  ℕ, Bool, true, false, ◌&&◌, ◌||◌, ◌++◌, ◌≡◌, ◌≢◌, refl, sym, ap₂, ◌∙◌, Bytes, bytes_key, ltb,
  nat_beq, lookup, arith, Option-cases, inl, inr,
}
use ethier.Golang.Sort.{sort_slice, IsLess, sort_slice-agree, sort_slice-eq_of_perm}
use ethier.Golang.Order.{bytes_less, bytes_less-IsLess}
use ethier.Solcover.Location.{MapperPackage, SourceFile}
use ethier.Solcover.Registry.{Registry}
use ethier.Solcover.Coverage.{LineHits}
use ethier.Solcover.Coverage.Report.{line_less, hits_of, report_file, report_files, lcov_trace_file}

-- One entry for each line, as in a map.
abbrev pub DistinctLines : List (ℕ × ℕ) → Type 0
DistinctLines = Pairwise (λ a b. a.0 ≢ b.0)

-- By line, then by count.
pair_less : ℕ × ℕ → ℕ × ℕ → Bool
pair_less a b = ltb a.0 b.0 || (nat_beq a.0 b.0 && ltb a.1 b.1)

pair_less-IsLess : IsLess pair_less
unfolding pair_less
pair_less-IsLess = record { asymm = asymm_; trans = trans_; antisymm = antisymm_ }
  where
    asymm_ : (a b : ℕ × ℕ) → pair_less a b ≡ true → pair_less b a ≡ false
    asymm_ (a, x) (b, y) h = ground arith

    trans_ : (a b c : ℕ × ℕ) → pair_less b a ≡ false → pair_less c b ≡ false → pair_less c a ≡ false
    trans_ (a, x) (b, y) (c, z) h k = ground arith

    antisymm_ : (a b : ℕ × ℕ) → pair_less a b ≡ false → pair_less b a ≡ false → a ≡ b
    antisymm_ (a, x) (b, y) h k =
        let lines : a ≡ b = ground arith in
        let counts : x ≡ y = ground arith in rw (lines, counts) refl

line_less-pair_less : (a b : ℕ × ℕ) → a.0 ≢ b.0 → line_less b a ≡ pair_less b a
unfolding pair_less
line_less-pair_less (a, x) (b, y) h = ground arith

-- Sorted by line, two walks through one map are the same.
sort_slice-walk :
    (l r : List (ℕ × ℕ))
    → Perm l r
    → DistinctLines r
    → sort_slice line_less l ≡ sort_slice line_less r
sort_slice-walk l r p h =
    agree l (Perm.pairwise (λ a b. ¬_prop) (λ a b n e. n (sym e)) (Perm.symm p) h)
    ∙ sort_slice-eq_of_perm pair_less-IsLess p
    ∙ sym (agree r h)
  where
    agree : (m : List (ℕ × ℕ)) → DistinctLines m → sort_slice line_less m ≡ sort_slice pair_less m
    agree m distinct =
        sort_slice-agree line_less pair_less m (Pairwise.imp line_less-pair_less distinct)

module _ {Mapper : Type 0} (offset : MapperPackage Mapper)
    (range_lines range_lines' : List (ℕ × ℕ) → List (ℕ × ℕ))
    (walks : (m : List (ℕ × ℕ)) → Perm (range_lines m) m)
    (walks' : (m : List (ℕ × ℕ)) → Perm (range_lines' m) m) where
  report_file-walk :
      (source_code : List (Bytes × SourceFile Mapper)) (line_hits : LineHits) (file : Bytes)
      → DistinctLines (hits_of line_hits file)
      → report_file offset range_lines source_code line_hits file
        ≡ report_file offset range_lines' source_code line_hits file
  unfolding report_file
  report_file-walk source_code line_hits file distinct =
      let hits = hits_of line_hits file in
      let sorted : sort_slice line_less (range_lines hits)
          ≡ sort_slice line_less (range_lines' hits) =
        sort_slice-walk (range_lines hits) hits (walks hits) distinct
        ∙ sym (sort_slice-walk (range_lines' hits) hits (walks' hits) distinct) in
      elim (Option-cases (lookup source_code file)) [
        | inl missing ↦ rw (report_file, missing)
        | inr (c, found) ↦ rw (report_file, found, sorted)
      ]

  report_files-walk :
      (source_code : List (Bytes × SourceFile Mapper)) (line_hits : LineHits) (files : List Bytes)
      → ((file : Bytes) → DistinctLines (hits_of line_hits file))
      → report_files offset range_lines source_code line_hits files
        ≡ report_files offset range_lines' source_code line_hits files
  unfolding report_files
  report_files-walk source_code line_hits [] distinct = refl
  report_files-walk source_code line_hits (file ∷ files) distinct =
      ap₂ ◌++◌ (report_file-walk source_code line_hits file (distinct file))
        (report_files-walk source_code line_hits files distinct)

  -- For hits with one entry for each line of a file, the trace file is the same whatever the orders
  -- are in which Go walks the files and the lines.
  pub lcov_trace_file-walk :
      (range_files range_files' : List Bytes → List Bytes) (r : Registry Mapper)
      (line_hits : LineHits)
      → ((files : List Bytes) → Perm (range_files files) files)
      → ((files : List Bytes) → Perm (range_files' files) files)
      → ((file : Bytes) → DistinctLines (hits_of line_hits file))
      → lcov_trace_file offset range_lines range_files r line_hits
        ≡ lcov_trace_file offset range_lines' range_files' r line_hits
  lcov_trace_file-walk range_files range_files' r line_hits p p' distinct =
      let files = map (λ e. e.0) r.source_code in
      let sorted : sort_slice bytes_less (range_files files)
          ≡ sort_slice bytes_less (range_files' files) =
        sort_slice-eq_of_perm bytes_less-IsLess (Perm.trans (p files) (Perm.symm (p' files))) in
      unfold lcov_trace_file in (rw sorted (report_files-walk r.source_code line_hits _ distinct))

-- ===== src/Solcover/Coverage/Report.antt =====
-- solcover/coverage.go, `lcovTraceFile`: the LCOV trace file of what was counted.
pub mod Laws
use ethier.Common.{
  ℕ, ◌+◌, Bool, false, ◌||◌, List, [], ◌∷◌, ◌++◌, map, none, some, Bytes, bytes_key, codes, length,
  nat_beq, ltb, if◌then◌else◌, lookup,
}
use ethier.Common.Int.{ℤ, pos, negsuc, to_int64}
use ethier.Golang.Sort.{sort_slice}
use ethier.Golang.Order.{bytes_less}
use ethier.Golang.Print.{print_int}
use ethier.Solcover.Location.{MapperPackage, SourceFile}
use ethier.Solcover.Registry.{Registry}
use ethier.Solcover.Coverage.{LineHits}

-- `line` and `linef`: a text and a line break.
abbrev pub line_of : Bytes → Bytes
line_of text = text ++ 10 ∷ []

-- `counts[i].line < counts[j].line`
abbrev pub line_less : ℕ × ℕ → ℕ × ℕ → Bool
line_less a b = ltb a.0 b.0

-- `c.n > 0`
abbrev pub is_hit : ℤ → Bool
is_hit (pos n) = ltb 0 n
is_hit (negsuc n) = false

-- The lines `DA` of a file.
unfoldable pub data_lines : List (ℕ × ℕ) → Bytes
unfolding print_int
data_lines [] = []
data_lines ((line, n) ∷ counts) =
    line_of (codes "DA:" ++ print_int (pos line) ++ codes "," ++ print_int (to_int64 n))
    ++ data_lines counts

unfoldable pub non_zero : List (ℕ × ℕ) → ℕ
non_zero [] = 0
non_zero ((line, n) ∷ counts) = (if is_hit (to_int64 n) then 1 else 0) + non_zero counts

-- The record of a file, of its counts in the order of lines.
unfoldable pub file_record : Bytes → List (ℕ × ℕ) → Bytes
unfolding data_lines non_zero
file_record file counts =
    line_of (codes "SF:" ++ file)
    ++ line_of (codes "FNF:0")
    ++ line_of (codes "FNH:0")
    ++ data_lines counts
    ++ line_of (codes "LH:" ++ print_int (pos (non_zero counts)))
    ++ line_of (codes "LF:" ++ print_int (pos (length counts)))
    ++ line_of (codes "end_of_record")

-- `cc.lineHits[file]`, where a missing map is empty.
unfoldable pub hits_of : LineHits → Bytes → List (ℕ × ℕ)
hits_of line_hits file = elim (lookup line_hits file) [ none ↦ [] | some hits ↦ hits ]

module _ {Mapper : Type 0} (offset : MapperPackage Mapper)
    (range_lines : List (ℕ × ℕ) → List (ℕ × ℕ)) where
  -- One round of the loop over the files.
  unfoldable pub report_file : List (Bytes × SourceFile Mapper) → LineHits → Bytes → Bytes
  unfolding file_record hits_of
  report_file source_code line_hits file = elim (lookup source_code file) [
    | none ↦ []
    | some c ↦
        if c.is_external || nat_beq (offset.len c.mapper) 0
        then []
        else file_record file (sort_slice line_less (range_lines (hits_of line_hits file)))
  ]

  unfoldable pub report_files : List (Bytes × SourceFile Mapper) → LineHits → List Bytes → Bytes
  unfolding report_file
  report_files source_code line_hits [] = []
  report_files source_code line_hits (file ∷ files) =
      report_file source_code line_hits file ++ report_files source_code line_hits files

  -- `lcovTraceFile`; `range_files` and `range_lines` are the orders in which Go walks the maps.
  unfoldable pub lcov_trace_file : (List Bytes → List Bytes) → Registry Mapper → LineHits → Bytes
  unfolding report_files
  lcov_trace_file range_files r line_hits =
      report_files r.source_code line_hits
        (sort_slice bytes_less (range_files (map (λ e. e.0) r.source_code)))

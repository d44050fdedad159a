-- ===== src/Solcover/SourceMap/Lines.antt =====
-- The lines and columns of the locations that `parseSrcMap` reads.
use ethier.Common.{ℕ, ◌+◌, List, some, ◌≡◌, ◌≢◌, Bytes, bytes_key, get_elem?, lookup, ◌⊎◌}
use ethier.Common.Int.{pos, to_int64}
use ethier.Solcover.Location.{Location, MapperPackage, SourceFile}

-- Without a line and a column.
pub record IsUnmarked (l : Location) : Type 0 where
  pub line : l.line ≡ 0
  pub col : l.col ≡ 0

module _ {Mapper : Type 0} (offset : MapperPackage Mapper) where
  -- The lines and columns, counted from 1, are those of where the location starts and ends.
  pub record IsAt (file : SourceFile Mapper) (l : Location) : Type 0 where
    pub from : ℕ
    pub size : ℕ
    pub first : ℕ × ℕ
    pub last : ℕ × ℕ
    pub start : l.start ≡ pos from
    pub length_ : l.length_ ≡ pos size
    pub long : size ≢ 0
    pub finds_first : offset.line_and_column file.mapper l.start ≡ some first
    pub finds_last : offset.line_and_column file.mapper (to_int64 (from + size)) ≡ some last
    pub line : l.line ≡ first.0 + 1
    pub col : l.col ≡ first.1 + 1
    pub end_line : l.end_line ≡ last.0 + 1
    pub end_col : l.end_col ≡ last.1 + 1

  -- What is known of a location of a file that has a mapper.
  record Marks (file : SourceFile Mapper) (loc l : Location) : Type 0 where
    file_idx : l.file_idx ≡ loc.file_idx
    source : l.source ≡ loc.source
    marked : IsUnmarked l ⊎ IsAt file l

module _ {Mapper : Type 0} (offset : MapperPackage Mapper)
    (sources : List (Bytes × SourceFile Mapper)) (source_list : List Bytes) where
  -- A location without a line, or one with the lines of the registered file of its index.
  abbrev pub HasLines : Location → Type 0
  HasLines l =
      IsUnmarked l
      ⊎ ((file : SourceFile Mapper) × (get_elem? source_list l.file_idx ≡ some l.source)
          × (lookup sources l.source ≡ some file)
          × IsAt offset file l)

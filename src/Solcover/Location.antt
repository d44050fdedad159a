-- ===== src/Solcover/Location.antt =====
-- solcover/solcover.go: locations in Solidity source, and `locationFromNode`, which reads one node
-- of a source map. The offset mapper of the third-party package `offset` is a parameter; a
-- run-time panic is `panics`.
pub mod Laws
use ethier.Common.{
  ℕ, ◌+◌, Bool, List, [], Option, none, some, Bytes, bytes_key, length, get_elem?, nat_beq,
  if◌then◌else◌, lookup, Outcome, ok, ◌>>=◌, or_err, or_panic,
}
use ethier.Common.Int.{ℤ, pos, to_int64}
use ethier.Golang.Atoi.{atoi, max_int}

-- A `Location`; `op_code` is filled in by `RegisterContract`, 0 before.
pub record Location : Type 0 where
  pub instruction_number : ℕ
  pub op_code : ℕ
  pub file_idx : ℕ
  pub source : Bytes
  pub start : ℤ
  pub length_ : ℤ
  pub line : ℕ
  pub col : ℕ
  pub end_line : ℕ
  pub end_col : ℕ
  pub jump : Bytes
  pub modifier_depth : ℤ

-- The five fields of a source map node: s, l, f, j, m.
pub record Node : Type 0 where
  pub s : Bytes
  pub l : Bytes
  pub f : Bytes
  pub j : Bytes
  pub m : Bytes

pub data MapError : Type 0 where
  bad_s bad_l bad_f bad_m : MapError
  bad_offset : MapError

-- `offset.Mapper` with its constructor, `Len` and `LineAndColumn`, which counts both from 0.
pub record MapperPackage (Mapper : Type 0) : Type 0 where
  pub new_mapper : Bytes → Mapper
  pub len : Mapper → ℕ
  pub line_and_column : Mapper → ℤ → Option (ℕ × ℕ)

-- A `sourceFile`.
pub record SourceFile (Mapper : Type 0) : Type 0 where
  pub contents : Bytes
  pub mapper : Mapper
  pub is_external : Bool

-- The file index; any negative number among the three makes it impossible.
unfoldable pub effective_file : ℤ → ℤ → ℤ → ℕ
effective_file (pos s) (pos l) (pos f) = f
effective_file _ _ _ = max_int

module _ {Mapper : Type 0} (offset : MapperPackage Mapper) where
  -- The two entries of the map literal over the offsets: where they are one offset, the entry for
  -- the end replaces the one for the start.
  unfoldable pub place : Mapper → ℤ → ℤ → Location → Outcome MapError Location
  place mapper (pos s) (pos l) loc =
      let after = to_int64 (s + l) in
      let at_end = or_err bad_offset (offset.line_and_column mapper after) in
      if nat_beq l 0
      then at_end >>= (λ e. ok (record loc { end_line = e.0 + 1; end_col = e.1 + 1 }))
      else or_err bad_offset (offset.line_and_column mapper (pos s)) >>= λ b. at_end >>= λ e.
          ok (record loc { line = b.0 + 1; col = b.1 + 1; end_line = e.0 + 1; end_col = e.1 + 1 })
  place mapper s l loc = ok loc

  unfoldable pub location_from_node :
      List (Bytes × SourceFile Mapper) → Node → List Bytes → Outcome MapError Location
  unfolding effective_file place atoi
  location_from_node source_code node source_list = do
    start ← or_err bad_s (atoi node.s)
    length' ← or_err bad_l (atoi node.l)
    file ← or_err bad_f (atoi node.f)
    depth ← or_err bad_m (atoi node.m)
    let file_idx = effective_file start length' file
    let loc : Location = record {
      instruction_number = 0;
      op_code = 0;
      file_idx = file_idx;
      source = [];
      start = start;
      length_ = length';
      line = 0;
      col = 0;
      end_line = 0;
      end_col = 0;
      jump = node.j;
      modifier_depth = depth;
    }
    elim (get_elem? source_list file_idx) [
      | none ↦ ok loc
      | some source ↦
          let loc' = record loc { source = source } in
          or_panic (lookup source_code source) >>= λ file.
          if nat_beq (offset.len file.mapper) 0
          then ok loc'
          else place file.mapper start length' loc'
    ]

-- ===== src/Solcover/Location/Laws.antt =====
-- The branches of `locationFromNode`.
use ethier.Common.{
  ℕ, ◌+◌, ◌≤◌, true, false, List, [], some, ◌≡◌, ◌≢◌, Bytes, bytes_key, length, get_elem?, nat_beq,
  lookup, ok, nat_beq_ne, nat_beq_iff, get_elem?_out,
}
use ethier.Common.Int.{ℤ, pos, to_int64}
use ethier.Golang.Atoi.{atoi}
use ethier.Solcover.Location.{
  Location, Node, MapperPackage, SourceFile, effective_file, location_from_node,
}

-- The four numbers of a node.
pub record Numbers (n : Node) (s l f m : ℤ) : Type 0 where
  pub start : atoi n.s ≡ some s
  pub length_ : atoi n.l ≡ some l
  pub file : atoi n.f ≡ some f
  pub depth : atoi n.m ≡ some m

-- What `locationFromNode` knows before it looks at the source.
abbrev pub bare : Node → ℤ → ℤ → ℤ → ℕ → Bytes → Location
bare n s l m file_idx source = record {
  instruction_number = 0;
  op_code = 0;
  file_idx = file_idx;
  source = source;
  start = s;
  length_ = l;
  line = 0;
  col = 0;
  end_line = 0;
  end_col = 0;
  jump = n.j;
  modifier_depth = m;
}

module _ {Mapper : Type 0} (offset : MapperPackage Mapper)
    (source_code : List (Bytes × SourceFile Mapper)) (source_list : List Bytes) where
  -- With a negative start, length or file the location lies in no file and has no line, as has
  -- one whose file is not in the source list; neither is an error.
  pub location_without_file :
      (n : Node) (s l f m : ℤ)
      → Numbers n s l f m
      → length source_list ≤ effective_file s l f
      → location_from_node offset source_code n source_list
        ≡ ok (bare n s l m (effective_file s l f) [])
  unfolding location_from_node
  location_without_file n s l f m h beyond = rw h.start (
      rw h.length_
        (rw h.file (rw h.depth (rw (get_elem?_out source_list (effective_file s l f) beyond)))))

  module _ (n : Node) (s l f : ℕ) (m : ℤ) (source : Bytes) (file : SourceFile Mapper)
      (numbers : Numbers n (pos s) (pos l) (pos f) m)
      (listed : get_elem? source_list f ≡ some source)
      (registered : lookup source_code source ≡ some file)
      (not_empty : offset.len file.mapper ≢ 0) where
    -- With length 0, in a registered file that is not empty, only the line and column of the end
    -- are written: those of the start stay 0.
    location_zero_length :
        (e : ℕ × ℕ)
        → l ≡ 0
        → offset.line_and_column file.mapper (to_int64 (s + l)) ≡ some e
        → location_from_node offset source_code n source_list
          ≡ ok
              (record (bare n (pos s) (pos l) m f source) { end_line = e.0 + 1; end_col = e.1 + 1 })
    unfolding location_from_node
    location_zero_length e zero_length he =
        let zero_test : nat_beq l 0 ≡ true = (nat_beq_iff l 0).1 zero_length in
        let full : nat_beq (offset.len file.mapper) 0 ≡ false =
          nat_beq_ne (offset.len file.mapper) 0 not_empty in
        rw numbers.start (
          rw numbers.length_ (
            rw numbers.file
              (rw numbers.depth (rw listed (rw registered (rw full (rw zero_test (rw he))))))))

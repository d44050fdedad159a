-- ===== src/Solcover/SourceMap.antt =====
-- solcover/solcover.go, `parseSrcMap`: the compressed source map of a contract, a node for each
-- instruction, in which an empty or missing field stands for the field of the node before.
pub mod Laws
pub mod RoundTrip
pub mod Lines
use ethier.Common.{ℕ, ◌+◌, List, [], ◌∷◌, Bytes, Outcome, ok, ◌>>=◌}
use ethier.Golang.Text.{split}
use ethier.Solcover.Location.{
  Location, Node, MapError, MapperPackage, SourceFile, location_from_node,
}

-- `copy(curr[:], fields)`: as many fields as there are, five at most.
unfoldable pub copy_node : Node → List Bytes → Node
copy_node n [] = n
copy_node n (a ∷ []) = record n { s = a }
copy_node n (a ∷ b ∷ []) = record n { s = a; l = b }
copy_node n (a ∷ b ∷ c ∷ []) = record n { s = a; l = b; f = c }
copy_node n (a ∷ b ∷ c ∷ d ∷ []) = record n { s = a; l = b; f = c; j = d }
copy_node n (a ∷ b ∷ c ∷ d ∷ e ∷ rest) = record { s = a; l = b; f = c; j = d; m = e }

-- A field, or the last one where it is empty.
unfoldable pub pick : Bytes → Bytes → Bytes
pick [] last = last
pick (c ∷ field) last = c ∷ field

-- The loop over the five fields, which leaves `curr` and `last` alike.
unfoldable pub fill : Node → Node → Node
unfolding pick
fill curr last = record {
  s = pick curr.s last.s;
  l = pick curr.l last.l;
  f = pick curr.f last.f;
  j = pick curr.j last.j;
  m = pick curr.m last.m;
}

-- `var last, curr srcMapNode`
abbrev pub empty_node : Node
empty_node = record { s = []; l = []; f = []; j = []; m = [] }

abbrev pub semicolon : ℕ
semicolon = 59

abbrev pub colon : ℕ
colon = 58

module _ {Mapper : Type 0} (offset : MapperPackage Mapper)
    (source_code : List (Bytes × SourceFile Mapper)) (source_list : List Bytes) where
  -- The loop, at instruction `i`.
  unfoldable pub parse_nodes : ℕ → Node → Node → List Bytes → Outcome MapError (List Location)
  unfolding copy_node fill
  parse_nodes i last curr [] = ok []
  parse_nodes i last curr (instr ∷ rest) =
      let copied = copy_node curr (split colon instr) in
      let curr' = fill copied last in
      let last' = fill copied last in
      do
        loc ← location_from_node offset source_code curr' source_list
        more ← parse_nodes (i + 1) last' curr' rest
        ok (record loc { instruction_number = i } ∷ more)

  unfoldable pub parse_src_map : Bytes → Outcome MapError (List Location)
  unfolding parse_nodes
  parse_src_map src_map = parse_nodes 0 empty_node empty_node (split semicolon src_map)

-- ===== src/Solcover/SourceMap/Laws.antt =====
-- What the source map means: each field is the latest that is not empty.
use mathlib.Core.List.{foldl}
use ethier.Common.{
  ℕ, zero, suc, ◌+◌, List, [], ◌∷◌, ◌++◌, map, Bytes, Outcome, ok, ◌>>=◌, ◌≡◌, refl, ap, ◌∙◌,
}
use ethier.Golang.Text.{split}
use ethier.Solcover.Location.{
  Location, Node, MapError, MapperPackage, SourceFile, location_from_node,
}
use ethier.Solcover.SourceMap.{copy_node, pick, fill, semicolon, colon, parse_nodes, parse_src_map}

-- The `k`-th field of a row, empty if the row is shorter.
unfoldable pub nth_field : ℕ → List Bytes → Bytes
nth_field k [] = []
nth_field zero (a ∷ row) = a
nth_field (suc k) (a ∷ row) = nth_field k row

-- The last of the `k`-th fields of some rows that is not empty.
unfoldable pub latest : ℕ → List (List Bytes) → Bytes
latest k rows = foldl (λ found row. pick (nth_field k row) found) [] rows

-- The node that stands behind the rows of a map up to an instruction.
unfoldable pub node_of : List (List Bytes) → Node
unfolding latest
node_of rows = record {
  s = latest 0 rows;
  l = latest 1 rows;
  f = latest 2 rows;
  j = latest 3 rows;
  m = latest 4 rows;
}

-- A node for each row, out of the rows up to it.
unfoldable pub decompress : List (List Bytes) → List (List Bytes) → List Node
decompress before [] = []
decompress before (row ∷ rows) = node_of (before ++ row ∷ []) ∷ decompress (before ++ row ∷ []) rows

unfoldable pub rows_of : Bytes → List (List Bytes)
rows_of src_map = map (split colon) (split semicolon src_map)

latest-append :
    (k : ℕ) (rows : List (List Bytes)) (row : List Bytes)
    → latest k (rows ++ row ∷ []) ≡ pick (nth_field k row) (latest k rows)
unfolding latest
latest-append k rows row = go rows []
  where
    go :
        (rs : List (List Bytes)) (found : Bytes)
        → foldl (λ f r. pick (nth_field k r) f) found (rs ++ row ∷ [])
          ≡ pick (nth_field k row) (foldl (λ f r. pick (nth_field k r) f) found rs)
    go [] found = refl
    go (r ∷ rs) found = go rs (pick (nth_field k r) found)

pick_self : (a : Bytes) → pick a a ≡ a
unfolding pick
pick_self [] = refl
pick_self (c ∷ a) = refl

-- Stale fields of `curr` do no harm, since they equal those of `last`.
pub fill-copy_node :
    (n : Node) (row : List Bytes)
    → fill (copy_node n row) n ≡ record {
      s = pick (nth_field 0 row) n.s;
      l = pick (nth_field 1 row) n.l;
      f = pick (nth_field 2 row) n.f;
      j = pick (nth_field 3 row) n.j;
      m = pick (nth_field 4 row) n.m;
    }
unfolding fill copy_node nth_field
fill-copy_node n [] = simp pick_self
fill-copy_node n (a ∷ []) = simp pick_self
fill-copy_node n (a ∷ b ∷ []) = simp pick_self
fill-copy_node n (a ∷ b ∷ c ∷ []) = simp pick_self
fill-copy_node n (a ∷ b ∷ c ∷ d ∷ []) = simp pick_self
fill-copy_node n (a ∷ b ∷ c ∷ d ∷ e ∷ rest) = refl

pub node_of-append :
    (rows : List (List Bytes)) (row : List Bytes)
    → fill (copy_node (node_of rows) row) (node_of rows) ≡ node_of (rows ++ row ∷ [])
node_of-append rows row = fill-copy_node (node_of rows) row ∙ unfold node_of in simp latest-append

module _ {Mapper : Type 0} (offset : MapperPackage Mapper)
    (source_code : List (Bytes × SourceFile Mapper)) (source_list : List Bytes) where
  -- The locations of the nodes, numbered, or the first failure among them.
  unfoldable pub read_nodes : ℕ → List Node → Outcome MapError (List Location)
  read_nodes i [] = ok []
  read_nodes i (node ∷ nodes) = do
    loc ← location_from_node offset source_code node source_list
    more ← read_nodes (i + 1) nodes
    ok (record loc { instruction_number = i } ∷ more)

  -- One round, given the node that it reads and the locations of the later rounds.
  round : ℕ → Node → Outcome MapError (List Location) → Outcome MapError (List Location)
  round i node later = do
    loc ← location_from_node offset source_code node source_list
    more ← later
    ok (record loc { instruction_number = i } ∷ more)

  parse_nodes-round :
      (i : ℕ) (last curr : Node) (instr : Bytes) (rest : List Bytes)
      → let node = fill (copy_node curr (split colon instr)) last in
        parse_nodes offset source_code source_list i last curr (instr ∷ rest)
        ≡ round i node (parse_nodes offset source_code source_list (i + 1) node node rest)
  unfolding parse_nodes round
  parse_nodes-round i last curr instr rest = refl

  parse_nodes-decompress :
      (i : ℕ) (before : List (List Bytes)) (instrs : List Bytes)
      → parse_nodes offset source_code source_list i (node_of before) (node_of before) instrs
        ≡ read_nodes i (decompress before (map (split colon) instrs))
  parse_nodes-decompress i before [] = unfold parse_nodes read_nodes decompress in refl
  parse_nodes-decompress i before (instr ∷ rest) =
      let row = split colon instr in
      parse_nodes-round i (node_of before) (node_of before) instr rest
      ∙ ap (λ n. round i n (parse_nodes offset source_code source_list (i + 1) n n rest))
          (node_of-append before row)
      ∙ ap (round i (node_of (before ++ row ∷ [])))
          (parse_nodes-decompress (i + 1) (before ++ row ∷ []) rest)
      ∙ unfold read_nodes decompress round in refl

  -- parseSrcMap reads, for the i-th instruction, the node whose fields are the latest ones that are
  -- not empty among the first i + 1 entries of the map, numbers it i, and gives the first failure
  -- if a node cannot be read.
  pub parse_src_map-decompress :
      (src_map : Bytes)
      → parse_src_map offset source_code source_list src_map
        ≡ read_nodes 0 (decompress [] (rows_of src_map))
  parse_src_map-decompress src_map =
      unfold parse_src_map rows_of node_of latest in
      parse_nodes-decompress 0 [] (split semicolon src_map)

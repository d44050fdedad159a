-- ===== src/Solcover/SourceMap/RoundTrip.antt =====
-- A source map written by the rules of the Solidity documentation is read back.
use ethier.Common.{
  ℕ, List, [], ◌∷◌, ◌++◌, map, Bytes, All, ◌≡◌, ◌≢◌, refl, sym, ap, ap₂, ◌∙◌, inl, inr, bytes_beq,
  bytes_beq_iff, if◌then◌else◌, Bool-cases, arith,
}
use mathlib.Core.List.{cons-ne-nil}
use ethier.Golang.Text.{split, join, Lacks, split-join, join-Lacks}
use ethier.Solcover.Location.{Node, MapperPackage, SourceFile}
use ethier.Solcover.SourceMap.{pick, fill, copy_node, empty_node, semicolon, colon, parse_src_map}
use ethier.Solcover.SourceMap.Laws.{
  nth_field, node_of, decompress, rows_of, read_nodes, node_of-append, fill-copy_node,
  parse_src_map-decompress,
}

-- A field is left empty where it repeats the field of the node before.
pub blank : Bytes → Bytes → Bytes
blank before field = if bytes_beq field before then [] else field

pub blank_row : Node → Node → List Bytes
unfolding blank
blank_row before n =
    blank before.s n.s
    ∷ blank before.l n.l
    ∷ blank before.f n.f
    ∷ blank before.j n.j
    ∷ blank before.m n.m
    ∷ []

pub compress : Node → List Node → List (List Bytes)
unfolding blank_row
compress before [] = []
compress before (n ∷ nodes) = blank_row before n ∷ compress n nodes

pub print_map : List Node → Bytes
print_map nodes = join semicolon (map (join colon) (compress empty_node nodes))

-- A field that a map can hold.
pub record IsField (field : Bytes) : Type 0 where
  pub some_bytes : field ≢ []
  pub no_colon : Lacks colon field
  pub no_semicolon : Lacks semicolon field

pub record IsNode (n : Node) : Type 0 where
  pub s : IsField n.s
  pub l : IsField n.l
  pub f : IsField n.f
  pub j : IsField n.j
  pub m : IsField n.m

pick-ne-nil : (a b : Bytes) → a ≢ [] → pick a b ≡ a
unfolding pick
pick-ne-nil [] b h = absurd (h refl)
pick-ne-nil (c ∷ a) b h = refl

pick-blank : (before field : Bytes) → field ≢ [] → pick (blank before field) before ≡ field
unfolding blank
pick-blank before field h = elim (Bool-cases (bytes_beq field before)) [
  | inl same ↦ rw same (unfold pick in sym ((bytes_beq_iff field before).0 same))
  | inr changed ↦ rw changed (pick-ne-nil field before h)
]

blank-Lacks : (b : ℕ) (before field : Bytes) → Lacks b field → Lacks b (blank before field)
unfolding blank
blank-Lacks b before field h = elim (Bool-cases (bytes_beq field before)) [
  | inl same ↦ rw same tt
  | inr changed ↦ rw changed h
]

fill-blank_row :
    (before n : Node) → IsNode n → fill (copy_node before (blank_row before n)) before ≡ n
fill-blank_row before n h =
    fill-copy_node before (blank_row before n)
    ∙ unfold nth_field blank_row in
      (λ i. record {
        s = pick-blank before.s n.s h.s.some_bytes i;
        l = pick-blank before.l n.l h.l.some_bytes i;
        f = pick-blank before.f n.f h.f.some_bytes i;
        j = pick-blank before.j n.j h.j.some_bytes i;
        m = pick-blank before.m n.m h.m.some_bytes i;
      })

decompress-compress :
    (before : List (List Bytes)) (last : Node) (nodes : List Node)
    → node_of before ≡ last
    → All IsNode nodes
    → decompress before (compress last nodes) ≡ nodes
unfolding decompress compress
decompress-compress before last [] e h = refl
decompress-compress before last (n ∷ nodes) e (hn, hs) =
    let here : node_of (before ++ blank_row last n ∷ []) ≡ n =
      sym (node_of-append before (blank_row last n)) ∙ rw e (fill-blank_row last n hn) in
    ap₂ ◌∷◌ here (decompress-compress (before ++ blank_row last n ∷ []) n nodes here hs)

blank_row-Lacks : (before n : Node) → IsNode n → All (Lacks colon) (blank_row before n)
unfolding blank_row
blank_row-Lacks before n h = (
  blank-Lacks colon before.s n.s h.s.no_colon,
  (
    blank-Lacks colon before.l n.l h.l.no_colon,
    (
      blank-Lacks colon before.f n.f h.f.no_colon,
      (
        blank-Lacks colon before.j n.j h.j.no_colon,
        (blank-Lacks colon before.m n.m h.m.no_colon, tt),
      ),
    ),
  ),
)

blank_row-Lacks-semicolon :
    (before n : Node) → IsNode n → All (Lacks semicolon) (blank_row before n)
unfolding blank_row
blank_row-Lacks-semicolon before n h = (
  blank-Lacks semicolon before.s n.s h.s.no_semicolon,
  (
    blank-Lacks semicolon before.l n.l h.l.no_semicolon,
    (
      blank-Lacks semicolon before.f n.f h.f.no_semicolon,
      (
        blank-Lacks semicolon before.j n.j h.j.no_semicolon,
        (blank-Lacks semicolon before.m n.m h.m.no_semicolon, tt),
      ),
    ),
  ),
)

split_row :
    (before n : Node)
    → IsNode n
    → split colon (join colon (blank_row before n)) ≡ blank_row before n
split_row before n h = unfold blank_row in split-join colon _ _ (blank_row-Lacks before n h)

split_rows :
    (before : Node) (nodes : List Node)
    → All IsNode nodes
    → map (split colon) (map (join colon) (compress before nodes)) ≡ compress before nodes
unfolding compress
split_rows before [] h = refl
split_rows before (n ∷ nodes) (hn, hs) = ap₂ ◌∷◌ (split_row before n hn) (split_rows n nodes hs)

rows-Lacks :
    (before : Node) (nodes : List Node)
    → All IsNode nodes
    → All (Lacks semicolon) (map (join colon) (compress before nodes))
unfolding compress
rows-Lacks before [] h = tt
rows-Lacks before (n ∷ nodes) (hn, hs) = (
  join-Lacks semicolon colon (blank_row before n) (omega arith)
      (blank_row-Lacks-semicolon before n hn),
  rows-Lacks n nodes hs,
)

rows_of-print_map :
    (n : Node) (nodes : List Node)
    → All IsNode (n ∷ nodes)
    → rows_of (print_map (n ∷ nodes)) ≡ compress empty_node (n ∷ nodes)
unfolding rows_of print_map
rows_of-print_map n nodes h =
    ap (map (split colon)) (
      split_texts (map (join colon) (compress empty_node (n ∷ nodes)))
        (unfold compress in cons-ne-nil _ _) (rows-Lacks empty_node (n ∷ nodes) h))
    ∙ split_rows empty_node (n ∷ nodes) h
  where
    split_texts :
        (texts : List Bytes)
        → texts ≢ []
        → All (Lacks semicolon) texts
        → split semicolon (join semicolon texts) ≡ texts
    split_texts [] h _ = absurd (h refl)
    split_texts (t ∷ texts) _ h = split-join semicolon t texts h

node_of-nil : node_of [] ≡ empty_node
unfolding node_of
node_of-nil = refl

-- A source map of one node or more whose fields are not empty and hold no colon or semicolon,
-- compressed by leaving out every field that repeats the node before, is read as exactly the nodes
-- that were written.
pub parse_src_map-print_map :
    {Mapper : Type 0} (offset : MapperPackage Mapper)
    (source_code : List (Bytes × SourceFile Mapper)) (source_list : List Bytes) (n : Node)
    (nodes : List Node)
    → All IsNode (n ∷ nodes)
    → parse_src_map offset source_code source_list (print_map (n ∷ nodes))
      ≡ read_nodes offset source_code source_list 0 (n ∷ nodes)
parse_src_map-print_map offset source_code source_list n nodes h =
    parse_src_map-decompress offset source_code source_list (print_map (n ∷ nodes))
    ∙ ap (read_nodes offset source_code source_list 0) (
        ap (decompress []) (rows_of-print_map n nodes h)
        ∙ decompress-compress [] empty_node (n ∷ nodes) node_of-nil h)

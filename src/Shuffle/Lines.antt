-- ===== src/Shuffle/Lines.antt =====
-- ethier/shuffle.go, `sortedNonEmpty`: the lines of the input, trimmed, without the empty ones,
-- in the order of `bytes.Compare`.
pub mod Laws
use ethier.Common.{
  ℕ, List, [], ◌∷◌, ◌≡◌, refl, Option, none, some, Bytes, codes, length, nat_beq, if◌then◌else◌,
}
use ethier.Golang.Sort.{sort_slice}
use ethier.Golang.Order.{bytes_less}
use ethier.Golang.Text.{split}
use ethier.Golang.Space.{trim_space}

-- `\n`
abbrev pub newline : ℕ
newline = 10

-- The loop of `sortedNonEmpty`.
unfoldable pub trimmed_non_empty : List Bytes → List Bytes
trimmed_non_empty [] = []
trimmed_non_empty (l ∷ rest) =
    let t = trim_space l in
    if nat_beq (length t) 0 then trimmed_non_empty rest else t ∷ trimmed_non_empty rest

-- `buf` is what `io.ReadAll` read, `none` its error.
unfoldable pub sorted_non_empty : Option Bytes → Option (List Bytes)
unfolding trimmed_non_empty
sorted_non_empty none = none
sorted_non_empty (some buf) = some (sort_slice bytes_less (trimmed_non_empty (split newline buf)))

-- The second case of the source's own test.
blank_lines_go :
    sorted_non_empty (some (codes "\n\t\t\n\t\tfoo\n\t\tbar\n\t\tbaz\n\t\t\n\t\t"))
    ≡ some (codes "bar" ∷ codes "baz" ∷ codes "foo" ∷ [])
unfolding sorted_non_empty split trim_space sort_slice
blank_lines_go = refl

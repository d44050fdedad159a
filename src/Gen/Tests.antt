-- ===== src/Gen/Tests.antt =====
-- Runs of ethier/gen.go, and its theorems at concrete inputs.
use ethier.Common.{
  ℕ, zero, suc, ◌<◌, sym, ◌∙◌, true, false, List, [], ◌∷◌, ◌++◌, none, some, ◌≡◌, refl, Bytes,
  bytes_beq, codes, drop, length, get_elem?, ltb, if◌then◌else◌, ok, arith,
}
use ethier.Gen.{Path_, Stat, present, missing, find_base, path_text, has_suffix}
use ethier.Gen.Sources.{contents, absent, Packages, read_sources}
use ethier.Gen.Laws.{
  go_mod, find_base_nearest, find_base_endless, IsLocated, read_sources-IsLocated,
}

abbrev pwd : Path_
pwd = codes "token" ∷ codes "repo" ∷ codes "home" ∷ []

-- One go.mod, in /home/repo.
abbrev stat : Path_ → Stat
stat path = if bytes_beq (path_text path) (codes "/home/repo/go.mod") then present else missing

found : find_base stat 2 pwd ≡ some (codes "repo" ∷ codes "home" ∷ [])
unfolding find_base path_text
found = refl

suffixes :
    (has_suffix (codes "Token.sol") (codes ".sol") ≡ true)
    × (has_suffix (codes "sol") (codes ".sol") ≡ false)
unfolding has_suffix
suffixes = (refl, refl)

below_go_mod : (j : ℕ) → j < 1 → go_mod stat pwd j ≡ missing
unfolding path_text
below_go_mod zero h = refl
below_go_mod (suc j) h = absurd (omega arith)

go_mod_there : go_mod stat pwd 1 ≡ present
unfolding path_text
go_mod_there = refl

find_base_nearest_example : find_base stat 4 pwd ≡ some (drop 1 pwd)
find_base_nearest_example =
    find_base_nearest stat 4 1 pwd (omega arith) below_go_mod
      (λ h. let gone : present ≡ missing = sym go_mod_there ∙ h in absurd (cc))

find_base_endless_example : find_base (λ path. missing) 1000 pwd ≡ none
find_base_endless_example = find_base_endless (λ path. missing) pwd (λ j. refl) 1000

-- A toy file system with one file, in the second path.
abbrev toy_packages : Packages Bytes
toy_packages = record {
  join = λ a b. a ++ b;
  read_file =
      λ p. if bytes_beq p (codes "/b/X.sol") then contents (codes "contract X {}") else absent;
  unmarshal = λ json. none;
  parse_combined_json = λ json version. none;
  execute = λ generated extra. none;
  parse_file = λ code. none;
  add_import = λ pkg f. none;
  format_node = λ f. none;
}

abbrev paths : List Bytes
paths = codes "/a/" ∷ codes "/b/" ∷ []

sources_read :
    read_sources toy_packages paths (codes "X.sol" ∷ [])
    ≡ ok (codes "contract X {}" ∷ [], true ∷ [])
unfolding read_sources
sources_read = refl

read_sources-IsLocated_example :
    (length (codes "contract X {}" ∷ []) ≡ length (codes "X.sol" ∷ []))
    × (length (true ∷ []) ≡ length (codes "X.sol" ∷ []))
    × ((i : ℕ) (src : Bytes)
        → get_elem? (codes "X.sol" ∷ []) i ≡ some src
        → (buf : Bytes) × (k : ℕ) × (get_elem? (codes "contract X {}" ∷ []) i ≡ some buf)
          × (get_elem? (true ∷ []) i ≡ some (ltb 0 k))
          × IsLocated toy_packages paths src buf k)
read_sources-IsLocated_example =
    read_sources-IsLocated toy_packages paths (codes "X.sol" ∷ []) sources_read

-- ===== src/Gen/Sources.antt =====
-- ethier/gen.go, `extendGeneratedCode`: the sources that solc used, and the extended code.
use ethier.Common.{
  ◌++◌, map, ℕ, ◌+◌, Bool, List, [], ◌∷◌, Option, none, some, Bytes, bytes_beq, codes, ltb,
  if◌then◌else◌, Outcome, ok, err, panics, ◌>>=◌, or_err,
}
use ethier.Golang.Text.{join}
use ethier.Solcover.Registry.{Contract}
use ethier.Gen.{
  GenError, bad_json, bad_combined_json, bad_template, bad_go, bad_import, bad_format, read_error,
  not_found,
}

-- `os.ReadFile`
pub data Read : Type 0 where
  contents : Bytes → Read
  absent failed : Read

-- What is read of solc's output.
pub record Meta : Type 0 where
  pub source_list : List Bytes
  pub version : Bytes

-- What the template is given.
pub record Extra : Type 0 where
  pub meta : Meta
  pub source_code : List Bytes
  pub is_external_source : List Bool
  pub contracts : List (Bytes × Contract)
  pub combined_json : Bytes

-- `filepath.Join`, `os.ReadFile`, `json.Unmarshal`, `compiler.ParseCombinedJSON`, the template, Go's
-- parser, `astutil.AddImport` and `format.Node`.
pub record Packages (Ast : Type 0) : Type 0 where
  pub join : Bytes → Bytes → Bytes
  pub read_file : Bytes → Read
  pub unmarshal : Bytes → Option Meta
  pub parse_combined_json : Bytes → Bytes → Option (List (Bytes × Contract))
  pub execute : Bytes → Extra → Option Bytes
  pub parse_file : Bytes → Option Ast
  pub add_import : Bytes → Ast → Option Ast
  pub format_node : Ast → Option Bytes

-- The template's function `stringSlice`, over `quote`, which is Go's "%q".
unfoldable string_slice : (Bytes → Bytes) → List Bytes → Bytes
unfolding join
string_slice quote strs = codes "[]string{" ++ join b',' (map quote strs) ++ codes "}"

module _ {Ast : Type 0} (pkgs : Packages Ast) where
  -- `PathLoop`, at the path number `path_idx`.
  unfoldable pub find_source : List Bytes → ℕ → Bytes → Outcome GenError (Bytes × Bool)
  find_source [] path_idx src = err (not_found src)
  find_source (p ∷ paths) path_idx src = elim (pkgs.read_file (pkgs.join p src)) [
    | absent ↦ find_source paths (path_idx + 1) src
    | failed ↦ err (read_error (pkgs.join p src))
    | contents buf ↦ ok (buf, ltb 0 path_idx)
  ]

  -- `SourceLoop`
  unfoldable pub read_sources : List Bytes → List Bytes → Outcome GenError (List Bytes × List Bool)
  unfolding find_source
  read_sources paths [] = ok ([], [])
  read_sources paths (src ∷ source_list) = elim (find_source paths 0 src) [
    | err e ↦ err e
    | panics ↦ panics
    | ok found ↦ elim (read_sources paths source_list) [
      | err e ↦ err e
      | panics ↦ panics
      | ok more ↦ ok (found.0 ∷ more.0, found.1 ∷ more.1)
    ]
  ]

  -- The loop that deletes the contracts without runtime code.
  unfoldable pub deployable : List (Bytes × Contract) → List (Bytes × Contract)
  deployable [] = []
  deployable ((k, c) ∷ cs) =
      let rest = deployable cs in
      if bytes_beq c.runtime_code (codes "0x") then rest else (k, c) ∷ rest

  -- The loop that adds the imports.
  unfoldable pub add_imports : List Bytes → Ast → Outcome GenError Ast
  add_imports [] f = ok f
  add_imports (pkg ∷ rest) f = elim (pkgs.add_import pkg f) [
    | none ↦ err bad_import
    | some f' ↦ add_imports rest f'
  ]

  -- `extendGeneratedCode`
  unfoldable pub extend_generated_code : Bytes → Bytes → List Bytes → Outcome GenError Bytes
  unfolding read_sources deployable add_imports
  extend_generated_code generated combined_json paths =
      or_err bad_json (pkgs.unmarshal combined_json) >>= λ meta.
      read_sources paths meta.source_list >>= λ sources.
      or_err bad_combined_json (pkgs.parse_combined_json combined_json meta.version) >>= λ cs.
      or_err bad_template (
        pkgs.execute generated (record {
          meta = meta;
          source_code = sources.0;
          is_external_source = sources.1;
          contracts = deployable cs;
          combined_json = combined_json;
        }))
      >>= λ extended. or_err bad_go (pkgs.parse_file extended) >>= λ f.
          add_imports
            (codes "github.com/ethereum/go-ethereum/common/compiler"
              ∷ codes "github.com/divergencetech/ethier/solcover"
              ∷ [])
            f
          >>= λ f'. or_err bad_format (pkgs.format_node f')

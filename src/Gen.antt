-- ===== src/Gen.antt =====
-- ethier/gen.go: the command `ethier gen`. The file system, the processes, go-ethereum's reader of
-- solc output, the templates and Go's own parser and printer are parameters.
pub mod Sources
pub mod Laws
mod Tests
use mathlib.Core.List.{reverse}
use ethier.Common.{
  ℕ, zero, suc, ◌+◌, Bool, true, false, List, [], ◌∷◌, ◌++◌, Option, none, some, Bytes, bytes_beq,
  codes, length, drop, leb, ◌-◌, ◌&&◌, if◌then◌else◌, Outcome, ok, err, panics, ◌>>=◌, or_err,
}
use ethier.Golang.Text.{join}

pub data GenError : Type 0 where
  no_source_files : GenError
  non_solidity_file : (arg : Bytes) → GenError
  getwd start_solc start_abigen solc_returned abigen_returned flag_error write_error : GenError
  bad_json bad_combined_json bad_template bad_go bad_import bad_format : GenError
  read_error : (file : Bytes) → GenError
  not_found : (src : Bytes) → GenError
  generating : (pkg : Bytes) → GenError → GenError

-- `strings.HasSuffix`
unfoldable pub has_suffix : Bytes → Bytes → Bool
has_suffix s suffix =
    leb (length suffix) (length s) && bytes_beq (drop (length s - length suffix) s) suffix

-- The loop of `Args` over the arguments.
unfoldable pub check_each : List Bytes → Outcome GenError (Unit {0})
unfolding has_suffix
check_each [] = ok tt
check_each (a ∷ args) = elim (has_suffix a (codes ".sol")) [
  | true ↦ check_each args
  | false ↦ err (non_solidity_file a)
]

-- `Args`
unfoldable pub check_args : List Bytes → Outcome GenError (Unit {0})
unfolding check_each
check_args [] = err no_source_files
check_args (a ∷ args) = check_each (a ∷ args)

-- An absolute path that is clean, as its names, the last one first.
abbrev pub Path_ : Type 0
Path_ = List Bytes

-- `filepath.Join(path, "..")`, which leaves the root.
unfoldable pub parent : Path_ → Path_
parent [] = []
parent (name ∷ path) = path

unfoldable pub path_text : Path_ → Bytes
unfolding join
path_text path = b'/' ∷ join b'/' (reverse path)

-- `filepath.Base`
unfoldable pub base_name : Path_ → Bytes
base_name [] = codes "/"
base_name (name ∷ path) = name

-- `os.Stat`: the file is there, is not, or cannot be looked at.
pub data Stat : Type 0 where
  present missing unreadable : Stat

-- The loop that looks for go.mod, with fuel for the rounds: `none` where it runs out.
unfoldable pub find_base : (Path_ → Stat) → ℕ → Path_ → Option Path_
unfolding parent
find_base stat zero base_path = none
find_base stat (suc fuel) base_path = elim (stat (codes "go.mod" ∷ base_path)) [
  | missing ↦ find_base stat fuel (parent base_path)
  | _ ↦ some base_path
]

-- A process: whether it starts, whether it ends well, and what it writes.
pub record Process : Type 0 where
  pub starts : Bool
  pub ends : Bool
  pub output : Bytes

-- What the command finds and uses.
pub record Environment : Type 0 where
  pub getwd : Option Path_
  pub stat : Path_ → Stat
  pub solc : List Bytes → Process
  pub abigen : List Bytes → Bytes → Process
  pub src_map_flag : Option Bool
  pub write_file : Bytes → Bytes → Bool

-- The arguments of solc.
unfoldable pub solc_args : List Bytes → Bytes → Bytes → List Bytes
solc_args args base_path include_path =
    args
    ++ (codes "--base-path"
        ∷ base_path
        ∷ codes "--include-path"
        ∷ include_path
        ∷ codes "--combined-json"
        ∷ codes "abi,bin,bin-runtime,hashes,metadata,srcmap-runtime"
        ∷ [])

-- `solc | abigen`, of which solc's output is kept too. Closing either half of the pipe succeeds.
unfoldable pub run_tools : Environment → Bytes → List Bytes → Outcome GenError (Bytes × Bytes)
run_tools env pkg args =
    let solc = env.solc args in
    let abigen =
      env.abigen (codes "--combined-json" ∷ codes "/dev/stdin" ∷ codes "--pkg" ∷ pkg ∷ [])
        solc.output in
    if solc.starts
    then (if abigen.starts
        then (if solc.ends
            then (if abigen.ends then ok (solc.output, abigen.output) else err abigen_returned)
            else err solc_returned)
        else err start_abigen)
    else err start_solc

unfoldable pub write_generated : Environment → Bytes → Outcome GenError (Unit {0})
write_generated env out =
    if env.write_file (codes "generated.go") out then ok tt else err write_error

-- The deferred wrapping of an error.
unfoldable pub in_package {ℓ} : {A : Type ℓ} → Bytes → Outcome GenError A → Outcome GenError A
in_package pkg (ok a) = ok a
in_package pkg (err e) = err (generating pkg e)
in_package pkg panics = panics

-- `gen` behind the search for the base path; `extend` is `extendGeneratedCode`.
unfoldable pub generate :
    (Bytes → Bytes → List Bytes → Outcome GenError Bytes)
    → Environment
    → Bytes
    → Path_
    → List Bytes
    → Outcome GenError (Unit {0})
unfolding run_tools solc_args path_text write_generated
generate extend env pkg base_path args =
    let base = path_text base_path in
    let include_path = path_text (codes "node_modules" ∷ base_path) in
    run_tools env pkg (solc_args args base include_path) >>= λ made.
    or_err flag_error env.src_map_flag >>= λ extends.
    if extends
    then (extend (made.1) (made.0) (base ∷ include_path ∷ []) >>= write_generated env)
    else write_generated env (made.1)

-- `gen`; `none` means that the search for the base path ran out of fuel.
unfoldable pub gen :
    (Bytes → Bytes → List Bytes → Outcome GenError Bytes)
    → ℕ
    → Environment
    → List Bytes
    → Option (Outcome GenError (Unit {0}))
unfolding base_name find_base generate in_package
gen extend fuel env args = elim env.getwd [
  | none ↦ some (err getwd)
  | some pwd ↦ elim (find_base env.stat fuel pwd) [
    | none ↦ none
    | some base_path ↦
        some (in_package (base_name pwd) (generate extend env (base_name pwd) base_path args))
  ]
]

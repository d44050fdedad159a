-- ===== src/Solcover/Registry.antt =====
-- solcover/solcover.go: the package's maps of registered sources, contracts and deployments, and
-- the ways into them. SHA-256 is a parameter, as is the order in which Go walks a map. `none` is
-- a panic.
pub mod Compiled
pub mod Laws
pub mod Placed
pub mod Consistent
pub mod Reachable
use ethier.Common.{
  ℕ, zero, suc, Bool, true, false, ◌||◌, List, [], ◌∷◌, ◌++◌, Option, none, some, Bytes, codes,
  bytes_key, number_key, length, get_elem?, nat_beq, if◌then◌else◌, lookup, assign, Outcome, ok,
  err, panics, replicate, succeeded,
}
use ethier.Common.Optional.{◌>>=◌}
use ethier.Golang.Hex.{is_hex_digit, hex_value, hex_decode, hex_encode}
use ethier.Solcover.ByteCode.{
  OpCodes, Parsed, ParseError, parse_code, trim_0x, after_placeholder, replace_placeholders,
}
use ethier.Solcover.Location.{Location, MapError, MapperPackage, SourceFile}
use ethier.Solcover.SourceMap.{parse_src_map}

-- What the package uses of a `compiler.Contract`.
pub record Contract : Type 0 where
  pub code : Bytes
  pub runtime_code : Bytes
  pub src_map_runtime : Bytes

pub record CompiledContract : Type 0 where
  pub contract : Contract
  pub name : Bytes
  pub source_list : List Bytes
  pub locations : List Location
  pub instructions : List (ℕ × ℕ)

-- One position of a contract's pattern: a character, or any hexadecimal digit.
pub data Item : Type 0 where
  literal : ℕ → Item
  digit : Item

pub record ContractMatcher : Type 0 where
  pub re : List Item
  pub compiled : CompiledContract

-- The package's variables.
pub record Registry (Mapper : Type 0) : Type 0 where
  pub source_code : List (Bytes × SourceFile Mapper)
  pub contracts_by_name : List (Bytes × CompiledContract)
  pub contracts_by_hash : List (Bytes × CompiledContract)
  pub contract_matchers : List (Bytes × ContractMatcher)
  pub deployed_contracts : List (Bytes × CompiledContract)

-- `libraryPlaceholder.MatchString`: at any position.
unfoldable pub has_placeholder : Bytes → Bool
unfolding after_placeholder
has_placeholder [] = false
has_placeholder (c ∷ s) = elim (after_placeholder (c ∷ s)) [
  | some rest ↦ true
  | none ↦ has_placeholder s
]

-- `l.OpCode = opCodes[i]` for every location, a panic where there are fewer op codes.
unfoldable pub set_op_codes : List Location → List ℕ → Option (List Location)
set_op_codes [] op_codes = some []
set_op_codes (l ∷ ls) [] = none
set_op_codes (l ∷ ls) (c ∷ op_codes) = elim (set_op_codes ls op_codes) [
  | none ↦ none
  | some rest ↦ some (record l { op_code = c } ∷ rest)
]

-- PUSH20 and any forty hexadecimal digits, as a pattern and as the pattern's text.
abbrev pub any_address : List Item
any_address = literal b'7' ∷ literal b'3' ∷ replicate 40 digit

abbrev pub any_address_text : Bytes
any_address_text = codes "73[[:xdigit:]]{40}"

-- The pattern that `regexp.MustCompile` makes of a code whose other characters are hexadecimal.
unfoldable pub compile_pattern : ℕ → Bytes → List Item
unfolding after_placeholder
compile_pattern zero s = []
compile_pattern (suc fuel) [] = []
compile_pattern (suc fuel) (c ∷ s) = elim (after_placeholder (c ∷ s)) [
  | some rest ↦ any_address ++ compile_pattern fuel rest
  | none ↦ literal c ∷ compile_pattern fuel s
]

unfoldable pub matches_item : Item → ℕ → Bool
matches_item (literal x) c = nat_beq x c
matches_item digit c = is_hex_digit c

-- A match that begins at the front of a text.
unfoldable pub matches_here : List Item → Bytes → Bool
unfolding matches_item
matches_here [] s = true
matches_here (i ∷ re) [] = false
matches_here (i ∷ re) (c ∷ s) = elim (matches_item i c) [ true ↦ matches_here re s | false ↦ false ]

-- `MatchString` looks at every position.
unfoldable pub matches_somewhere : List Item → Bytes → Bool
unfolding matches_here
matches_somewhere re [] = matches_here re []
matches_somewhere re (c ∷ s) = matches_here re (c ∷ s) || matches_somewhere re s

-- The loop of `RegisterDeployedContract` over the matchers: the first that matches.
unfoldable pub first_match : Bytes → List (Bytes × ContractMatcher) → Option CompiledContract
unfolding matches_somewhere
first_match text [] = none
first_match text ((hash, m) ∷ rest) = elim (matches_somewhere m.re text) [
  | true ↦ some m.compiled
  | false ↦ first_match text rest
]

-- `(*compiledContract).location`, of a contract or nil: `panics` is an index past the locations.
unfoldable pub location : Option CompiledContract → ℕ → Outcome MapError (Option Location)
location none pc = ok none
location (some cc) pc = elim (lookup cc.instructions pc) [
  | none ↦ ok none
  | some i ↦ elim (get_elem? cc.locations i) [ none ↦ panics | some l ↦ ok (some l) ]
]

module _ {Mapper : Type 0} (offset : MapperPackage Mapper) (vm : OpCodes)
    (sha256 : Bytes → Bytes) where
  unfoldable pub register_source_code : Bytes → Bytes → Bool → Registry Mapper → Registry Mapper
  register_source_code file_name contents is_external r = record r {
    source_code = assign r.source_code file_name (record {
      contents = contents;
      mapper = offset.new_mapper contents;
      is_external = is_external;
    });
  }

  unfoldable pub register_contract_by_regexp : CompiledContract → Registry Mapper → Registry Mapper
  unfolding compile_pattern
  register_contract_by_regexp cc r =
      let code = trim_0x cc.contract.code in
      let pattern = replace_placeholders (length code) any_address_text code in
      record r {
        contract_matchers =
            assign r.contract_matchers (sha256 pattern)
              (record { re = compile_pattern (length code) code; compiled = cc });
      }

  unfoldable pub register_contract_by_hash :
      CompiledContract → Registry Mapper → Option (Registry Mapper)
  register_contract_by_hash cc r = do
    bin ← hex_decode (trim_0x cc.contract.code)
    some (record r { contracts_by_hash = assign r.contracts_by_hash (sha256 bin) cc })

  -- The contract as `RegisterContract` stores it.
  unfoldable pub compile_contract :
      Bytes → Contract → List Bytes → Registry Mapper → Option CompiledContract
  unfolding set_op_codes
  compile_contract name c source_list r = do
    parsed ← succeeded (parse_code vm c.runtime_code)
    locations ← succeeded (parse_src_map offset r.source_code source_list c.src_map_runtime)
    with_codes ← set_op_codes locations parsed.op_codes
    some (record {
      contract = c;
      name = name;
      source_list = source_list;
      locations = with_codes;
      instructions = parsed.instructions;
    })

  unfoldable pub register_contract :
      Bytes → Contract → List Bytes → Registry Mapper → Option (Registry Mapper)
  unfolding compile_contract has_placeholder register_contract_by_regexp register_contract_by_hash
  register_contract name c source_list r = do
    cc ← compile_contract name c source_list r
    let named = record r { contracts_by_name = assign r.contracts_by_name name cc }
    (if has_placeholder c.code
        then some (register_contract_by_regexp cc named)
        else register_contract_by_hash cc named)

  -- `walk` is the order in which `range` visits the matchers.
  unfoldable pub register_deployed_contract :
      (List (Bytes × ContractMatcher) → List (Bytes × ContractMatcher))
      → Bytes
      → Bytes
      → Registry Mapper
      → Registry Mapper
  unfolding first_match
  register_deployed_contract walk addr code r = elim (lookup r.contracts_by_hash (sha256 code)) [
    | some c ↦ record r { deployed_contracts = assign r.deployed_contracts addr c }
    | none ↦ elim (first_match (hex_encode code) (walk r.contract_matchers)) [
      | some c ↦ record r { deployed_contracts = assign r.deployed_contracts addr c }
      | none ↦ r
    ]
  ]

module _ {Mapper : Type 0} where
  -- `Source`
  unfoldable pub source : Registry Mapper → Bytes → ℕ → Outcome MapError (Option Location)
  unfolding location
  source r contract pc = location (lookup r.deployed_contracts contract) pc

  -- `SourceByName`
  unfoldable pub source_by_name : Registry Mapper → Bytes → ℕ → Outcome MapError (Option Location)
  unfolding location
  source_by_name r contract_name pc = location (lookup r.contracts_by_name contract_name) pc

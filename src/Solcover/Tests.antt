-- ===== src/Solcover/Tests.antt =====
-- Runs of solcover/solcover.go on a contract of three instructions, and its theorems at concrete
-- inputs.
use ethier.Common.{
  ℕ, zero, suc, ◌+◌, false, ◌&&◌, List, [], ◌∷◌, map, Option, none, some, ◌≡◌, ◌≢◌, refl, Bytes,
  codes, number_key, length, get_elem?, leb, nat_beq, if◌then◌else◌, lookup, ok, arith,
}
use ethier.Common.Int.{ℤ, pos, negsuc}
use ethier.Golang.Text.{split}
use ethier.Golang.Hex.{hex_decode}
use ethier.Golang.Atoi.{atoi, max_int}
use ethier.Solcover.ByteCode.{
  OpCodes, Parsed, trim_0x, replace_placeholders, push_zero_address, parse_code,
}
use ethier.Solcover.ByteCode.Laws.{listing, index_in}
use ethier.Solcover.ByteCode.Disassembly.{disassembly, IsEvm, parse_code-disassembly}
use ethier.Solcover.Location.{
  Location, Node, MapperPackage, SourceFile, effective_file, location_from_node,
}
use ethier.Solcover.Location.Laws.{Numbers, bare, location_without_file}
use ethier.Solcover.SourceMap.{colon, semicolon, parse_src_map}
use ethier.Solcover.SourceMap.Laws.{decompress, rows_of, read_nodes, parse_src_map-decompress}
use ethier.Solcover.SourceMap.RoundTrip.{IsField, IsNode, print_map, parse_src_map-print_map}
use ethier.Solcover.Registry.{
  Contract, ContractMatcher, CompiledContract, Registry, has_placeholder, register_contract,
  register_deployed_contract, source, source_by_name,
}
use ethier.Solcover.Registry.Laws.{source-register_deployed_contract, source_by_name-listing}

-- The EVM's pushes.
abbrev evm : OpCodes
evm = record { is_push = λ c. leb 0x60 c && leb c 0x7f; push0 = 0x5f }

-- A mapper that is the text itself.
abbrev count_lines : ℕ → ℕ → Bytes → ℕ → Option (ℕ × ℕ)
count_lines line col s zero = some (line, col)
count_lines line col [] (suc n) = none
count_lines line col (c ∷ s) (suc n) =
    if nat_beq c 10 then count_lines (line + 1) 0 s n else count_lines line (col + 1) s n

abbrev line_and_column_of : Bytes → ℤ → Option (ℕ × ℕ)
line_and_column_of text (pos n) = count_lines 0 0 text n
line_and_column_of text (negsuc n) = none

abbrev plain_mapper : MapperPackage Bytes
plain_mapper = record {
  new_mapper = λ contents. contents;
  len = length;
  line_and_column = line_and_column_of;
}

-- PUSH1 1, PUSH1 2, ADD.
abbrev three_bytes : Bytes
three_bytes = 0x60 ∷ 1 ∷ 0x60 ∷ 2 ∷ 1 ∷ []

abbrev three_text : Bytes
three_text = codes "0x6001600201"

abbrev three_parsed : Parsed
three_parsed = record {
  instructions = (0, 0) ∷ (2, 1) ∷ (4, 2) ∷ [];
  op_codes = 0x60 ∷ 0x60 ∷ 1 ∷ [];
}

three_decoded :
    hex_decode
      (replace_placeholders (length (trim_0x three_text)) push_zero_address (trim_0x three_text))
    ≡ some three_bytes
unfolding hex_decode replace_placeholders trim_0x
three_decoded = refl

three_parses : parse_code evm three_text ≡ ok three_parsed
unfolding parse_code
three_parses = refl

evm-IsEvm : IsEvm evm
evm-IsEvm = record {
  push0 = refl;
  pushes = λ c from to. ground arith;
  below = λ c under. ground arith;
  above = λ c over. ground arith;
}

parse_code-disassembly_example :
    (out : Parsed) × (parse_code evm three_text ≡ ok out)
    × (out.op_codes ≡ map (λ q. q.1) (disassembly 0 0 three_bytes))
    × ((pc : ℕ) → lookup out.instructions pc ≡ index_in pc (disassembly 0 0 three_bytes))
parse_code-disassembly_example =
    parse_code-disassembly evm evm-IsEvm three_text three_bytes three_decoded (omega arith)

abbrev file_name : Bytes
file_name = codes "A.sol"

abbrev two_lines : Bytes
two_lines = codes "ab\ncd"

abbrev the_file : SourceFile Bytes
the_file = record { contents = two_lines; mapper = two_lines; is_external = false }

abbrev files : List (Bytes × SourceFile Bytes)
files = (file_name, the_file) ∷ []

abbrev no_files : List (Bytes × SourceFile Bytes)
no_files = []

abbrev node : Bytes → Bytes → Bytes → Node
node s l f = record { s = s; l = l; f = f; j = codes "-"; m = codes "0" }

abbrev on_lines : Node
on_lines = node (codes "1") (codes "3") (codes "0")

abbrev empty_range : Node
empty_range = node (codes "3") (codes "0") (codes "0")

abbrev nowhere : Node
nowhere = node (codes "1") (codes "3") (codes "-1")

on_lines-Numbers : Numbers on_lines (pos 1) (pos 3) (pos 0) (pos 0)
unfolding atoi
on_lines-Numbers = record { start = refl; length_ = refl; file = refl; depth = refl }

empty_range-Numbers : Numbers empty_range (pos 3) (pos 0) (pos 0) (pos 0)
unfolding atoi
empty_range-Numbers = record { start = refl; length_ = refl; file = refl; depth = refl }

nowhere-Numbers : Numbers nowhere (pos 1) (pos 3) (negsuc 0) (pos 0)
unfolding atoi
nowhere-Numbers = record { start = refl; length_ = refl; file = refl; depth = refl }

location_without_file_example :
    location_from_node plain_mapper files nowhere (file_name ∷ [])
    ≡ ok (bare nowhere (pos 1) (pos 3) (pos 0) (effective_file (pos 1) (pos 3) (negsuc 0)) [])
location_without_file_example =
    location_without_file plain_mapper files (file_name ∷ []) nowhere (pos 1) (pos 3) (negsuc 0)
      (pos 0) nowhere-Numbers (unfold effective_file in omega arith)

abbrev three_map : Bytes
three_map = codes "1:3:0:-:0;;3:2:-1"

parse_src_map-decompress_example :
    parse_src_map plain_mapper files (file_name ∷ []) three_map
    ≡ read_nodes plain_mapper files (file_name ∷ []) 0 (decompress [] (rows_of three_map))
parse_src_map-decompress_example =
    parse_src_map-decompress plain_mapper files (file_name ∷ []) three_map

-- A range, an empty range, and no file.
abbrev ranges_map : Bytes
ranges_map = codes "1:3:0:-:0;3:0;::-1"

abbrev ranges_located : List Location
ranges_located =
    record (bare on_lines (pos 1) (pos 3) (pos 0) 0 file_name) {
      line = 1;
      col = 2;
      end_line = 2;
      end_col = 2;
    }
    ∷ record (bare on_lines (pos 3) (pos 0) (pos 0) 0 file_name) {
      instruction_number = 1;
      end_line = 2;
      end_col = 1;
    }
    ∷ record (bare on_lines (pos 3) (pos 0) (pos 0) max_int []) { instruction_number = 2 }
    ∷ []

one_byte : (c : ℕ) → c ≢ colon → c ≢ semicolon → IsField (c ∷ [])
one_byte c h h' = record { some_bytes = cc; no_colon = (h, tt); no_semicolon = (h', tt) }

two_bytes : (c d : ℕ) → c ≢ colon → c ≢ semicolon → d ≢ colon → d ≢ semicolon → IsField (c ∷ d ∷ [])
two_bytes c d h h' k k' = record {
  some_bytes = cc;
  no_colon = (h, (k, tt));
  no_semicolon = (h', (k', tt));
}

on_lines-IsNode : IsNode on_lines
on_lines-IsNode = record {
  s = one_byte b'1' (omega arith) (omega arith);
  l = one_byte b'3' (omega arith) (omega arith);
  f = one_byte b'0' (omega arith) (omega arith);
  j = one_byte b'-' (omega arith) (omega arith);
  m = one_byte b'0' (omega arith) (omega arith);
}

nowhere-IsNode : IsNode nowhere
nowhere-IsNode = record {
  s = one_byte b'1' (omega arith) (omega arith);
  l = one_byte b'3' (omega arith) (omega arith);
  f = two_bytes b'-' b'1' (omega arith) (omega arith) (omega arith) (omega arith);
  j = one_byte b'-' (omega arith) (omega arith);
  m = one_byte b'0' (omega arith) (omega arith);
}

parse_src_map-print_map_example :
    parse_src_map plain_mapper files (file_name ∷ []) (print_map (on_lines ∷ nowhere ∷ []))
    ≡ read_nodes plain_mapper files (file_name ∷ []) 0 (on_lines ∷ nowhere ∷ [])
parse_src_map-print_map_example =
    parse_src_map-print_map plain_mapper files (file_name ∷ []) on_lines (nowhere ∷ [])
      (on_lines-IsNode, (nowhere-IsNode, tt))

abbrev three_contract : Contract
three_contract = record {
  code = three_text;
  runtime_code = three_text;
  src_map_runtime = three_map;
}

abbrev empty_registry : Registry Bytes
empty_registry = record {
  source_code = files;
  contracts_by_name = [];
  contracts_by_hash = [];
  contract_matchers = [];
  deployed_contracts = [];
}

-- The location of the first two instructions, and of the third.
abbrev on_first_line : ℕ → ℕ → Location
on_first_line i op = record (bare on_lines (pos 1) (pos 3) (pos 0) 0 file_name) {
  instruction_number = i;
  op_code = op;
  line = 1;
  col = 2;
  end_line = 2;
  end_col = 2;
}

abbrev three_compiled : CompiledContract
three_compiled = record {
  contract = three_contract;
  name = codes "A";
  source_list = file_name ∷ [];
  locations =
      on_first_line 0 0x60
      ∷ on_first_line 1 0x60
      ∷ (record (bare nowhere (pos 3) (pos 2) (pos 0) max_int []) {
        instruction_number = 2;
        op_code = 1;
      })
      ∷ [];
  instructions = three_parsed.instructions;
}

abbrev full_registry : Registry Bytes
full_registry = record empty_registry {
  contracts_by_name = (codes "A", three_compiled) ∷ [];
  contracts_by_hash = (three_bytes, three_compiled) ∷ [];
}

-- A toy digest: the text itself.
abbrev toy_sha : Bytes → Bytes
toy_sha b = b

abbrev backwards : List (Bytes × ContractMatcher) → List (Bytes × ContractMatcher)
backwards ms = ms

three_registered :
    register_contract plain_mapper evm toy_sha
      (codes "A")
      three_contract
      (file_name ∷ [])
      empty_registry
    ≡ some full_registry
unfolding register_contract parse_code parse_src_map split location_from_node atoi hex_decode
three_registered = refl

three_plain : has_placeholder three_text ≡ false
unfolding has_placeholder
three_plain = refl

three_binary : hex_decode (trim_0x three_text) ≡ some three_bytes
unfolding hex_decode trim_0x
three_binary = refl

source-register_deployed_contract_example :
    source
      (register_deployed_contract plain_mapper evm toy_sha backwards
        (codes "0x1")
        three_bytes
        full_registry)
      (codes "0x1")
      2
    ≡ source_by_name full_registry (codes "A") 2
source-register_deployed_contract_example =
    source-register_deployed_contract plain_mapper evm toy_sha backwards (codes "A") three_contract
      (file_name ∷ []) empty_registry full_registry (codes "0x1") three_bytes 2 three_registered
      three_plain three_binary

three_found : source_by_name full_registry (codes "A") 2 ≡ ok (some (on_first_line 1 0x60))
unfolding source_by_name
three_found = refl

source_by_name-listing_example :
    (index_in 2 (listing evm 0 0 three_bytes) ≡ some 1) × (get_elem? three_bytes 2 ≡ some 0x60)
source_by_name-listing_example =
    source_by_name-listing plain_mapper evm toy_sha (codes "A") three_contract (file_name ∷ [])
      empty_registry full_registry three_bytes 2 (on_first_line 1 0x60) three_registered
      three_decoded (omega arith) three_found

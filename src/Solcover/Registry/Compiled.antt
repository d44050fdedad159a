-- ===== src/Solcover/Registry/Compiled.antt =====
-- What a contract that compiles is made of: the two parsers joined.
use ethier.Common.{
  ℕ, zero, suc, ◌+◌, List, [], ◌∷◌, some, ◌≡◌, refl, sym, ap, ◌∙◌, Bytes, bytes_key, number_key,
  get_elem?, lookup, Outcome, ok, bind-ok, succeeded, succeeded-some, Option-cases, arith, inl, inr,
}
use ethier.Common.Optional.{bind-some}
use ethier.Solcover.ByteCode.{OpCodes, Parsed, ParseError, parse_code}
use ethier.Solcover.Location.{Location, Node, MapperPackage, SourceFile, location_from_node}
use ethier.Solcover.SourceMap.{parse_src_map}
use ethier.Solcover.SourceMap.Laws.{read_nodes}
use ethier.Solcover.Registry.{
  Contract, CompiledContract, Registry, set_op_codes, location, compile_contract,
}

pub some_injective {ℓ} : {A : Type ℓ} {a b : A} → some a ≡ some b → a ≡ b
some_injective {a} {b} h = cc

pub ok_injective : {a b : Parsed} → ◌≡◌ {A = Outcome ParseError Parsed} (ok a) (ok b) → a ≡ b
ok_injective h = cc

-- Where a contract has a location, its instruction number points at it.
pub location-some :
    (cc' : CompiledContract) (pc : ℕ) (l : Location)
    → location (some cc') pc ≡ ok (some l)
    → (i : ℕ) × (lookup cc'.instructions pc ≡ some i) × (get_elem? cc'.locations i ≡ some l)
unfolding location
location-some cc' pc l h = elim (Option-cases (lookup cc'.instructions pc)) [
  | inl missing ↦ absurd (ground arith)
  | inr (i, numbered) ↦ elim (Option-cases (get_elem? cc'.locations i)) [
    | inl beyond ↦ absurd (ground arith)
    | inr (l', here) ↦ let same : l' ≡ l = ground arith in (i, numbered, rw same at here)
  ]
]

pub set_op_codes-cons :
    (x : Location) (ls : List Location) (c : ℕ) (ops : List ℕ) (out : List Location)
    → set_op_codes (x ∷ ls) (c ∷ ops) ≡ some out
    → (rest : List Location) × (set_op_codes ls ops ≡ some rest)
      × (out ≡ record x { op_code = c } ∷ rest)
unfolding set_op_codes
set_op_codes-cons x ls c ops out h = elim (Option-cases (set_op_codes ls ops)) [
  | inl fails ↦ absurd (ground arith)
  | inr (rest, e) ↦ (rest, e, ground arith)
]

-- Filling in the op codes keeps each location's number and takes the op code of its place.
pub set_op_codes-get_elem? :
    (ls : List Location) (ops : List ℕ) (out : List Location) (i : ℕ) (l : Location)
    → set_op_codes ls ops ≡ some out
    → get_elem? out i ≡ some l
    → (before : Location) × (get_elem? ls i ≡ some before)
      × (l.instruction_number ≡ before.instruction_number)
      × (get_elem? ops i ≡ some l.op_code)
set_op_codes-get_elem? [] ops [] i l h g = cc
set_op_codes-get_elem? [] ops (y ∷ out) i l h g = unfold set_op_codes in cc
set_op_codes-get_elem? (x ∷ ls) [] out i l h g = unfold set_op_codes in cc
set_op_codes-get_elem? (x ∷ ls) (c ∷ ops) out zero l h g =
    let (rest, done, shape) = set_op_codes-cons x ls c ops out h in
    let first : get_elem? (record x { op_code = c } ∷ rest) 0 ≡ some l = rw shape at g in
    let here : record x { op_code = c } ≡ l = cc in
    (x, refl, ap (λ q. q.instruction_number) (sym here), ap (λ q. some q.op_code) here)
set_op_codes-get_elem? (x ∷ ls) (c ∷ ops) out (suc i) l h g =
    let (rest, done, shape) = set_op_codes-cons x ls c ops out h in
    set_op_codes-get_elem? ls ops rest i l done (rw shape at g)

module _ {Mapper : Type 0} (offset : MapperPackage Mapper)
    (source_code : List (Bytes × SourceFile Mapper)) (source_list : List Bytes) where
  -- The locations are numbered by their places.
  pub read_nodes-number :
      (first : ℕ) (nodes : List Node) (locations : List Location) (i : ℕ) (l : Location)
      → read_nodes offset source_code source_list first nodes ≡ ok locations
      → get_elem? locations i ≡ some l
      → l.instruction_number ≡ first + i
  unfolding read_nodes
  read_nodes-number first [] [] i l h g = cc
  read_nodes-number first [] (y ∷ locations) i l h g = cc
  read_nodes-number first (n ∷ nodes) locations i l h g =
      let (loc, read, h') = bind-ok (location_from_node offset source_code n source_list) _ h in
      let (more, read_more, h'') =
        bind-ok (read_nodes offset source_code source_list (first + 1) nodes) _ h' in
      let shape : locations ≡ record loc { instruction_number = first } ∷ more = cc in
      at loc more i (rw shape at g) (λ k. read_nodes-number (first + 1) nodes more k l read_more)
    where
      at :
          (loc : Location) (more : List Location) (k : ℕ)
          → get_elem? (record loc { instruction_number = first } ∷ more) k ≡ some l
          → ((k' : ℕ) → get_elem? more k' ≡ some l → l.instruction_number ≡ first + 1 + k')
          → l.instruction_number ≡ first + k
      at loc more zero e later =
          let here : record loc { instruction_number = first } ≡ l = cc in
          sym (ap (λ q. q.instruction_number) here) ∙ omega arith
      at loc more (suc k) e later = omega (arith, later k e)

-- What `RegisterContract` stores, taken apart.
pub record IsCompiled {Mapper : Type 0} (offset : MapperPackage Mapper) (vm : OpCodes)
    (c : Contract) (source_list : List Bytes) (r : Registry Mapper) (cc' : CompiledContract)
    : Type 0 where
  pub parsed : Parsed
  pub read : List Location
  pub code : parse_code vm c.runtime_code ≡ ok parsed
  pub map_ : parse_src_map offset r.source_code source_list c.src_map_runtime ≡ ok read
  pub filled : set_op_codes read parsed.op_codes ≡ some cc'.locations
  pub numbers : cc'.instructions ≡ parsed.instructions
  pub listed : cc'.source_list ≡ source_list

module _ {Mapper : Type 0} (offset : MapperPackage Mapper) (vm : OpCodes)
    (sha256 : Bytes → Bytes) where
  pub compile_contract-IsCompiled :
      (name : Bytes) (c : Contract) (source_list : List Bytes) (r : Registry Mapper)
      (cc' : CompiledContract)
      → compile_contract offset vm sha256 name c source_list r ≡ some cc'
      → IsCompiled offset vm c source_list r cc'
  unfolding compile_contract
  compile_contract-IsCompiled name c source_list r cc' h =
      let (parsed, parses, h') = bind-some (succeeded (parse_code vm c.runtime_code)) _ h in
      let (read, reads, h'') =
        bind-some (succeeded (parse_src_map offset r.source_code source_list c.src_map_runtime)) _
          h' in
      let (filled, fills, done) = bind-some (set_op_codes read parsed.op_codes) _ h'' in
      record {
        parsed = parsed;
        read = read;
        code = succeeded-some (parse_code vm c.runtime_code) parses;
        map_ =
            succeeded-some (parse_src_map offset r.source_code source_list c.src_map_runtime) reads;
        filled = fills ∙ ap some (ap (λ q. q.locations) (stored done));
        numbers = sym (ap (λ q. q.instructions) (stored done));
        listed = sym (ap (λ q. q.source_list) (stored done));
      }
    where
      stored : {a b : CompiledContract} → some a ≡ some b → a ≡ b
      stored e = cc

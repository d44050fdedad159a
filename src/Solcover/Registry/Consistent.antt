-- ===== src/Solcover/Registry/Consistent.antt =====
-- The invariant of the package's variables: every contract that can be found lies in registered
-- sources, and has a location for each of its instructions.
use ethier.Common.{
  ℕ, suc, ◌+◌, ◌<◌, List, [], ◌∷◌, some, ◌≡◌, refl, sym, ap, subst, ◌∙◌, Bytes, All, bytes_key,
  number_key, length, lookup, assign, lookup-assign, ok, bind-ok, ok-injective, Bool, Bool-cases,
  inl, inr, arith,
}
use ethier.Common.Entries.{AllValues, AllValues-assign}
use ethier.Common.Optional.{bind-some}
use ethier.Golang.Hex.{hex_decode}
use ethier.Golang.Text.{split}
use ethier.Solcover.ByteCode.{OpCodes, Parsed, parse_code, trim_0x}
use ethier.Solcover.Location.{Location, Node, MapperPackage, SourceFile, location_from_node}
use ethier.Solcover.SourceMap.{
  semicolon, colon, copy_node, fill, empty_node, parse_nodes, parse_src_map,
}
use ethier.Solcover.Registry.{
  Contract, CompiledContract, Registry, has_placeholder, set_op_codes, register_source_code,
  register_contract_by_regexp, register_contract_by_hash, compile_contract, register_contract,
}
use ethier.Solcover.Registry.Compiled.{set_op_codes-cons, compile_contract-IsCompiled}
use ethier.Solcover.Registry.Placed.{Registered, IsPlaced, location_from_node-IsPlaced}

module _ {Mapper : Type 0} (offset : MapperPackage Mapper)
    (sources : List (Bytes × SourceFile Mapper)) (source_list : List Bytes) where
  parse_nodes-IsPlaced :
      (i : ℕ) (last curr : Node) (instrs : List Bytes) (locations : List Location)
      → parse_nodes offset sources source_list i last curr instrs ≡ ok locations
      → All (IsPlaced sources source_list) locations × (length locations ≡ length instrs)
  unfolding parse_nodes
  parse_nodes-IsPlaced i last curr [] locations h =
      subst (λ ls. All (IsPlaced sources source_list) ls × (length ls ≡ 0)) (ok-injective h)
        (tt, refl)
  parse_nodes-IsPlaced i last curr (instr ∷ rest) locations h =
      let filled = fill (copy_node curr (split colon instr)) last in
      let (loc, read, h1) = bind-ok (location_from_node offset sources filled source_list) _ h in
      let (more, reads, done) =
        bind-ok (parse_nodes offset sources source_list (i + 1) filled filled rest) _ h1 in
      let placed = location_from_node-IsPlaced offset sources source_list filled loc read in
      let (all, same) = parse_nodes-IsPlaced (i + 1) filled filled rest more reads in
      subst (λ ls. All (IsPlaced sources source_list) ls × (length ls ≡ suc (length rest)))
        (ok-injective done)
        ((record { listed = placed.listed; unlisted = placed.unlisted }, all), ap suc same)

  set_op_codes-IsPlaced :
      (ls : List Location) (ops : List ℕ) (out : List Location)
      → set_op_codes ls ops ≡ some out
      → All (IsPlaced sources source_list) ls
      → All (IsPlaced sources source_list) out × (length out ≡ length ls)
  unfolding set_op_codes
  set_op_codes-IsPlaced [] ops out h all =
      let same : [] ≡ out = cc in
      subst (λ ls. All (IsPlaced sources source_list) ls × (length ls ≡ 0)) same (tt, refl)
  set_op_codes-IsPlaced (l ∷ ls) [] out h all = cc
  set_op_codes-IsPlaced (l ∷ ls) (c ∷ ops) out h (placed, all) =
      let (rest, filled, shape) = set_op_codes-cons l ls c ops out h in
      let (all', same) = set_op_codes-IsPlaced ls ops rest filled all in
      subst (λ ls'. All (IsPlaced sources source_list) ls' × (length ls' ≡ suc (length ls)))
        (sym shape)
        ((record { listed = placed.listed; unlisted = placed.unlisted }, all'), ap suc same)

-- The source map has an entry for every instruction of the code.
unfoldable pub HasEntries : OpCodes → Contract → Type 0
HasEntries vm c =
    (parsed : Parsed) (pc i : ℕ)
    → parse_code vm c.runtime_code ≡ ok parsed
    → lookup parsed.instructions pc ≡ some i
    → i < length (split semicolon c.src_map_runtime)

-- A contract in registered sources, with a location for each instruction.
pub record IsSound {Mapper : Type 0} (sources : List (Bytes × SourceFile Mapper))
    (c : CompiledContract) : Type 0 where
  pub placed : All (IsPlaced sources c.source_list) c.locations
  pub numbered : (pc i : ℕ) → lookup c.instructions pc ≡ some i → i < length c.locations

-- Every contract that the variables hold: by its name, by its hash, by its pattern or deployed.
pub record IsConsistent {Mapper : Type 0} (r : Registry Mapper) : Type 0 where
  pub by_name : AllValues (IsSound r.source_code) r.contracts_by_name
  pub by_hash : AllValues (IsSound r.source_code) r.contracts_by_hash
  pub by_matcher : AllValues (λ m. IsSound r.source_code m.compiled) r.contract_matchers
  pub deployed : AllValues (IsSound r.source_code) r.deployed_contracts

-- Every contract that is deployed or that a deployment can find.
pub record IsDeployable {Mapper : Type 0} (r : Registry Mapper) : Type 0 where
  pub by_hash : AllValues (IsSound r.source_code) r.contracts_by_hash
  pub by_matcher : AllValues (λ m. IsSound r.source_code m.compiled) r.contract_matchers
  pub deployed : AllValues (IsSound r.source_code) r.deployed_contracts

pub IsConsistent-IsDeployable :
    {Mapper : Type 0} {r : Registry Mapper} → IsConsistent r → IsDeployable r
IsConsistent-IsDeployable h = record {
  by_hash = h.by_hash;
  by_matcher = h.by_matcher;
  deployed = h.deployed;
}

-- Nothing is registered at first.
abbrev pub no_registrations : {Mapper : Type 0} → Registry Mapper
no_registrations = record {
  source_code = [];
  contracts_by_name = [];
  contracts_by_hash = [];
  contract_matchers = [];
  deployed_contracts = [];
}

pub no_registrations-IsConsistent :
    {Mapper : Type 0} → IsConsistent (no_registrations {Mapper = Mapper})
no_registrations-IsConsistent = record {
  by_name = tt;
  by_hash = tt;
  by_matcher = tt;
  deployed = tt;
}

All-map {ℓ κ μ} :
    {A : Type ℓ} {P : A → Type κ} {Q : A → Type μ} (xs : List A)
    → ((a : A) → P a → Q a)
    → All P xs
    → All Q xs
All-map [] f all = tt
All-map (x ∷ xs) f (p, all) = (f x p, All-map xs f all)

module _ {Mapper : Type 0} (offset : MapperPackage Mapper) (vm : OpCodes)
    (sha256 : Bytes → Bytes) where
  compile_contract-IsSound :
      (name : Bytes) (c : Contract) (source_list : List Bytes) (r : Registry Mapper)
      (cc' : CompiledContract)
      → HasEntries vm c
      → compile_contract offset vm sha256 name c source_list r ≡ some cc'
      → IsSound r.source_code cc'
  unfolding HasEntries parse_src_map
  compile_contract-IsSound name c source_list r cc' entries h =
      let k = compile_contract-IsCompiled offset vm sha256 name c source_list r cc' h in
      let (all, many) =
        parse_nodes-IsPlaced offset r.source_code source_list 0 empty_node empty_node
          (split semicolon c.src_map_runtime) k.read k.map_ in
      let (all', same) =
        set_op_codes-IsPlaced offset r.source_code source_list k.read k.parsed.op_codes
          cc'.locations k.filled all in
      record {
        placed = subst (λ s. All (IsPlaced r.source_code s) cc'.locations) (sym k.listed) all';
        numbered = λ pc i at.
            let in_map =
              entries k.parsed pc i k.code (ap (λ m. lookup m pc) (sym k.numbers) ∙ at) in
            omega (arith, same, many, in_map);
      }

  -- Each way into the package's variables keeps them consistent.
  register_source_code-IsSound :
      (file_name contents : Bytes) (is_external : Bool) (r : Registry Mapper) (c : CompiledContract)
      → IsSound r.source_code c
      → IsSound
          (register_source_code offset vm sha256 file_name contents is_external r).source_code
          c
  unfolding register_source_code
  register_source_code-IsSound file_name contents is_external r c sound = record {
    placed =
        All-map c.locations
          (λ l p. record {
            listed = λ f at.
                let (same, registered) = p.listed f at in (same, still f registered.0 registered.1);
            unlisted = p.unlisted;
          })
          sound.placed;
    numbered = sound.numbered;
  }
    where
      new_file : SourceFile Mapper
      new_file = record {
        contents = contents;
        mapper = offset.new_mapper contents;
        is_external = is_external;
      }

      still :
          (f : Bytes) (file : SourceFile Mapper)
          → lookup r.source_code f ≡ some file
          → Registered (assign r.source_code file_name new_file) f
      still f file found = elim (Bool-cases (bytes_key.same file_name f)) [
        | inl here ↦ (new_file, lookup-assign r.source_code file_name new_file f ∙ rw here)
        | inr other ↦ (file, lookup-assign r.source_code file_name new_file f ∙ rw other found)
      ]

  pub register_source_code-IsConsistent :
      (file_name contents : Bytes) (is_external : Bool) (r : Registry Mapper)
      → IsConsistent r
      → IsConsistent (register_source_code offset vm sha256 file_name contents is_external r)
  unfolding register_source_code
  register_source_code-IsConsistent file_name contents is_external r h =
      let keeps = register_source_code-IsSound file_name contents is_external r in
      record {
        by_name = All-map r.contracts_by_name (λ e. keeps e.1) h.by_name;
        by_hash = All-map r.contracts_by_hash (λ e. keeps e.1) h.by_hash;
        by_matcher = All-map r.contract_matchers (λ e. keeps e.1.compiled) h.by_matcher;
        deployed = All-map r.deployed_contracts (λ e. keeps e.1) h.deployed;
      }

  pub register_contract-IsConsistent :
      (name : Bytes) (c : Contract) (source_list : List Bytes) (r r' : Registry Mapper)
      → HasEntries vm c
      → register_contract offset vm sha256 name c source_list r ≡ some r'
      → IsConsistent r
      → IsConsistent r'
  unfolding register_contract register_contract_by_regexp register_contract_by_hash
  register_contract-IsConsistent name c source_list r r' entries h consistent =
      let (cc', compiles, h1) =
        bind-some (compile_contract offset vm sha256 name c source_list r) _ h in
      let sound = compile_contract-IsSound name c source_list r cc' entries compiles in
      let stored =
        AllValues-assign (IsSound r.source_code) r.contracts_by_name name cc' sound
          consistent.by_name in
      let named = record r { contracts_by_name = assign r.contracts_by_name name cc' } in
      elim (Bool-cases (has_placeholder c.code)) [
        | inl linked ↦
            let done : register_contract_by_regexp offset vm sha256 cc' named ≡ r' = ground arith in
            subst IsConsistent done (record {
              by_name = stored;
              by_hash = consistent.by_hash;
              by_matcher =
                  AllValues-assign (λ m. IsSound r.source_code m.compiled) r.contract_matchers _ _
                    sound consistent.by_matcher;
              deployed = consistent.deployed;
            })
        | inr plain ↦
            let (bin, decodes, done) =
              bind-some (hex_decode (trim_0x cc'.contract.code)) _ (rw plain at h1) in
            subst IsConsistent (some-eq done) (record {
              by_name = stored;
              by_hash =
                  AllValues-assign (IsSound r.source_code) r.contracts_by_hash (sha256 bin) cc'
                    sound consistent.by_hash;
              by_matcher = consistent.by_matcher;
              deployed = consistent.deployed;
            })
      ]
    where
      some-eq : {a b : Registry Mapper} → some a ≡ some b → a ≡ b
      some-eq e = cc

-- ===== src/Solcover/Registry/Laws.antt =====
-- What a registered contract tells about its program counters, by name and by address.
use ethier.Common.{
  ℕ, ◌^◌, ◌<◌, false, List, some, ◌≡◌, sym, ap, ◌∙◌, Bytes, bytes_key, number_key, length,
  get_elem?, lookup, assign, lookup-assign_self, ok, succeeded, Bool-cases, arith, inl, inr,
}
use ethier.Common.Optional.{bind-some}
use ethier.Golang.Hex.{hex_decode}
use ethier.Solcover.ByteCode.{OpCodes, parse_code, trim_0x, replace_placeholders, push_zero_address}
use ethier.Solcover.ByteCode.Laws.{listing, index_in, parse_code-listing, parse_code-op_code}
use ethier.Solcover.Location.{Location, MapperPackage}
use ethier.Solcover.SourceMap.{parse_src_map}
use ethier.Solcover.SourceMap.Laws.{parse_src_map-decompress}
use ethier.Solcover.Registry.{
  Contract, CompiledContract, ContractMatcher, Registry, has_placeholder, set_op_codes,
  register_contract, register_contract_by_hash, compile_contract, register_deployed_contract,
  source, source_by_name,
}
use ethier.Solcover.Registry.Compiled.{
  some_injective, ok_injective, location-some, set_op_codes-get_elem?, read_nodes-number,
  compile_contract-IsCompiled,
}

module _ {Mapper : Type 0} (offset : MapperPackage Mapper) (vm : OpCodes)
    (sha256 : Bytes → Bytes) where
  by_hash_stores :
      (cc' : CompiledContract) (r r' : Registry Mapper)
      → register_contract_by_hash offset vm sha256 cc' r ≡ some r'
      → (bin : Bytes) × (hex_decode (trim_0x cc'.contract.code) ≡ some bin)
        × (r' ≡ record r { contracts_by_hash = assign r.contracts_by_hash (sha256 bin) cc' })
  unfolding register_contract_by_hash
  by_hash_stores cc' r r' h =
      let (bin, decoded, stored) = bind-some (hex_decode (trim_0x cc'.contract.code)) _ h in
      (bin, decoded, sym (some_injective stored))

  -- The contract that a successful registration stores under its name, and under the hash of its
  -- code where that has no library placeholder.
  register_contract_stores :
      (name : Bytes) (c : Contract) (source_list : List Bytes) (r r' : Registry Mapper)
      → register_contract offset vm sha256 name c source_list r ≡ some r'
      → (cc' : CompiledContract) × (compile_contract offset vm sha256 name c source_list r
          ≡ some cc')
        × (lookup r'.contracts_by_name name ≡ some cc')
        × ((bin : Bytes)
            → has_placeholder c.code ≡ false
            → hex_decode (trim_0x cc'.contract.code) ≡ some bin
            → lookup r'.contracts_by_hash (sha256 bin) ≡ some cc')
  unfolding register_contract
  register_contract_stores name c source_list r r' h =
      let (cc', compiled, stored) =
        bind-some (compile_contract offset vm sha256 name c source_list r) _ h in
      elim (Bool-cases (has_placeholder c.code)) [
        | inl linked ↦
            let same = sym (some_injective (rw linked at stored)) in
            (
              cc',
              compiled,
              rw (ap (λ q. q.contracts_by_name) same)
                  (lookup-assign_self r.contracts_by_name name cc'),
              λ bin plain. absurd (cc),
            )
        | inr plain ↦
            let (bin', decoded', same) = by_hash_stores cc' _ r' (rw plain at stored) in
            (
              cc',
              compiled,
              rw (ap (λ q. q.contracts_by_name) same)
                  (lookup-assign_self r.contracts_by_name name cc'),
              λ bin _ decoded.
                  let bins : bin ≡ bin' = cc in
                  rw (ap (λ q. q.contracts_by_hash) same, bins)
                    (lookup-assign_self r.contracts_by_hash (sha256 bin') cc'),
            )
      ]

  compile_contract-contract :
      (name : Bytes) (c : Contract) (source_list : List Bytes) (r : Registry Mapper)
      (cc' : CompiledContract)
      → compile_contract offset vm sha256 name c source_list r ≡ some cc'
      → cc'.contract ≡ c
  unfolding compile_contract
  compile_contract-contract name c source_list r cc' h =
      let (parsed, parses, h') = bind-some (succeeded (parse_code vm c.runtime_code)) _ h in
      let (read, reads, h'') =
        bind-some (succeeded (parse_src_map offset r.source_code source_list c.src_map_runtime)) _
          h' in
      let (filled, fills, done) = bind-some (set_op_codes read parsed.op_codes) _ h'' in
      sym (ap (λ q. q.contract) (some_injective done))

  deployed_by_hash :
      (walk : List (Bytes × ContractMatcher) → List (Bytes × ContractMatcher)) (addr bin : Bytes)
      (r : Registry Mapper) (cc' : CompiledContract)
      → lookup r.contracts_by_hash (sha256 bin) ≡ some cc'
      → register_deployed_contract offset vm sha256 walk addr bin r
        ≡ record r { deployed_contracts = assign r.deployed_contracts addr cc' }
  unfolding register_deployed_contract
  deployed_by_hash walk addr bin r cc' found = rw (found, register_deployed_contract)

  -- A contract without library placeholders that is registered and then deployed with the code that
  -- was registered is found at its address: Source at the address and SourceByName at the name give
  -- the same for every program counter, in whatever order the matchers are walked.
  pub source-register_deployed_contract :
      (walk : List (Bytes × ContractMatcher) → List (Bytes × ContractMatcher)) (name : Bytes)
      (c : Contract) (source_list : List Bytes) (r r' : Registry Mapper) (addr bin : Bytes) (pc : ℕ)
      → register_contract offset vm sha256 name c source_list r ≡ some r'
      → has_placeholder c.code ≡ false
      → hex_decode (trim_0x c.code) ≡ some bin
      → source (register_deployed_contract offset vm sha256 walk addr bin r') addr pc
        ≡ source_by_name r' name pc
  source-register_deployed_contract walk name c source_list r r' addr bin pc h plain decoded =
      let (cc', compiled, named, hashed) = register_contract_stores name c source_list r r' h in
      let same = compile_contract-contract name c source_list r cc' compiled in
      let found = hashed bin plain (rw same decoded) in
      rw (deployed_by_hash walk addr bin r' cc' found) (
        unfold source source_by_name in
        rw (lookup-assign_self r'.deployed_contracts addr cc') (rw named))

  -- For a contract that registers and whose runtime code is hexadecimal text of fewer than 2^63
  -- bytes, a location that SourceByName returns for a program counter carries the number of the
  -- instruction that begins there in the listing of the code, and as op code the byte at the
  -- program counter.
  pub source_by_name-listing :
      (name : Bytes) (c : Contract) (source_list : List Bytes) (r r' : Registry Mapper)
      (code : Bytes) (pc : ℕ) (l : Location)
      → register_contract offset vm sha256 name c source_list r ≡ some r'
      → hex_decode (
          replace_placeholders
            (length (trim_0x c.runtime_code))
            push_zero_address
            (trim_0x c.runtime_code))
        ≡ some code
      → length code < 2 ^ 63
      → source_by_name r' name pc ≡ ok (some l)
      → (index_in pc (listing vm 0 0 code) ≡ some l.instruction_number)
        × (get_elem? code pc ≡ some l.op_code)
  source_by_name-listing name c source_list r r' code pc l h decoded short found =
      let (cc', compiled, named, _) = register_contract_stores name c source_list r r' h in
      let parts = compile_contract-IsCompiled offset vm sha256 name c source_list r cc' compiled in
      let (i, numbered, here) =
        location-some cc' pc l (unfold source_by_name in rw named at found) in
      let numbered' = rw parts.numbers at numbered in
      let (before, at_before, same_number, op) =
        set_op_codes-get_elem? parts.read parts.parsed.op_codes cc'.locations i l parts.filled
          here in
      let number =
        read_nodes-number offset r.source_code source_list 0 _ parts.read i before
          (sym (parse_src_map-decompress offset r.source_code source_list c.src_map_runtime)
            ∙ parts.map_)
          at_before in
      let (out, returns, _, finds) = parse_code-listing vm c.runtime_code code decoded short in
      let same : out ≡ parts.parsed = ok_injective (sym returns ∙ parts.code) in
      let byte =
        parse_code-op_code vm c.runtime_code code parts.parsed pc i decoded short parts.code
          numbered' in
      let number' : i ≡ l.instruction_number = omega (arith, number, same_number) in
      (rw (← number') (sym (rw same at (finds pc)) ∙ numbered'), sym byte ∙ op)

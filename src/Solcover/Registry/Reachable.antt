-- ===== src/Solcover/Registry/Reachable.antt =====
-- The package's variables as its functions leave them, in any order of calls.
use ethier.Common.{
  List, [], ◌∷◌, Option, some, ◌≡◌, Bytes, bytes_key, lookup, assign, Bool, Bool-cases,
  Option-cases, inl, inr,
}
use ethier.Common.Entries.{AllValues, AllValues-assign, AllValues-lookup, Visits, All-Visits}
use ethier.Golang.Hex.{hex_encode}
use ethier.Solcover.ByteCode.{OpCodes}
use ethier.Solcover.Location.{MapperPackage}
use ethier.Solcover.Registry.{
  Contract, CompiledContract, ContractMatcher, Registry, matches_somewhere, first_match,
  register_source_code, register_contract, register_deployed_contract,
}
use ethier.Solcover.Registry.Consistent.{
  HasEntries, IsSound, IsConsistent, no_registrations, no_registrations-IsConsistent,
  register_source_code-IsConsistent, register_contract-IsConsistent,
}

-- The matcher that is found is one of those that are walked.
pub first_match-AllValues {ℓ} :
    (P : CompiledContract → Type ℓ) (text : Bytes) (matchers : List (Bytes × ContractMatcher))
    (c : CompiledContract)
    → AllValues (λ m. P m.compiled) matchers
    → first_match text matchers ≡ some c
    → P c
unfolding first_match
first_match-AllValues P text [] c all h = cc
first_match-AllValues P text ((hash, m) ∷ rest) c (p, all) h =
    elim (Bool-cases (matches_somewhere m.re text)) [
      | inl here ↦
          let found : ◌≡◌ {A = Option CompiledContract} (some m.compiled) (some c) =
            rw (first_match, here) at h in
          let same : m.compiled ≡ c = cc in rw (← same) p
      | inr other ↦ first_match-AllValues P text rest c all (rw (first_match, other) at h)
    ]

module _ {Mapper : Type 0} (offset : MapperPackage Mapper) (vm : OpCodes) (sha256 : Bytes → Bytes)
    (walk : List (Bytes × ContractMatcher) → List (Bytes × ContractMatcher)) where
  -- A call of one of the three functions; a contract has a source map for all of its code.
  pub data Registers (r : Registry Mapper) : Registry Mapper → Type 0 where
    source_code :
        (file_name contents : Bytes) (is_external : Bool)
        → Registers r (register_source_code offset vm sha256 file_name contents is_external r)
    contract :
        {r' : Registry Mapper} (name : Bytes) (c : Contract) (source_list : List Bytes)
        → HasEntries vm c
        → register_contract offset vm sha256 name c source_list r ≡ some r'
        → Registers r r'
    deployed :
        (addr code : Bytes)
        → Registers r (register_deployed_contract offset vm sha256 walk addr code r)

  pub data Reaches (r : Registry Mapper) : Registry Mapper → Type 0 where
    here : Reaches r r
    next : {s t : Registry Mapper} → Reaches r s → Registers s t → Reaches r t

module _ {Mapper : Type 0} (offset : MapperPackage Mapper) (vm : OpCodes) (sha256 : Bytes → Bytes)
    (walk : List (Bytes × ContractMatcher) → List (Bytes × ContractMatcher))
    (visits : (m : List (Bytes × ContractMatcher)) → Visits (walk m) m) where
  deploy-IsConsistent :
      (addr : Bytes) (r : Registry Mapper) (c : CompiledContract)
      → IsSound r.source_code c
      → IsConsistent r
      → IsConsistent (record r { deployed_contracts = assign r.deployed_contracts addr c })
  deploy-IsConsistent addr r c sound h = record {
    by_name = h.by_name;
    by_hash = h.by_hash;
    by_matcher = h.by_matcher;
    deployed =
        AllValues-assign (IsSound r.source_code) r.deployed_contracts addr c sound h.deployed;
  }

  pub first_match-IsSound :
      (text : Bytes) (r : Registry Mapper) (c : CompiledContract)
      → AllValues (λ m. IsSound r.source_code m.compiled) r.contract_matchers
      → first_match text (walk r.contract_matchers) ≡ some c
      → IsSound r.source_code c
  first_match-IsSound text r c by_matcher found =
      first_match-AllValues (IsSound r.source_code) text (walk r.contract_matchers) c
        (All-Visits (λ e. IsSound r.source_code e.1.compiled) (walk r.contract_matchers)
          r.contract_matchers (visits r.contract_matchers) by_matcher)
        found

  register_deployed_contract-IsConsistent :
      (addr code : Bytes) (r : Registry Mapper)
      → IsConsistent r
      → IsConsistent (register_deployed_contract offset vm sha256 walk addr code r)
  unfolding register_deployed_contract
  register_deployed_contract-IsConsistent addr code r h =
      elim (Option-cases (lookup r.contracts_by_hash (sha256 code))) [
        | inr (c, found) ↦
            rw (register_deployed_contract, found)
              (deploy-IsConsistent addr r c
                (AllValues-lookup (IsSound r.source_code) r.contracts_by_hash (sha256 code) c
                  h.by_hash found)
                h)
        | inl missing ↦
            elim (Option-cases (first_match (hex_encode code) (walk r.contract_matchers))) [
              | inr (c, found) ↦
                  rw (register_deployed_contract, missing, found)
                    (deploy-IsConsistent addr r c
                      (first_match-IsSound (hex_encode code) r c h.by_matcher found) h)
              | inl none_ ↦ rw (register_deployed_contract, missing, none_) h
            ]
      ]

  Registers-IsConsistent :
      {r s : Registry Mapper}
      → Registers offset vm sha256 walk r s
      → IsConsistent r
      → IsConsistent s
  Registers-IsConsistent {r} (source_code file_name contents is_external) h =
      register_source_code-IsConsistent offset vm sha256 file_name contents is_external r h
  Registers-IsConsistent {r} {s} (contract name c source_list entries registers) h =
      register_contract-IsConsistent offset vm sha256 name c source_list r s entries registers h
  Registers-IsConsistent {r} (deployed addr code) h =
      register_deployed_contract-IsConsistent addr code r h

  -- From the empty variables on, through any calls of the functions that register sources,
  -- contracts and deployments, each contract with a source map entry for every instruction: every
  -- contract that can be found, by its name, its hash, its pattern or its address, has a location
  -- for each of its instruction numbers, and each location lies in a registered source or has no
  -- line.
  pub Reaches-IsConsistent :
      {r : Registry Mapper} → Reaches offset vm sha256 walk no_registrations r → IsConsistent r
  Reaches-IsConsistent here = no_registrations-IsConsistent
  Reaches-IsConsistent (next run step) = Registers-IsConsistent step (Reaches-IsConsistent run)

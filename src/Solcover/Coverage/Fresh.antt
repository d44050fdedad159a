-- ===== src/Solcover/Coverage/Fresh.antt =====
-- `Collector()` on consistent variables: it returns, and covers all that can be deployed.
use ethier.Common.{
  List, [], ◌∷◌, ◌++◌, map, some, ◌≡◌, refl, sym, subst, Bytes, All, All-append, bytes_key,
  number_key, get_elem?, get_elem?_in_range, assign, Option-cases, Bool-cases, inl, inr, arith,
}
use ethier.Common.Entries.{AllValues, AllValues-lookup, Visits, All-Visits, All-get_elem?}
use ethier.Solcover.ByteCode.{OpCodes}
use ethier.Solcover.Location.{Location, MapperPackage, SourceFile}
use ethier.Solcover.Registry.{CompiledContract, ContractMatcher, Registry}
use ethier.Solcover.Registry.Placed.{Registered, IsPlaced}
use ethier.Solcover.Registry.Consistent.{IsSound, IsDeployable}
use ethier.Solcover.Registry.Reachable.{first_match-IsSound}
use ethier.Solcover.Coverage.{
  LineHits, Collector, set_hits, reset_lines, reset_contracts, has_no_line, new_collector,
  zero_location,
}
use ethier.Solcover.Coverage.Follow.{Knows, Knows-assign, IsCovered}
use ethier.Solcover.Coverage.Calls.{IsTracked}

-- The hits know every registered source.
abbrev Full : {Mapper : Type 0} → List (Bytes × SourceFile Mapper) → LineHits → Type 0
Full sources hits = (f : Bytes) → Registered sources f → Knows hits f

empty_hits : {Mapper : Type 0} → List (Bytes × SourceFile Mapper) → LineHits
empty_hits sources = map (λ e. (e.0, [])) sources

empty_hits-Full :
    {Mapper : Type 0} (sources : List (Bytes × SourceFile Mapper))
    → Full sources (empty_hits sources)
unfolding empty_hits
empty_hits-Full [] f (file, h) = cc
empty_hits-Full ((name, file') ∷ sources) f (file, h) = elim (Bool-cases (bytes_key.same name f)) [
  | inl same ↦ ([], rw same)
  | inr other ↦
      let (hits, known) = empty_hits-Full sources f (file, rw other at h) in (hits, rw other known)
]

module _ {Mapper : Type 0} (sources : List (Bytes × SourceFile Mapper)) where
  reset_lines-Full :
      (source_list : List Bytes) (ls : List Location) (hits : LineHits)
      → All (IsPlaced sources source_list) ls
      → Full sources hits
      → (hits' : LineHits) × (reset_lines source_list ls hits ≡ some hits') × Full sources hits'
  unfolding reset_lines set_hits
  reset_lines-Full source_list [] hits all full = (hits, refl, full)
  reset_lines-Full source_list (l ∷ ls) hits (placed, all) full =
      elim (Option-cases (get_elem? source_list l.file_idx)) [
        | inl out ↦
            let (hits', resets, full') = reset_lines-Full source_list ls hits all full in
            (hits', rw (reset_lines, out) resets, full')
        | inr (f, at) ↦
            let (same, registered) = placed.listed f at in
            let (lines, known) = full f registered in
            let set = assign hits f (assign lines l.line 0) in
            let (hits', resets, full') =
              reset_lines-Full source_list ls set all
                (λ g r. Knows-assign hits f (assign lines l.line 0) g (full g r)) in
            (hits', rw (reset_lines, at, set_hits, known) resets, full')
      ]

  reset_contracts-Full :
      (cs : List CompiledContract) (hits : LineHits)
      → All (IsSound sources) cs
      → Full sources hits
      → (hits' : LineHits) × (reset_contracts cs hits ≡ some hits') × Full sources hits'
  unfolding reset_contracts
  reset_contracts-Full [] hits all full = (hits, refl, full)
  reset_contracts-Full (c ∷ cs) hits (sound, all) full =
      let (set, resets, full1) =
        reset_lines-Full c.source_list c.locations hits sound.placed full in
      let (hits', resets2, full2) = reset_contracts-Full cs set all full1 in
      (hits', rw (reset_contracts, resets) resets2, full2)

  IsSound-IsCovered :
      (hits : LineHits) (c : CompiledContract)
      → Full sources hits
      → IsSound sources c
      → IsCovered hits c
  unfolding has_no_line
  IsSound-IsCovered hits c full sound = record {
    numbered = λ pc i at. get_elem?_in_range c.locations i (sound.numbered pc i at);
    known = λ i l at lined.
        let placed =
          All-get_elem? (IsPlaced sources c.source_list) c.locations i l sound.placed at in
        elim (Option-cases (get_elem? c.source_list l.file_idx)) [
          | inl out ↦ let empty = placed.unlisted out in absurd (ground arith)
          | inr (f, listed) ↦
              let (same, registered) = placed.listed f listed in
              subst (Knows hits) (sym same) (full f registered)
        ];
  }

map-AllValues {ℓ κ} :
    {A : Type 0} {B : Type ℓ} (f : A → B) (P : B → Type κ) (m : List (Bytes × A))
    → AllValues (λ a. P (f a)) m
    → All P (map (λ e. f e.1) m)
map-AllValues f P [] all = tt
map-AllValues f P ((k, a) ∷ m) (p, all) = (p, map-AllValues f P m all)

module _ {Mapper : Type 0} (offset : MapperPackage Mapper) (vm : OpCodes) (sha256 : Bytes → Bytes)
    (walk : List (Bytes × ContractMatcher) → List (Bytes × ContractMatcher))
    (visits : (m : List (Bytes × ContractMatcher)) → Visits (walk m) m)
    (walk_hashes : List (Bytes × CompiledContract) → List (Bytes × CompiledContract))
    (visits_hashes : (m : List (Bytes × CompiledContract)) → Visits (walk_hashes m) m)
    (walk_matchers : List (Bytes × ContractMatcher) → List (Bytes × ContractMatcher))
    (visits_matchers : (m : List (Bytes × ContractMatcher)) → Visits (walk_matchers m) m) where
  -- On variables where every contract that is deployed or that a deployment can find, by its hash
  -- or by its pattern, has a location for each of its instruction numbers, and each location lies
  -- in a registered source or has no line: Collector returns, whatever the order in which Go walks
  -- the maps, and the new collector covers every contract that is deployed or that a deployment can
  -- find.
  pub new_collector-IsTracked :
      (r : Registry Mapper)
      → IsDeployable r
      → (k : Collector) × (new_collector walk_hashes walk_matchers r ≡ some k)
        × IsTracked offset vm sha256 walk r k.line_hits
  unfolding new_collector empty_hits
  new_collector-IsTracked r h =
      let sound = IsSound r.source_code in
      let hashed = walk_hashes r.contracts_by_hash in
      let matched = walk_matchers r.contract_matchers in
      let all_hashed =
        map-AllValues (λ c. c) sound hashed
          (All-Visits (λ e. sound e.1) hashed r.contracts_by_hash
            (visits_hashes r.contracts_by_hash) h.by_hash) in
      let all_matched =
        map-AllValues (λ m. m.compiled) sound matched
          (All-Visits (λ e. sound e.1.compiled) matched r.contract_matchers
            (visits_matchers r.contract_matchers) h.by_matcher) in
      let (hits, resets, full) =
        reset_contracts-Full r.source_code
          (map (λ e. e.1) hashed ++ map (λ e. e.1.compiled) matched) (empty_hits r.source_code)
          (All-append sound (map (λ e. e.1) hashed) (map (λ e. e.1.compiled) matched) all_hashed
            all_matched)
          (empty_hits-Full r.source_code) in
      let covers = λ (c : CompiledContract) (s : IsSound r.source_code c).
        IsSound-IsCovered r.source_code hits c full s in
      (
        record { contracts = []; line_hits = hits; last = zero_location },
        rw (new_collector, resets),
        record {
          deployed = λ addr c at.
              covers c (AllValues-lookup sound r.deployed_contracts addr c h.deployed at);
          by_hash = λ hash c at.
              covers c (AllValues-lookup sound r.contracts_by_hash hash c h.by_hash at);
          by_matcher = λ text c found.
              covers c
                (first_match-IsSound offset vm sha256 walk visits text r c h.by_matcher found);
        },
      )

-- ===== src/Solcover/Coverage/Calls.antt =====
-- The collector over the traces of whole transactions, deployments included.
use ethier.Common.{
  Bool, true, false, List, [], ◌∷◌, ◌++◌, Option, some, ◌≡◌, refl, sym, ◌∙◌, Bytes, bytes_key,
  lookup, assign, lookup-assign, Option-cases, Bool-cases, inl, inr, if◌then◌else◌,
}
use ethier.Golang.Hex.{hex_encode}
use ethier.Solcover.ByteCode.{OpCodes}
use ethier.Solcover.Location.{MapperPackage}
use ethier.Solcover.Registry.{
  CompiledContract, ContractMatcher, Registry, first_match, register_deployed_contract,
}
use ethier.Solcover.Coverage.{
  LineHits, Collector, Event, capture_start, capture_end, capture_tx_start, capture_tx_end, Tracing,
  capture, run,
}
use ethier.Solcover.Coverage.Follow.{IsCovered, IsReady, Balanced, Follows, IsCovered-Follows}
use ethier.Solcover.Coverage.Laws.{run-Follows, run-append}

-- The traces of calls from outside, each with its balanced steps, and of transactions around them.
pub data Calls : List Event → Type 0 where
  no_calls : Calls []
  starts_tx : {es : List Event} → Calls es → Calls (capture_tx_start ∷ es)
  ends_tx : {es : List Event} → Calls es → Calls (capture_tx_end ∷ es)
  ends_call : {es : List Event} → Calls es → Calls (capture_end ∷ es)
  calls :
      (to : Bytes) (create : Bool) (input : Bytes) {body es : List Event}
      → Balanced body
      → Calls es
      → Calls (capture_start to create input ∷ body ++ es)

module _ {Mapper : Type 0} (offset : MapperPackage Mapper) (vm : OpCodes) (sha256 : Bytes → Bytes)
    (walk : List (Bytes × ContractMatcher) → List (Bytes × ContractMatcher)) where
  -- Every contract that is deployed, or that a deployment can find, is covered.
  pub record IsTracked (r : Registry Mapper) (hits : LineHits) : Type 0 where
    pub deployed : IsReady r hits
    pub by_hash :
        (hash : Bytes) (c : CompiledContract)
        → lookup r.contracts_by_hash hash ≡ some c
        → IsCovered hits c
    pub by_matcher :
        (text : Bytes) (c : CompiledContract)
        → first_match text (walk r.contract_matchers) ≡ some c
        → IsCovered hits c

  IsReady-assign :
      (r : Registry Mapper) (hits : LineHits) (addr : Bytes) (c : CompiledContract)
      → IsCovered hits c
      → IsReady r hits
      → IsReady (record r { deployed_contracts = assign r.deployed_contracts addr c }) hits
  IsReady-assign r hits addr c covered ready x d found = elim (Bool-cases (bytes_key.same addr x)) [
    | inl same ↦
        let here : ◌≡◌ {A = Option CompiledContract} (some c) (some d) =
          rw same at (sym (lookup-assign r.deployed_contracts addr c x) ∙ found) in
        let is_c : c ≡ d = cc in rw (← is_c) covered
    | inr other ↦
        ready x d (rw other at (sym (lookup-assign r.deployed_contracts addr c x) ∙ found))
  ]

  IsTracked-assign :
      (r : Registry Mapper) (hits : LineHits) (addr : Bytes) (c : CompiledContract)
      → IsCovered hits c
      → IsTracked r hits
      → IsTracked (record r { deployed_contracts = assign r.deployed_contracts addr c }) hits
  IsTracked-assign r hits addr c covered tracked = record {
    deployed = IsReady-assign r hits addr c covered tracked.deployed;
    by_hash = tracked.by_hash;
    by_matcher = tracked.by_matcher;
  }

  register_deployed_contract-IsTracked :
      (r : Registry Mapper) (hits : LineHits) (addr code : Bytes)
      → IsTracked r hits
      → IsTracked (register_deployed_contract offset vm sha256 walk addr code r) hits
  unfolding register_deployed_contract
  register_deployed_contract-IsTracked r hits addr code tracked =
      elim (Option-cases (lookup r.contracts_by_hash (sha256 code))) [
        | inr (c, found) ↦
            rw (register_deployed_contract, found)
              (IsTracked-assign r hits addr c (tracked.by_hash (sha256 code) c found) tracked)
        | inl missing ↦
            elim (Option-cases (first_match (hex_encode code) (walk r.contract_matchers))) [
              | inr (c, matched) ↦
                  rw (register_deployed_contract, missing, matched)
                    (IsTracked-assign r hits addr c (tracked.by_matcher (hex_encode code) c matched)
                      tracked)
              | inl none_ ↦ rw (register_deployed_contract, missing, none_) tracked
            ]
      ]

  IsTracked-Follows :
      (r : Registry Mapper) {k k' : Collector}
      → Follows k k'
      → IsTracked r k.line_hits
      → IsTracked r k'.line_hits
  IsTracked-Follows r {k} {k'} follows tracked = record {
    deployed = λ addr c h. IsCovered-Follows {k = k} {k' = k'} follows (tracked.deployed addr c h);
    by_hash = λ hash c h. IsCovered-Follows {k = k} {k' = k'} follows (tracked.by_hash hash c h);
    by_matcher =
        λ text c h. IsCovered-Follows {k = k} {k' = k'} follows (tracked.by_matcher text c h);
  }

  started :
      (r : Registry Mapper) (hits : LineHits) (to : Bytes) (create : Bool) (input : Bytes)
      → IsTracked r hits
      → IsTracked
          (if create then register_deployed_contract offset vm sha256 walk to input r else r)
          hits
  started r hits to true input tracked =
      register_deployed_contract-IsTracked r hits to input tracked
  started r hits to false input tracked = tracked

  -- Such a trace runs without a panic, and every contract stays covered.
  pub run-IsTracked :
      {es : List Event} (r : Registry Mapper) (k : Collector)
      → Calls es
      → IsTracked r k.line_hits
      → (t : Tracing Mapper) × (run offset vm sha256 walk es
            (record { registry = r; collector = k })
          ≡ some t)
        × IsTracked t.registry t.collector.line_hits
  unfolding run capture
  run-IsTracked r k no_calls tracked = (record { registry = r; collector = k }, refl, tracked)
  run-IsTracked r k (starts_tx rest) tracked = run-IsTracked r k rest tracked
  run-IsTracked r k (ends_tx rest) tracked = run-IsTracked r k rest tracked
  run-IsTracked r k (ends_call rest) tracked = run-IsTracked r k rest tracked
  run-IsTracked r k (calls to create input {body} {es = later} balanced rest) tracked =
      let r1 = if create then register_deployed_contract offset vm sha256 walk to input r else r in
      let k1 = record k { contracts = to ∷ [] } in
      let tracked1 = started r k.line_hits to create input tracked in
      let (k2, runs, follows) =
        run-Follows offset vm sha256 walk body r1 k1 to [] balanced refl (tracked1.deployed) in
      let (t, runs2, tracked2) =
        run-IsTracked r1 k2 rest (IsTracked-Follows r1 {k = k1} {k' = k2} follows tracked1) in
      (t, run-append offset vm sha256 walk body later _ _ runs ∙ runs2, tracked2)

-- ===== src/Ethtest/Backend/Life/Tests.antt =====
-- A contract registered, a backend made for it and two transactions sent.
use ethier.Common.{
  ℕ, ◌==◌, Bool-cases, inl, inr, true, false, List, [], ◌∷◌, none, some, ◌≡◌, refl, sym, ◌∙◌, ap,
  Bytes, bytes_key, number_key, codes, lookup, ok, ok-injective, arith,
}
use ethier.Common.Entries.{Visits}
use ethier.Common.Int.{pos}
use ethier.Golang.Text.{split}
use ethier.Solcover.SourceMap.{parse_src_map}
use ethier.Solcover.Location.{location_from_node}
use ethier.Solcover.ByteCode.{Parsed, parse_code}
use ethier.Solcover.Registry.{Contract, Registry, register_source_code, register_contract}
use ethier.Solcover.Registry.Consistent.{
  HasEntries, IsConsistent, IsConsistent-IsDeployable, no_registrations,
}
use ethier.Solcover.Registry.Reachable.{
  Reaches, here, next, source_code, contract, Reaches-IsConsistent,
}
use ethier.Solcover.Coverage.{Collector, new_collector}
use ethier.Solcover.Coverage.Follow.{state, nothing}
use ethier.Solcover.Coverage.Calls.{IsTracked, no_calls, starts_tx, ends_tx, ends_call, calls}
use ethier.Solcover.Coverage.Fresh.{new_collector-IsTracked}
use ethier.Ethtest.Backend.{SimulatedBackend}
use ethier.Ethtest.Backend.Genesis.{new_simulated_backend}
use ethier.Ethtest.Backend.Transactions.{Covers}
use ethier.Ethtest.Backend.Life.{bare_all, send_all, new_simulated_backend-bare_all}
use ethier.Ethtest.Backend.Tests.{deploying_geth, evm, text_mapper, same_order}

abbrev file_name : Bytes
file_name = codes "A.sol"

-- One instruction and one entry.
abbrev stop_contract : Contract
stop_contract = record {
  code = codes "00";
  runtime_code = codes "00";
  src_map_runtime = codes "0:1:0:-:0";
}

abbrev parsed_stop : Parsed
parsed_stop = record { instructions = (0, 0) ∷ []; op_codes = 0 ∷ [] }

stop_parses : parse_code evm (codes "00") ≡ ok parsed_stop
unfolding parse_code
stop_parses = refl

stop_contract-HasEntries : HasEntries evm stop_contract
unfolding HasEntries split
stop_contract-HasEntries parsed pc i parses at =
    let same : parsed_stop ≡ parsed = ok-injective (sym stop_parses ∙ parses) in
    let at' : lookup parsed_stop.instructions pc ≡ some i =
      ap (λ p. lookup p.instructions pc) same ∙ at in
    elim (Bool-cases (0 == pc)) [
      | inl same_pc ↦
          let found : some 0 ≡ some i = rw same_pc at at' in
          let zeroth : 0 ≡ i = cc in omega (arith, zeroth)
      | inr other ↦ let gone : none ≡ some i = rw other at at' in cc
    ]

abbrev with_source : Registry Bytes
with_source = record no_registrations {
  source_code =
      (file_name, record { contents = codes "x"; mapper = codes "x"; is_external = false }) ∷ [];
}

registered :
    (r : Registry Bytes) × (register_contract text_mapper evm
        (λ b. b)
        (codes "A")
        stop_contract
        (file_name ∷ [])
        with_source
      ≡ some r)
unfolding register_contract parse_code parse_src_map split location_from_node
registered = (_, refl)

abbrev known : Registry Bytes
known = registered.0

reached : Reaches text_mapper evm (λ b. b) same_order no_registrations known
unfolding register_source_code
reached =
    next (next here (source_code file_name (codes "x") false))
      (contract (codes "A") stop_contract (file_name ∷ []) stop_contract-HasEntries registered.1)

same_order-Visits {ℓ} : {A : Type ℓ} (m : List A) → Visits (same_order m) m
same_order-Visits m i a h = (i, h)

Reaches-IsConsistent_example : IsConsistent known
Reaches-IsConsistent_example =
    Reaches-IsConsistent text_mapper evm (λ b. b) same_order same_order-Visits reached

new_collector-IsTracked_example :
    (k : Collector) × (new_collector same_order same_order known ≡ some k)
    × IsTracked text_mapper evm (λ b. b) same_order known k.line_hits
new_collector-IsTracked_example =
    new_collector-IsTracked text_mapper evm (λ b. b) same_order same_order-Visits same_order
      same_order-Visits same_order same_order-Visits known
      (IsConsistent-IsDeployable
        (Reaches-IsConsistent text_mapper evm (λ b. b) same_order same_order-Visits reached))

backend :
    (sb : SimulatedBackend ℕ Bytes Bytes) × (new_simulated_backend deploying_geth same_order
        same_order
        (pos 1)
        known
      ≡ ok sb)
unfolding new_simulated_backend new_collector register_contract parse_code parse_src_map split
    location_from_node registered
backend = (_, refl)

new_simulated_backend-bare_all_example :
    ((send_all deploying_geth text_mapper evm (λ b. b) same_order (1 ∷ 2 ∷ []) backend.0).0
      ≡ (bare_all deploying_geth (1 ∷ 2 ∷ []) true backend.0.chain).0)
    × ((send_all deploying_geth text_mapper evm (λ b. b) same_order (1 ∷ 2 ∷ []) backend.0).1.chain
        ≡ (bare_all deploying_geth (1 ∷ 2 ∷ []) true backend.0.chain).1)
    × Covers deploying_geth text_mapper evm
        (λ b. b)
        same_order
        (send_all deploying_geth text_mapper evm (λ b. b) same_order (1 ∷ 2 ∷ []) backend.0).1
new_simulated_backend-bare_all_example =
    new_simulated_backend-bare_all deploying_geth text_mapper evm (λ b. b) same_order
      (λ tx c.
        starts_tx (
          calls (codes "0xb") true (codes "code") (state 0 nothing) (ends_call (ends_tx no_calls))))
      (λ c. no_calls) same_order-Visits same_order same_order-Visits same_order same_order-Visits
      (pos 1) known backend.0 (1 ∷ 2 ∷ []) reached backend.1

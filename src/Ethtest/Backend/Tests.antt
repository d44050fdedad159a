-- ===== src/Ethtest/Backend/Tests.antt =====
-- Runs of ethtest/simbackend.go on a toy chain, and its theorems at concrete inputs.
use Prim.Native.Nat.{max}
use ethier.Common.{
  Bool-cases, inl, inr, ◌∷◌, Option, codes, ℕ, ◌+◌, ◌<◌, true, List, [], none, some, ◌≡◌, refl,
  Bytes, All, bytes_key, lookup, leb, ◌&&◌, ok, arith,
}
use ethier.Common.Int.{pos}
use ethier.Ethtest.Backend.{
  Geth, SimulatedBackend, fast_forward, block_number, is_above, send_transaction,
}
use ethier.Ethtest.Backend.Accounts.{acc}
use ethier.Ethtest.Backend.Genesis.{Genesis, genesis, new_simulated_backend}
use ethier.Ethtest.Backend.Genesis.Laws.{entities}
use ethier.Ethtest.Backend.Laws.{new_simulated_backend-acc}
use ethier.Ethtest.Backend.Blocks.{fast_forward-block_number}
use ethier.Solcover.ByteCode.{OpCodes}
use ethier.Solcover.Location.{MapperPackage}
use ethier.Solcover.Registry.{CompiledContract, Registry, first_match}
use ethier.Ethtest.Backend.Transactions.{Covers, settled, send_transaction_lem}
use ethier.Solcover.Coverage.Calls.{no_calls, starts_tx, ends_tx, ends_call, calls}
use ethier.Solcover.Coverage.Follow.{IsCovered, state, nothing}
use ethier.Solcover.Coverage.{
  zero_location, LineHits, Event, capture_start, capture_state, capture_end, capture_tx_start,
  capture_tx_end,
}

-- A chain is the number of its blocks, and a key is the seed that it is made from.
abbrev pub toy_geth : Geth ℕ ℕ Bytes Bytes
toy_geth = record {
  keccak512 = λ seed. seed;
  generate_key = λ seed. ok seed;
  keyed_transactor = λ key id. ok (record { from = key; signer = key; value = none });
  new_chain = λ alloc gas. 0;
  adjust_time = λ t c. c;
  send_transaction = λ tx c. record { result = ok tt; chain = c; trace = [] };
  commit = λ c. record { result = ok tt; chain = c + 1; trace = [] };
  block_number = λ c. c;
  balance_at = λ a c. ok (pos 0);
  wait_mined = λ tx c. ok 21_000;
  gas_price = λ tx. pos 1;
}

abbrev pub evm : OpCodes
evm = record { is_push = λ c. leb 0x60 c && leb c 0x7f; push0 = 0x5f }

abbrev pub text_mapper : MapperPackage Bytes
text_mapper = record { new_mapper = λ s. s; len = λ s. 0; line_and_column = λ m n. none }

abbrev pub same_order {ℓ} : {A : Type ℓ} → List A → List A
same_order xs = xs

abbrev no_contracts : Registry Bytes
no_contracts = record {
  source_code = [];
  contracts_by_name = [];
  contracts_by_hash = [];
  contract_matchers = [];
  deployed_contracts = [];
}

two_accounts : (g : Genesis Bytes) × (genesis toy_geth (pos 2) ≡ ok g)
unfolding genesis
two_accounts = (_, refl)

backend :
    (sb : SimulatedBackend ℕ Bytes Bytes) × (new_simulated_backend toy_geth same_order same_order
        (pos 2)
        no_contracts
      ≡ ok sb)
unfolding new_simulated_backend
backend = (_, refl)

larger_backend :
    (sb : SimulatedBackend ℕ Bytes Bytes) × (new_simulated_backend toy_geth same_order same_order
        (pos 3)
        no_contracts
      ≡ ok sb)
unfolding new_simulated_backend
larger_backend = (_, refl)

new_simulated_backend-acc_example :
    ((i : ℕ) → i < 2 → i < 3 → acc i backend.0 ≡ acc i larger_backend.0)
    × All (λ m. lookup backend.0.mock_accounts m ≡ lookup larger_backend.0.mock_accounts m) entities
new_simulated_backend-acc_example =
    new_simulated_backend-acc toy_geth same_order same_order (pos 2) (pos 3) no_contracts
      no_contracts backend.0 larger_backend.0 backend.1 larger_backend.1

abbrev at_block_one : SimulatedBackend ℕ Bytes Bytes
at_block_one = record {
  chain = 1;
  auto_commit = true;
  accounts = [];
  mock_accounts = [];
  tracing = record {
    registry = no_contracts;
    collector = record { contracts = []; line_hits = []; last = zero_location };
  };
  has_report = true;
}

forward_to_three :
    fast_forward toy_geth text_mapper evm (λ b. b) same_order 3 (pos 3) at_block_one
    ≡ some (true, record at_block_one { chain = 3 })
unfolding fast_forward
forward_to_three = refl

-- A contract without instructions, that a deployment finds by its hash.
abbrev empty_contract : CompiledContract
empty_contract = record {
  contract = record { code = []; runtime_code = []; src_map_runtime = [] };
  name = codes "E";
  source_list = [];
  locations = [];
  instructions = [];
}

abbrev with_contract : SimulatedBackend ℕ Bytes Bytes
with_contract = record at_block_one {
  tracing = record at_block_one.tracing {
    registry = record no_contracts { contracts_by_hash = (codes "code", empty_contract) ∷ [] };
  };
}

-- A chain whose transactions deploy that contract and run its first instruction.
abbrev pub deploying_trace : List Event
deploying_trace =
    capture_tx_start
    ∷ capture_start (codes "0xb") true (codes "code")
    ∷ capture_state 0
    ∷ capture_end
    ∷ capture_tx_end
    ∷ []

abbrev pub deploying_geth : Geth ℕ ℕ Bytes Bytes
deploying_geth = record toy_geth {
  send_transaction = λ tx c. record { result = ok tt; chain = c; trace = deploying_trace };
}

empty_contract-IsCovered : (hits : LineHits) → IsCovered hits empty_contract
empty_contract-IsCovered hits = record {
  numbered = λ pc i h. absurd (cc);
  known = λ i l h lined. absurd (cc);
}

found_by_hash :
    (hash : Bytes) (c : CompiledContract)
    → lookup with_contract.tracing.registry.contracts_by_hash hash ≡ some c
    → IsCovered [] c
found_by_hash hash c h = elim (Bool-cases (bytes_key.same (codes "code") hash)) [
  | inl same ↦
      let here : ◌≡◌ {A = Option CompiledContract} (some empty_contract) (some c) = rw same at h in
      let is_c : empty_contract ≡ c = cc in rw (← is_c) (empty_contract-IsCovered [])
  | inr other ↦
      let gone : ◌≡◌ {A = Option CompiledContract} none (some c) = rw other at h in absurd (cc)
]

with_contract-Covers : Covers toy_geth text_mapper evm (λ b. b) same_order with_contract
unfolding first_match
with_contract-Covers = record {
  deployed = λ addr c h. absurd (cc);
  by_hash = found_by_hash;
  by_matcher = λ text c h. absurd (cc);
}

send_transaction_lem_example :
    (sb' : SimulatedBackend ℕ Bytes Bytes) × (send_transaction deploying_geth text_mapper evm
        (λ b. b)
        same_order
        0
        with_contract
      ≡ (ok tt, sb'))
    × (sb'.chain ≡ 2)
    × (sb'.auto_commit ≡ true)
    × Covers deploying_geth text_mapper evm (λ b. b) same_order sb'
unfolding settled
send_transaction_lem_example =
    send_transaction_lem deploying_geth text_mapper evm (λ b. b) same_order 0 with_contract
      (starts_tx
        (calls (codes "0xb") true (codes "code") (state 0 nothing) (ends_call (ends_tx no_calls))))
      no_calls with_contract-Covers

-- A chain whose every commit executes such a transaction again.
abbrev replaying_geth : Geth ℕ ℕ Bytes Bytes
replaying_geth = record deploying_geth {
  commit = λ c. record { result = ok tt; chain = c + 1; trace = deploying_trace };
}

fast_forward-block_number_example :
    (sb' : SimulatedBackend ℕ Bytes Bytes) × (fast_forward replaying_geth text_mapper evm
        (λ b. b)
        same_order
        3
        (pos 3)
        with_contract
      ≡ some (
        is_above
            (pos 3)
            (block_number replaying_geth text_mapper evm (λ b. b) same_order with_contract),
        sb',
      ))
    × (block_number replaying_geth text_mapper evm (λ b. b) same_order sb'
        ≡ max (block_number replaying_geth text_mapper evm (λ b. b) same_order with_contract) 3)
    × Covers replaying_geth text_mapper evm (λ b. b) same_order sb'
unfolding block_number
fast_forward-block_number_example =
    fast_forward-block_number replaying_geth text_mapper evm (λ b. b) same_order (λ c. refl)
      (λ c.
        starts_tx (
          calls (codes "0xb") true (codes "code") (state 0 nothing) (ends_call (ends_tx no_calls))))
      3 (pos 3) with_contract (omega arith) with_contract-Covers

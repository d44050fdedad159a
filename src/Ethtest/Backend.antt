-- ===== src/Ethtest/Backend.antt =====
-- ethtest/simbackend.go: the simulated backend, its accounts and its blocks. go-ethereum's chain and
-- keys are a parameter. The chain runs transactions under the coverage collector: a call of the
-- chain comes with the trace that its EVM made.
pub mod Genesis
pub mod Laws
pub mod Accounts
pub mod Blocks
pub mod Transactions
pub mod Life
mod Tests
use ethier.Common.{
  ℕ, zero, suc, ◌*◌, Bool, true, false, List, Option, none, some, Bytes, bytes_key, codes, ltb,
  if◌then◌else◌, lookup, Outcome, ok, err, panics, ◌>>=◌,
}
use ethier.Common.Int.{ℤ, pos, negsuc, ◌*ℤ◌}
use ethier.Ethtest.Errors.{
  TestError, external, wrapped, unsupported_entity, Tb, Tested, report, or_fatal,
}
use ethier.Solcover.ByteCode.{OpCodes}
use ethier.Solcover.Location.{MapperPackage}
use ethier.Solcover.Registry.{ContractMatcher}
use ethier.Solcover.Coverage.{Event, Tracing, run}
use ethier.Solcover.Coverage.Report.{lcov_trace_file}

-- The fields of a `bind.TransactOpts` that the package reads or sets.
pub record TransactOpts (Signer : Type 0) : Type 0 where
  pub from : Bytes
  pub signer : Signer
  pub value : Option ℤ

-- `bind.CallOpts`
pub record CallOpts : Type 0 where
  pub from : Bytes

-- What a call of the chain returns: an error or a value, the chain, and the trace.
pub record Sent (Chain A : Type 0) : Type 0 where
  pub result : Outcome TestError A
  pub chain : Chain
  pub trace : List Event

-- go-ethereum: keys, transactors, and the simulated chain.
pub record Geth (Chain Tx Key Signer : Type 0) : Type 0 where
  pub keccak512 : Bytes → Bytes
  pub generate_key : Bytes → Outcome TestError Key
  pub keyed_transactor : Key → ℕ → Outcome TestError (TransactOpts Signer)
  pub new_chain : List (Bytes × ℤ) → ℕ → Chain
  pub adjust_time : ℕ → Chain → Chain
  pub send_transaction : Tx → Chain → Sent Chain (Unit {0})
  pub commit : Chain → Sent Chain (Unit {0})
  pub block_number : Chain → ℕ
  pub balance_at : Bytes → Chain → Outcome TestError ℤ
  pub wait_mined : Tx → Chain → Outcome TestError ℕ
  pub gas_price : Tx → ℤ

-- A `SimulatedBackend`, with the variables of solcover, which its collector reads and writes.
pub record SimulatedBackend (Chain Signer Mapper : Type 0) : Type 0 where
  pub chain : Chain
  pub auto_commit : Bool
  pub accounts : List (TransactOpts Signer)
  pub mock_accounts : List (Bytes × TransactOpts Signer)
  pub tracing : Tracing Mapper
  pub has_report : Bool

-- Mocked entities.
abbrev pub open_sea : Bytes
open_sea = codes "OpenSea"

abbrev pub chainlink : Bytes
chainlink = codes "Chainlink"

abbrev pub ethier_entity : Bytes
ethier_entity = codes "Ethier"

abbrev pub weth : Bytes
weth = codes "wETH"

-- `blockNumber.Cmp(n) == 1`
unfoldable pub is_above : ℤ → ℕ → Bool
is_above (pos target) n = ltb n target
is_above (negsuc target) n = false

module _ {Chain Tx Key Signer Mapper : Type 0} (geth : Geth Chain Tx Key Signer)
    (offset : MapperPackage Mapper) (vm : OpCodes) (sha256 : Bytes → Bytes)
    (walk : List (Bytes × ContractMatcher) → List (Bytes × ContractMatcher)) where
  -- What the collector sees of a call of the chain, which then stands for the backend's chain.
  unfoldable pub follow :
      List Event
      → Chain
      → SimulatedBackend Chain Signer Mapper
      → Option (SimulatedBackend Chain Signer Mapper)
  unfolding run
  follow trace chain sb = elim (run offset vm sha256 walk trace sb.tracing) [
    | none ↦ none
    | some tracing ↦ some (record sb { chain = chain; tracing = tracing })
  ]

  -- `sb.Commit()`, of the embedded backend.
  unfoldable pub commit :
      SimulatedBackend Chain Signer Mapper → Option (SimulatedBackend Chain Signer Mapper)
  unfolding follow
  commit sb = let sent = geth.commit sb.chain in follow sent.trace sent.chain sb

  -- `(*SimulatedBackend).SendTransaction`, with the backend that it leaves.
  unfoldable pub send_transaction :
      Tx
      → SimulatedBackend Chain Signer Mapper
      → Outcome TestError (Unit {0}) × SimulatedBackend Chain Signer Mapper
  unfolding follow commit
  send_transaction tx sb =
      let sent = geth.send_transaction tx sb.chain in
      elim (follow sent.trace sent.chain sb) [
        | none ↦ (panics, sb)
        | some pending ↦ elim sent.result [
          | ok u ↦
              if pending.auto_commit
              then elim (commit pending) [ none ↦ (panics, pending) | some mined ↦ (ok u, mined) ]
              else (ok u, pending)
          | err e ↦ (err e, pending)
          | panics ↦ (panics, pending)
        ]
      ]

  -- `(*SimulatedBackend).BlockNumber`
  unfoldable pub block_number : SimulatedBackend Chain Signer Mapper → ℕ
  block_number sb = geth.block_number sb.chain

  -- The loop of `FastForward`, with fuel for the rounds: `none` where it runs out or a commit panics.
  unfoldable pub fast_forward_loop :
      ℕ
      → ℤ
      → Bool
      → SimulatedBackend Chain Signer Mapper
      → Option (Bool × SimulatedBackend Chain Signer Mapper)
  unfolding commit block_number is_above
  fast_forward_loop zero target done sb = none
  fast_forward_loop (suc fuel) target done sb = elim (is_above target (block_number sb)) [
    | false ↦ some (done, sb)
    | true ↦ elim (commit sb) [
      | none ↦ none
      | some mined ↦ fast_forward_loop fuel target true mined
    ]
  ]

  -- `(*SimulatedBackend).FastForward`
  unfoldable pub fast_forward :
      ℕ
      → ℤ
      → SimulatedBackend Chain Signer Mapper
      → Option (Bool × SimulatedBackend Chain Signer Mapper)
  unfolding fast_forward_loop
  fast_forward fuel target sb = fast_forward_loop fuel target false sb

  -- `(*SimulatedBackend).BalanceOf`, with the test that it reports to.
  unfoldable pub balance_of : Bytes → SimulatedBackend Chain Signer Mapper → Tb → Tested ℤ × Tb
  unfolding or_fatal
  balance_of addr sb tb = or_fatal (codes "BalanceAt") (geth.balance_at addr sb.chain) tb

  -- `(*SimulatedBackend).GasSpent`
  unfoldable pub gas_spent : Tx → SimulatedBackend Chain Signer Mapper → Tb → Tested ℤ × Tb
  unfolding or_fatal
  gas_spent tx sb tb =
      or_fatal (codes "WaitMined")
        (geth.wait_mined tx sb.chain >>= λ gas_used. ok (geth.gas_price tx *ℤ pos gas_used)) tb

  -- `(*SimulatedBackend).CoverageReport`; the collector reports with the orders in which Go walks
  -- the two kinds of maps.
  unfoldable pub coverage_report :
      (List Bytes → List Bytes)
      → (List (ℕ × ℕ) → List (ℕ × ℕ))
      → SimulatedBackend Chain Signer Mapper
      → Option Bytes
  unfolding lcov_trace_file
  coverage_report range_files range_lines sb =
      if sb.has_report
      then some (
          lcov_trace_file offset range_lines range_files sb.tracing.registry
            sb.tracing.collector.line_hits)
      else none

-- `AsMockedEntity`: what a call does as an entity that the backend knows.
unfoldable pub as_mocked_entity :
    {Chain Signer Mapper A : Type 0}
    → Bytes
    → (TransactOpts Signer
        → SimulatedBackend Chain Signer Mapper
        → Outcome TestError A × SimulatedBackend Chain Signer Mapper)
    → SimulatedBackend Chain Signer Mapper
    → Outcome TestError A × SimulatedBackend Chain Signer Mapper
as_mocked_entity mock fn sb = elim (lookup sb.mock_accounts mock) [
  | none ↦ (err (unsupported_entity mock), sb)
  | some a ↦ fn a sb
]

-- The function that `Must` returns keeps whether it was used.
unfoldable pub must :
    {Tx : Type 0} → Bytes → Bool → Outcome TestError Tx → Tb → (Tested Tx × Tb) × Bool
unfolding or_fatal report
must desc used result tb =
    let tb' =
      if used then report (wrapped desc (external (codes "must only be used once"))) tb else tb in
    (or_fatal desc result tb', true)

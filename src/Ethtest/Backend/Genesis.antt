-- ===== src/Ethtest/Backend/Genesis.antt =====
-- ethtest/simbackend.go, `NewSimulatedBackend`: the accounts with their balances in the first block.
pub mod Created
pub mod Laws
use ethier.Common.{
  ℕ, zero, suc, ◌+◌, ◌*◌, ◌^◌, Bool, true, false, List, [], ◌∷◌, ◌++◌, Option, none, some, Bytes,
  bytes_key, codes, replicate, lookup, assign, Outcome, ok, err, panics, ◌>>=◌, or_panic,
}
use ethier.Common.Int.{ℤ, pos, positive_part}
use ethier.Golang.Print.{print_int}
use ethier.Eth.Converters.{ether}
use ethier.Ethtest.Errors.{
  TestError, wrapped, Tb, Tested, returned, fatal, panicked, Cleanup, close_backend, report,
}
use ethier.Ethtest.Backend.{
  TransactOpts, Sent, Geth, SimulatedBackend, open_sea, chainlink, ethier_entity, weth, commit,
}
use ethier.Solcover.Registry.{CompiledContract, ContractMatcher, Registry}
use ethier.Solcover.Coverage.{new_collector}

-- A `core.GenesisAlloc`.
abbrev pub GenesisAlloc : Type 0
GenesisAlloc = List (Bytes × ℤ)

-- The loop over the pre-compiled contracts, from `addr` on for `n` rounds.
unfoldable pub precompiled : ℕ → ℕ → GenesisAlloc → GenesisAlloc
precompiled zero addr alloc = alloc
precompiled (suc n) addr alloc =
    precompiled n (addr + 1) (assign alloc (replicate 19 0 ++ addr ∷ []) (pos 1))

-- `[]byte(fmt.Sprintf("account:%d", i))`
abbrev pub account_seed : ℕ → Bytes
account_seed i = codes "account:" ++ print_int (pos i)

-- The accounts, the mocked entities and the allocation of the first block.
pub record Genesis (Signer : Type 0) : Type 0 where
  pub accounts : List (TransactOpts Signer)
  pub mock_accounts : List (Bytes × TransactOpts Signer)
  pub alloc : GenesisAlloc

module _ {Chain Tx Key Signer : Type 0} (geth : Geth Chain Tx Key Signer) where
  -- The transactor of a seed, the first part of `createAccount`.
  unfoldable pub transactor : Bytes → Outcome TestError (TransactOpts Signer)
  transactor seed = elim (geth.generate_key (geth.keccak512 seed)) [
    | err e ↦ err (wrapped (codes "ecdsa.GenerateKey") e)
    | panics ↦ panics
    | ok key ↦ elim (geth.keyed_transactor key 1337) [
      | err e ↦ err (wrapped (codes "NewKeyedTransactorWithChainID") e)
      | panics ↦ panics
      | ok opts ↦ ok opts
    ]
  ]

  -- `createAccount`
  unfoldable pub create_account :
      Bytes → GenesisAlloc → Outcome TestError (TransactOpts Signer × GenesisAlloc)
  unfolding transactor ether
  create_account seed alloc = transactor seed >>= λ opts.
      or_panic (ether (pos 100)) >>= λ balance. ok (opts, assign alloc opts.from balance)

  -- The loop over the numbered accounts, from `i` on for `n` rounds.
  unfoldable pub create_accounts :
      ℕ → ℕ → GenesisAlloc → Outcome TestError (List (TransactOpts Signer) × GenesisAlloc)
  unfolding create_account
  create_accounts zero i alloc = ok ([], alloc)
  create_accounts (suc n) i alloc = elim (create_account (account_seed i) alloc) [
    | err e ↦ err e
    | panics ↦ panics
    | ok created ↦ elim (create_accounts n (i + 1) created.1) [
      | err e ↦ err e
      | panics ↦ panics
      | ok more ↦ ok (created.0 ∷ more.0, more.1)
    ]
  ]

  -- The loop over the mocked entities.
  unfoldable pub create_mocks :
      List Bytes
      → List (Bytes × TransactOpts Signer)
      → GenesisAlloc
      → Outcome TestError (List (Bytes × TransactOpts Signer) × GenesisAlloc)
  unfolding create_account
  create_mocks [] mocks alloc = ok (mocks, alloc)
  create_mocks (mock ∷ rest) mocks alloc = elim (create_account mock alloc) [
    | err e ↦ err e
    | panics ↦ panics
    | ok created ↦ create_mocks rest (assign mocks mock created.0) created.1
  ]

  -- What `NewSimulatedBackend` makes before the chain; a negative number makes no account.
  unfoldable pub genesis : ℤ → Outcome TestError (Genesis Signer)
  unfolding precompiled create_accounts create_mocks
  genesis num_accounts =
      create_accounts (positive_part num_accounts) 0 (precompiled 8 1 []) >>= λ numbered.
      create_mocks (open_sea ∷ chainlink ∷ ethier_entity ∷ weth ∷ []) [] (numbered.1) >>= λ mocked.
      ok (record { accounts = numbered.0; mock_accounts = mocked.0; alloc = mocked.1 })

  module _ {Mapper : Type 0}
      (walk_hashes : List (Bytes × CompiledContract) → List (Bytes × CompiledContract))
      (walk_matchers : List (Bytes × ContractMatcher) → List (Bytes × ContractMatcher)) where
    -- `NewSimulatedBackend`. The first block is committed before the collector is the EVM's tracer.
    unfoldable pub new_simulated_backend :
        ℤ → Registry Mapper → Outcome TestError (SimulatedBackend Chain Signer Mapper)
    unfolding genesis new_collector
    new_simulated_backend num_accounts registry = genesis num_accounts >>= λ g.
        let chain =
          geth.adjust_time (365 * 24 * 3600 * 10 ^ 9) (geth.new_chain g.alloc 30_000_000) in
        or_panic (new_collector walk_hashes walk_matchers registry) >>= λ coll. ok (record {
          chain = (geth.commit chain).chain;
          auto_commit = true;
          accounts = g.accounts;
          mock_accounts = g.mock_accounts;
          tracing = record { registry = registry; collector = coll };
          has_report = true;
        })

    -- `NewSimulatedBackendTB`
    unfoldable pub new_simulated_backend_tb :
        ℤ → Registry Mapper → Tb → Tested (SimulatedBackend Chain Signer Mapper) × Tb
    unfolding new_simulated_backend report
    new_simulated_backend_tb num_accounts registry tb =
        elim (new_simulated_backend num_accounts registry) [
          | ok sb ↦ (returned sb, record tb { cleanups = close_backend ∷ tb.cleanups })
          | err e ↦ (fatal, report e tb)
          | panics ↦ (panicked, tb)
        ]

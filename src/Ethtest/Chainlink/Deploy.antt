-- ===== src/Ethtest/Chainlink/Deploy.antt =====
-- ethtest/chainlinktest/chainlinktest.go: the deployment of Chainlink's test doubles, the start and
-- the end of a coordinator, and the faucet of LINK.
use ethier.Common.{
  ℕ, ◌*◌, ◌%◌, ◌^◌, ◌-◌, ◌&&◌, List, [], ◌∷◌, Option, none, some, ◌≡◌, refl, Bytes, bytes_beq,
  codes, if◌then◌else◌, Outcome, ok, err, panics, ◌>>=◌,
}
use ethier.Common.Int.{ℤ, pos, negsuc, to_int64}
use ethier.Eth.Converters.{ether}
use ethier.Ethtest.Errors.{
  TestError, wrapped, unexpected_contracts, Tb, Tested, returned, fatal, panicked, or_fatal, report,
  close_coordinator,
}
use ethier.Ethtest.Backend.{TransactOpts, SimulatedBackend, as_mocked_entity, chainlink}
use ethier.Ethtest.Bindings.{
  MetaData, Bound, BindPackage, deploy_simulated_chainlink, link_token, vrf_coordinator,
  new_simulated_vrf_coordinator, fulfill_method, new_simulated_link_token,
  new_simulated_link_token_filterer, faucet_method, watch_randomness_requested, bind_contract,
}
use ethier.Ethtest.Doubles.{hex_to_address, wrap}
use ethier.Ethtest.Chainlink.{Coordinator, new_coordinator}

-- `Contracts`
pub record Contracts : Type 0 where
  pub link_token : Bytes
  pub vrf_coordinator : Bytes

-- `addresses`, which `Addresses` returns.
unfoldable pub addresses : Contracts
unfolding hex_to_address
addresses = record {
  link_token = hex_to_address (codes "55B04d60213bcfdC383a6411CEff3f759aB366d6");
  vrf_coordinator = hex_to_address (codes "5FfD760b2B48575f3869722cd816d8b3f94DDb48");
}

-- `cmp.Equal` on the two addresses.
unfoldable pub check_contracts : Contracts → Contracts → Outcome TestError (Unit {0})
check_contracts want deployed =
    if bytes_beq deployed.link_token want.link_token
      && bytes_beq deployed.vrf_coordinator want.vrf_coordinator
    then ok tt
    else err (
        unexpected_contracts (deployed.link_token ∷ deployed.vrf_coordinator ∷ [])
          (want.link_token ∷ want.vrf_coordinator ∷ []))

-- The interfaces of the contracts.
pub record Interfaces : Type 0 where
  pub simulated_chainlink : MetaData
  pub simulated_vrf_coordinator : MetaData
  pub simulated_link_token : MetaData

-- A coordinator with its binding.
pub record VrfCoordinator (Abi : Type 0) : Type 0 where
  pub vrf : Bound Abi
  pub state : Coordinator

module _ {Chain Signer Mapper Abi Tx : Type 0}
    (bind : BindPackage (SimulatedBackend Chain Signer Mapper) Signer Abi Tx)
    (interfaces : Interfaces) where
  -- `newVRFCoordinator`
  unfoldable pub new_vrf_coordinator :
      SimulatedBackend Chain Signer Mapper → Outcome TestError (VrfCoordinator Abi)
  unfolding addresses wrap new_simulated_vrf_coordinator new_simulated_link_token_filterer
      watch_randomness_requested
  new_vrf_coordinator sim =
      wrap (codes "NewSimulatedVRFCoordinator") (
        new_simulated_vrf_coordinator bind interfaces.simulated_vrf_coordinator
          addresses.vrf_coordinator)
      >>= λ vrf.
          wrap (codes "NewSimulatedLinkTokenFilterer") (
            new_simulated_link_token_filterer bind interfaces.simulated_link_token
              addresses.link_token)
          >>= λ filter.
              wrap (codes "WatchRandomnessRequested")
                (watch_randomness_requested bind filter [] sim)
              >>= λ sub. ok (record { vrf = vrf; state = new_coordinator })

  -- The call of `DeployAll` as the mocked Chainlink.
  unfoldable pub deploy_contracts :
      TransactOpts Signer
      → SimulatedBackend Chain Signer Mapper
      → Outcome TestError (Unit {0}) × SimulatedBackend Chain Signer Mapper
  unfolding deploy_simulated_chainlink bind_contract link_token vrf_coordinator check_contracts
      addresses wrap
  deploy_contracts opts sb =
      let (addr, sb') = deploy_simulated_chainlink bind interfaces.simulated_chainlink opts sb in
      (
        wrap (codes "DeploySimulatedChainlink")
              (addr >>= λ a. bind_contract bind interfaces.simulated_chainlink a)
            >>= λ cl. wrap (codes "LinkToken") (link_token bind cl none sb') >>= λ link.
                wrap (codes "VrfCoordinator") (vrf_coordinator bind cl none sb') >>= λ vrf.
                check_contracts addresses (record { link_token = link; vrf_coordinator = vrf }),
        sb',
      )

  -- `DeployAll`
  unfoldable pub deploy_all :
      SimulatedBackend Chain Signer Mapper
      → Outcome TestError (VrfCoordinator Abi) × SimulatedBackend Chain Signer Mapper
  unfolding as_mocked_entity deploy_contracts new_vrf_coordinator
  deploy_all sim =
      let (deployed, sb) = as_mocked_entity chainlink deploy_contracts sim in
      (deployed >>= (λ done. new_vrf_coordinator sb), sb)

  -- `DeployAllTB`
  unfoldable pub deploy_all_tb :
      SimulatedBackend Chain Signer Mapper
      → Tb
      → (Tested (VrfCoordinator Abi) × Tb) × SimulatedBackend Chain Signer Mapper
  unfolding deploy_all report
  deploy_all_tb sim tb =
      let (result, sb) = deploy_all sim in
      elim result [
        | ok c ↦ ((returned c, record tb { cleanups = close_coordinator ∷ tb.cleanups }), sb)
        | err e ↦ ((fatal, report (wrapped (codes "DeployAll") e) tb), sb)
        | panics ↦ ((panicked, tb), sb)
      ]

  -- What `fulfill` evaluates for a request: the call of the contract as the mocked Chainlink.
  unfoldable pub fulfill_request :
      Bound Abi
      → Bytes
      → SimulatedBackend Chain Signer Mapper
      → Outcome TestError (Unit {0}) × SimulatedBackend Chain Signer Mapper
  unfolding as_mocked_entity fulfill_method
  fulfill_request vrf by sim =
      as_mocked_entity chainlink
        (λ opts sb.
          let (tx, sb') = fulfill_method bind vrf opts by sb in (tx >>= (λ t. ok tt), sb'))
        sim

  -- The loop of `Faucet` over the balances in the order in which Go walks the map.
  unfoldable pub faucet_loop :
      Bound Abi
      → TransactOpts Signer
      → List (Bytes × Bytes)
      → SimulatedBackend Chain Signer Mapper
      → Outcome TestError (Unit {0}) × SimulatedBackend Chain Signer Mapper
  unfolding faucet_method
  faucet_loop link opts [] sb = (ok tt, sb)
  faucet_loop link opts ((to, amt) ∷ rest) sb =
      let (tx, sb') = faucet_method bind link opts to amt sb in
      elim tx [
        | ok t ↦ faucet_loop link opts rest sb'
        | err e ↦ (err (wrapped (codes "Faucet") e), sb')
        | panics ↦ (panics, sb')
      ]

  -- `Faucet`
  unfoldable pub faucet :
      List (Bytes × Bytes)
      → SimulatedBackend Chain Signer Mapper
      → Outcome TestError (Unit {0}) × SimulatedBackend Chain Signer Mapper
  unfolding as_mocked_entity new_simulated_link_token faucet_loop addresses wrap
  faucet extra_balances sim =
      elim (wrap (codes "NewSimulatedLinkToken")
        (new_simulated_link_token bind interfaces.simulated_link_token addresses.link_token)) [
          | err e ↦ (err e, sim)
          | panics ↦ (panics, sim)
          | ok link ↦
              as_mocked_entity chainlink (λ opts sb. faucet_loop link opts extra_balances sb) sim
        ]

  -- `FaucetTB`
  unfoldable pub faucet_tb :
      List (Bytes × Bytes)
      → SimulatedBackend Chain Signer Mapper
      → Tb
      → (Tested (Unit {0}) × Tb) × SimulatedBackend Chain Signer Mapper
  unfolding faucet or_fatal
  faucet_tb extra_balances sim tb =
      let (result, sb) = faucet extra_balances sim in (or_fatal (codes "Faucet") result tb, sb)

-- `WaitFulfilledTB`, on the result that `WaitFulfilled` received.
unfoldable pub wait_fulfilled_tb : Outcome TestError (Unit {0}) → Tb → Tested (Unit {0}) × Tb
unfolding or_fatal
wait_fulfilled_tb result tb = or_fatal (codes "WaitFulfilled") result tb

-- The bits of an int64.
unfoldable pub int64_bits : ℤ → ℕ
int64_bits (pos n) = n % 2 ^ 64
int64_bits (negsuc n) = 2 ^ 64 - 1 - n % 2 ^ 64

-- `Fee`; the product wraps around.
unfoldable pub fee : ℤ → Option ℤ
unfolding ether int64_bits
fee requests = ether (to_int64 (2 * int64_bits requests % 2 ^ 64))

fee_of_two : fee (pos 2) ≡ some (pos (4 * 10 ^ 18))
unfolding fee
fee_of_two = refl

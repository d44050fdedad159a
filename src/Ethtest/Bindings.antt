-- ===== src/Ethtest/Bindings.antt =====
-- The generated bindings of contracts, which abigen wrote for ethtest's packages: deploying a
-- contract, binding to an address, and calling methods. go-ethereum's packages abi and bind are a
-- parameter, as are the text of an interface and the byte code.
pub mod ChainlinkAbi
pub mod Contract
pub mod Events
pub mod Logs
pub mod Methods
pub mod OpenSeaAbi
pub mod Tokens
pub mod Watch
pub mod WethAbi
mod Tests
use ethier.Common.{
  List, [], ◌∷◌, Option, none, some, Bytes, codes, get_elem?, Outcome, ok, err, panics, ◌>>=◌,
  or_panic,
}
use ethier.Ethtest.Errors.{TestError, no_abi}
use ethier.Ethtest.Backend.{TransactOpts, CallOpts}

-- A `bind.MetaData`.
pub record MetaData : Type 0 where
  pub abi : Bytes
  pub bin : Bytes

-- A `bind.BoundContract`.
pub record Bound (Abi : Type 0) : Type 0 where
  pub address : Bytes
  pub abi : Abi

-- What `bind.DeployContract` returns beside an error.
pub record Deployed (Abi Tx : Type 0) : Type 0 where
  pub address : Bytes
  pub tx : Tx
  pub contract : Bound Abi

-- `(*MetaData).GetAbi`, `abi.JSON`, `bind.DeployContract`, and a bound contract's `Transact`,
-- `RawTransact` without data, `Transfer`, `Call` and `WatchLogs`. An argument, or an output, is the
-- bytes that the ABI packs. What a call of the backend changes comes back with the backend.
pub record BindPackage (Backend Signer Abi Tx : Type 0) : Type 0 where
  pub get_abi : Bytes → Outcome TestError (Option Abi)
  pub json : Bytes → Outcome TestError Abi
  pub deploy_contract :
      TransactOpts Signer
      → Abi
      → Bytes
      → List Bytes
      → Backend
      → Outcome TestError (Deployed Abi Tx) × Backend
  pub transact :
      Bound Abi
      → TransactOpts Signer
      → Bytes
      → List Bytes
      → Backend
      → Outcome TestError Tx × Backend
  pub raw_transact : Bound Abi → TransactOpts Signer → Backend → Outcome TestError Tx × Backend
  pub transfer : Bound Abi → TransactOpts Signer → Backend → Outcome TestError Tx × Backend
  pub call :
      Bound Abi → Option CallOpts → Bytes → List Bytes → Backend → Outcome TestError (List Bytes)
  pub watch_logs : Bound Abi → Bytes → List (List Bytes) → Backend → Outcome TestError (Unit {0})

-- The loop that copies the items of a rule.
unfoldable pub rule : List Bytes → List Bytes
rule [] = []
rule (item ∷ items) = item ∷ rule items

module _ {Backend Signer Abi Tx : Type 0} (bind : BindPackage Backend Signer Abi Tx) where
  -- The shape of every `Deploy…`, given the arguments of the constructor.
  unfoldable pub deploy :
      MetaData
      → TransactOpts Signer
      → List Bytes
      → Backend
      → Outcome TestError (Deployed Abi Tx) × Backend
  deploy meta auth args backend = elim (bind.get_abi meta.abi) [
    | err e ↦ (err e, backend)
    | panics ↦ (panics, backend)
    | ok none ↦ (err no_abi, backend)
    | ok (some parsed) ↦ bind.deploy_contract auth parsed meta.bin args backend
  ]

  -- For a caller who takes the address only.
  unfoldable pub deployed_address :
      Outcome TestError (Deployed Abi Tx) × Backend → Outcome TestError Bytes × Backend
  deployed_address (deployed, backend) = (deployed >>= (λ d. ok d.address), backend)

  -- The shape of every `bind…`, which the `New…` functions call.
  unfoldable pub bind_contract : MetaData → Bytes → Outcome TestError (Bound Abi)
  bind_contract meta address =
      bind.json meta.abi >>= λ parsed. ok (record { address = address; abi = parsed })

  -- The shape of a method without arguments that returns an address: its first output.
  unfoldable pub call_address :
      Bytes → Bound Abi → Option CallOpts → Backend → Outcome TestError Bytes
  call_address method contract opts backend =
      bind.call contract opts method [] backend >>= λ out. or_panic (get_elem? out 0)

  -- openseatestabi
  unfoldable pub deploy_simulated_proxy_registry :
      MetaData → TransactOpts Signer → Backend → Outcome TestError Bytes × Backend
  unfolding deploy deployed_address
  deploy_simulated_proxy_registry meta auth backend = deployed_address (deploy meta auth [] backend)

  unfoldable pub new_simulated_proxy_registry : MetaData → Bytes → Outcome TestError (Bound Abi)
  unfolding bind_contract
  new_simulated_proxy_registry meta address = bind_contract meta address

  unfoldable pub set_proxy_for :
      Bound Abi → TransactOpts Signer → Bytes → Bytes → Backend → Outcome TestError Tx × Backend
  set_proxy_for contract opts owner proxy backend =
      bind.transact contract opts (codes "setProxyFor") (owner ∷ proxy ∷ []) backend

  -- wethtestabi
  unfoldable pub deploy_weth9 :
      MetaData → TransactOpts Signer → Backend → Outcome TestError Bytes × Backend
  unfolding deploy deployed_address
  deploy_weth9 meta auth backend = deployed_address (deploy meta auth [] backend)

  unfoldable pub new_iweth : MetaData → Bytes → Outcome TestError (Bound Abi)
  unfolding bind_contract
  new_iweth meta address = bind_contract meta address

  -- chainlinktestabi
  unfoldable pub deploy_simulated_chainlink :
      MetaData → TransactOpts Signer → Backend → Outcome TestError Bytes × Backend
  unfolding deploy deployed_address
  deploy_simulated_chainlink meta auth backend = deployed_address (deploy meta auth [] backend)

  abbrev pub link_token : Bound Abi → Option CallOpts → Backend → Outcome TestError Bytes
  link_token = call_address (codes "linkToken")

  abbrev pub vrf_coordinator : Bound Abi → Option CallOpts → Backend → Outcome TestError Bytes
  vrf_coordinator = call_address (codes "vrfCoordinator")

  unfoldable pub new_simulated_vrf_coordinator : MetaData → Bytes → Outcome TestError (Bound Abi)
  unfolding bind_contract
  new_simulated_vrf_coordinator meta address = bind_contract meta address

  unfoldable pub fulfill_method :
      Bound Abi → TransactOpts Signer → Bytes → Backend → Outcome TestError Tx × Backend
  fulfill_method contract opts consumer backend =
      bind.transact contract opts (codes "fulfill") (consumer ∷ []) backend

  unfoldable pub new_simulated_link_token : MetaData → Bytes → Outcome TestError (Bound Abi)
  unfolding bind_contract
  new_simulated_link_token meta address = bind_contract meta address

  unfoldable pub new_simulated_link_token_filterer :
      MetaData → Bytes → Outcome TestError (Bound Abi)
  unfolding bind_contract
  new_simulated_link_token_filterer meta address = bind_contract meta address

  -- The amount is given as the bytes that the ABI packs.
  unfoldable pub faucet_method :
      Bound Abi → TransactOpts Signer → Bytes → Bytes → Backend → Outcome TestError Tx × Backend
  faucet_method contract opts recipient amount backend =
      bind.transact contract opts (codes "faucet") (recipient ∷ amount ∷ []) backend

  -- `WatchRandomnessRequested`, up to the subscription that Ethtest/Bindings/Watch models.
  unfoldable pub watch_randomness_requested :
      Bound Abi → List Bytes → Backend → Outcome TestError (Unit {0})
  unfolding rule
  watch_randomness_requested contract by backend =
      bind.watch_logs contract (codes "RandomnessRequested") (rule by ∷ []) backend

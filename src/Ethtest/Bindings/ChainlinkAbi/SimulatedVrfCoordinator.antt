-- ===== src/Ethtest/Bindings/ChainlinkAbi/SimulatedVrfCoordinator.antt =====
-- The binding of the contract SimulatedVRFCoordinator in ethtest/chainlinktest/chainlinktestabi/generated.go.
use ethier.Common.{List, [], ◌∷◌, Option, Bytes, codes, Outcome}
use ethier.Ethtest.Errors.{TestError}
use ethier.Ethtest.Backend.{TransactOpts}
use ethier.Ethtest.Bindings.{MetaData, Bound, BindPackage, rule}
use ethier.Ethtest.Bindings.Contract.{Binding, ContractApi, contract_api, deploy_binding}
use ethier.Ethtest.Bindings.Methods.{Reader, Payer, read, pay}
use ethier.Ethtest.Bindings.Events.{LogPackage, EventApi, event_api}

-- `SimulatedVRFCoordinatorOwnershipTransferred`, less its log.
record OwnershipTransferred : Type 0 where
  previous_owner : Bytes
  new_owner : Bytes

-- The rules of `FilterOwnershipTransferred` and `WatchOwnershipTransferred`.
unfoldable ownership_transferred_rules : List Bytes × List Bytes → List (List Bytes)
unfolding rule
ownership_transferred_rules (previous_owner, new_owner) = rule previous_owner ∷ rule new_owner ∷ []

module _ {Backend Signer Abi Tx : Type 0} (bind : BindPackage Backend Signer Abi Tx) where
  unfoldable simulated_vrf_coordinator : MetaData → ContractApi Backend Signer Abi Tx
  unfolding contract_api
  simulated_vrf_coordinator meta = contract_api bind meta

  unfoldable deploy_simulated_vrf_coordinator :
      MetaData
      → TransactOpts Signer
      → Backend
      → Outcome TestError (Bytes × Tx × Binding Abi) × Backend
  unfolding deploy_binding
  deploy_simulated_vrf_coordinator meta auth backend = deploy_binding bind meta auth [] backend

  unfoldable owner : Reader Abi Signer → Backend → Outcome TestError Bytes
  unfolding read
  owner on = read bind (codes "owner") on []

  unfoldable fulfill : Payer Abi Signer → Bytes → Backend → Outcome TestError Tx × Backend
  unfolding pay
  fulfill on consumer = pay bind (codes "fulfill") on (consumer ∷ [])

  unfoldable renounce_ownership : Payer Abi Signer → Backend → Outcome TestError Tx × Backend
  unfolding pay
  renounce_ownership on = pay bind (codes "renounceOwnership") on []

  unfoldable transfer_ownership :
      Payer Abi Signer → Bytes → Backend → Outcome TestError Tx × Backend
  unfolding pay
  transfer_ownership on new_owner = pay bind (codes "transferOwnership") on (new_owner ∷ [])

module _ {FilterOpts WatchOpts Backend Abi Log : Type 0}
    (package_ : LogPackage FilterOpts WatchOpts Backend Abi Log) where
  unfoldable ownership_transferred_events :
      (Bound Abi → Bytes → Log → OwnershipTransferred × Option TestError)
      → EventApi FilterOpts WatchOpts Backend Abi Log OwnershipTransferred (List Bytes × List Bytes)
  unfolding event_api ownership_transferred_rules
  ownership_transferred_events unpack_log =
      event_api package_ unpack_log (codes "OwnershipTransferred") ownership_transferred_rules

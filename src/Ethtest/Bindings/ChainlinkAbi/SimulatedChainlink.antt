-- ===== src/Ethtest/Bindings/ChainlinkAbi/SimulatedChainlink.antt =====
-- The binding of the contract SimulatedChainlink in ethtest/chainlinktest/chainlinktestabi/generated.go.
use ethier.Common.{[], Bytes, codes, Outcome}
use ethier.Ethtest.Errors.{TestError}
use ethier.Ethtest.Backend.{TransactOpts}
use ethier.Ethtest.Bindings.{MetaData, BindPackage}
use ethier.Ethtest.Bindings.Contract.{Binding, ContractApi, contract_api, deploy_binding}
use ethier.Ethtest.Bindings.Methods.{Reader, read}

module _ {Backend Signer Abi Tx : Type 0} (bind : BindPackage Backend Signer Abi Tx) where
  unfoldable simulated_chainlink : MetaData → ContractApi Backend Signer Abi Tx
  unfolding contract_api
  simulated_chainlink meta = contract_api bind meta

  unfoldable deploy_simulated_chainlink :
      MetaData
      → TransactOpts Signer
      → Backend
      → Outcome TestError (Bytes × Tx × Binding Abi) × Backend
  unfolding deploy_binding
  deploy_simulated_chainlink meta auth backend = deploy_binding bind meta auth [] backend

  unfoldable link_token : Reader Abi Signer → Backend → Outcome TestError Bytes
  unfolding read
  link_token on = read bind (codes "linkToken") on []

  unfoldable vrf_coordinator : Reader Abi Signer → Backend → Outcome TestError Bytes
  unfolding read
  vrf_coordinator on = read bind (codes "vrfCoordinator") on []

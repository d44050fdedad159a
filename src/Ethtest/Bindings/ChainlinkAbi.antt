-- ===== src/Ethtest/Bindings/ChainlinkAbi.antt =====
-- The contracts whose bindings are in ethtest/chainlinktest/chainlinktestabi/generated.go.
pub mod Erc20
pub mod IErc20
pub mod IErc20Metadata
pub mod LinkTokenInterface
pub mod Ownable
pub mod SimulatedChainlink
pub mod SimulatedLinkToken
pub mod SimulatedVrfCoordinator
pub mod VrfConsumerBase
use ethier.Common.{[], Bytes, Outcome}
use ethier.Ethtest.Errors.{TestError}
use ethier.Ethtest.Backend.{TransactOpts}
use ethier.Ethtest.Bindings.{MetaData, BindPackage}
use ethier.Ethtest.Bindings.Contract.{Binding, ContractApi, contract_api, deploy_binding}

-- The contracts without methods and events.
module _ {Backend Signer Abi Tx : Type 0} (bind : BindPackage Backend Signer Abi Tx) where
  unfoldable chainlink : MetaData → ContractApi Backend Signer Abi Tx
  unfolding contract_api
  chainlink meta = contract_api bind meta

  unfoldable deploy_chainlink :
      MetaData
      → TransactOpts Signer
      → Backend
      → Outcome TestError (Bytes × Tx × Binding Abi) × Backend
  unfolding deploy_binding
  deploy_chainlink meta auth backend = deploy_binding bind meta auth [] backend

  unfoldable context : MetaData → ContractApi Backend Signer Abi Tx
  unfolding contract_api
  context meta = contract_api bind meta

  unfoldable strings : MetaData → ContractApi Backend Signer Abi Tx
  unfolding contract_api
  strings meta = contract_api bind meta

  unfoldable deploy_strings :
      MetaData
      → TransactOpts Signer
      → Backend
      → Outcome TestError (Bytes × Tx × Binding Abi) × Backend
  unfolding deploy_binding
  deploy_strings meta auth backend = deploy_binding bind meta auth [] backend

  unfoldable vrf_request_id_base : MetaData → ContractApi Backend Signer Abi Tx
  unfolding contract_api
  vrf_request_id_base meta = contract_api bind meta

  unfoldable deploy_vrf_request_id_base :
      MetaData
      → TransactOpts Signer
      → Backend
      → Outcome TestError (Bytes × Tx × Binding Abi) × Backend
  unfolding deploy_binding
  deploy_vrf_request_id_base meta auth backend = deploy_binding bind meta auth [] backend

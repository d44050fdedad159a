-- ===== src/Ethtest/Bindings/OpenSeaAbi.antt =====
-- The contracts whose bindings are in ethtest/openseatest/openseatestabi/generated.go.
pub mod ProxyRegistry
pub mod SimulatedProxyRegistry
use ethier.Common.{[], Bytes, Outcome}
use ethier.Ethtest.Errors.{TestError}
use ethier.Ethtest.Backend.{TransactOpts}
use ethier.Ethtest.Bindings.{MetaData, BindPackage}
use ethier.Ethtest.Bindings.Contract.{Binding, ContractApi, contract_api, deploy_binding}

-- The contracts without methods and events.
module _ {Backend Signer Abi Tx : Type 0} (bind : BindPackage Backend Signer Abi Tx) where
  unfoldable ownable_delegate_proxy : MetaData → ContractApi Backend Signer Abi Tx
  unfolding contract_api
  ownable_delegate_proxy meta = contract_api bind meta

  unfoldable deploy_ownable_delegate_proxy :
      MetaData
      → TransactOpts Signer
      → Backend
      → Outcome TestError (Bytes × Tx × Binding Abi) × Backend
  unfolding deploy_binding
  deploy_ownable_delegate_proxy meta auth backend = deploy_binding bind meta auth [] backend

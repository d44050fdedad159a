-- ===== src/Ethtest/Bindings/WethAbi.antt =====
-- The contracts whose bindings are in ethtest/wethtest/wethtestabi/generated.go.
pub mod IwEth
pub mod Weth9
use ethier.Common.{[], Bytes, Outcome}
use ethier.Ethtest.Errors.{TestError}
use ethier.Ethtest.Backend.{TransactOpts}
use ethier.Ethtest.Bindings.{MetaData, BindPackage}
use ethier.Ethtest.Bindings.Contract.{Binding, ContractApi, contract_api, deploy_binding}

-- The contracts without methods and events.
module _ {Backend Signer Abi Tx : Type 0} (bind : BindPackage Backend Signer Abi Tx) where
  unfoldable weth : MetaData → ContractApi Backend Signer Abi Tx
  unfolding contract_api
  weth meta = contract_api bind meta

  unfoldable deploy_weth :
      MetaData
      → TransactOpts Signer
      → Backend
      → Outcome TestError (Bytes × Tx × Binding Abi) × Backend
  unfolding deploy_binding
  deploy_weth meta auth backend = deploy_binding bind meta auth [] backend

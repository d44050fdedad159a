-- ===== src/Ethtest/Bindings/OpenSeaAbi/ProxyRegistry.antt =====
-- The binding of the contract ProxyRegistry in ethtest/openseatest/openseatestabi/generated.go.
use ethier.Common.{[], ◌∷◌, Bytes, codes, Outcome}
use ethier.Ethtest.Errors.{TestError}
use ethier.Ethtest.Backend.{TransactOpts}
use ethier.Ethtest.Bindings.{MetaData, BindPackage}
use ethier.Ethtest.Bindings.Contract.{Binding, ContractApi, contract_api, deploy_binding}
use ethier.Ethtest.Bindings.Methods.{Reader, read}

module _ {Backend Signer Abi Tx : Type 0} (bind : BindPackage Backend Signer Abi Tx) where
  unfoldable proxy_registry : MetaData → ContractApi Backend Signer Abi Tx
  unfolding contract_api
  proxy_registry meta = contract_api bind meta

  unfoldable deploy_proxy_registry :
      MetaData
      → TransactOpts Signer
      → Backend
      → Outcome TestError (Bytes × Tx × Binding Abi) × Backend
  unfolding deploy_binding
  deploy_proxy_registry meta auth backend = deploy_binding bind meta auth [] backend

  unfoldable proxies : Reader Abi Signer → Bytes → Backend → Outcome TestError Bytes
  unfolding read
  proxies on arg0 = read bind (codes "proxies") on (arg0 ∷ [])

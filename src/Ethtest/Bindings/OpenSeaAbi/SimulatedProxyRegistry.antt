-- ===== src/Ethtest/Bindings/OpenSeaAbi/SimulatedProxyRegistry.antt =====
-- The binding of the contract SimulatedProxyRegistry in ethtest/openseatest/openseatestabi/generated.go.
use ethier.Common.{[], ◌∷◌, Bytes, codes, Outcome}
use ethier.Ethtest.Errors.{TestError}
use ethier.Ethtest.Backend.{TransactOpts}
use ethier.Ethtest.Bindings.{MetaData, BindPackage}
use ethier.Ethtest.Bindings.Contract.{Binding, ContractApi, contract_api, deploy_binding}
use ethier.Ethtest.Bindings.Methods.{Reader, Payer, read, pay}

module _ {Backend Signer Abi Tx : Type 0} (bind : BindPackage Backend Signer Abi Tx) where
  unfoldable simulated_proxy_registry : MetaData → ContractApi Backend Signer Abi Tx
  unfolding contract_api
  simulated_proxy_registry meta = contract_api bind meta

  unfoldable deploy_simulated_proxy_registry :
      MetaData
      → TransactOpts Signer
      → Backend
      → Outcome TestError (Bytes × Tx × Binding Abi) × Backend
  unfolding deploy_binding
  deploy_simulated_proxy_registry meta auth backend = deploy_binding bind meta auth [] backend

  unfoldable proxies : Reader Abi Signer → Bytes → Backend → Outcome TestError Bytes
  unfolding read
  proxies on arg0 = read bind (codes "proxies") on (arg0 ∷ [])

  unfoldable set_proxy_for :
      Payer Abi Signer → Bytes → Bytes → Backend → Outcome TestError Tx × Backend
  unfolding pay
  set_proxy_for on owner proxy = pay bind (codes "setProxyFor") on (owner ∷ proxy ∷ [])

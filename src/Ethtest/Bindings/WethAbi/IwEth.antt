-- ===== src/Ethtest/Bindings/WethAbi/IwEth.antt =====
-- The binding of the contract IwETH in ethtest/wethtest/wethtestabi/generated.go.
use ethier.Common.{[], ◌∷◌, Bytes, codes, Outcome}
use ethier.Ethtest.Errors.{TestError}
use ethier.Ethtest.Bindings.{MetaData, BindPackage}
use ethier.Ethtest.Bindings.Contract.{ContractApi, contract_api}
use ethier.Ethtest.Bindings.Methods.{Reader, Payer, read, pay, pay_plain}

module _ {Backend Signer Abi Tx : Type 0} (bind : BindPackage Backend Signer Abi Tx) where
  unfoldable iweth : MetaData → ContractApi Backend Signer Abi Tx
  unfolding contract_api
  iweth meta = contract_api bind meta

  unfoldable pub allowance : Reader Abi Signer → Bytes → Bytes → Backend → Outcome TestError Bytes
  unfolding read
  allowance on arg0 arg1 = read bind (codes "allowance") on (arg0 ∷ arg1 ∷ [])

  unfoldable pub balance_of : Reader Abi Signer → Bytes → Backend → Outcome TestError Bytes
  unfolding read
  balance_of on arg0 = read bind (codes "balanceOf") on (arg0 ∷ [])

  unfoldable pub total_supply : Reader Abi Signer → Backend → Outcome TestError Bytes
  unfolding read
  total_supply on = read bind (codes "totalSupply") on []

  unfoldable pub approve :
      Payer Abi Signer → Bytes → Bytes → Backend → Outcome TestError Tx × Backend
  unfolding pay
  approve on arg0 arg1 = pay bind (codes "approve") on (arg0 ∷ arg1 ∷ [])

  unfoldable deposit : Payer Abi Signer → Backend → Outcome TestError Tx × Backend
  unfolding pay
  deposit on = pay bind (codes "deposit") on []

  unfoldable pub transfer :
      Payer Abi Signer → Bytes → Bytes → Backend → Outcome TestError Tx × Backend
  unfolding pay
  transfer on arg0 arg1 = pay bind (codes "transfer") on (arg0 ∷ arg1 ∷ [])

  unfoldable pub transfer_from :
      Payer Abi Signer → Bytes → Bytes → Bytes → Backend → Outcome TestError Tx × Backend
  unfolding pay
  transfer_from on arg0 arg1 arg2 = pay bind (codes "transferFrom") on (arg0 ∷ arg1 ∷ arg2 ∷ [])

  unfoldable withdraw : Payer Abi Signer → Bytes → Backend → Outcome TestError Tx × Backend
  unfolding pay
  withdraw on arg0 = pay bind (codes "withdraw") on (arg0 ∷ [])

  unfoldable receive : Payer Abi Signer → Backend → Outcome TestError Tx × Backend
  unfolding pay_plain
  receive on = pay_plain bind on

-- ===== src/Ethtest/Bindings/ChainlinkAbi/LinkTokenInterface.antt =====
-- The binding of the contract LinkTokenInterface in ethtest/chainlinktest/chainlinktestabi/generated.go.
use ethier.Common.{[], ◌∷◌, Bytes, codes, Outcome}
use ethier.Ethtest.Errors.{TestError}
use ethier.Ethtest.Bindings.{MetaData, BindPackage}
use ethier.Ethtest.Bindings.Contract.{ContractApi, contract_api}
use ethier.Ethtest.Bindings.Methods.{Reader, Payer, read, pay}

module _ {Backend Signer Abi Tx : Type 0} (bind : BindPackage Backend Signer Abi Tx) where
  unfoldable link_token_interface : MetaData → ContractApi Backend Signer Abi Tx
  unfolding contract_api
  link_token_interface meta = contract_api bind meta

  unfoldable pub allowance : Reader Abi Signer → Bytes → Bytes → Backend → Outcome TestError Bytes
  unfolding read
  allowance on owner spender = read bind (codes "allowance") on (owner ∷ spender ∷ [])

  unfoldable pub balance_of : Reader Abi Signer → Bytes → Backend → Outcome TestError Bytes
  unfolding read
  balance_of on owner = read bind (codes "balanceOf") on (owner ∷ [])

  unfoldable decimals : Reader Abi Signer → Backend → Outcome TestError Bytes
  unfolding read
  decimals on = read bind (codes "decimals") on []

  unfoldable name : Reader Abi Signer → Backend → Outcome TestError Bytes
  unfolding read
  name on = read bind (codes "name") on []

  unfoldable symbol : Reader Abi Signer → Backend → Outcome TestError Bytes
  unfolding read
  symbol on = read bind (codes "symbol") on []

  unfoldable pub total_supply : Reader Abi Signer → Backend → Outcome TestError Bytes
  unfolding read
  total_supply on = read bind (codes "totalSupply") on []

  unfoldable pub approve :
      Payer Abi Signer → Bytes → Bytes → Backend → Outcome TestError Tx × Backend
  unfolding pay
  approve on spender value = pay bind (codes "approve") on (spender ∷ value ∷ [])

  unfoldable decrease_approval :
      Payer Abi Signer → Bytes → Bytes → Backend → Outcome TestError Tx × Backend
  unfolding pay
  decrease_approval on spender added_value =
      pay bind (codes "decreaseApproval") on (spender ∷ added_value ∷ [])

  unfoldable increase_approval :
      Payer Abi Signer → Bytes → Bytes → Backend → Outcome TestError Tx × Backend
  unfolding pay
  increase_approval on spender subtracted_value =
      pay bind (codes "increaseApproval") on (spender ∷ subtracted_value ∷ [])

  unfoldable pub transfer :
      Payer Abi Signer → Bytes → Bytes → Backend → Outcome TestError Tx × Backend
  unfolding pay
  transfer on to value = pay bind (codes "transfer") on (to ∷ value ∷ [])

  unfoldable transfer_and_call :
      Payer Abi Signer → Bytes → Bytes → Bytes → Backend → Outcome TestError Tx × Backend
  unfolding pay
  transfer_and_call on to value data_ =
      pay bind (codes "transferAndCall") on (to ∷ value ∷ data_ ∷ [])

  unfoldable pub transfer_from :
      Payer Abi Signer → Bytes → Bytes → Bytes → Backend → Outcome TestError Tx × Backend
  unfolding pay
  transfer_from on from to value = pay bind (codes "transferFrom") on (from ∷ to ∷ value ∷ [])

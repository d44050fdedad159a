-- ===== src/Ethtest/Bindings/ChainlinkAbi/VrfConsumerBase.antt =====
-- The binding of the contract VRFConsumerBase in ethtest/chainlinktest/chainlinktestabi/generated.go.
use ethier.Common.{[], ◌∷◌, Bytes, codes, Outcome}
use ethier.Ethtest.Errors.{TestError}
use ethier.Ethtest.Bindings.{MetaData, BindPackage}
use ethier.Ethtest.Bindings.Contract.{ContractApi, contract_api}
use ethier.Ethtest.Bindings.Methods.{Payer, pay}

module _ {Backend Signer Abi Tx : Type 0} (bind : BindPackage Backend Signer Abi Tx) where
  unfoldable vrf_consumer_base : MetaData → ContractApi Backend Signer Abi Tx
  unfolding contract_api
  vrf_consumer_base meta = contract_api bind meta

  unfoldable raw_fulfill_randomness :
      Payer Abi Signer → Bytes → Bytes → Backend → Outcome TestError Tx × Backend
  unfolding pay
  raw_fulfill_randomness on request_id randomness =
      pay bind (codes "rawFulfillRandomness") on (request_id ∷ randomness ∷ [])

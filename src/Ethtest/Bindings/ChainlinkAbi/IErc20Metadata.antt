-- ===== src/Ethtest/Bindings/ChainlinkAbi/IErc20Metadata.antt =====
-- The binding of the contract IERC20Metadata in ethtest/chainlinktest/chainlinktestabi/generated.go.
use ethier.Common.{List, [], ◌∷◌, Option, Bytes, codes, Outcome}
use ethier.Ethtest.Errors.{TestError}
use ethier.Ethtest.Bindings.{MetaData, Bound, BindPackage, rule}
use ethier.Ethtest.Bindings.Contract.{ContractApi, contract_api}
use ethier.Ethtest.Bindings.Methods.{Reader, Payer, read, pay}
use ethier.Ethtest.Bindings.Events.{LogPackage, EventApi, event_api}

-- `IERC20MetadataApproval`, less its log.
record Approval : Type 0 where
  owner : Bytes
  spender : Bytes
  value : Bytes

-- `IERC20MetadataTransfer`, less its log.
record Transfer : Type 0 where
  from : Bytes
  to : Bytes
  value : Bytes

-- The rules of `FilterApproval` and `WatchApproval`.
unfoldable approval_rules : List Bytes × List Bytes → List (List Bytes)
unfolding rule
approval_rules (owner, spender) = rule owner ∷ rule spender ∷ []

-- The rules of `FilterTransfer` and `WatchTransfer`.
unfoldable transfer_rules : List Bytes × List Bytes → List (List Bytes)
unfolding rule
transfer_rules (from, to) = rule from ∷ rule to ∷ []

module _ {Backend Signer Abi Tx : Type 0} (bind : BindPackage Backend Signer Abi Tx) where
  unfoldable ierc20_metadata : MetaData → ContractApi Backend Signer Abi Tx
  unfolding contract_api
  ierc20_metadata meta = contract_api bind meta

  unfoldable pub allowance : Reader Abi Signer → Bytes → Bytes → Backend → Outcome TestError Bytes
  unfolding read
  allowance on owner spender = read bind (codes "allowance") on (owner ∷ spender ∷ [])

  unfoldable pub balance_of : Reader Abi Signer → Bytes → Backend → Outcome TestError Bytes
  unfolding read
  balance_of on account = read bind (codes "balanceOf") on (account ∷ [])

  unfoldable decimals : Reader Abi Signer → Backend → Outcome TestError Bytes
  unfolding read
  decimals on = read bind (codes "decimals") on []

  unfoldable name : Reader Abi Signer → Backend → Outcome TestError Bytes
  unfolding read
  name on = read bind (codes "name") on []

  unfoldable symbol : Reader Abi Signer → Backend → Outcome TestError Bytes
  unfolding read
  symbol on = read bind (codes "symbol") on []

  unfoldable pub total_supply : Reader Abi Signer → Backend → Outcome TestError Bytes
  unfolding read
  total_supply on = read bind (codes "totalSupply") on []

  unfoldable pub approve :
      Payer Abi Signer → Bytes → Bytes → Backend → Outcome TestError Tx × Backend
  unfolding pay
  approve on spender amount = pay bind (codes "approve") on (spender ∷ amount ∷ [])

  unfoldable pub transfer :
      Payer Abi Signer → Bytes → Bytes → Backend → Outcome TestError Tx × Backend
  unfolding pay
  transfer on recipient amount = pay bind (codes "transfer") on (recipient ∷ amount ∷ [])

  unfoldable pub transfer_from :
      Payer Abi Signer → Bytes → Bytes → Bytes → Backend → Outcome TestError Tx × Backend
  unfolding pay
  transfer_from on sender recipient amount =
      pay bind (codes "transferFrom") on (sender ∷ recipient ∷ amount ∷ [])

module _ {FilterOpts WatchOpts Backend Abi Log : Type 0}
    (package_ : LogPackage FilterOpts WatchOpts Backend Abi Log) where
  unfoldable approval_events :
      (Bound Abi → Bytes → Log → Approval × Option TestError)
      → EventApi FilterOpts WatchOpts Backend Abi Log Approval (List Bytes × List Bytes)
  unfolding event_api approval_rules
  approval_events unpack_log = event_api package_ unpack_log (codes "Approval") approval_rules

  unfoldable transfer_events :
      (Bound Abi → Bytes → Log → Transfer × Option TestError)
      → EventApi FilterOpts WatchOpts Backend Abi Log Transfer (List Bytes × List Bytes)
  unfolding event_api transfer_rules
  transfer_events unpack_log = event_api package_ unpack_log (codes "Transfer") transfer_rules

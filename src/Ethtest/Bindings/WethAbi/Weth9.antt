-- ===== src/Ethtest/Bindings/WethAbi/Weth9.antt =====
-- The binding of the contract WETH9 in ethtest/wethtest/wethtestabi/generated.go.
use ethier.Common.{List, [], ◌∷◌, Option, Bytes, codes, Outcome}
use ethier.Ethtest.Errors.{TestError}
use ethier.Ethtest.Backend.{TransactOpts}
use ethier.Ethtest.Bindings.{MetaData, Bound, BindPackage, rule}
use ethier.Ethtest.Bindings.Contract.{Binding, ContractApi, contract_api, deploy_binding}
use ethier.Ethtest.Bindings.Methods.{Reader, Payer, read, pay, pay_plain}
use ethier.Ethtest.Bindings.Events.{LogPackage, EventApi, event_api}

-- `WETH9Approval`, less its log.
record Approval : Type 0 where
  src : Bytes
  guy : Bytes
  wad : Bytes

-- `WETH9Deposit`, less its log.
record Deposit : Type 0 where
  dst : Bytes
  wad : Bytes

-- `WETH9Transfer`, less its log.
record Transfer : Type 0 where
  src : Bytes
  dst : Bytes
  wad : Bytes

-- `WETH9Withdrawal`, less its log.
record Withdrawal : Type 0 where
  src : Bytes
  wad : Bytes

-- The rules of `FilterApproval` and `WatchApproval`.
unfoldable approval_rules : List Bytes × List Bytes → List (List Bytes)
unfolding rule
approval_rules (src, guy) = rule src ∷ rule guy ∷ []

-- The rules of `FilterDeposit` and `WatchDeposit`.
unfoldable deposit_rules : List Bytes → List (List Bytes)
unfolding rule
deposit_rules dst = rule dst ∷ []

-- The rules of `FilterTransfer` and `WatchTransfer`.
unfoldable transfer_rules : List Bytes × List Bytes → List (List Bytes)
unfolding rule
transfer_rules (src, dst) = rule src ∷ rule dst ∷ []

-- The rules of `FilterWithdrawal` and `WatchWithdrawal`.
unfoldable withdrawal_rules : List Bytes → List (List Bytes)
unfolding rule
withdrawal_rules src = rule src ∷ []

module _ {Backend Signer Abi Tx : Type 0} (bind : BindPackage Backend Signer Abi Tx) where
  unfoldable weth9 : MetaData → ContractApi Backend Signer Abi Tx
  unfolding contract_api
  weth9 meta = contract_api bind meta

  unfoldable deploy_weth9 :
      MetaData
      → TransactOpts Signer
      → Backend
      → Outcome TestError (Bytes × Tx × Binding Abi) × Backend
  unfolding deploy_binding
  deploy_weth9 meta auth backend = deploy_binding bind meta auth [] backend

  unfoldable pub allowance : Reader Abi Signer → Bytes → Bytes → Backend → Outcome TestError Bytes
  unfolding read
  allowance on arg0 arg1 = read bind (codes "allowance") on (arg0 ∷ arg1 ∷ [])

  unfoldable pub balance_of : Reader Abi Signer → Bytes → Backend → Outcome TestError Bytes
  unfolding read
  balance_of on arg0 = read bind (codes "balanceOf") on (arg0 ∷ [])

  unfoldable decimals : Reader Abi Signer → Backend → Outcome TestError Bytes
  unfolding read
  decimals on = read bind (codes "decimals") on []

  unfoldable name : Reader Abi Signer → Backend → Outcome TestError Bytes
  unfolding read
  name on = read bind (codes "name") on []

  unfoldable symbol : Reader Abi Signer → Backend → Outcome TestError Bytes
  unfolding read
  symbol on = read bind (codes "symbol") on []

  unfoldable pub total_supply : Reader Abi Signer → Backend → Outcome TestError Bytes
  unfolding read
  total_supply on = read bind (codes "totalSupply") on []

  unfoldable pub approve :
      Payer Abi Signer → Bytes → Bytes → Backend → Outcome TestError Tx × Backend
  unfolding pay
  approve on guy wad = pay bind (codes "approve") on (guy ∷ wad ∷ [])

  unfoldable deposit : Payer Abi Signer → Backend → Outcome TestError Tx × Backend
  unfolding pay
  deposit on = pay bind (codes "deposit") on []

  unfoldable pub transfer :
      Payer Abi Signer → Bytes → Bytes → Backend → Outcome TestError Tx × Backend
  unfolding pay
  transfer on dst wad = pay bind (codes "transfer") on (dst ∷ wad ∷ [])

  unfoldable pub transfer_from :
      Payer Abi Signer → Bytes → Bytes → Bytes → Backend → Outcome TestError Tx × Backend
  unfolding pay
  transfer_from on src dst wad = pay bind (codes "transferFrom") on (src ∷ dst ∷ wad ∷ [])

  unfoldable withdraw : Payer Abi Signer → Bytes → Backend → Outcome TestError Tx × Backend
  unfolding pay
  withdraw on wad = pay bind (codes "withdraw") on (wad ∷ [])

  unfoldable receive : Payer Abi Signer → Backend → Outcome TestError Tx × Backend
  unfolding pay_plain
  receive on = pay_plain bind on

module _ {FilterOpts WatchOpts Backend Abi Log : Type 0}
    (package_ : LogPackage FilterOpts WatchOpts Backend Abi Log) where
  unfoldable approval_events :
      (Bound Abi → Bytes → Log → Approval × Option TestError)
      → EventApi FilterOpts WatchOpts Backend Abi Log Approval (List Bytes × List Bytes)
  unfolding event_api approval_rules
  approval_events unpack_log = event_api package_ unpack_log (codes "Approval") approval_rules

  unfoldable deposit_events :
      (Bound Abi → Bytes → Log → Deposit × Option TestError)
      → EventApi FilterOpts WatchOpts Backend Abi Log Deposit (List Bytes)
  unfolding event_api deposit_rules
  deposit_events unpack_log = event_api package_ unpack_log (codes "Deposit") deposit_rules

  unfoldable transfer_events :
      (Bound Abi → Bytes → Log → Transfer × Option TestError)
      → EventApi FilterOpts WatchOpts Backend Abi Log Transfer (List Bytes × List Bytes)
  unfolding event_api transfer_rules
  transfer_events unpack_log = event_api package_ unpack_log (codes "Transfer") transfer_rules

  unfoldable withdrawal_events :
      (Bound Abi → Bytes → Log → Withdrawal × Option TestError)
      → EventApi FilterOpts WatchOpts Backend Abi Log Withdrawal (List Bytes)
  unfolding event_api withdrawal_rules
  withdrawal_events unpack_log = event_api package_ unpack_log (codes "Withdrawal") withdrawal_rules

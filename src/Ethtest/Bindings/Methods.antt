-- ===== src/Ethtest/Bindings/Methods.antt =====
-- The code that abigen writes for a method: one that reads, on the caller and on two sessions, and
-- one that is paid, on the transactor and on two sessions.
use ethier.Common.{List, Option, some, Bytes, get_elem?, Outcome, ◌>>=◌, or_panic}
use ethier.Ethtest.Errors.{TestError}
use ethier.Ethtest.Backend.{TransactOpts, CallOpts}
use ethier.Ethtest.Bindings.{Bound, BindPackage}
use ethier.Ethtest.Bindings.Contract.{Caller, Transactor, Session, CallerSession, TransactorSession}

-- The receiver of a method that reads, with the options where they are an argument.
pub data Reader (Abi Signer : Type 0) : Type 0 where
  on_caller : (c : Caller Abi) (opts : Option CallOpts) → Reader Abi Signer
  on_session : (s : Session Abi Signer) → Reader Abi Signer
  on_caller_session : (s : CallerSession Abi) → Reader Abi Signer

-- The receiver of a method that is paid.
pub data Payer (Abi Signer : Type 0) : Type 0 where
  on_transactor : (t : Transactor Abi) (opts : TransactOpts Signer) → Payer Abi Signer
  on_session : (s : Session Abi Signer) → Payer Abi Signer
  on_transactor_session : (s : TransactorSession Abi Signer) → Payer Abi Signer

module _ {Backend Signer Abi Tx : Type 0} (bind : BindPackage Backend Signer Abi Tx) where
  -- The only output, `out[0]`, as the bytes that the ABI packs.
  unfoldable call_method :
      Bytes → Bound Abi → Option CallOpts → List Bytes → Backend → Outcome TestError Bytes
  call_method method contract opts params backend =
      bind.call contract opts method params backend >>= λ out. or_panic (get_elem? out 0)

  unfoldable pub read : Bytes → Reader Abi Signer → List Bytes → Backend → Outcome TestError Bytes
  unfolding call_method
  read method (on_caller c opts) params = call_method method c.contract opts params
  read method (on_session s) params =
      call_method method s.contract.caller.contract (some s.call_opts) params
  read method (on_caller_session s) params =
      call_method method s.contract.contract (some s.call_opts) params

  unfoldable pub pay :
      Bytes → Payer Abi Signer → List Bytes → Backend → Outcome TestError Tx × Backend
  pay method (on_transactor t opts) params = bind.transact t.contract opts method params
  pay method (on_session s) params =
      bind.transact s.contract.transactor.contract s.transact_opts method params
  pay method (on_transactor_session s) params =
      bind.transact s.contract.contract s.transact_opts method params

  -- `Receive`, which sends a transaction without data.
  unfoldable pub pay_plain : Payer Abi Signer → Backend → Outcome TestError Tx × Backend
  pay_plain (on_transactor t opts) = bind.raw_transact t.contract opts
  pay_plain (on_session s) = bind.raw_transact s.contract.transactor.contract s.transact_opts
  pay_plain (on_transactor_session s) = bind.raw_transact s.contract.contract s.transact_opts

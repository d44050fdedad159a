-- ===== src/Ethtest/Bindings/Contract.antt =====
-- The code that abigen writes for every contract: the types that read, write and filter, those with
-- preset options and the raw ones, their constructors, and the raw methods.
pub mod Laws
use ethier.Common.{List, Option, Bytes, Outcome, ok, ◌>>=◌}
use ethier.Ethtest.Errors.{TestError}
use ethier.Ethtest.Backend.{TransactOpts, CallOpts}
use ethier.Ethtest.Bindings.{MetaData, Bound, BindPackage, deploy, bind_contract}

-- `…Caller`
pub record Caller (Abi : Type 0) : Type 0 where
  pub contract : Bound Abi

-- `…Transactor`
pub record Transactor (Abi : Type 0) : Type 0 where
  pub contract : Bound Abi

-- `…Filterer`
pub record Filterer (Abi : Type 0) : Type 0 where
  pub contract : Bound Abi

-- The type with the contract's name, which embeds the three.
pub record Binding (Abi : Type 0) : Type 0 where
  pub caller : Caller Abi
  pub transactor : Transactor Abi
  pub filterer : Filterer Abi

-- `…Session`
pub record Session (Abi Signer : Type 0) : Type 0 where
  pub contract : Binding Abi
  pub call_opts : CallOpts
  pub transact_opts : TransactOpts Signer

-- `…CallerSession`
pub record CallerSession (Abi : Type 0) : Type 0 where
  pub contract : Caller Abi
  pub call_opts : CallOpts

-- `…TransactorSession`
pub record TransactorSession (Abi Signer : Type 0) : Type 0 where
  pub contract : Transactor Abi
  pub transact_opts : TransactOpts Signer

-- `…Raw`
pub record Raw (Abi : Type 0) : Type 0 where
  pub contract : Binding Abi

-- `…CallerRaw`
pub record CallerRaw (Abi : Type 0) : Type 0 where
  pub contract : Caller Abi

-- `…TransactorRaw`
pub record TransactorRaw (Abi : Type 0) : Type 0 where
  pub contract : Transactor Abi

-- The functions of a contract's binding that do not depend on its methods and events.
pub record ContractApi (Backend Signer Abi Tx : Type 0) : Type 0 where
  pub new_binding : Bytes → Outcome TestError (Binding Abi)
  pub new_caller : Bytes → Outcome TestError (Caller Abi)
  pub new_transactor : Bytes → Outcome TestError (Transactor Abi)
  pub new_filterer : Bytes → Outcome TestError (Filterer Abi)
  pub raw_call :
      Raw Abi → Option CallOpts → Bytes → List Bytes → Backend → Outcome TestError (List Bytes)
  pub raw_transfer : Raw Abi → TransactOpts Signer → Backend → Outcome TestError Tx × Backend
  pub raw_transact :
      Raw Abi → TransactOpts Signer → Bytes → List Bytes → Backend → Outcome TestError Tx × Backend
  pub caller_raw_call :
      CallerRaw Abi
      → Option CallOpts
      → Bytes
      → List Bytes
      → Backend
      → Outcome TestError (List Bytes)
  pub transactor_raw_transfer :
      TransactorRaw Abi → TransactOpts Signer → Backend → Outcome TestError Tx × Backend
  pub transactor_raw_transact :
      TransactorRaw Abi
      → TransactOpts Signer
      → Bytes
      → List Bytes
      → Backend
      → Outcome TestError Tx × Backend

-- The literal that `New…` and `Deploy…` return: one bound contract three times.
unfoldable pub binding : {Abi : Type 0} → Bound Abi → Binding Abi
binding contract = record {
  caller = record { contract = contract };
  transactor = record { contract = contract };
  filterer = record { contract = contract };
}

module _ {Backend Signer Abi Tx : Type 0} (bind : BindPackage Backend Signer Abi Tx) where
  unfoldable pub contract_api : MetaData → ContractApi Backend Signer Abi Tx
  unfolding bind_contract binding
  contract_api meta = record {
    new_binding = λ address. bind_contract bind meta address >>= λ c. ok (binding c);
    new_caller = λ address. bind_contract bind meta address >>= λ c. ok (record { contract = c });
    new_transactor =
        λ address. bind_contract bind meta address >>= λ c. ok (record { contract = c });
    new_filterer = λ address. bind_contract bind meta address >>= λ c. ok (record { contract = c });
    raw_call = λ raw opts method params. bind.call raw.contract.caller.contract opts method params;
    raw_transfer = λ raw opts. bind.transfer raw.contract.transactor.contract opts;
    raw_transact =
        λ raw opts method params. bind.transact raw.contract.transactor.contract opts method params;
    caller_raw_call = λ raw opts method params. bind.call raw.contract.contract opts method params;
    transactor_raw_transfer = λ raw opts. bind.transfer raw.contract.contract opts;
    transactor_raw_transact =
        λ raw opts method params. bind.transact raw.contract.contract opts method params;
  }

  -- A whole `Deploy…`: the address, the transaction and the binding.
  unfoldable pub deploy_binding :
      MetaData
      → TransactOpts Signer
      → List Bytes
      → Backend
      → Outcome TestError (Bytes × Tx × Binding Abi) × Backend
  unfolding deploy binding
  deploy_binding meta auth args backend =
      let (deployed, backend') = deploy bind meta auth args backend in
      (deployed >>= (λ d. ok (d.address, d.tx, binding d.contract)), backend')

-- ===== src/Ethtest/Bindings/Contract/Laws.antt =====
-- A deployed contract and one that is bound later.
use ethier.Common.{
  List, Option, none, some, ◌≡◌, refl, sym, ap, ◌∙◌, Bytes, Outcome, ok, err, panics, bind-ok,
  ok-injective,
}
use ethier.Ethtest.Errors.{TestError, no_abi}
use ethier.Ethtest.Backend.{TransactOpts}
use ethier.Ethtest.Bindings.{MetaData, Deployed, BindPackage, deploy, bind_contract}
use ethier.Ethtest.Bindings.Contract.{Binding, binding, contract_api, deploy_binding}

module _ {Backend Signer Abi Tx : Type 0} (bind : BindPackage Backend Signer Abi Tx)
    (reads : (text : Bytes) (parsed : Abi)
      → bind.get_abi text ≡ ok (some parsed)
      → bind.json text ≡ ok parsed)
    (binds : (auth : TransactOpts Signer) (parsed : Abi) (bin : Bytes) (args : List Bytes)
        (backend : Backend) (d : Deployed Abi Tx)
      → (bind.deploy_contract auth parsed bin args backend).0 ≡ ok d
      → d.contract ≡ record { address = d.address; abi = parsed }) where
  deploy-parsed :
      (meta : MetaData) (auth : TransactOpts Signer) (args : List Bytes) (backend : Backend)
      (d : Deployed Abi Tx)
      → (deploy bind meta auth args backend).0 ≡ ok d
      → (parsed : Abi) × (bind.json meta.abi ≡ ok parsed)
        × (d.contract ≡ record { address = d.address; abi = parsed })
  unfolding deploy
  deploy-parsed meta auth args backend d h = with_abi (bind.get_abi meta.abi) refl h
    where
      with_abi :
          (o : Outcome TestError (Option Abi))
          → bind.get_abi meta.abi ≡ o
          → (elim o as (λ x. Outcome TestError (Deployed Abi Tx) × Backend) [
            | err e ↦ (err e, backend)
            | panics ↦ (panics, backend)
            | ok none ↦ (err no_abi, backend)
            | ok (some parsed) ↦ bind.deploy_contract auth parsed meta.bin args backend
          ]).0
            ≡ ok d
          → (parsed : Abi) × (bind.json meta.abi ≡ ok parsed)
            × (d.contract ≡ record { address = d.address; abi = parsed })
      with_abi (err e) from h = cc
      with_abi panics from h = cc
      with_abi (ok none) from h = cc
      with_abi (ok (some parsed)) from h =
          (parsed, reads meta.abi parsed from, binds auth parsed meta.bin args backend d h)

  -- When GetAbi and abi.JSON read one text alike, and bind.DeployContract binds the new contract at
  -- its address with the interface it was given: the binding that Deploy returns is the one that
  -- New gives at the address that Deploy returns.
  pub deploy_binding-new_binding :
      (meta : MetaData) (auth : TransactOpts Signer) (args : List Bytes) (backend : Backend)
      (address : Bytes) (tx : Tx) (contract : Binding Abi)
      → (deploy_binding bind meta auth args backend).0 ≡ ok (address, tx, contract)
      → (contract_api bind meta).new_binding address ≡ ok contract
  unfolding deploy_binding contract_api binding bind_contract
  deploy_binding-new_binding meta auth args backend address tx contract h =
      let (d, deployed, done) = bind-ok (deploy bind meta auth args backend).0 _ h in
      let (parsed, reads_, bound) = deploy-parsed meta auth args backend d deployed in
      let same = ok-injective done in
      let at : d.address ≡ address = ap (λ r. r.0) same in
      let made : binding d.contract ≡ contract = ap (λ r. r.2) same in
      let again : record { address = address; abi = parsed } ≡ d.contract =
        ap (λ a. record { address = a; abi = parsed }) (sym at) ∙ sym bound in
      rw (reads_) (ap (λ c. ok (binding c)) again ∙ ap ok made)

-- ===== src/Ethtest/Doubles/Laws.antt =====
-- A deployment that is reported as done stands at the expected address.
use ethier.Common.{
  false, some, ◌≡◌, ◌≢◌, sym, ap, ◌∙◌, Bytes, bytes_key, bytes_beq, bytes_beq_iff, codes, lookup,
  Outcome, ok, err, panics, bind-ok, ok-injective, Bool-cases, Option-cases, inl, inr, arith,
}
use ethier.Ethtest.Errors.{TestError, unexpected_address}
use ethier.Ethtest.Backend.{
  TransactOpts, SimulatedBackend, as_mocked_entity, open_sea, weth, ethier_entity,
}
use ethier.Ethtest.Bindings.{
  MetaData, Bound, BindPackage, deploy_simulated_proxy_registry, deploy_weth9, new_iweth,
  bind_contract,
}
use ethier.Ethtest.Doubles.{
  hex_to_address, wrap, check_address, deploy_checked, proxy_registry, splitter_factory, address,
  deploy_proxy_registry, deploy_weth, deploy_payment_splitter_factory,
}

check_address-ok : (want addr : Bytes) → check_address want addr ≡ ok tt → addr ≡ want
unfolding check_address
check_address-ok want addr h = elim (Bool-cases (bytes_beq addr want)) [
  | inl same ↦ (bytes_beq_iff addr want).0 same
  | inr other ↦ absurd (ground arith)
]

wrap-ok :
    {A : Type 0} (site : Bytes) (o : Outcome TestError A) {a : A} → wrap site o ≡ ok a → o ≡ ok a
unfolding wrap
wrap-ok site (ok b) h = h
wrap-ok site (err e) h = absurd (cc)
wrap-ok site panics h = absurd (cc)

bytes_beq_ne : (a b : Bytes) → a ≢ b → bytes_beq a b ≡ false
bytes_beq_ne a b h = elim (Bool-cases (bytes_beq a b)) [
  | inl same ↦ absurd (h ((bytes_beq_iff a b).0 same))
  | inr other ↦ other
]

module _ {Chain Signer Mapper : Type 0} where
  -- A call that succeeded was made by the entity's account.
  as_mocked_entity-ok :
      {A : Type 0} (mock : Bytes)
      (fn : TransactOpts Signer
        → SimulatedBackend Chain Signer Mapper
        → Outcome TestError A × SimulatedBackend Chain Signer Mapper)
      (sim : SimulatedBackend Chain Signer Mapper) {a : A}
      → (as_mocked_entity mock fn sim).0 ≡ ok a
      → (opts : TransactOpts Signer) × (lookup sim.mock_accounts mock ≡ some opts)
        × ((fn opts sim).0 ≡ ok a)
  unfolding as_mocked_entity
  as_mocked_entity-ok mock fn sim h = elim (Option-cases (lookup sim.mock_accounts mock)) [
    | inl unknown ↦ absurd (ground arith)
    | inr (opts, known) ↦ (opts, known, rw (as_mocked_entity, known) at h)
  ]

  deploy_checked-ok :
      (site want : Bytes)
      (deploy : TransactOpts Signer
        → SimulatedBackend Chain Signer Mapper
        → Outcome TestError Bytes × SimulatedBackend Chain Signer Mapper)
      (opts : TransactOpts Signer) (sim : SimulatedBackend Chain Signer Mapper)
      → (deploy_checked site want deploy opts sim).0 ≡ ok tt
      → (deploy opts sim).0 ≡ ok want
  unfolding deploy_checked
  deploy_checked-ok site want deploy opts sim h =
      let (addr, wrapped_, checked) =
        bind-ok (wrap site (deploy opts sim).0) (check_address want) h in
      wrap-ok site (deploy opts sim).0 wrapped_ ∙ ap ok (check_address-ok want addr checked)

module _ {Chain Signer Mapper Abi Tx : Type 0}
    (bind : BindPackage (SimulatedBackend Chain Signer Mapper) Signer Abi Tx) where
  -- DeployProxyRegistry succeeds only where the account mocked for OpenSea deployed the registry at
  -- the expected address.
  deploy_proxy_registry-address :
      (meta : MetaData) (sim : SimulatedBackend Chain Signer Mapper)
      → (deploy_proxy_registry bind meta sim).0 ≡ ok tt
      → (opts : TransactOpts Signer) × (lookup sim.mock_accounts open_sea ≡ some opts)
        × ((deploy_simulated_proxy_registry bind meta opts sim).0
            ≡ ok (hex_to_address proxy_registry))
  unfolding deploy_proxy_registry
  deploy_proxy_registry-address meta sim h =
      let site = codes "DeploySimulatedProxyRegistry" in
      let want = hex_to_address proxy_registry in
      let deploy = deploy_simulated_proxy_registry bind meta in
      let (opts, known, called) =
        as_mocked_entity-ok open_sea (deploy_checked site want deploy) sim h in
      (opts, known, deploy_checked-ok site want deploy opts sim called)

  -- DeployWETH succeeds only where the account mocked for wETH deployed the contract at the address
  -- that Address returns, and its result is bound to that address.
  pub deploy_weth-address :
      (meta interface : MetaData) (sim : SimulatedBackend Chain Signer Mapper) (c : Bound Abi)
      → (deploy_weth bind meta interface sim).0 ≡ ok c
      → (opts : TransactOpts Signer) × (lookup sim.mock_accounts weth ≡ some opts)
        × ((deploy_weth9 bind meta opts sim).0 ≡ ok address)
        × (c.address ≡ address)
  unfolding deploy_weth new_iweth bind_contract
  deploy_weth-address meta interface sim c h =
      let deploy = deploy_weth9 bind meta in
      let checked = deploy_checked (codes "DeployWETH9") address deploy in
      let (u, entity, bound) =
        bind-ok (as_mocked_entity weth checked sim).0 (λ done. new_iweth bind interface address)
          h in
      let (opts, known, called) = as_mocked_entity-ok weth checked sim entity in
      let deployed = deploy_checked-ok (codes "DeployWETH9") address deploy opts sim called in
      let (parsed, parses, made) = bind-ok (bind.json interface.abi) _ bound in
      (opts, known, deployed, sym (ap (λ b. b.address) (ok-injective made)))

module _ {Chain Signer Mapper : Type 0}
    (deploy_factory : TransactOpts Signer
      → SimulatedBackend Chain Signer Mapper
      → (Bytes × Outcome TestError (Unit {0})) × SimulatedBackend Chain Signer Mapper) where
  -- Where the deployment of the factory fails, and its address is not the expected one,
  -- DeployPaymentSplitterFactory tells of the address and not of the failure.
  deploy_payment_splitter_factory_hides :
      (sim : SimulatedBackend Chain Signer Mapper) (opts : TransactOpts Signer) (addr : Bytes)
      (e : TestError)
      → lookup sim.mock_accounts ethier_entity ≡ some opts
      → (deploy_factory opts sim).0 ≡ (addr, err e)
      → addr ≢ hex_to_address splitter_factory
      → (deploy_payment_splitter_factory deploy_factory sim).0
        ≡ err (unexpected_address addr (hex_to_address splitter_factory))
  unfolding deploy_payment_splitter_factory
  deploy_payment_splitter_factory_hides sim opts addr e known fails other =
      let test : bytes_beq addr (hex_to_address splitter_factory) ≡ false =
        bytes_beq_ne addr (hex_to_address splitter_factory) other in
      rw (as_mocked_entity, known, fails, check_address, test)

-- ===== src/Ethtest/Doubles.antt =====
-- ethtest's packages openseatest, wethtest and factorytest: contracts deployed by the mocked
-- entities, at addresses that are checked.
pub mod Laws
mod Tests
use ethier.Common.{
  [], none, some, Bytes, bytes_beq, codes, if◌then◌else◌, Outcome, ok, err, panics, ◌>>=◌,
}
use ethier.Golang.Hex.{hex_decode}
use ethier.Ethtest.Errors.{TestError, wrapped, unexpected_address, Tb, Tested, or_fatal}
use ethier.Ethtest.Backend.{
  TransactOpts, SimulatedBackend, as_mocked_entity, open_sea, weth, ethier_entity,
}
use ethier.Ethtest.Bindings.{
  MetaData, Bound, BindPackage, deploy_simulated_proxy_registry, new_simulated_proxy_registry,
  set_proxy_for, deploy_weth9, new_iweth,
}

-- `common.HexToAddress` of forty digits.
unfoldable pub hex_to_address : Bytes → Bytes
unfolding hex_decode
hex_to_address s = elim (hex_decode s) [ none ↦ [] | some b ↦ b ]

-- `fmt.Errorf` around the error of a call.
unfoldable pub wrap {ℓ} : {A : Type ℓ} → Bytes → Outcome TestError A → Outcome TestError A
wrap site (ok a) = ok a
wrap site (err e) = err (wrapped site e)
wrap site panics = panics

-- `bytes.Equal(addr.Bytes(), want.Bytes())`
unfoldable pub check_address : Bytes → Bytes → Outcome TestError (Unit {0})
check_address want addr = if bytes_beq addr want then ok tt else err (unexpected_address addr want)

-- What the mocked entity runs: the deployment, then the check of its address.
unfoldable pub deploy_checked :
    {Chain Signer Mapper : Type 0}
    → Bytes
    → Bytes
    → (TransactOpts Signer
        → SimulatedBackend Chain Signer Mapper
        → Outcome TestError Bytes × SimulatedBackend Chain Signer Mapper)
    → TransactOpts Signer
    → SimulatedBackend Chain Signer Mapper
    → Outcome TestError (Unit {0}) × SimulatedBackend Chain Signer Mapper
unfolding wrap check_address
deploy_checked site want deploy opts sb =
    let (addr, sb') = deploy opts sb in (wrap site addr >>= check_address want, sb')

abbrev pub proxy_registry : Bytes
proxy_registry = codes "E1a2bbc877b29ADBC56D2659DBcb0ae14ee62071"

-- Without its 0x.
abbrev pub weth_addr : Bytes
weth_addr = codes "2336a902f2727C77867A5905dE392fEd3Ff3604b"

abbrev pub splitter_factory : Bytes
splitter_factory = codes "a516d2c64ED7Fe2004A93Bc123854B229F3Bb738"

-- `wethtest.Address`
unfoldable pub address : Bytes
unfolding hex_to_address
address = hex_to_address weth_addr

module _ {Chain Signer Mapper Abi Tx : Type 0}
    (bind : BindPackage (SimulatedBackend Chain Signer Mapper) Signer Abi Tx) where
  -- `openseatest.DeployProxyRegistry`
  unfoldable pub deploy_proxy_registry :
      MetaData
      → SimulatedBackend Chain Signer Mapper
      → Outcome TestError (Unit {0}) × SimulatedBackend Chain Signer Mapper
  unfolding as_mocked_entity deploy_simulated_proxy_registry deploy_checked hex_to_address
  deploy_proxy_registry meta sim =
      as_mocked_entity open_sea
        (deploy_checked (codes "DeploySimulatedProxyRegistry") (hex_to_address proxy_registry)
          (deploy_simulated_proxy_registry bind meta))
        sim

  -- `openseatest.DeployProxyRegistryTB`
  unfoldable pub deploy_proxy_registry_tb :
      MetaData
      → SimulatedBackend Chain Signer Mapper
      → Tb
      → (Tested (Unit {0}) × Tb) × SimulatedBackend Chain Signer Mapper
  unfolding deploy_proxy_registry or_fatal
  deploy_proxy_registry_tb meta sim tb =
      let (result, sb) = deploy_proxy_registry meta sim in
      (or_fatal (codes "DeployProxyRegistry") result tb, sb)

  -- `openseatest.SetProxy`
  unfoldable pub set_proxy :
      MetaData
      → Bytes
      → Bytes
      → SimulatedBackend Chain Signer Mapper
      → Outcome TestError (Unit {0}) × SimulatedBackend Chain Signer Mapper
  unfolding as_mocked_entity new_simulated_proxy_registry set_proxy_for hex_to_address wrap
  set_proxy meta owner proxy sim =
      elim (wrap (codes "NewSimulatedProxyRegistry")
        (new_simulated_proxy_registry bind meta (hex_to_address proxy_registry))) [
          | err e ↦ (err e, sim)
          | panics ↦ (panics, sim)
          | ok reg ↦
              as_mocked_entity open_sea
                (λ opts sb.
                  let (tx, sb') = set_proxy_for bind reg opts owner proxy sb in
                  (tx >>= (λ t. ok tt), sb'))
                sim
        ]

  -- `openseatest.SetProxyTB`
  unfoldable pub set_proxy_tb :
      MetaData
      → Bytes
      → Bytes
      → SimulatedBackend Chain Signer Mapper
      → Tb
      → (Tested (Unit {0}) × Tb) × SimulatedBackend Chain Signer Mapper
  unfolding set_proxy or_fatal
  set_proxy_tb meta owner proxy sim tb =
      let (result, sb) = set_proxy meta owner proxy sim in
      (or_fatal (codes "SetProxy") result tb, sb)

  -- `wethtest.DeployWETH`
  unfoldable pub deploy_weth :
      MetaData
      → MetaData
      → SimulatedBackend Chain Signer Mapper
      → Outcome TestError (Bound Abi) × SimulatedBackend Chain Signer Mapper
  unfolding as_mocked_entity deploy_weth9 new_iweth deploy_checked address
  deploy_weth meta interface sim =
      let (deployed, sb) =
        as_mocked_entity weth
          (deploy_checked (codes "DeployWETH9") address (deploy_weth9 bind meta)) sim in
      (deployed >>= (λ done. new_iweth bind interface address), sb)

  -- `wethtest.DeployWETHTB`
  unfoldable pub deploy_weth_tb :
      MetaData
      → MetaData
      → SimulatedBackend Chain Signer Mapper
      → Tb
      → (Tested (Bound Abi) × Tb) × SimulatedBackend Chain Signer Mapper
  unfolding deploy_weth or_fatal
  deploy_weth_tb meta interface sim tb =
      let (result, sb) = deploy_weth meta interface sim in
      (or_fatal (codes "DeployWETH9") result tb, sb)

module _ {Chain Signer Mapper : Type 0}
    (deploy_factory : TransactOpts Signer
      → SimulatedBackend Chain Signer Mapper
      → (Bytes × Outcome TestError (Unit {0})) × SimulatedBackend Chain Signer Mapper) where
  -- `factorytest.DeployPaymentSplitterFactory`; its binding is generated by the build, and returns an
  -- address next to the error. The address is looked at first.
  unfoldable pub deploy_payment_splitter_factory :
      SimulatedBackend Chain Signer Mapper
      → Outcome TestError (Unit {0}) × SimulatedBackend Chain Signer Mapper
  unfolding as_mocked_entity check_address hex_to_address
  deploy_payment_splitter_factory sim =
      as_mocked_entity ethier_entity
        (λ opts sb.
          let (deployed, sb') = deploy_factory opts sb in
          (
            check_address (hex_to_address splitter_factory) deployed.0 >>= (λ same. deployed.1),
            sb',
          ))
        sim

  -- `factorytest.DeployPaymentSplitterFactoryTB`
  unfoldable pub deploy_payment_splitter_factory_tb :
      SimulatedBackend Chain Signer Mapper
      → Tb
      → (Tested (Unit {0}) × Tb) × SimulatedBackend Chain Signer Mapper
  unfolding deploy_payment_splitter_factory or_fatal
  deploy_payment_splitter_factory_tb sim tb =
      let (result, sb) = deploy_payment_splitter_factory sim in
      (or_fatal (codes "DeployPaymentSplitterFactory") result tb, sb)

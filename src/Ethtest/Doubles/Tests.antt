-- ===== src/Ethtest/Doubles/Tests.antt =====
-- Runs of ethtest/wethtest, and its theorem at a concrete input.
use ethier.Common.{ℕ, ◌+◌, true, [], ◌∷◌, none, some, ◌≡◌, refl, bytes_key, codes, lookup, ok}
use ethier.Ethtest.Backend.{TransactOpts, SimulatedBackend, weth}
use ethier.Ethtest.Bindings.{MetaData, Bound, BindPackage, deploy_weth9}
use ethier.Ethtest.Doubles.{address, deploy_weth}
use ethier.Ethtest.Doubles.Laws.{deploy_weth-address}
use ethier.Solcover.Coverage.{zero_location}

abbrev Backend : Type 0
Backend = SimulatedBackend ℕ ℕ ℕ

-- Every contract lands at the address of wETH, and the chain counts the calls.
abbrev toy_bind : BindPackage Backend ℕ ℕ ℕ
toy_bind = record {
  get_abi = λ text. ok (some 0);
  json = λ text. ok 0;
  deploy_contract = λ auth parsed bin args sb. (
    ok (record {
      address = address;
      tx = 0;
      contract = record { address = address; abi = parsed };
    }),
    record sb { chain = sb.chain + 1 },
  );
  transact = λ c auth method args sb. (ok 0, sb);
  raw_transact = λ c auth sb. (ok 0, sb);
  transfer = λ c auth sb. (ok 0, sb);
  call = λ c opts method args sb. ok (address ∷ []);
  watch_logs = λ c event rules sb. ok tt;
}

abbrev mock : TransactOpts ℕ
mock = record { from = codes "w"; signer = 0; value = none }

abbrev backend : Backend
backend = record {
  chain = 1;
  auto_commit = true;
  accounts = [];
  mock_accounts = (weth, mock) ∷ [];
  tracing = record {
    registry = record {
      source_code = [];
      contracts_by_name = [];
      contracts_by_hash = [];
      contract_matchers = [];
      deployed_contracts = [];
    };
    collector = record { contracts = []; line_hits = []; last = zero_location };
  };
  has_report = true;
}

abbrev meta : MetaData
meta = record { abi = []; bin = [] }

abbrev bound : Bound ℕ
bound = record { address = address; abi = 0 }

deployed : (deploy_weth toy_bind meta meta backend).0 ≡ ok bound
unfolding deploy_weth
deployed = refl

deploy_weth-address_example :
    (opts : TransactOpts ℕ) × (lookup backend.mock_accounts weth ≡ some opts)
    × ((deploy_weth9 toy_bind meta opts backend).0 ≡ ok address)
    × (bound.address ≡ address)
deploy_weth-address_example = deploy_weth-address toy_bind meta meta backend bound deployed

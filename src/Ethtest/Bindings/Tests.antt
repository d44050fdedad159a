-- ===== src/Ethtest/Bindings/Tests.antt =====
-- Runs of the generated iterators and subscriptions, and their theorems at concrete inputs.
use ethier.Common.{
  ℕ, zero, suc, ◌+◌, length, ok, Bytes, false, List, [], ◌∷◌, ◌++◌, Option, none, some, ◌≡◌, refl,
  sym, ap, ◌∙◌, ok-injective, codes, arith,
}
use ethier.Ethtest.Errors.{TestError, external}
use ethier.Ethtest.Backend.{TransactOpts}
use ethier.Ethtest.Bindings.{MetaData, Bound, Deployed, BindPackage, deploy}
use ethier.Ethtest.Bindings.Contract.{Filterer, Binding, contract_api, deploy_binding}
use ethier.Ethtest.Bindings.Contract.Laws.{deploy_binding-new_binding}
use ethier.Ethtest.Bindings.Events.{LogPackage, EventIterator, event_api}
use ethier.Ethtest.Bindings.Events.Laws.{incoming, drain_events, filter_event-watch}
use ethier.Ethtest.Bindings.ChainlinkAbi.Erc20.{approval_rules}
use ethier.Ethtest.Bindings.Logs.{LogEvent, Feed, parse_log}
use ethier.Ethtest.Bindings.Logs.Laws.{drain, read_feed, drain-read_feed}
use ethier.Ethtest.Bindings.Watch.{
  receiving, forwarding, WatchLabel, log_comes, event_goes, WatchRun, receive, forward, begin,
  continue_,
}
use ethier.Ethtest.Bindings.Watch.Laws.{received, parsed, IsUnsent, WatchRun-parsed}

abbrev broken : TestError
broken = external (codes "bad topic")

-- A log is a number, and 0 cannot be unpacked.
abbrev toy_unpack : ℕ → ℕ × Option TestError
toy_unpack zero = (0, some broken)
toy_unpack (suc n) = (n, none)

abbrev three_logs : Feed ℕ
three_logs = record { live = 5 ∷ []; ended = none; left = 7 ∷ 0 ∷ [] }

abbrev event_of : ℕ → LogEvent ℕ ℕ
event_of n = record { args = n; raw = some (suc n) }

two_events :
    read_feed toy_unpack three_logs ≡ (some (event_of 4) ∷ some (event_of 6) ∷ [], some broken)
unfolding read_feed
two_events = refl

drain-read_feed_example :
    drain toy_unpack 4 (record { event = none; feed = three_logs; done = false; fail = none })
    ≡ some (read_feed toy_unpack three_logs)
drain-read_feed_example = drain-read_feed toy_unpack 4 three_logs (omega arith)

abbrev labels : List (WatchLabel ℕ ℕ)
labels = log_comes 5 ∷ event_goes (event_of 4) ∷ log_comes 7 ∷ []

watched : WatchRun toy_unpack labels (forwarding (event_of 6))
unfolding parse_log
watched =
    continue_ (continue_ (continue_ begin (receive refl)) (forward (event_of 4))) (receive refl)

WatchRun-parsed_example :
    (rest : List (LogEvent ℕ ℕ)) × (received labels ++ rest ≡ parsed toy_unpack labels)
    × IsUnsent toy_unpack (forwarding (event_of 6)) rest
WatchRun-parsed_example = WatchRun-parsed toy_unpack watched

-- A contract is its address; the chain counts what is deployed.
abbrev toy_bind : BindPackage ℕ ℕ ℕ ℕ
toy_bind = record {
  get_abi = λ text. ok (some (length text));
  json = λ text. ok (length text);
  deploy_contract = λ auth parsed bin args sb. (
    ok (record { address = bin; tx = sb; contract = record { address = bin; abi = parsed } }),
    sb + 1,
  );
  transact = λ c auth method args sb. (ok (length args), sb);
  raw_transact = λ c auth sb. (ok 0, sb);
  transfer = λ c auth sb. (ok 0, sb);
  call = λ c opts method args sb. ok args;
  watch_logs = λ c event rules sb. ok tt;
}

abbrev deployer : TransactOpts ℕ
deployer = record { from = codes "d"; signer = 0; value = none }

abbrev erc20_meta : MetaData
erc20_meta = record { abi = codes "[]"; bin = codes "60" }

deploys :
    (c : Binding ℕ) × ((deploy_binding toy_bind erc20_meta deployer
        (codes "n" ∷ codes "s" ∷ [])
        7).0
      ≡ ok (codes "60", 7, c))
unfolding deploy_binding deploy
deploys = (_, refl)

same_contract :
    (auth : TransactOpts ℕ) (parsed : ℕ) (bin : Bytes) (args : List Bytes) (sb : ℕ)
    (d : Deployed ℕ ℕ)
    → (toy_bind.deploy_contract auth parsed bin args sb).0 ≡ ok d
    → d.contract ≡ record { address = d.address; abi = parsed }
same_contract auth parsed bin args sb d h =
    let same = ok-injective h in
    sym (ap (λ r. r.contract) same) ∙ ap (λ r. record { address = r.address; abi = parsed }) same

deploy_binding-new_binding_example :
    (contract_api toy_bind erc20_meta).new_binding (codes "60") ≡ ok deploys.0
deploy_binding-new_binding_example =
    deploy_binding-new_binding toy_bind (λ text parsed h. cc) same_contract erc20_meta deployer
      (codes "n" ∷ codes "s" ∷ []) 7 (codes "60") 7 deploys.0 deploys.1

-- The bound contract reads 0 as broken.
abbrev unpack_approval : Bound ℕ → Bytes → ℕ → ℕ × Option TestError
unpack_approval c event log = toy_unpack log

abbrev toy_logs : LogPackage ℕ ℕ ℕ ℕ ℕ
toy_logs = record {
  filter_logs = λ opts c event rules sb. ok (record { live = 5 ∷ []; ended = none; left = 7 ∷ [] });
  watch_logs = λ opts c event rules sb. ok tt;
}

abbrev token : Filterer ℕ
token = record { contract = record { address = codes "60"; abi = 2 } }

filtered :
    (it : EventIterator ℕ ℕ ℕ) × ((event_api toy_logs unpack_approval
          (codes "Approval")
          approval_rules).filter_event
        token 0
        ((codes "a" ∷ []), [])
        0
      ≡ ok it)
unfolding event_api
filtered = (_, refl)

abbrev all_labels : List (WatchLabel ℕ ℕ)
all_labels = log_comes 5 ∷ event_goes (event_of 4) ∷ log_comes 7 ∷ event_goes (event_of 6) ∷ []

watched_all :
    (event_api {Query = List Bytes × List Bytes} toy_logs unpack_approval
        (codes "Approval")
        approval_rules).WatchesEvent
      token all_labels receiving
unfolding event_api parse_log
watched_all = continue_ watched (forward (event_of 6))

filter_event-watch_example :
    drain_events toy_logs unpack_approval (codes "Approval") approval_rules 3 filtered.0
    ≡ some (some (event_of 4) ∷ some (event_of 6) ∷ [], none)
unfolding filtered incoming received
filter_event-watch_example =
    filter_event-watch toy_logs unpack_approval (codes "Approval") approval_rules token 0
      ((codes "a" ∷ []), []) 0 filtered.0 all_labels filtered.1 watched_all refl refl

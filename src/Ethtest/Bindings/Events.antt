-- ===== src/Ethtest/Bindings/Events.antt =====
-- The code that abigen writes for an event: `Filter…` and its iterator, `Watch…` and `Parse…`.
pub mod Laws
use ethier.Common.{Bool, List, Option, none, Bytes, Outcome, ok, ◌>>=◌}
use ethier.Ethtest.Errors.{TestError}
use ethier.Ethtest.Bindings.{Bound}
use ethier.Ethtest.Bindings.Contract.{Filterer}
use ethier.Ethtest.Bindings.Logs.{LogEvent, Feed, LogIterator, next, error, filter, parse_log}
use ethier.Ethtest.Bindings.Watch.{WatchPhase, WatchLabel, WatchRun}

-- A bound contract's `FilterLogs` and `WatchLogs`, with their options.
pub record LogPackage (FilterOpts WatchOpts Backend Abi Log : Type 0) : Type 0 where
  pub filter_logs :
      FilterOpts → Bound Abi → Bytes → List (List Bytes) → Backend → Outcome TestError (Feed Log)
  pub watch_logs :
      WatchOpts → Bound Abi → Bytes → List (List Bytes) → Backend → Outcome TestError (Unit {0})

-- An iterator with the contract and the event's name that it was made for.
pub record EventIterator (Abi Log Args : Type 0) : Type 0 where
  pub contract : Bound Abi
  pub event_name : Bytes
  pub state : LogIterator Log Args

-- The functions of one event. `Unsubscribe`, which `Close` calls, is go-ethereum's; what it does to
-- the feed is not part of the model.
pub record EventApi (FilterOpts WatchOpts Backend Abi Log Args Query : Type 0) : Type 1 where
  pub filter_event :
      Filterer Abi → FilterOpts → Query → Backend → Outcome TestError (EventIterator Abi Log Args)
  pub next_event : EventIterator Abi Log Args → Bool × EventIterator Abi Log Args
  pub iterator_error : EventIterator Abi Log Args → Option TestError
  pub close_iterator : EventIterator Abi Log Args → Option TestError
  pub watch_event : Filterer Abi → WatchOpts → Query → Backend → Outcome TestError (Unit {0})
  pub WatchesEvent : Filterer Abi → List (WatchLabel Log Args) → WatchPhase Log Args → Type 0
  pub parse_event : Filterer Abi → Log → Outcome TestError (LogEvent Log Args)

module _ {FilterOpts WatchOpts Backend Abi Log Args Query : Type 0}
    (package_ : LogPackage FilterOpts WatchOpts Backend Abi Log)
    (unpack_log : Bound Abi → Bytes → Log → Args × Option TestError) where
  -- For an event's name and the rules of its indexed arguments.
  unfoldable pub event_api :
      Bytes → (Query → List (List Bytes)) → EventApi FilterOpts WatchOpts Backend Abi Log Args Query
  unfolding next error filter parse_log
  event_api name rules = record {
    filter_event = λ f opts query backend.
        filter (λ c event topics. package_.filter_logs opts c event topics backend) f.contract name
          (rules query)
        >>= λ it. ok (record { contract = f.contract; event_name = name; state = it });
    next_event = λ it.
        let r = next (unpack_log it.contract it.event_name) it.state in
        (r.0, record it { state = r.1 });
    iterator_error = λ it. error it.state;
    close_iterator = λ it. none;
    watch_event =
        λ f opts query backend. package_.watch_logs opts f.contract name (rules query) backend;
    WatchesEvent = λ f. WatchRun (unpack_log f.contract name);
    parse_event = λ f. parse_log (unpack_log f.contract name);
  }

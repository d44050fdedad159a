-- ===== src/Ethtest/Bindings/Logs.antt =====
-- The logs of an event in the generated bindings: `Filter…` with its iterator, and `Parse…`. The
-- channel of logs and the subscription of go-ethereum are a feed: the logs that the iterator's
-- select takes before it sees the end, the end itself, and the logs that are left in the channel.
pub mod Laws
use ethier.Common.{
  Bool, true, false, codes, List, [], ◌∷◌, Option, none, some, Bytes, Outcome, ok, err, ◌>>=◌,
}
use ethier.Ethtest.Errors.{TestError}
use ethier.Ethtest.Bindings.{Bound, rule}

-- An event: its arguments, and `Raw` once it is set.
pub record LogEvent (Log Args : Type 0) : Type 0 where
  pub args : Args
  pub raw : Option Log

pub record Feed (Log : Type 0) : Type 0 where
  pub live : List Log
  pub ended : Option TestError
  pub left : List Log

-- An `…Iterator` with its feed.
pub record LogIterator (Log Args : Type 0) : Type 0 where
  pub event : Option (LogEvent Log Args)
  pub feed : Feed Log
  pub done : Bool
  pub fail : Option TestError

-- `UnpackLog`, which fills what it can before an error.
module _ {Log Args : Type 0} (unpack_log : Log → Args × Option TestError) where
  -- What `Next` does with a log, given the feed behind it.
  unfoldable pub take_log : Log → Feed Log → LogIterator Log Args → Bool × LogIterator Log Args
  take_log log feed it = elim (unpack_log log).1 [
    | some e ↦ (
      false,
      record it {
        event = some (record { args = (unpack_log log).0; raw = none });
        feed = feed;
        fail = some e;
      },
    )
    | none ↦ (
      true,
      record it {
        event = some (record { args = (unpack_log log).0; raw = some log });
        feed = feed;
      },
    )
  ]

  -- `Next` of an iterator that is done.
  unfoldable pub next_done : LogIterator Log Args → Bool × LogIterator Log Args
  unfolding take_log
  next_done it = elim it.fail [
    | some e ↦ (false, it)
    | none ↦ elim it.feed.left [
      | [] ↦ (false, it)
      | log ∷ logs ↦ take_log log (record it.feed { left = logs }) it
    ]
  ]

  -- `Next`; at the end of the subscription it calls itself, done.
  unfoldable pub next : LogIterator Log Args → Bool × LogIterator Log Args
  unfolding take_log next_done
  next it = elim it.fail [
    | some e ↦ (false, it)
    | none ↦ elim it.done [
      | true ↦ next_done it
      | false ↦ elim it.feed.live [
        | [] ↦ next_done (record it { done = true; fail = it.feed.ended })
        | log ∷ logs ↦ take_log log (record it.feed { live = logs }) it
      ]
    ]
  ]

  -- `Parse…`
  unfoldable pub parse_log : Log → Outcome TestError (LogEvent Log Args)
  parse_log log = elim (unpack_log log).1 [
    | some e ↦ err e
    | none ↦ ok (record { args = (unpack_log log).0; raw = some log })
  ]

-- `Error`
unfoldable pub error : {Log Args : Type 0} → LogIterator Log Args → Option TestError
error it = it.fail

-- `Filter…` of an event by its name and the rules of its indexed arguments; `filter_logs` is the
-- bound contract's `FilterLogs`.
unfoldable pub filter :
    {Abi Log Args : Type 0}
    → (Bound Abi → Bytes → List (List Bytes) → Outcome TestError (Feed Log))
    → Bound Abi
    → Bytes
    → List (List Bytes)
    → Outcome TestError (LogIterator Log Args)
filter filter_logs contract name rules = filter_logs contract name rules >>= λ feed.
    ok (record { event = none; feed = feed; done = false; fail = none })

-- `FilterRandomnessRequested`
unfoldable pub filter_randomness_requested :
    {Abi Log Args : Type 0}
    → (Bound Abi → Bytes → List (List Bytes) → Outcome TestError (Feed Log))
    → Bound Abi
    → List Bytes
    → Outcome TestError (LogIterator Log Args)
unfolding filter rule
filter_randomness_requested filter_logs contract by =
    filter filter_logs contract (codes "RandomnessRequested") (rule by ∷ [])

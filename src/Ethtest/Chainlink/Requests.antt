-- ===== src/Ethtest/Chainlink/Requests.antt =====
-- The coordinator with the subscription that feeds it: the goroutine of `WatchRandomnessRequested`
-- sends each event on the unbuffered channel `reqs`, from which the loop of `fulfill` receives.
pub mod Laws
mod Tests
use ethier.Common.{List, [], ◌∷◌, ◌++◌, Option, Bytes, Outcome}
use ethier.Ethtest.Errors.{TestError}
use ethier.Ethtest.Bindings.Logs.{LogEvent}
use ethier.Ethtest.Bindings.ChainlinkAbi.SimulatedLinkToken.{RandomnessRequested}
use ethier.Ethtest.Bindings.Watch.{WatchPhase, receiving, WatchLabel, event_goes, WatchStep}
use ethier.Ethtest.Chainlink.{Label, takes, World, Step}

abbrev pub RandomnessEvent : Type 0 → Type 0
RandomnessEvent Log = LogEvent Log RandomnessRequested

-- Both goroutines take part where an event is handed over; any other step is one of them alone. The
-- end of the subscription, or its being told to quit, may come at any time, so that there are more
-- runs here than go-ethereum's subscriptions have.
pub data JointLabel (Log Backend : Type 0) : Type 0 where
  hands : (event : RandomnessEvent Log) → JointLabel Log Backend
  watches : (l : WatchLabel Log RandomnessRequested) → JointLabel Log Backend
  serves : (l : Label Backend) → JointLabel Log Backend

-- Not the sending end of the channel.
unfoldable pub IsWatchOnly : {Log : Type 0} → WatchLabel Log RandomnessRequested → Type 0
IsWatchOnly (event_goes event) = ⊥
IsWatchOnly _ = Unit {0}

-- Not the receiving end.
unfoldable pub IsServeOnly : {Backend : Type 0} → Label Backend → Type 0
IsServeOnly (takes by) = ⊥
IsServeOnly _ = Unit {0}

module _ {Log Backend : Type 0} (unpack_log : Log → RandomnessRequested × Option TestError)
    (fulfill : Bytes → Backend → Outcome TestError (Unit {0}) × Backend) where
  pub data JointStep
      : WatchPhase Log RandomnessRequested
        → World Backend
        → JointLabel Log Backend
        → WatchPhase Log RandomnessRequested
        → World Backend
        → Type 0 where
    hand :
        {p q : WatchPhase Log RandomnessRequested} {v w : World Backend}
        (event : RandomnessEvent Log)
        → WatchStep unpack_log p (event_goes event) q
        → Step fulfill v (takes event.args.by) w
        → JointStep p v (hands event) q w
    watch :
        {p q : WatchPhase Log RandomnessRequested} {l : WatchLabel Log RandomnessRequested}
        {v : World Backend}
        → IsWatchOnly l
        → WatchStep unpack_log p l q
        → JointStep p v (watches l) q v
    serve_alone :
        {p : WatchPhase Log RandomnessRequested} {v w : World Backend} {l : Label Backend}
        → IsServeOnly l
        → Step fulfill v l w
        → JointStep p v (serves l) p w

  -- From the start of both.
  pub data JointRun (w : World Backend)
      : List (JointLabel Log Backend)
        → WatchPhase Log RandomnessRequested
        → World Backend
        → Type 0 where
    both_start : JointRun w [] receiving w
    both_next :
        {p q : WatchPhase Log RandomnessRequested} {u v : World Backend}
        {ls : List (JointLabel Log Backend)} {l : JointLabel Log Backend}
        → JointRun w ls p u
        → JointStep p u l q v
        → JointRun w (ls ++ l ∷ []) q v

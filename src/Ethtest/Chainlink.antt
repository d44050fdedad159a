-- ===== src/Ethtest/Chainlink.antt =====
-- ethtest/chainlinktest/chainlinktest.go: the loop of the VRF coordinator, which answers requests
-- for randomness, as steps of a goroutine between the other ones. The contracts and the chain are
-- parameters: `fulfill` is the call of the coordinator's contract.
pub mod Laws
pub mod Ending
pub mod Release
pub mod Requests
pub mod Deploy
mod Tests
use ethier.Common.{
  Bool, true, false, List, [], ◌∷◌, ◌++◌, Option, none, some, ◌≡◌, ◌≢◌, Bytes, codes, if◌then◌else◌,
  Outcome, ok, err, panics,
}
use ethier.Ethtest.Errors.{TestError, external, wrapped}

-- Where the goroutine of `fulfill` stands: at the select, at a send of a result that waits for a
-- receiver, at one of the deferred calls, or at its end.
pub data Phase : Type 0 where
  selecting : Phase
  sending : (result : Outcome TestError (Unit {0})) → Phase
  unsubscribing closing_reqs closing_fulfilled closing_done stopped : Phase

-- A `VRFCoordinator`. The channels `quit` and `done` are only ever closed.
pub record Coordinator : Type 0 where
  pub phase : Phase
  pub err : Option TestError
  pub subscribed : Bool
  pub reqs_open : Bool
  pub fulfilled_open : Bool
  pub quit_open : Bool
  pub done_open : Bool

-- `newVRFCoordinator`, once the subscription stands.
abbrev pub new_coordinator : Coordinator
new_coordinator = record {
  phase = Phase.selecting;
  err = none;
  subscribed = true;
  reqs_open = true;
  fulfilled_open = true;
  quit_open = true;
  done_open = true;
}

-- `c.err = fmt.Errorf(…)` on the first error; an error channel that is closed gives nil.
unfoldable pub keep_first : Option TestError → Option TestError → Option TestError
keep_first (some first) e = some first
keep_first none (some e) = some (wrapped (codes "Err") e)
keep_first none none = some (wrapped (codes "Err") (external []))

-- What happens to the coordinator and beside it. `takes` and `delivers` are the two ends of the
-- channels `reqs` and `fulfilled`, `elsewhere` is a change of the backend by another goroutine.
pub data Label (Backend : Type 0) : Type 0 where
  quits ends closes : Label Backend
  fails : (e : Option TestError) → Label Backend
  takes : (by : Bytes) → Label Backend
  delivers : (result : Outcome TestError (Unit {0})) → Label Backend
  elsewhere : (change : Backend → Backend) → Label Backend

-- The coordinator and the backend.
pub record World (Backend : Type 0) : Type 0 where
  pub coordinator : Coordinator
  pub backend : Backend

-- `fulfill` is what `c.fulfilled <-` evaluates for the request of an address.
module _ {Backend : Type 0}
    (fulfill : Bytes → Backend → Outcome TestError (Unit {0}) × Backend) where
  -- The deferred calls, one at a time.
  pub data Ends (c : Coordinator) : Coordinator → Type 0 where
    unsubscribe :
        c.phase ≡ Phase.unsubscribing
        → Ends c (record c { phase = Phase.closing_reqs; subscribed = false })
    close_reqs :
        c.phase ≡ Phase.closing_reqs
        → Ends c (record c { phase = Phase.closing_fulfilled; reqs_open = false })
    close_fulfilled :
        c.phase ≡ Phase.closing_fulfilled
        → Ends c (record c { phase = Phase.closing_done; fulfilled_open = false })
    close_done :
        c.phase ≡ Phase.closing_done
        → Ends c (record c { phase = Phase.stopped; done_open = false })

  pub data Step (w : World Backend) : Label Backend → World Backend → Type 0 where
    -- `case <-c.quit`
    quit :
        w.coordinator.phase ≡ Phase.selecting
        → w.coordinator.quit_open ≡ false
        → Step w quits
            (record w { coordinator = record w.coordinator { phase = Phase.unsubscribing } })
    -- `case err := <-c.sub.Err()`
    fail :
        (e : Option TestError)
        → w.coordinator.phase ≡ Phase.selecting
        → Step w (fails e) (record w {
          coordinator = record w.coordinator { err = keep_first w.coordinator.err e };
        })
    -- `case req := <-c.reqs`, up to the send; a panic of the call would end the program.
    take :
        (by : Bytes) (result : Outcome TestError (Unit {0})) (after : Backend)
        → w.coordinator.phase ≡ Phase.selecting
        → fulfill by w.backend ≡ (result, after)
        → result ≢ panics
        → Step w (takes by) (record {
          coordinator = record w.coordinator { phase = Phase.sending result };
          backend = after;
        })
    -- `WaitFulfilled` receives.
    deliver :
        (result : Outcome TestError (Unit {0}))
        → w.coordinator.phase ≡ Phase.sending result
        → Step w
            (delivers result)
            (record w { coordinator = record w.coordinator { phase = Phase.selecting } })
    end : {c : Coordinator} → Ends w.coordinator c → Step w ends (record w { coordinator = c })
    -- The first statement of `Close`; closing `quit` twice would panic.
    close :
        w.coordinator.quit_open ≡ true
        → Step w closes (record w { coordinator = record w.coordinator { quit_open = false } })
    other :
        (change : Backend → Backend)
        → Step w (elsewhere change) (record w { backend = change w.backend })

  pub data Run (w : World Backend) : List (Label Backend) → World Backend → Type 0 where
    start : Run w [] w
    next :
        {u v : World Backend} {ls : List (Label Backend)} {l : Label Backend}
        → Run w ls u
        → Step u l v
        → Run w (ls ++ l ∷ []) v

-- `Close` returns once `done` is closed, with the first error.
unfoldable pub close_result : Coordinator → Option (Option TestError)
close_result c = if c.done_open then none else some c.err

-- `WaitFulfilled` on a closed channel receives nil.
unfoldable pub wait_fulfilled : Coordinator → Option (Outcome TestError (Unit {0}))
wait_fulfilled c = elim c.phase [
  | Phase.sending result ↦ some result
  | _ ↦ if c.fulfilled_open then none else some (ok tt)
]

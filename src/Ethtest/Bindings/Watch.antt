-- ===== src/Ethtest/Bindings/Watch.antt =====
-- The subscription of an event in the generated bindings, `Watch…`: a goroutine that forwards parsed
-- logs to the caller's channel, as steps between those of other goroutines.
pub mod Laws
use ethier.Common.{List, [], ◌∷◌, ◌++◌, Option, none, some, ◌≡◌, ok, err}
use ethier.Ethtest.Errors.{TestError}
use ethier.Ethtest.Bindings.Logs.{LogEvent, parse_log}

-- At the outer select, at the inner one with an event, or returned.
pub data WatchPhase (Log Args : Type 0) : Type 0 where
  receiving : WatchPhase Log Args
  forwarding : (event : LogEvent Log Args) → WatchPhase Log Args
  returned : (result : Option TestError) → WatchPhase Log Args

-- A log comes from the contract, an event goes to the caller, the subscription reports its error or
-- its end, or the caller quits.
pub data WatchLabel (Log Args : Type 0) : Type 0 where
  log_comes : (log : Log) → WatchLabel Log Args
  event_goes : (event : LogEvent Log Args) → WatchLabel Log Args
  sub_ends : (e : Option TestError) → WatchLabel Log Args
  quit_comes : WatchLabel Log Args

module _ {Log Args : Type 0} (unpack_log : Log → Args × Option TestError) where
  -- The function that `event.NewSubscription` runs.
  pub data WatchStep
      : WatchPhase Log Args → WatchLabel Log Args → WatchPhase Log Args → Type 0 where
    receive :
        {log : Log} {event : LogEvent Log Args}
        → parse_log unpack_log log ≡ ok event
        → WatchStep receiving (log_comes log) (forwarding event)
    refuse :
        {log : Log} {e : TestError}
        → parse_log unpack_log log ≡ err e
        → WatchStep receiving (log_comes log) (returned (some e))
    outer_end : (e : Option TestError) → WatchStep receiving (sub_ends e) (returned e)
    outer_quit : WatchStep receiving quit_comes (returned none)
    forward :
        (event : LogEvent Log Args) → WatchStep (forwarding event) (event_goes event) receiving
    inner_end :
        (event : LogEvent Log Args) (e : Option TestError)
        → WatchStep (forwarding event) (sub_ends e) (returned e)
    inner_quit :
        (event : LogEvent Log Args) → WatchStep (forwarding event) quit_comes (returned none)

  pub data WatchRun : List (WatchLabel Log Args) → WatchPhase Log Args → Type 0 where
    begin : WatchRun [] receiving
    continue_ :
        {p q : WatchPhase Log Args} {ls : List (WatchLabel Log Args)} {l : WatchLabel Log Args}
        → WatchRun ls p
        → WatchStep p l q
        → WatchRun (ls ++ l ∷ []) q

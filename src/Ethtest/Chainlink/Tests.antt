-- ===== src/Ethtest/Chainlink/Tests.antt =====
-- Runs of the VRF coordinator, and its theorems at concrete inputs.
use ethier.Common.{false, List, [], ◌∷◌, ◌++◌, Option, none, some, ◌≡◌, refl, Bytes, codes, ok}
use ethier.Ethtest.Errors.{TestError, external, wrapped}
use ethier.Ethtest.Chainlink.{
  sending, stopped, unsubscribe, close_reqs, close_fulfilled, close_done, end, new_coordinator,
  Label, quits, ends, closes, fails, takes, elsewhere, World, keep_first, quit, fail, take, close,
  other, Run, start, next, close_result,
}
use ethier.Ethtest.Chainlink.Laws.{Result, delivered, pending, serve, Run-serve}
use ethier.Ethtest.Chainlink.Ending.{first_failure, Run-close_result}
use ethier.Ethtest.Chainlink.Release.{Run-released, Run-ends}

-- A toy contract: the backend is the list of the addresses that it answered.
abbrev toy_fulfill : Bytes → List Bytes → Result × List Bytes
toy_fulfill by b = (ok tt, by ∷ b)

abbrev alice : Bytes
alice = codes "alice"

abbrev at_start : World (List Bytes)
at_start = record { coordinator = new_coordinator; backend = [] }

abbrev waiting : World (List Bytes)
waiting = record {
  coordinator = record new_coordinator { phase = sending (ok tt) };
  backend = alice ∷ [];
}

-- A request is taken, and another goroutine changes the backend meanwhile.
abbrev labels : List (Label (List Bytes))
labels = takes alice ∷ elsewhere (codes "x" ∷◌) ∷ []

abbrev after : World (List Bytes)
after = record waiting { backend = codes "x" ∷ alice ∷ [] }

request : Run toy_fulfill at_start labels after
request =
    next (next start (take alice (ok tt) (alice ∷ []) refl refl (λ h. absurd (cc))))
      (other (codes "x" ∷◌))

Run-serve_example :
    (delivered labels ++ pending (sending (ok tt)) ≡ (serve toy_fulfill [] labels).0)
    × (codes "x" ∷ alice ∷ [] ≡ (serve toy_fulfill [] labels).1)
Run-serve_example = Run-serve toy_fulfill request refl

abbrev broken : Option TestError
broken = some (external (codes "eof"))

abbrev failed_twice : World (List Bytes)
failed_twice = record at_start {
  coordinator = record new_coordinator {
    err = some (wrapped (codes "Err") (external (codes "eof")));
  };
}

failures : Run toy_fulfill at_start (fails broken ∷ fails none ∷ []) failed_twice
unfolding keep_first
failures = next (next start (fail broken refl)) (fail none refl)

closing :
    Run toy_fulfill waiting
      (closes ∷ [])
      (record waiting { coordinator = record waiting.coordinator { quit_open = false } })
closing = next start (close refl)

Run-close_result_example :
    close_result (record new_coordinator { phase = sending (ok tt); quit_open = false }) ≡ none
unfolding delivered
Run-close_result_example = Run-close_result toy_fulfill (ok tt) closing refl refl refl

abbrev told : World (List Bytes)
told = record at_start { coordinator = record new_coordinator { quit_open = false } }

Run-ends_example :
    (v : World (List Bytes)) × Run toy_fulfill told (quits ∷ ends ∷ ends ∷ ends ∷ ends ∷ []) v
    × (close_result v.coordinator ≡ some none)
Run-ends_example = Run-ends toy_fulfill told refl refl

abbrev ended : World (List Bytes)
ended = record at_start {
  coordinator = record {
    phase = stopped;
    err = none;
    subscribed = false;
    reqs_open = false;
    fulfilled_open = false;
    quit_open = false;
    done_open = false;
  };
}

closed_down : Run toy_fulfill at_start (closes ∷ quits ∷ ends ∷ ends ∷ ends ∷ ends ∷ []) ended
closed_down =
    next
      (next
        (next (next (next (next start (close refl)) (quit refl refl)) (end (unsubscribe refl)))
          (end (close_reqs refl)))
        (end (close_fulfilled refl)))
      (end (close_done refl))

Run-released_example :
    (ended.coordinator.subscribed ≡ false)
    × (ended.coordinator.reqs_open ≡ false)
    × (ended.coordinator.fulfilled_open ≡ false)
    × (none ≡ first_failure {B = List Bytes} (closes ∷ quits ∷ ends ∷ ends ∷ ends ∷ ends ∷ []))
unfolding close_result
Run-released_example = Run-released toy_fulfill none closed_down refl refl

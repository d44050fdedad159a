-- ===== src/Ethtest/Chainlink/Requests/Tests.antt =====
-- A run of the coordinator with its subscription: two logs come, one request is answered.
use ethier.Common.{List, [], ◌∷◌, ◌++◌, Option, none, some, ◌≡◌, refl, Bytes, codes, ok}
use ethier.Ethtest.Errors.{TestError, external}
use ethier.Ethtest.Bindings.ChainlinkAbi.SimulatedLinkToken.{RandomnessRequested}
use ethier.Ethtest.Bindings.Logs.{parse_log}
use ethier.Ethtest.Bindings.Watch.{forwarding, log_comes, receive, forward}
use ethier.Ethtest.Bindings.Watch.Laws.{parsed, IsUnsent}
use ethier.Ethtest.Chainlink.{selecting, new_coordinator, delivers, World, take, deliver}
use ethier.Ethtest.Chainlink.Laws.{Result, delivered, pending, serve}
use ethier.Ethtest.Chainlink.Requests.{
  RandomnessEvent, JointLabel, hands, watches, serves, IsWatchOnly, IsServeOnly, hand, watch,
  serve_alone, JointRun, both_start, both_next,
}
use ethier.Ethtest.Chainlink.Requests.Laws.{
  watch_labels, serve_labels, requests, asked, JointRun-serve,
}

-- A log is the address that asks, and the empty one cannot be unpacked.
abbrev toy_unpack : Bytes → RandomnessRequested × Option TestError
toy_unpack [] = (record { by = [] }, some (external (codes "bad topic")))
toy_unpack (b ∷ bs) = (record { by = b ∷ bs }, none)

abbrev toy_fulfill : Bytes → List Bytes → Result × List Bytes
toy_fulfill by b = (ok tt, by ∷ b)

abbrev alice : Bytes
alice = 97 ∷ []

abbrev bob : Bytes
bob = 98 ∷ []

abbrev request_of : Bytes → RandomnessEvent Bytes
request_of by = record { args = record { by = by }; raw = some by }

abbrev at_start : World (List Bytes)
at_start = record { coordinator = new_coordinator; backend = [] }

abbrev answered : World (List Bytes)
answered = record { coordinator = new_coordinator; backend = alice ∷ [] }

abbrev joint_labels : List (JointLabel Bytes (List Bytes))
joint_labels =
    watches (log_comes alice)
    ∷ hands (request_of alice)
    ∷ watches (log_comes bob)
    ∷ serves (delivers (ok tt))
    ∷ []

joint_run :
    JointRun toy_unpack toy_fulfill at_start joint_labels (forwarding (request_of bob)) answered
unfolding parse_log IsWatchOnly IsServeOnly
joint_run =
    both_next
      (both_next
        (both_next (both_next both_start (watch tt (receive refl))) (
          hand (request_of alice) (forward (request_of alice))
            (take alice (ok tt) (alice ∷ []) refl refl (λ h. absurd (cc)))))
        (watch tt (receive refl)))
      (serve_alone tt (deliver (ok tt) refl))

JointRun-serve_example :
    (rest : List (RandomnessEvent Bytes)) × (requests (serve_labels joint_labels) ++ asked rest
      ≡ asked (parsed toy_unpack (watch_labels joint_labels)))
    × IsUnsent toy_unpack (forwarding (request_of bob)) rest
    × (delivered (serve_labels joint_labels) ++ pending selecting
        ≡ (serve toy_fulfill [] (serve_labels joint_labels)).0)
    × (alice ∷ [] ≡ (serve toy_fulfill [] (serve_labels joint_labels)).1)
JointRun-serve_example = JointRun-serve toy_unpack toy_fulfill joint_run refl

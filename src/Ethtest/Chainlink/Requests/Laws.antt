-- ===== src/Ethtest/Chainlink/Requests/Laws.antt =====
-- From the logs of the link token to the answers of the coordinator.
use ethier.Common.{
  List, [], ◌∷◌, ◌++◌, map, append-nil, Option, ◌≡◌, refl, sym, ap, ap₂, subst, ◌∙◌, Bytes, Outcome,
}
use ethier.Ethtest.Errors.{TestError}
use ethier.Ethtest.Bindings.ChainlinkAbi.SimulatedLinkToken.{RandomnessRequested}
use ethier.Ethtest.Bindings.Watch.{
  WatchPhase, WatchLabel, log_comes, event_goes, sub_ends, quit_comes, WatchRun, begin, continue_,
}
use ethier.Ethtest.Bindings.Watch.Laws.{
  received, received-append, parsed, IsUnsent, WatchRun-parsed,
}
use ethier.Ethtest.Chainlink.{
  Label, takes, quits, ends, closes, fails, delivers, elsewhere, World, selecting, Run, start, next,
}
use ethier.Ethtest.Chainlink.Laws.{delivered, pending, serve, Run-serve}
use ethier.Ethtest.Chainlink.Requests.{
  RandomnessEvent, JointLabel, hands, watches, serves, IsWatchOnly, IsServeOnly, JointStep, hand,
  watch, serve_alone, JointRun, both_start, both_next,
}

module _ {Backend : Type 0} where
  -- The addresses whose requests the coordinator took.
  pub requests : List (Label Backend) → List Bytes
  requests [] = []
  requests (takes by ∷ ls) = by ∷ requests ls
  requests (_ ∷ ls) = requests ls

  requests-append :
      (ls ms : List (Label Backend)) → requests (ls ++ ms) ≡ requests ls ++ requests ms
  unfolding requests
  requests-append [] ms = refl
  requests-append (takes by ∷ ls) ms = ap (by ∷◌) (requests-append ls ms)
  requests-append (quits ∷ ls) ms = requests-append ls ms
  requests-append (ends ∷ ls) ms = requests-append ls ms
  requests-append (closes ∷ ls) ms = requests-append ls ms
  requests-append (fails e ∷ ls) ms = requests-append ls ms
  requests-append (delivers r ∷ ls) ms = requests-append ls ms
  requests-append (elsewhere f ∷ ls) ms = requests-append ls ms

module _ {Log Backend : Type 0} where
  -- What the subscription does, and what the coordinator does.
  pub watch_labels : List (JointLabel Log Backend) → List (WatchLabel Log RandomnessRequested)
  watch_labels [] = []
  watch_labels (hands event ∷ ls) = event_goes event ∷ watch_labels ls
  watch_labels (watches l ∷ ls) = l ∷ watch_labels ls
  watch_labels (serves l ∷ ls) = watch_labels ls

  pub serve_labels : List (JointLabel Log Backend) → List (Label Backend)
  serve_labels [] = []
  serve_labels (hands event ∷ ls) = takes event.args.by ∷ serve_labels ls
  serve_labels (watches l ∷ ls) = serve_labels ls
  serve_labels (serves l ∷ ls) = l ∷ serve_labels ls

  watch_labels-append :
      (ls ms : List (JointLabel Log Backend))
      → watch_labels (ls ++ ms) ≡ watch_labels ls ++ watch_labels ms
  unfolding watch_labels
  watch_labels-append [] ms = refl
  watch_labels-append (hands event ∷ ls) ms = ap (event_goes event ∷◌) (watch_labels-append ls ms)
  watch_labels-append (watches l ∷ ls) ms = ap (l ∷◌) (watch_labels-append ls ms)
  watch_labels-append (serves l ∷ ls) ms = watch_labels-append ls ms

  serve_labels-append :
      (ls ms : List (JointLabel Log Backend))
      → serve_labels (ls ++ ms) ≡ serve_labels ls ++ serve_labels ms
  unfolding serve_labels
  serve_labels-append [] ms = refl
  serve_labels-append (hands event ∷ ls) ms =
      ap (takes event.args.by ∷◌) (serve_labels-append ls ms)
  serve_labels-append (watches l ∷ ls) ms = serve_labels-append ls ms
  serve_labels-append (serves l ∷ ls) ms = ap (l ∷◌) (serve_labels-append ls ms)

-- The addresses that the events name.
pub asked : {Log : Type 0} → List (RandomnessEvent Log) → List Bytes
asked events = map (λ event. event.args.by) events

asked-append :
    {Log : Type 0} (events more : List (RandomnessEvent Log))
    → asked (events ++ more) ≡ asked events ++ asked more
unfolding asked
asked-append [] more = refl
asked-append (event ∷ events) more = ap (event.args.by ∷◌) (asked-append events more)

module _ {Log Backend : Type 0} (unpack_log : Log → RandomnessRequested × Option TestError)
    (fulfill : Bytes → Backend → Outcome TestError (Unit {0}) × Backend) where
  JointStep-WatchRun :
      {p q : WatchPhase Log RandomnessRequested} {u v : World Backend} {l : JointLabel Log Backend}
      {ms : List (WatchLabel Log RandomnessRequested)}
      → WatchRun unpack_log ms p
      → JointStep unpack_log fulfill p u l q v
      → WatchRun unpack_log (ms ++ watch_labels (l ∷ [])) q
  unfolding watch_labels
  JointStep-WatchRun run (hand event sends takes_) = continue_ run sends
  JointStep-WatchRun run (watch only step) = continue_ run step
  JointStep-WatchRun {p} {ms} run (serve_alone only step) =
      subst (λ ns. WatchRun unpack_log ns p) (sym (append-nil ms)) run

  JointStep-Run :
      {p q : WatchPhase Log RandomnessRequested} {w u v : World Backend}
      {l : JointLabel Log Backend} {ms : List (Label Backend)}
      → Run fulfill w ms u
      → JointStep unpack_log fulfill p u l q v
      → Run fulfill w (ms ++ serve_labels (l ∷ [])) v
  unfolding serve_labels
  JointStep-Run run (hand event sends takes_) = next run takes_
  JointStep-Run {w} {u} {ms} run (watch only step) =
      subst (λ ns. Run fulfill w ns u) (sym (append-nil ms)) run
  JointStep-Run run (serve_alone only step) = next run step

  JointRun-parts :
      {w v : World Backend} {ls : List (JointLabel Log Backend)}
      {p : WatchPhase Log RandomnessRequested}
      → JointRun unpack_log fulfill w ls p v
      → WatchRun unpack_log (watch_labels ls) p × Run fulfill w (serve_labels ls) v
  unfolding watch_labels serve_labels
  JointRun-parts both_start = (begin, start)
  JointRun-parts {w} {v} {p} (both_next {ls = before} {l} run step) =
      let (watched, served) = JointRun-parts run in
      (
        subst (λ ms. WatchRun unpack_log ms p) (sym (watch_labels-append before (l ∷ [])))
            (JointStep-WatchRun watched step),
        subst (λ ms. Run fulfill w ms v) (sym (serve_labels-append before (l ∷ [])))
            (JointStep-Run served step),
      )

  JointStep-requests :
      {p q : WatchPhase Log RandomnessRequested} {u v : World Backend} {l : JointLabel Log Backend}
      → JointStep unpack_log fulfill p u l q v
      → requests (serve_labels (l ∷ [])) ≡ asked (received (watch_labels (l ∷ [])))
  unfolding watch_labels serve_labels requests received asked IsWatchOnly IsServeOnly
  JointStep-requests (hand event sends takes_) = refl
  JointStep-requests (watch {l = log_comes log} only step) = refl
  JointStep-requests (watch {l = event_goes event} only step) = elim only [ ]
  JointStep-requests (watch {l = sub_ends e} only step) = refl
  JointStep-requests (watch {l = quit_comes} only step) = refl
  JointStep-requests (serve_alone {l = takes by} only step) = elim only [ ]
  JointStep-requests (serve_alone {l = quits} only step) = refl
  JointStep-requests (serve_alone {l = ends} only step) = refl
  JointStep-requests (serve_alone {l = closes} only step) = refl
  JointStep-requests (serve_alone {l = fails e} only step) = refl
  JointStep-requests (serve_alone {l = delivers r} only step) = refl
  JointStep-requests (serve_alone {l = elsewhere f} only step) = refl

  -- The requests that were taken are those of the events that were sent.
  JointRun-requests :
      {w v : World Backend} {ls : List (JointLabel Log Backend)}
      {p : WatchPhase Log RandomnessRequested}
      → JointRun unpack_log fulfill w ls p v
      → requests (serve_labels ls) ≡ asked (received (watch_labels ls))
  unfolding requests received asked watch_labels serve_labels
  JointRun-requests both_start = refl
  JointRun-requests (both_next {ls = before} {l} run step) =
      let last = l ∷ [] in
      ap requests (serve_labels-append before last)
      ∙ requests-append (serve_labels before) (serve_labels last)
      ∙ ap₂ (λ xs ys. xs ++ ys) (JointRun-requests run) (JointStep-requests step)
      ∙ sym (asked-append (received (watch_labels before)) (received (watch_labels last)))
      ∙ ap asked (sym (received-append unpack_log (watch_labels before) (watch_labels last)))
      ∙ ap (λ ms. asked (received ms)) (sym (watch_labels-append before last))

  -- The goroutine of WatchRandomnessRequested and the coordinator's loop, in every interleaving
  -- from the start of the one and from a select of the other, where an event is handed over when
  -- both are ready: the addresses that were served, and then those of what is unsent, are those of
  -- the logs that came, parsed, in their order, with nothing unsent at the outer select of the one,
  -- the event at hand at its inner select and one event at most where it ended; the results that
  -- were received, the one that waits, and the backend are those of serving these addresses one
  -- after the other, between the other changes of the backend.
  pub JointRun-serve :
      {w v : World Backend} {ls : List (JointLabel Log Backend)}
      {p : WatchPhase Log RandomnessRequested}
      → JointRun unpack_log fulfill w ls p v
      → w.coordinator.phase ≡ selecting
      → (rest : List (RandomnessEvent Log)) × (requests (serve_labels ls) ++ asked rest
          ≡ asked (parsed unpack_log (watch_labels ls)))
        × IsUnsent unpack_log p rest
        × (delivered (serve_labels ls) ++ pending v.coordinator.phase
            ≡ (serve fulfill w.backend (serve_labels ls)).0)
        × (v.backend ≡ (serve fulfill w.backend (serve_labels ls)).1)
  JointRun-serve {ls} run h =
      let (watched, served) = JointRun-parts run in
      let (rest, whole, unsent) = WatchRun-parsed unpack_log watched in
      let (results, backend) = Run-serve fulfill served h in
      (
        rest,
        ap (◌++ asked rest) (JointRun-requests run)
            ∙ sym (asked-append (received (watch_labels ls)) rest)
            ∙ ap asked whole,
        unsent,
        results,
        backend,
      )

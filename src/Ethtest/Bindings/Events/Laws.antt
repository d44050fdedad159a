-- ===== src/Ethtest/Bindings/Events/Laws.antt =====
-- One who filters an event's logs and one who watches them.
use ethier.Common.{
  Bool, true, false, ℕ, zero, suc, List, [], ◌∷◌, ◌++◌, map, Option, none, some, ◌≡◌, refl, sym, ap,
  ◌∙◌, Bytes, ok, err, panics, bind-ok, ok-injective, length, length-append, append-nil, arith,
}
use ethier.Ethtest.Errors.{TestError}
use ethier.Ethtest.Bindings.{Bound}
use ethier.Ethtest.Bindings.Contract.{Filterer}
use ethier.Ethtest.Bindings.Logs.{LogEvent, Feed, LogIterator, filter, next, parse_log}
use ethier.Ethtest.Bindings.Logs.Laws.{drain, collect, parse_all, read_feed, drain-read_feed}
use ethier.Ethtest.Bindings.Watch.{
  WatchPhase, receiving, returned, WatchLabel, log_comes, event_goes, sub_ends, quit_comes,
  WatchStep, receive, refuse, outer_end, outer_quit, forward, inner_end, inner_quit, WatchRun,
  begin, continue_,
}
use ethier.Ethtest.Bindings.Watch.Laws.{received, parsed, parsed-append, IsUnsent, WatchRun-parsed}
use ethier.Ethtest.Bindings.Events.{LogPackage, EventIterator, event_api}

-- The logs that came.
unfoldable pub incoming : {Log Args : Type 0} → List (WatchLabel Log Args) → List Log
incoming [] = []
incoming (log_comes log ∷ ls) = log ∷ incoming ls
incoming (_ ∷ ls) = incoming ls

incoming-append :
    {Log Args : Type 0} (ls ms : List (WatchLabel Log Args))
    → incoming (ls ++ ms) ≡ incoming ls ++ incoming ms
unfolding incoming
incoming-append [] ms = refl
incoming-append (log_comes log ∷ ls) ms = ap (log ∷◌) (incoming-append ls ms)
incoming-append (event_goes event ∷ ls) ms = incoming-append ls ms
incoming-append (sub_ends e ∷ ls) ms = incoming-append ls ms
incoming-append (quit_comes ∷ ls) ms = incoming-append ls ms

-- Neither select has left the loop.
IsGoing : {Log Args : Type 0} → WatchPhase Log Args → Type 0
IsGoing (returned result) = ⊥
IsGoing _ = Unit {0}

abbrev Read : Type 0 → Type 0 → Type 0
Read Log Args = List (Option (LogEvent Log Args)) × Option TestError

-- Events in front of what a reader gets.
behind_events : {Log Args : Type 0} → List (LogEvent Log Args) → Read Log Args → Read Log Args
behind_events events r = (map some events ++ r.0, r.1)

behind_events-append :
    {Log Args : Type 0} (events more : List (LogEvent Log Args)) (r : Read Log Args)
    → behind_events events (behind_events more r) ≡ behind_events (events ++ more) r
unfolding behind_events
behind_events-append [] more r = refl
behind_events-append (event ∷ events) more r =
    ap (λ t. (some event ∷ t.0, t.1)) (behind_events-append events more r)

module _ {Log Args : Type 0} (unpack_log : Log → Args × Option TestError) where
  parse_all-append :
      (logs more : List Log) (r : Read Log Args)
      → parse_all unpack_log (logs ++ more) r
        ≡ parse_all unpack_log logs (parse_all unpack_log more r)
  unfolding parse_all
  parse_all-append [] more r = refl
  parse_all-append (log ∷ logs) more r =
      ap
        (λ (rest : Read Log Args). elim (parse_log unpack_log log) as (λ x. Read Log Args) [
          | ok event ↦ (some event ∷ rest.0, rest.1)
          | err e ↦ ([], some e)
          | panics ↦ ([], none)
        ])
        (parse_all-append logs more r)

  WatchStep-parse_all :
      {p q : WatchPhase Log Args} {l : WatchLabel Log Args} (r : Read Log Args)
      → WatchStep unpack_log p l q
      → IsGoing q
      → IsGoing p
        × (parse_all unpack_log (incoming (l ∷ [])) r
            ≡ behind_events (parsed unpack_log (l ∷ [])) r)
  unfolding parse_all incoming parsed behind_events IsGoing
  WatchStep-parse_all r (receive {event} h) going = (tt, rw (parse_all, parsed, h))
  WatchStep-parse_all r (refuse h) going = elim going [ ]
  WatchStep-parse_all r (outer_end e) going = elim going [ ]
  WatchStep-parse_all r outer_quit going = elim going [ ]
  WatchStep-parse_all r (forward event) going = (tt, refl)
  WatchStep-parse_all r (inner_end event e) going = elim going [ ]
  WatchStep-parse_all r (inner_quit event) going = elim going [ ]

  -- What came can be read while the goroutine is in its loop.
  WatchRun-parse_all :
      {ls : List (WatchLabel Log Args)} {p : WatchPhase Log Args} (r : Read Log Args)
      → WatchRun unpack_log ls p
      → IsGoing p
      → parse_all unpack_log (incoming ls) r ≡ behind_events (parsed unpack_log ls) r
  unfolding parse_all incoming parsed behind_events
  WatchRun-parse_all r begin going = refl
  WatchRun-parse_all r (continue_ {ls = before} {l} run step) going =
      let (goes, one) = WatchStep-parse_all r step going in
      let all = WatchRun-parse_all (behind_events (parsed unpack_log (l ∷ [])) r) run goes in
      ap (λ logs. parse_all unpack_log logs r) (incoming-append before (l ∷ []))
      ∙ parse_all-append (incoming before) (incoming (l ∷ [])) r
      ∙ ap (parse_all unpack_log (incoming before)) one
      ∙ all
      ∙ behind_events-append (parsed unpack_log before) (parsed unpack_log (l ∷ [])) r
      ∙ ap (λ events. behind_events events r) (sym (parsed-append unpack_log before (l ∷ [])))

  -- A feed of the logs that a goroutine in its loop forwarded.
  read_feed-received :
      (ls : List (WatchLabel Log Args)) (feed : Feed Log)
      → WatchRun unpack_log ls receiving
      → incoming ls ≡ feed.live ++ feed.left
      → feed.ended ≡ none
      → read_feed unpack_log feed ≡ (map some (received ls), none)
  unfolding read_feed behind_events IsGoing IsUnsent
  read_feed-received ls feed run same well =
      let (rest, whole, unsent) = WatchRun-parsed unpack_log run in
      let all : received ls ≡ parsed unpack_log ls =
        sym (append-nil (received ls)) ∙ ap (received ls ++◌) (sym unsent) ∙ whole in
      rw well (
        sym (parse_all-append feed.live feed.left ([], none))
        ∙ ap (λ logs. parse_all unpack_log logs ([], none)) (sym same)
        ∙ WatchRun-parse_all ([], none) run tt
        ∙ ap (λ events. (events, none)) (append-nil (map some (parsed unpack_log ls)))
        ∙ ap (λ events. (map some events, none)) (sym all))

module _ {FilterOpts WatchOpts Backend Abi Log Args Query : Type 0}
    (package_ : LogPackage FilterOpts WatchOpts Backend Abi Log)
    (unpack_log : Bound Abi → Bytes → Log → Args × Option TestError) (name : Bytes)
    (rules : Query → List (List Bytes)) where
  -- `for it.Next() { … it.Event … }`, with fuel for the rounds, and then `it.Error()`.
  collect_event :
      Bool × EventIterator Abi Log Args → Option (Read Log Args) → Option (Read Log Args)
  collect_event (true, it) none = none
  collect_event (true, it) (some r) = some (it.state.event ∷ r.0, r.1)
  collect_event (false, it) rest =
      some ([], (event_api {Query = Query} package_ unpack_log name rules).iterator_error it)

  pub drain_events : ℕ → EventIterator Abi Log Args → Option (Read Log Args)
  drain_events zero it = none
  drain_events (suc fuel) it =
      let r = (event_api package_ unpack_log name rules).next_event it in
      collect_event r (drain_events fuel r.1)

  collect_event-collect :
      (b : Bool) (it : EventIterator Abi Log Args) (rest : Option (Read Log Args))
      → collect_event (b, it) rest
        ≡ collect (unpack_log it.contract it.event_name) (b, it.state) rest
  unfolding collect_event collect event_api
  collect_event-collect true it none = refl
  collect_event-collect true it (some r) = refl
  collect_event-collect false it rest = refl

  drain_events-drain :
      (fuel : ℕ) (it : EventIterator Abi Log Args)
      → drain_events fuel it ≡ drain (unpack_log it.contract it.event_name) fuel it.state
  unfolding drain_events drain event_api
  drain_events-drain zero it = refl
  drain_events-drain (suc fuel) it =
      let r = next (unpack_log it.contract it.event_name) it.state in
      let after = record it { state = r.1 } in
      collect_event-collect r.0 after (drain_events fuel after)
      ∙ ap (collect (unpack_log it.contract it.event_name) r) (drain_events-drain fuel after)

  filter_event-fresh :
      (f : Filterer Abi) (opts : FilterOpts) (query : Query) (backend : Backend)
      (it : EventIterator Abi Log Args)
      → (event_api package_ unpack_log name rules).filter_event f opts query backend ≡ ok it
      → (feed : Feed Log) × (it ≡ record {
        contract = f.contract;
        event_name = name;
        state = record { event = none; feed = feed; done = false; fail = none };
      })
  unfolding event_api filter
  filter_event-fresh f opts query backend it made =
      let logs_of = λ (c : Bound Abi) (event : Bytes) (topics : List (List Bytes)).
        package_.filter_logs opts c event topics backend in
      let (state, filters, done) =
        bind-ok (filter {Args = Args} logs_of f.contract name (rules query)) _ made in
      let (feed, logs, fresh) =
        bind-ok (package_.filter_logs opts f.contract name (rules query) backend) _ filters in
      (
        feed,
        sym (
            ap
              (λ (s : LogIterator Log Args). record {
                contract = f.contract;
                event_name = name;
                state = s;
              })
              (ok-injective fresh)
            ∙ ok-injective done),
      )

  -- When the iterator that Filter returned has a feed whose logs are those that came to the
  -- goroutine of Watch for the same event, whose subscription ended without an error, and the
  -- goroutine is at its outer select: calling Next until it returns false, one round more than
  -- there are logs, gives the events that the caller of Watch received, in their order, and no
  -- error.
  pub filter_event-watch :
      (f : Filterer Abi) (opts : FilterOpts) (query : Query) (backend : Backend)
      (it : EventIterator Abi Log Args) (ls : List (WatchLabel Log Args))
      → (event_api package_ unpack_log name rules).filter_event f opts query backend ≡ ok it
      → (event_api {Query = Query} package_ unpack_log name rules).WatchesEvent f ls receiving
      → incoming ls ≡ it.state.feed.live ++ it.state.feed.left
      → it.state.feed.ended ≡ none
      → drain_events (suc (length (incoming ls))) it ≡ some (map some (received ls), none)
  unfolding event_api
  filter_event-watch f opts query backend it ls made run same well =
      let (feed, fresh) = filter_event-fresh f opts query backend it made in
      let u = unpack_log f.contract name in
      let n = suc (length (incoming ls)) in
      let logs : incoming ls ≡ feed.live ++ feed.left =
        same ∙ ap (λ i. i.state.feed.live ++ i.state.feed.left) fresh in
      let ended : feed.ended ≡ none = sym (ap (λ i. i.state.feed.ended) fresh) ∙ well in
      drain_events-drain n it
      ∙ ap (λ i. drain (unpack_log i.contract i.event_name) n i.state) fresh
      ∙ drain-read_feed u n feed (omega (arith, ap length logs, length-append feed.live feed.left))
      ∙ ap some (read_feed-received u ls feed run logs ended)

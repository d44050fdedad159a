-- ===== src/Ethtest/Bindings/Logs/Laws.antt =====
-- What a caller reads who calls Next until it returns false.
use ethier.Common.{
  ℕ, zero, suc, ◌+◌, ◌<◌, Bool, true, false, List, [], ◌∷◌, Option, none, some, ◌≡◌, refl, sym, ap,
  ◌∙◌, Option-cases, inl, inr, length, ok, err, panics, arith,
}
use ethier.Ethtest.Errors.{TestError}
use ethier.Ethtest.Bindings.Logs.{
  LogEvent, Feed, LogIterator, take_log, next_done, next, parse_log, error,
}

module _ {Log Args : Type 0} (unpack_log : Log → Args × Option TestError) where
  -- One round: what `Next` returned, and what the later rounds gave.
  unfoldable pub collect :
      Bool × LogIterator Log Args
      → Option (List (Option (LogEvent Log Args)) × Option TestError)
      → Option (List (Option (LogEvent Log Args)) × Option TestError)
  unfolding error
  collect (true, it) none = none
  collect (true, it) (some r) = some (it.event ∷ r.0, r.1)
  collect (false, it) rest = some ([], error it)

  -- `for it.Next() { … it.Event … }`, with fuel for the rounds, and then `it.Error()`.
  unfoldable pub drain :
      ℕ → LogIterator Log Args → Option (List (Option (LogEvent Log Args)) × Option TestError)
  unfolding next collect
  drain zero it = none
  drain (suc fuel) it = collect (next unpack_log it) (drain fuel (next unpack_log it).1)

  -- The logs parsed one by one up to the first failure, and that failure or else what follows.
  unfoldable pub parse_all :
      List Log
      → List (Option (LogEvent Log Args)) × Option TestError
      → List (Option (LogEvent Log Args)) × Option TestError
  unfolding parse_log
  parse_all [] behind = behind
  parse_all (log ∷ logs) behind =
      let rest = parse_all logs behind in
      elim (parse_log unpack_log log) [
        | ok event ↦ (some event ∷ rest.0, rest.1)
        | err e ↦ ([], some e)
        | panics ↦ ([], none)
      ]

  -- What the feed holds for its reader: the logs behind its end count only if it ended well.
  unfoldable pub read_feed : Feed Log → List (Option (LogEvent Log Args)) × Option TestError
  unfolding parse_all
  read_feed feed =
      parse_all feed.live
        (elim feed.ended [ some e ↦ ([], some e) | none ↦ parse_all feed.left ([], none) ])

  at_end : Option (LogEvent Log Args) → Feed Log → LogIterator Log Args
  at_end event feed = record { event = event; feed = feed; done = true; fail = none }

  at_work : Option (LogEvent Log Args) → Feed Log → LogIterator Log Args
  at_work event feed = record { event = event; feed = feed; done = false; fail = none }

  taken : Log → Option (LogEvent Log Args)
  taken log = some (record { args = (unpack_log log).0; raw = some log })

  take_log-works :
      (log : Log) (feed : Feed Log) (it : LogIterator Log Args)
      → (unpack_log log).1 ≡ none
      → take_log unpack_log log feed it ≡ (true, record it { event = taken log; feed = feed })
  unfolding take_log taken
  take_log-works log feed it h = rw (take_log, h)

  parse_all-works :
      (log : Log) (logs : List Log) (behind : List (Option (LogEvent Log Args)) × Option TestError)
      → (unpack_log log).1 ≡ none
      → parse_all (log ∷ logs) behind
        ≡ (taken log ∷ (parse_all logs behind).0, (parse_all logs behind).1)
  unfolding parse_all parse_log taken
  parse_all-works log logs behind h = rw (parse_all, parse_log, h)

  parse_all-fails :
      (log : Log) (logs : List Log) (behind : List (Option (LogEvent Log Args)) × Option TestError)
      (e : TestError)
      → (unpack_log log).1 ≡ some e
      → parse_all (log ∷ logs) behind ≡ ([], some e)
  unfolding parse_all parse_log
  parse_all-fails log logs behind e h = rw (parse_all, parse_log, h)

  drain-more :
      (fuel : ℕ) (it it' : LogIterator Log Args)
      (r : List (Option (LogEvent Log Args)) × Option TestError)
      → next unpack_log it ≡ (true, it')
      → drain fuel it' ≡ some r
      → drain (suc fuel) it ≡ some (it'.event ∷ r.0, r.1)
  unfolding drain collect
  drain-more fuel it it' r h rest =
      ap (λ p. collect p (drain fuel p.1)) h ∙ ap (collect (true, it')) rest

  drain-stop :
      (fuel : ℕ) (it it' : LogIterator Log Args)
      → next unpack_log it ≡ (false, it')
      → drain (suc fuel) it ≡ some ([], it'.fail)
  unfolding drain collect error
  drain-stop fuel it it' h = ap (λ p. collect p (drain fuel p.1)) h

  spoiled : Log → Feed Log → LogIterator Log Args → TestError → LogIterator Log Args
  spoiled log feed it e = record it {
    event = some (record { args = (unpack_log log).0; raw = none });
    feed = feed;
    fail = some e;
  }

  take_log-fails :
      (log : Log) (feed : Feed Log) (it : LogIterator Log Args) (e : TestError)
      → (unpack_log log).1 ≡ some e
      → take_log unpack_log log feed it ≡ (false, spoiled log feed it e)
  unfolding take_log spoiled
  take_log-fails log feed it e h = rw (take_log, h)

  -- One round on a log, whatever lies behind it.
  drain-log :
      (fuel : ℕ) (it : LogIterator Log Args) (log : Log) (logs : List Log) (feed : Feed Log)
      (behind : List (Option (LogEvent Log Args)) × Option TestError)
      → next unpack_log it ≡ take_log unpack_log log feed it
      → drain fuel (record it { event = taken log; feed = feed }) ≡ some (parse_all logs behind)
      → drain (suc fuel) it ≡ some (parse_all (log ∷ logs) behind)
  unfolding spoiled
  drain-log fuel it log logs feed behind h rest = elim (Option-cases (unpack_log log).1) [
    | inr (e, fails) ↦
        drain-stop fuel it (spoiled log feed it e) (h ∙ take_log-fails log feed it e fails)
        ∙ ap some (sym (parse_all-fails log logs behind e fails))
    | inl works ↦
        drain-more fuel it (record it { event = taken log; feed = feed }) (parse_all logs behind)
          (h ∙ take_log-works log feed it works) rest
        ∙ ap some (sym (parse_all-works log logs behind works))
  ]

  drain-at_end :
      (fuel : ℕ) (event : Option (LogEvent Log Args)) (live left : List Log)
      (ended : Option TestError)
      → length left < fuel
      → drain fuel (at_end event (record { live = live; ended = ended; left = left }))
        ≡ some (parse_all left ([], none))
  unfolding drain next next_done parse_all error at_end
  drain-at_end zero event live left ended h = absurd (omega arith)
  drain-at_end (suc fuel) event live [] ended h = refl
  drain-at_end (suc fuel) event live (log ∷ left) ended h =
      drain-log fuel (at_end event (record { live = live; ended = ended; left = log ∷ left })) log
        left (record { live = live; ended = ended; left = left }) ([], none) refl
        (drain-at_end fuel (taken log) live left ended (omega arith))

  drain-at_work :
      (fuel : ℕ) (event : Option (LogEvent Log Args)) (live left : List Log)
      (ended : Option TestError)
      → length live + length left < fuel
      → drain fuel (at_work event (record { live = live; ended = ended; left = left }))
        ≡ some (read_feed (record { live = live; ended = ended; left = left }))
  unfolding drain collect error next next_done parse_all at_work at_end read_feed
  drain-at_work zero event live left ended h = absurd (omega arith)
  drain-at_work (suc fuel) event [] left (some e) h = refl
  drain-at_work (suc fuel) event [] left none h =
      drain-at_end (suc fuel) event [] left none (omega arith)
  drain-at_work (suc fuel) event (log ∷ live) left ended h =
      drain-log fuel (at_work event (record { live = log ∷ live; ended = ended; left = left })) log
        live (record { live = live; ended = ended; left = left }) _ refl
        (drain-at_work fuel (taken log) live left ended (omega arith))

  -- An iterator that Filter returned, called until it returns false, ends within one round more
  -- than there are logs: the events and the error are those of parsing the logs in order up to the
  -- first failure, where the logs behind an end with an error do not count.
  pub drain-read_feed :
      (fuel : ℕ) (feed : Feed Log)
      → length feed.live + length feed.left < fuel
      → drain fuel (record { event = none; feed = feed; done = false; fail = none })
        ≡ some (read_feed feed)
  unfolding at_work
  drain-read_feed fuel feed h = drain-at_work fuel none feed.live feed.left feed.ended h

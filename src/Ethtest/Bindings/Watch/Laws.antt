-- ===== src/Ethtest/Bindings/Watch/Laws.antt =====
-- What a subscription's caller receives.
use ethier.Common.{
  List, [], ◌∷◌, ◌++◌, append_assoc, Option, ◌≡◌, refl, sym, ap, ◌∙◌, Outcome, ok, err, panics,
  length, ◌≤◌, arith,
}
use ethier.Ethtest.Errors.{TestError}
use ethier.Ethtest.Bindings.Logs.{LogEvent, parse_log}
use ethier.Ethtest.Bindings.Watch.{
  WatchPhase, receiving, forwarding, returned, WatchLabel, log_comes, event_goes, sub_ends,
  quit_comes, WatchStep, receive, refuse, outer_end, outer_quit, forward, inner_end, inner_quit,
  WatchRun, begin, continue_,
}

-- The events that the caller received.
unfoldable pub received :
    {Log Args : Type 0} → List (WatchLabel Log Args) → List (LogEvent Log Args)
received [] = []
received (event_goes event ∷ ls) = event ∷ received ls
received (_ ∷ ls) = received ls

module _ {Log Args : Type 0} (unpack_log : Log → Args × Option TestError) where
  -- The logs that came, parsed, without one that cannot be parsed.
  unfoldable pub parsed : List (WatchLabel Log Args) → List (LogEvent Log Args)
  parsed [] = []
  parsed (log_comes log ∷ ls) =
      let rest = parsed ls in
      elim (parse_log unpack_log log) [ ok event ↦ event ∷ rest | err e ↦ rest | panics ↦ rest ]
  parsed (_ ∷ ls) = parsed ls

  pub received-append :
      (ls ms : List (WatchLabel Log Args)) → received (ls ++ ms) ≡ received ls ++ received ms
  unfolding received
  received-append [] ms = refl
  received-append (event_goes event ∷ ls) ms = ap (event ∷◌) (received-append ls ms)
  received-append (log_comes log ∷ ls) ms = received-append ls ms
  received-append (sub_ends e ∷ ls) ms = received-append ls ms
  received-append (quit_comes ∷ ls) ms = received-append ls ms

  pub parsed-append :
      (ls ms : List (WatchLabel Log Args)) → parsed (ls ++ ms) ≡ parsed ls ++ parsed ms
  unfolding parsed
  parsed-append [] ms = refl
  parsed-append (event_goes event ∷ ls) ms = parsed-append ls ms
  parsed-append (sub_ends e ∷ ls) ms = parsed-append ls ms
  parsed-append (quit_comes ∷ ls) ms = parsed-append ls ms
  parsed-append (log_comes log ∷ ls) ms = with_log (parse_log unpack_log log) (parsed-append ls ms)
    where
      with_log :
          (o : Outcome TestError (LogEvent Log Args))
          → parsed (ls ++ ms) ≡ parsed ls ++ parsed ms
          → (elim o [
            | ok event ↦ event ∷ parsed (ls ++ ms)
            | err e ↦ parsed (ls ++ ms)
            | panics ↦ parsed (ls ++ ms)
          ])
            ≡ (elim o [ ok event ↦ event ∷ parsed ls | err e ↦ parsed ls | panics ↦ parsed ls ])
              ++ parsed ms
      with_log (ok event) h = ap (event ∷◌) h
      with_log (err e) h = h
      with_log panics h = h

  -- The events that were parsed and not received: none at the outer select, the one at hand at the
  -- inner select, and one at most where the goroutine returned.
  unfoldable pub IsUnsent : WatchPhase Log Args → List (LogEvent Log Args) → Type 0
  IsUnsent receiving events = events ≡ []
  IsUnsent (forwarding event) events = events ≡ event ∷ []
  IsUnsent (returned result) events = length events ≤ 1

  WatchStep-parsed :
      {p q : WatchPhase Log Args} {l : WatchLabel Log Args} (rest : List (LogEvent Log Args))
      → WatchStep unpack_log p l q
      → IsUnsent p rest
      → (rest' : List (LogEvent Log Args)) × (rest ++ parsed (l ∷ []) ≡ received (l ∷ []) ++ rest')
        × IsUnsent q rest'
  unfolding parsed received IsUnsent
  WatchStep-parsed rest (receive {event} h) none_ = (event ∷ [], rw (none_, parsed, h), refl)
  WatchStep-parsed rest (refuse h) none_ = ([], rw (none_, parsed, h), omega arith)
  WatchStep-parsed rest (outer_end e) none_ = ([], rw none_, omega arith)
  WatchStep-parsed rest outer_quit none_ = ([], rw none_, omega arith)
  WatchStep-parsed rest (forward event) one = ([], rw one, refl)
  WatchStep-parsed rest (inner_end event e) one = (event ∷ [], rw one, omega arith)
  WatchStep-parsed rest (inner_quit event) one = (event ∷ [], rw one, omega arith)

  -- In every interleaving, what the caller received, and then what is unsent, are the logs that
  -- came, parsed, in their order; nothing is unsent at the outer select, the event at hand at the
  -- inner one, and one event at most where the subscription has ended.
  pub WatchRun-parsed :
      {ls : List (WatchLabel Log Args)} {p : WatchPhase Log Args}
      → WatchRun unpack_log ls p
      → (rest : List (LogEvent Log Args)) × (received ls ++ rest ≡ parsed ls) × IsUnsent p rest
  unfolding parsed received IsUnsent
  WatchRun-parsed begin = ([], refl, refl)
  WatchRun-parsed (continue_ {ls = before} {l} run step) =
      let (rest, whole, unsent) = WatchRun-parsed run in
      let (rest', moves, unsent') = WatchStep-parsed rest step unsent in
      (
        rest',
        ap (◌++ rest') (received-append before (l ∷ []))
            ∙ append_assoc (received before) (received (l ∷ [])) rest'
            ∙ ap (received before ++◌) (sym moves)
            ∙ sym (append_assoc (received before) rest (parsed (l ∷ [])))
            ∙ ap (◌++ parsed (l ∷ [])) whole
            ∙ sym (parsed-append before (l ∷ [])),
        unsent',
      )

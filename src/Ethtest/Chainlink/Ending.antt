-- ===== src/Ethtest/Chainlink/Ending.antt =====
-- The errors that the coordinator keeps, and how it ends.
use ethier.Common.{
  true, List, [], ◌∷◌, ◌++◌, Option, none, some, ◌≡◌, refl, sym, ap, ◌∙◌, Bytes, Outcome,
}
use ethier.Ethtest.Errors.{TestError}
use ethier.Ethtest.Chainlink.Laws.{delivered, delivered-append}
use ethier.Ethtest.Chainlink.{
  sending, keep_first, Label, quits, ends, closes, fails, takes, delivers, elsewhere, World,
  unsubscribe, close_reqs, close_fulfilled, close_done, Step, quit, fail, take, deliver, end, close,
  other, Run, start, next, close_result,
}

-- The first of two errors.
abbrev pub or_else : Option TestError → Option TestError → Option TestError
or_else (some e) f = some e
or_else none f = f

or_else-none : (e : Option TestError) → e ≡ or_else e none
or_else-none none = refl
or_else-none (some e) = refl

or_else_assoc : (a b c : Option TestError) → or_else (or_else a b) c ≡ or_else a (or_else b c)
or_else_assoc none b c = refl
or_else_assoc (some a) b c = refl

keep_first-or_else : (e f : Option TestError) → keep_first e f ≡ or_else e (keep_first none f)
unfolding keep_first
keep_first-or_else none f = refl
keep_first-or_else (some e) f = refl

module _ {B : Type 0} where
  -- The first failure of the subscription, as the coordinator words it.
  pub first_failure : List (Label B) → Option TestError
  unfolding keep_first
  first_failure [] = none
  first_failure (fails e ∷ ls) = keep_first none e
  first_failure (_ ∷ ls) = first_failure ls

  first_failure-append :
      (ls ms : List (Label B))
      → first_failure (ls ++ ms) ≡ or_else (first_failure ls) (first_failure ms)
  unfolding first_failure keep_first
  first_failure-append [] ms = refl
  first_failure-append (fails none ∷ ls) ms = refl
  first_failure-append (fails (some e) ∷ ls) ms = refl
  first_failure-append (quits ∷ ls) ms = first_failure-append ls ms
  first_failure-append (ends ∷ ls) ms = first_failure-append ls ms
  first_failure-append (closes ∷ ls) ms = first_failure-append ls ms
  first_failure-append (takes by ∷ ls) ms = first_failure-append ls ms
  first_failure-append (delivers r ∷ ls) ms = first_failure-append ls ms
  first_failure-append (elsewhere f ∷ ls) ms = first_failure-append ls ms

module _ {B : Type 0} (fulfill : Bytes → B → Outcome TestError (Unit {0}) × B) where
  Step-err :
      {u v : World B} {l : Label B}
      → Step fulfill u l v
      → v.coordinator.err ≡ or_else u.coordinator.err (first_failure (l ∷ []))
  unfolding first_failure
  Step-err {u} (fail e at) = keep_first-or_else u.coordinator.err e
  Step-err {u} (quit at closed) = or_else-none u.coordinator.err
  Step-err {u} (take by r after at call _) = or_else-none u.coordinator.err
  Step-err {u} (deliver r at) = or_else-none u.coordinator.err
  Step-err {u} (end (unsubscribe at)) = or_else-none u.coordinator.err
  Step-err {u} (end (close_reqs at)) = or_else-none u.coordinator.err
  Step-err {u} (end (close_fulfilled at)) = or_else-none u.coordinator.err
  Step-err {u} (end (close_done at)) = or_else-none u.coordinator.err
  Step-err {u} (close opened) = or_else-none u.coordinator.err
  Step-err {u} (other change) = or_else-none u.coordinator.err

  -- The error that the coordinator keeps is the one it had, or else the first failure of its
  -- subscription, in every interleaving.
  pub Run-err :
      {w v : World B} {ls : List (Label B)}
      → Run fulfill w ls v
      → v.coordinator.err ≡ or_else w.coordinator.err (first_failure ls)
  unfolding first_failure
  Run-err {w} start = or_else-none w.coordinator.err
  Run-err {w} (next {ls = before} {l} run step) =
      Step-err step
      ∙ ap (λ e. or_else e (first_failure (l ∷ []))) (Run-err run)
      ∙ or_else_assoc w.coordinator.err (first_failure before) (first_failure (l ∷ []))
      ∙ ap (or_else w.coordinator.err) (sym (first_failure-append before (l ∷ [])))

  -- What stays while a result waits.
  record Waits (r : Outcome TestError (Unit {0})) (u v : World B) : Type 0 where
    phase : v.coordinator.phase ≡ sending r
    done_open : v.coordinator.done_open ≡ u.coordinator.done_open

  Step-Waits :
      {u v : World B} {l : Label B} (r : Outcome TestError (Unit {0}))
      → Step fulfill u l v
      → u.coordinator.phase ≡ sending r
      → delivered (l ∷ []) ≡ []
      → Waits r u v
  unfolding delivered
  Step-Waits r (quit at closed) h none_ = absurd (cc)
  Step-Waits r (fail e at) h none_ = absurd (cc)
  Step-Waits r (take by r' after at call _) h none_ = absurd (cc)
  Step-Waits r (deliver r' at) h none_ = absurd (cc)
  Step-Waits r (end (unsubscribe at)) h none_ = absurd (cc)
  Step-Waits r (end (close_reqs at)) h none_ = absurd (cc)
  Step-Waits r (end (close_fulfilled at)) h none_ = absurd (cc)
  Step-Waits r (end (close_done at)) h none_ = absurd (cc)
  Step-Waits r (close opened) h none_ = record { phase = h; done_open = refl }
  Step-Waits r (other change) h none_ = record { phase = h; done_open = refl }

  append-nil_left :
      (xs ys : List (Outcome TestError (Unit {0}))) → xs ++ ys ≡ [] → (xs ≡ []) × (ys ≡ [])
  append-nil_left [] ys h = (refl, h)
  append-nil_left (x ∷ xs) ys h = absurd (cc)

  Run-Waits :
      {w v : World B} {ls : List (Label B)} (r : Outcome TestError (Unit {0}))
      → Run fulfill w ls v
      → w.coordinator.phase ≡ sending r
      → delivered ls ≡ []
      → Waits r w v
  Run-Waits r start h none_ = record { phase = h; done_open = refl }
  Run-Waits r (next {ls = before} {l} run step) h none_ =
      let (first, last) =
        append-nil_left (delivered before) (delivered (l ∷ []))
          (sym (delivered-append before (l ∷ [])) ∙ none_) in
      let so_far = Run-Waits r run h first in
      let after = Step-Waits r step so_far.phase last in
      record { phase = after.phase; done_open = after.done_open ∙ so_far.done_open }

  -- While a result waits for its receiver and nobody receives, Close does not return, whatever else
  -- happens.
  pub Run-close_result :
      {w v : World B} {ls : List (Label B)} (r : Outcome TestError (Unit {0}))
      → Run fulfill w ls v
      → w.coordinator.phase ≡ sending r
      → w.coordinator.done_open ≡ true
      → delivered ls ≡ []
      → close_result v.coordinator ≡ none
  unfolding close_result
  Run-close_result r run h is_open none_ =
      let waits = Run-Waits r run h none_ in rw (close_result, waits.done_open ∙ is_open)

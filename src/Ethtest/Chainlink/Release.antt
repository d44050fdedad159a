-- ===== src/Ethtest/Chainlink/Release.antt =====
-- What Close waits for, and that it comes.
use ethier.Common.{
  ap, ◌∙◌, false, List, [], ◌∷◌, Option, some, ◌≡◌, refl, sym, subst, Bytes, Outcome, arith,
}
use ethier.Ethtest.Errors.{TestError}
use ethier.Ethtest.Chainlink.Ending.{or_else, first_failure, Run-err}
use ethier.Ethtest.Chainlink.{
  selecting, closing_reqs, closing_fulfilled, closing_done, Coordinator, new_coordinator, Label,
  quits, ends, World, Ends, unsubscribe, close_reqs, close_fulfilled, close_done, Step, quit, fail,
  take, deliver, end, close, other, Run, start, next, close_result,
}

-- The channels are closed in the order of the deferred calls, each behind the step before it.
pub record IsOrdered (c : Coordinator) : Type 0 where
  pub at_reqs : c.phase ≡ closing_reqs → c.subscribed ≡ false
  pub at_fulfilled : c.phase ≡ closing_fulfilled → c.reqs_open ≡ false
  pub at_done : c.phase ≡ closing_done → c.fulfilled_open ≡ false
  pub reqs_first : c.reqs_open ≡ false → c.subscribed ≡ false
  pub fulfilled_next : c.fulfilled_open ≡ false → c.reqs_open ≡ false
  pub done_last : c.done_open ≡ false → c.fulfilled_open ≡ false

new_coordinator-IsOrdered : IsOrdered new_coordinator
new_coordinator-IsOrdered = record {
  at_reqs = λ h. absurd (cc);
  at_fulfilled = λ h. absurd (cc);
  at_done = λ h. absurd (cc);
  reqs_first = λ h. absurd (cc);
  fulfilled_next = λ h. absurd (cc);
  done_last = λ h. absurd (cc);
}

module _ {B : Type 0} (fulfill : Bytes → B → Outcome TestError (Unit {0}) × B) where
  Ends-IsOrdered : {c d : Coordinator} → Ends fulfill c d → IsOrdered c → IsOrdered d
  Ends-IsOrdered (unsubscribe at) o = ground arith
  Ends-IsOrdered (close_reqs at) o = ground arith
  Ends-IsOrdered (close_fulfilled at) o = ground arith
  Ends-IsOrdered (close_done at) o = ground arith

  Step-IsOrdered :
      {u v : World B} {l : Label B}
      → Step fulfill u l v
      → IsOrdered u.coordinator
      → IsOrdered v.coordinator
  Step-IsOrdered (quit at closed) o = ground arith
  Step-IsOrdered (fail e at) o = ground arith
  Step-IsOrdered (take by r' after at call _) o = ground arith
  Step-IsOrdered (deliver r' at) o = ground arith
  Step-IsOrdered (end ends_) o = Ends-IsOrdered ends_ o
  Step-IsOrdered (close opened) o = ground arith
  Step-IsOrdered (other change) o = o

  Run-IsOrdered :
      {w v : World B} {ls : List (Label B)}
      → Run fulfill w ls v
      → IsOrdered w.coordinator
      → IsOrdered v.coordinator
  Run-IsOrdered start o = o
  Run-IsOrdered (next run step) o = Step-IsOrdered step (Run-IsOrdered run o)

  -- When Close returns, in any interleaving from a new coordinator on, the subscription has ended,
  -- the channels of requests and of results are closed, and the error returned is the first failure
  -- of the subscription, if there was one.
  pub Run-released :
      {w v : World B} {ls : List (Label B)} (e : Option TestError)
      → Run fulfill w ls v
      → w.coordinator ≡ new_coordinator
      → close_result v.coordinator ≡ some e
      → (v.coordinator.subscribed ≡ false)
        × (v.coordinator.reqs_open ≡ false)
        × (v.coordinator.fulfilled_open ≡ false)
        × (e ≡ first_failure ls)
  unfolding close_result
  Run-released {w} {v} {ls} e run h returned_ =
      let o = Run-IsOrdered run (subst IsOrdered (sym h) new_coordinator-IsOrdered) in
      let done : v.coordinator.done_open ≡ false = ground arith in
      let kept : ◌≡◌ {A = Option (Option TestError)} (some v.coordinator.err) (some e) =
        rw done at returned_ in
      let same : v.coordinator.err ≡ e = cc in
      let fulfilled = o.done_last done in
      let reqs = o.fulfilled_next fulfilled in
      (
        o.reqs_first reqs,
        reqs,
        fulfilled,
        sym same ∙ Run-err fulfill run ∙ ap (λ c. or_else c.err (first_failure ls)) h,
      )

  -- At its select and told to quit, the coordinator can go on to its end by its own steps alone,
  -- and Close then returns the error that it kept.
  pub Run-ends :
      (w : World B)
      → w.coordinator.phase ≡ selecting
      → w.coordinator.quit_open ≡ false
      → (v : World B) × Run fulfill w (quits ∷ ends ∷ ends ∷ ends ∷ ends ∷ []) v
        × (close_result v.coordinator ≡ some w.coordinator.err)
  unfolding close_result
  Run-ends w h closed = (
    _,
    next
        (next
          (next (next (next start (quit h closed)) (end (unsubscribe refl)))
            (end (close_reqs refl)))
          (end (close_fulfilled refl)))
        (end (close_done refl)),
    refl,
  )

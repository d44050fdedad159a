-- ===== src/Ethtest/Chainlink/Laws.antt =====
-- What the coordinator answers, keeps and releases, in every interleaving.
use ethier.Common.{
  List, [], ◌∷◌, ◌++◌, append-nil, append_assoc, ◌≡◌, refl, sym, ap, ◌∙◌, Bytes, Outcome,
}
use ethier.Ethtest.Errors.{TestError}
use ethier.Ethtest.Chainlink.{
  Phase, selecting, sending, Label, quits, ends, closes, fails, takes, delivers, elsewhere, World,
  unsubscribe, close_reqs, close_fulfilled, close_done, Step, quit, fail, take, deliver, end, close,
  other, Run, start, next,
}

abbrev pub Result : Type 0
Result = Outcome TestError (Unit {0})

-- The results that were received.
unfoldable pub delivered : {B : Type 0} → List (Label B) → List Result
delivered [] = []
delivered (delivers r ∷ ls) = r ∷ delivered ls
delivered (_ ∷ ls) = delivered ls

-- A result that waits for its receiver.
pub pending : Phase → List Result
pending (sending r) = r ∷ []
pending _ = []

module _ {B : Type 0} where
  pub delivered-append :
      (ls ms : List (Label B)) → delivered (ls ++ ms) ≡ delivered ls ++ delivered ms
  unfolding delivered
  delivered-append [] ms = refl
  delivered-append (delivers r ∷ ls) ms = ap (r ∷◌) (delivered-append ls ms)
  delivered-append (quits ∷ ls) ms = delivered-append ls ms
  delivered-append (ends ∷ ls) ms = delivered-append ls ms
  delivered-append (closes ∷ ls) ms = delivered-append ls ms
  delivered-append (fails e ∷ ls) ms = delivered-append ls ms
  delivered-append (takes by ∷ ls) ms = delivered-append ls ms
  delivered-append (elsewhere f ∷ ls) ms = delivered-append ls ms

module _ {B : Type 0} (fulfill : Bytes → B → Result × B) where
  -- The requests served one after the other, by one caller that never waits.
  pub serve : B → List (Label B) → List Result × B
  serve b [] = ([], b)
  serve b (takes by ∷ ls) =
      let (r, b') = fulfill by b in let (rs, b'') = serve b' ls in (r ∷ rs, b'')
  serve b (elsewhere change ∷ ls) = serve (change b) ls
  serve b (_ ∷ ls) = serve b ls

  serve-append :
      (b : B) (ls ms : List (Label B))
      → serve b (ls ++ ms)
        ≡ ((serve b ls).0 ++ (serve (serve b ls).1 ms).0, (serve (serve b ls).1 ms).1)
  unfolding serve
  serve-append b [] ms = refl
  serve-append b (takes by ∷ ls) ms =
      ap (λ q. ((fulfill by b).0 ∷ q.0, q.1)) (serve-append (fulfill by b).1 ls ms)
  serve-append b (elsewhere change ∷ ls) ms = serve-append (change b) ls ms
  serve-append b (quits ∷ ls) ms = serve-append b ls ms
  serve-append b (ends ∷ ls) ms = serve-append b ls ms
  serve-append b (closes ∷ ls) ms = serve-append b ls ms
  serve-append b (fails e ∷ ls) ms = serve-append b ls ms
  serve-append b (delivers r ∷ ls) ms = serve-append b ls ms

  -- What one step adds to both sides.
  Step-serve :
      {u v : World B} {l : Label B}
      → Step fulfill u l v
      → (pending u.coordinator.phase ++ (serve u.backend (l ∷ [])).0
          ≡ delivered (l ∷ []) ++ pending v.coordinator.phase)
        × (v.backend ≡ (serve u.backend (l ∷ [])).1)
  unfolding serve pending delivered
  Step-serve (quit at closed) = (rw at, refl)
  Step-serve (fail e at) = (rw at, refl)
  Step-serve (take by r after at call _) = (rw (at, call), rw call)
  Step-serve (deliver r at) = (rw at, refl)
  Step-serve (end (unsubscribe at)) = (rw at, refl)
  Step-serve (end (close_reqs at)) = (rw at, refl)
  Step-serve (end (close_fulfilled at)) = (rw at, refl)
  Step-serve (end (close_done at)) = (rw at, refl)
  Step-serve (close opened) = (append-nil _, refl)
  Step-serve (other change) = (append-nil _, refl)

  -- From a coordinator at its select, in every interleaving: the results that were received, and
  -- the one that waits, are those of serving the requests one after the other in the order in which
  -- they were taken, and the backend is the one that this leaves.
  pub Run-serve :
      {w v : World B} {ls : List (Label B)}
      → Run fulfill w ls v
      → w.coordinator.phase ≡ selecting
      → (delivered ls ++ pending v.coordinator.phase ≡ (serve w.backend ls).0)
        × (v.backend ≡ (serve w.backend ls).1)
  unfolding serve delivered pending
  Run-serve start h = (rw h, refl)
  Run-serve {w} {v} (next {u} {ls = before} {l} run step) h =
      let (results, backend) = Run-serve run h in
      let (adds, moves) = Step-serve step in
      let whole = serve-append w.backend before (l ∷ []) in
      (
        ap (◌++ pending v.coordinator.phase) (delivered-append before (l ∷ []))
            ∙ append_assoc (delivered before) (delivered (l ∷ [])) (pending v.coordinator.phase)
            ∙ ap (delivered before ++◌) (sym adds)
            ∙ sym (
                append_assoc (delivered before) (pending u.coordinator.phase)
                  (serve u.backend (l ∷ [])).0)
            ∙ ap (◌++ (serve u.backend (l ∷ [])).0) results
            ∙ ap (λ b. (serve w.backend before).0 ++ (serve b (l ∷ [])).0) backend
            ∙ sym (ap (λ q. q.0) whole),
        moves ∙ ap (λ b. (serve b (l ∷ [])).1) backend ∙ sym (ap (λ q. q.1) whole),
      )

-- ===== src/Solcover/Coverage/Counts.antt =====
-- The counts of a trace: a line is counted once for each time that the steps enter it.
mod Lines
mod Visit
mod Tests
use native.Mathlib.Nat.{mod-eq_of_lt}
use ethier.Common.{
  ℕ, ◌+◌, ◌<◌, ◌%◌, ◌^◌, List, [], ◌∷◌, ◌++◌, Option, some, ◌≡◌, refl, sym, subst, ◌∙◌, Bytes,
  bytes_key, number_key, ok, err, panics,
}
use ethier.Solcover.ByteCode.{OpCodes}
use ethier.Solcover.Location.{Location, MapperPackage}
use ethier.Solcover.Registry.{ContractMatcher, Registry, source}
use ethier.Solcover.Coverage.{
  Collector, Event, capture_state, capture_exit, get_hits, state_at, Tracing, capture, run,
}
use ethier.Solcover.Coverage.Follow.{
  Balanced, nothing, state, fault, call, IsReady, IsReady-Follows, source_total, state_at-visit,
  state_at-Follows,
}
use ethier.Solcover.Coverage.Laws.{
  run-cons, run-append, capture-state_at, capture_exit-contracts, run-Follows,
}
use ethier.Solcover.Coverage.Counts.Lines.{entered, occurrences}
use ethier.Solcover.Coverage.Counts.Visit.{
  Counted, Counted-append, nothing-Counted, with_line, visit-Counted,
}

module _ {Mapper : Type 0} (r : Registry Mapper) where
  -- What `Source` gives for a step, where it has a line.
  pub step_lines : Bytes → ℕ → List Location
  step_lines contract pc = elim (source r contract pc) [
    | ok found ↦ with_line found
    | err e ↦ []
    | panics ↦ []
  ]

  -- The steps of a call and, each in its own contract, those of its inner calls.
  pub lines_of : Bytes → {es : List Event} → Balanced es → List Location
  lines_of contract nothing = []
  lines_of contract (state pc rest) = step_lines contract pc ++ lines_of contract rest
  lines_of contract (fault rest) = lines_of contract rest
  lines_of contract (call to inner rest) = lines_of to inner ++ lines_of contract rest

  state_at-Counted :
      (pc : ℕ) (k k' : Collector) (contract : Bytes) (callers : List Bytes)
      (found : Option Location)
      → k.contracts ≡ contract ∷ callers
      → source r contract pc ≡ ok found
      → state_at pc r k ≡ some k'
      → Counted (step_lines contract pc) k k'
  unfolding step_lines
  state_at-Counted pc k k' contract callers found stack finds h =
      rw (step_lines, finds)
        (visit-Counted found k k'
          (sym (state_at-visit pc r k contract callers found stack finds) ∙ h))

module _ {Mapper : Type 0} (offset : MapperPackage Mapper) (vm : OpCodes) (sha256 : Bytes → Bytes)
    (walk : List (Bytes × ContractMatcher) → List (Bytes × ContractMatcher)) where
  run-Counted :
      (es : List Event) (r : Registry Mapper) (k : Collector) (contract : Bytes)
      (callers : List Bytes) (t : Tracing Mapper) (b : Balanced es)
      → k.contracts ≡ contract ∷ callers
      → IsReady r k.line_hits
      → run offset vm sha256 walk es (record { registry = r; collector = k }) ≡ some t
      → Counted (lines_of r contract b) k t.collector
  unfolding run capture lines_of
  run-Counted es r k contract callers t nothing stack ready h =
      let e : record { registry = r; collector = k } ≡ t = cc in
      subst (λ u. Counted [] k u.collector) e (nothing-Counted k)
  run-Counted es r k contract callers t (state pc {es = later} rest) stack ready h =
      let (k1, moves, follows) = state_at-Follows pc r k contract callers stack ready in
      let (found, finds, known) = source_total r k.line_hits contract pc ready in
      Counted-append (state_at-Counted r pc k k1 contract callers found stack finds moves) (
        run-Counted later r k1 contract callers t rest (follows.contracts ∙ stack)
          (IsReady-Follows r follows ready)
          (sym (
              run-cons offset vm sha256 walk (capture_state pc) later _ _
                (capture-state_at offset vm sha256 walk pc r k k1 moves))
            ∙ h))
  run-Counted es r k contract callers t (fault rest) stack ready h =
      run-Counted _ r k contract callers t rest stack ready h
  run-Counted es r k contract callers t (call to {body} {es = later} inner rest) stack ready h =
      let entered_ = record k { contracts = to ∷ k.contracts } in
      let (k1, runs, follows) =
        run-Follows offset vm sha256 walk body r entered_ to k.contracts inner refl ready in
      let left = record k1 { contracts = k.contracts } in
      let ready1 : IsReady r left.line_hits =
        IsReady-Follows r {k = entered_} {k' = k1} follows ready in
      let inside =
        run-Counted body r entered_ to k.contracts (record { registry = r; collector = k1 }) inner
          refl ready runs in
      let after = run-Counted later r left contract callers t rest stack ready1 (
        sym (
          run-append offset vm sha256 walk body (capture_exit ∷ later) _ _ runs
          ∙ run-cons offset vm sha256 walk capture_exit later _ _
              (capture_exit-contracts offset vm sha256 walk r k1 to k.contracts follows.contracts))
        ∙ h) in
      Counted-append {k1 = left}
        (record { hits = inside.hits; bounded = inside.bounded; last = inside.last }) after

  -- A balanced trace, begun in a contract while every deployed contract is covered and every count
  -- is below 2^64, runs to its end, and each line's count grows, modulo 2^64, by the number of
  -- times that the steps enter the line: of the locations that Source gives for the steps, each in
  -- the contract of its own call, those with a line are taken, and a line is entered where the file
  -- index or the line is not that of the location before.
  pub run-occurrences :
      (es : List Event) (r : Registry Mapper) (k : Collector) (contract : Bytes)
      (callers : List Bytes) (b : Balanced es)
      → k.contracts ≡ contract ∷ callers
      → IsReady r k.line_hits
      → ((f : Bytes) (n : ℕ) → get_hits k.line_hits f n < 2 ^ 64)
      → (k' : Collector) × (run offset vm sha256 walk es (record { registry = r; collector = k })
          ≡ some (record { registry = r; collector = k' }))
        × ((f : Bytes) (n : ℕ)
            → get_hits k'.line_hits f n
              ≡ (get_hits k.line_hits f n
                  + occurrences f n (entered k.last (lines_of r contract b)))
                % 2 ^ 64)
  run-occurrences es r k contract callers b stack ready bounded =
      let (k', runs, follows) =
        run-Follows offset vm sha256 walk es r k contract callers b stack ready in
      let counted = run-Counted es r k contract callers _ b stack ready runs in
      (k', runs, λ f n. sym (mod-eq_of_lt (counted.bounded f n (bounded f n))) ∙ counted.hits f n)

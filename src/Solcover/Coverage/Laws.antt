-- ===== src/Solcover/Coverage/Laws.antt =====
-- What a trace leaves in the collector.
use ethier.Common.{
  ℕ, List, [], ◌∷◌, ◌++◌, some, ◌≡◌, refl, sym, ◌∙◌, Bytes, bytes_key, number_key, Option-cases,
  inl, inr, arith,
}
use ethier.Solcover.ByteCode.{OpCodes}
use ethier.Solcover.Location.{MapperPackage}
use ethier.Solcover.Registry.{ContractMatcher, Registry}
use ethier.Solcover.Coverage.{
  Collector, Event, capture_state, capture_exit, state_at, Tracing, capture, run,
}
use ethier.Solcover.Coverage.Follow.{
  IsReady, Balanced, nothing, state, fault, call, Follows, IsReady-Follows, state_at-Follows,
}

module _ {Mapper : Type 0} (offset : MapperPackage Mapper) (vm : OpCodes) (sha256 : Bytes → Bytes)
    (walk : List (Bytes × ContractMatcher) → List (Bytes × ContractMatcher)) where
  pub run-cons :
      (e : Event) (es : List Event) (t u : Tracing Mapper)
      → capture offset vm sha256 walk e t ≡ some u
      → run offset vm sha256 walk (e ∷ es) t ≡ run offset vm sha256 walk es u
  unfolding run
  run-cons e es t u h = rw (run, h) refl

  pub capture-state_at :
      (pc : ℕ) (r : Registry Mapper) (k k' : Collector)
      → state_at pc r k ≡ some k'
      → capture offset vm sha256 walk (capture_state pc) (record { registry = r; collector = k })
        ≡ some (record { registry = r; collector = k' })
  unfolding capture
  capture-state_at pc r k k' h = rw (capture, h) refl

  pub capture_exit-contracts :
      (r : Registry Mapper) (k : Collector) (contract : Bytes) (callers : List Bytes)
      → k.contracts ≡ contract ∷ callers
      → capture offset vm sha256 walk capture_exit (record { registry = r; collector = k })
        ≡ some (record { registry = r; collector = record k { contracts = callers } })
  unfolding capture
  capture_exit-contracts r k contract callers h = simp (capture, h)

  pub run-append :
      (es fs : List Event) (t t' : Tracing Mapper)
      → run offset vm sha256 walk es t ≡ some t'
      → run offset vm sha256 walk (es ++ fs) t ≡ run offset vm sha256 walk fs t'
  unfolding run
  run-append [] fs t t' h = let same : t ≡ t' = cc in rw same refl
  run-append (e ∷ es) fs t t' h = elim (Option-cases (capture offset vm sha256 walk e t)) [
    | inl fails ↦ absurd (ground arith)
    | inr (u, moves) ↦
        run-cons e (es ++ fs) t u moves ∙ run-append es fs u t' (sym (run-cons e es t u moves) ∙ h)
  ]

  -- A balanced trace runs, and leaves the calls as they were.
  pub run-Follows :
      (es : List Event) (r : Registry Mapper) (k : Collector) (contract : Bytes)
      (callers : List Bytes)
      → Balanced es
      → k.contracts ≡ contract ∷ callers
      → IsReady r k.line_hits
      → (k' : Collector) × (run offset vm sha256 walk es (record { registry = r; collector = k })
          ≡ some (record { registry = r; collector = k' }))
        × Follows k k'
  unfolding run capture
  run-Follows es r k contract callers nothing stack ready =
      (k, refl, record { contracts = refl; files = λ f old. old })
  run-Follows es r k contract callers (state pc {es = later} rest) stack ready =
      let (k1, moves, follows) = state_at-Follows pc r k contract callers stack ready in
      let (k2, runs, follows2) =
        run-Follows later r k1 contract callers rest (follows.contracts ∙ stack)
          (IsReady-Follows r follows ready) in
      (
        k2,
        run-cons (capture_state pc) later _ _ (capture-state_at pc r k k1 moves) ∙ runs,
        record {
          contracts = follows2.contracts ∙ follows.contracts;
          files = λ f old. follows2.files f (follows.files f old);
        },
      )
  run-Follows es r k contract callers (fault rest) stack ready =
      run-Follows _ r k contract callers rest stack ready
  run-Follows es r k contract callers (call to {body} {es = later} inner rest) stack ready =
      let entered = record k { contracts = to ∷ k.contracts } in
      let (k1, runs, follows) = run-Follows body r entered to k.contracts inner refl ready in
      let left = record k1 { contracts = k.contracts } in
      let ready1 : IsReady r left.line_hits =
        IsReady-Follows r {k = entered} {k' = k1} follows ready in
      let (k2, runs2, follows2) = run-Follows later r left contract callers rest stack ready1 in
      (
        k2,
        run-append body (capture_exit ∷ later) _ _ runs
            ∙ run-cons capture_exit later _ _
                (capture_exit-contracts r k1 to k.contracts follows.contracts)
            ∙ runs2,
        record {
          contracts = follows2.contracts;
          files = λ f old. follows2.files f (follows.files f old);
        },
      )

  -- A balanced trace, begun in a contract while every deployed contract is covered, runs to its end
  -- without a panic: the stack of contracts is then what it was, the package's variables are
  -- unchanged, and every deployed contract is still covered.
  pub run-Balanced :
      (es : List Event) (r : Registry Mapper) (k : Collector) (contract : Bytes)
      (callers : List Bytes)
      → Balanced es
      → k.contracts ≡ contract ∷ callers
      → IsReady r k.line_hits
      → (k' : Collector) × (run offset vm sha256 walk es (record { registry = r; collector = k })
          ≡ some (record { registry = r; collector = k' }))
        × (k'.contracts ≡ contract ∷ callers)
        × IsReady r k'.line_hits
  run-Balanced es r k contract callers balanced stack ready =
      let (k', runs, follows) = run-Follows es r k contract callers balanced stack ready in
      (k', runs, follows.contracts ∙ stack, IsReady-Follows r follows ready)

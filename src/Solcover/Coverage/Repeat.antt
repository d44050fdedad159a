-- ===== src/Solcover/Coverage/Repeat.antt =====
-- A repeated step of the EVM leaves the collector as it is.
use ethier.Common.{
  ℕ, Bool, true, ◌&&◌, List, [], ◌∷◌, Option, none, some, ◌≡◌, refl, sym, ap, ◌∙◌, Bytes, bytes_key,
  number_key, nat_beq, nat_beq_iff, if◌then◌else◌, lookup, Outcome, ok, err, panics, Bool-cases,
  Option-cases, inl, inr, arith, ◌⊎◌,
}
use ethier.Solcover.Location.{Location, MapError}
use ethier.Solcover.Registry.{Registry, source}
use ethier.Solcover.Coverage.{
  LineHits, Collector, set_hits, count_line, has_no_line, visit, state_at,
}

-- What a counted location leaves behind.
taken :
    (l : Location) (k k' : Collector) (hits : LineHits)
    → ◌≡◌ {A = Option Collector} (some (record k { line_hits = hits; last = l })) (some k')
    → (k'.last ≡ l) × (k'.contracts ≡ k.contracts)
taken l k k' hits made =
    let e : record k { line_hits = hits; last = l } ≡ k' = cc in
    (ap (λ q. q.last) (sym e), ap (λ q. q.contracts) (sym e))

count_line-last :
    (l : Location) (k k' : Collector)
    → count_line l k ≡ some k'
    → (k'.last ≡ l) × (k'.contracts ≡ k.contracts)
unfolding count_line set_hits
count_line-last l k k' h =
    elim (Bool-cases (nat_beq l.file_idx k.last.file_idx && nat_beq l.line k.last.line)) [
      | inl same ↦ taken l k k' k.line_hits (rw same at h)
      | inr moved ↦ elim (Option-cases (lookup k.line_hits l.source)) [
        | inl unknown ↦ absurd (ground arith)
        | inr (hits, known) ↦ taken l k k' _ (rw moved at (rw known at h))
      ]
    ]

if_true {ℓ} : {A : Type ℓ} (b : Bool) (x y : A) → b ≡ true → (if b then x else y) ≡ x
if_true b x y h = rw h

count_line_again : (l : Location) (k k' : Collector) → k'.last ≡ l → count_line l k' ≡ some k'
unfolding count_line
count_line_again l k k' same_last =
    let file : nat_beq l.file_idx k'.last.file_idx ≡ true =
      (nat_beq_iff l.file_idx k'.last.file_idx).1 (ap (λ q. q.file_idx) (sym same_last)) in
    let line : nat_beq l.line k'.last.line ≡ true =
      (nat_beq_iff l.line k'.last.line).1 (ap (λ q. q.line) (sym same_last)) in
    let both : nat_beq l.file_idx k'.last.file_idx && nat_beq l.line k'.last.line ≡ true =
      ground arith in
    if_true _ _ _ both ∙ ap (λ q. some (record k' { last = q })) (sym same_last)

visit_again :
    (found : Option Location) (k k' : Collector)
    → visit found k ≡ some k'
    → (visit found k' ≡ some k') × (k'.contracts ≡ k.contracts)
unfolding visit
visit_again none k k' h = let e : k ≡ k' = cc in (refl, ap (λ q. q.contracts) (sym e))
visit_again (some l) k k' h = elim (Bool-cases (has_no_line l)) [
  | inl none_ ↦
      let made : ◌≡◌ {A = Option Collector} (some k) (some k') = rw none_ at h in
      let e : k ≡ k' = cc in (rw none_, ap (λ q. q.contracts) (sym e))
  | inr lined ↦
      let (same_last, same_stack) = count_line-last l k k' (rw lined at h) in
      (rw lined (count_line_again l k k' same_last), same_stack)
]

-- What `CaptureState` makes of what `Source` returns.
abbrev at_source : Outcome MapError (Option Location) → Collector → Option Collector
at_source (ok found) k = visit found k
at_source (err e) k = none
at_source panics k = none

at_source_again :
    (o : Outcome MapError (Option Location)) (k k' : Collector)
    → at_source o k ≡ some k'
    → (at_source o k' ≡ some k') × (k'.contracts ≡ k.contracts)
at_source_again (ok found) k k' h = visit_again found k k' h
at_source_again (err e) k k' h = absurd (cc)
at_source_again panics k k' h = absurd (cc)

module _ {Mapper : Type 0} (pc : ℕ) (r : Registry Mapper) where
  state_at-at_source :
      (k : Collector) (contract : Bytes) (callers : List Bytes)
      → k.contracts ≡ contract ∷ callers
      → state_at pc r k ≡ at_source (source r contract pc) k
  unfolding state_at
  state_at-at_source k contract callers stack =
      simp (state_at, stack) (opened (source r contract pc))
    where
      opened :
          (o : Outcome MapError (Option Location))
          → (elim o [ ok loc ↦ visit loc k | err e ↦ none | panics ↦ none ]) ≡ at_source o k
      opened (ok loc) = refl
      opened (err e) = refl
      opened panics = refl

  state_at_empty : (k : Collector) → k.contracts ≡ [] → state_at pc r k ≡ none
  unfolding state_at
  state_at_empty k empty = simp (state_at, empty)

  nil-or-cons : (l : List Bytes) → (l ≡ []) ⊎ ((a : Bytes) × (rest : List Bytes) × (l ≡ a ∷ rest))
  nil-or-cons [] = inl refl
  nil-or-cons (a ∷ rest) = inr (a, rest, refl)

  -- A second CaptureState of the same program counter in the same contract, right behind a first
  -- one that returned, changes nothing: a repeated step is counted once.
  state_at_again : (k k' : Collector) → state_at pc r k ≡ some k' → state_at pc r k' ≡ some k'
  state_at_again k k' h = elim (nil-or-cons k.contracts) [
    | inl empty ↦
        let failed : ◌≡◌ {A = Option Collector} none (some k') = sym (state_at_empty k empty) ∙ h in
        absurd (cc)
    | inr (contract, callers, stack) ↦
        let (again, same_stack) =
          at_source_again (source r contract pc) k k'
            (sym (state_at-at_source k contract callers stack) ∙ h) in
        state_at-at_source k' contract callers (same_stack ∙ stack) ∙ again
  ]

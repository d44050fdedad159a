-- ===== src/Solcover/Coverage/Follow.antt =====
-- What one step of a trace leaves in the collector, and what makes it run.
use ethier.Common.{
  ℕ, ◌+◌, ◌%◌, ◌^◌, false, ◌&&◌, List, [], ◌∷◌, ◌++◌, Option, none, some, ◌≡◌, refl, ap, ◌∙◌, Bytes,
  bytes_key, number_key, get_elem?, nat_beq, lookup, assign, lookup-assign, ok, Bool-cases,
  Option-cases, inl, inr,
}
use ethier.Solcover.Location.{Location}
use ethier.Solcover.Registry.{CompiledContract, Registry, location, source}
use ethier.Solcover.Coverage.{
  LineHits, Collector, Event, capture_state, capture_enter, capture_exit, capture_fault, set_hits,
  get_hits, count_line, has_no_line, visit, state_at,
}

-- A file that is a key of the hits.
abbrev pub Knows : LineHits → Bytes → Type 0
Knows line_hits f = (hits : List (ℕ × ℕ)) × (lookup line_hits f ≡ some hits)

-- A contract with a location for each of its instructions, in files that the hits know.
pub record IsCovered (line_hits : LineHits) (c : CompiledContract) : Type 0 where
  pub numbered :
      (pc i : ℕ)
      → lookup c.instructions pc ≡ some i
      → (l : Location) × (get_elem? c.locations i ≡ some l)
  pub known :
      (i : ℕ) (l : Location)
      → get_elem? c.locations i ≡ some l
      → has_no_line l ≡ false
      → Knows line_hits l.source

-- Every deployed contract is covered.
abbrev pub IsReady : {Mapper : Type 0} → Registry Mapper → LineHits → Type 0
IsReady r line_hits =
    (addr : Bytes) (c : CompiledContract)
    → lookup r.deployed_contracts addr ≡ some c
    → IsCovered line_hits c

-- A trace between the start and the end of a call: states, faults and whole inner calls.
pub data Balanced : List Event → Type 0 where
  nothing : Balanced []
  state : (pc : ℕ) {es : List Event} → Balanced es → Balanced (capture_state pc ∷ es)
  fault : {es : List Event} → Balanced es → Balanced (capture_fault ∷ es)
  call :
      (to : Bytes) {body es : List Event}
      → Balanced body
      → Balanced es
      → Balanced (capture_enter to ∷ body ++ capture_exit ∷ es)

-- The calls are the same, and no file is forgotten.
pub record Follows (cc cc' : Collector) : Type 0 where
  pub contracts : cc'.contracts ≡ cc.contracts
  pub files : (f : Bytes) → Knows cc.line_hits f → Knows cc'.line_hits f

pub Knows-assign :
    (line_hits : LineHits) (f : Bytes) (hits : List (ℕ × ℕ)) (g : Bytes)
    → Knows line_hits g
    → Knows (assign line_hits f hits) g
Knows-assign line_hits f hits g (old, h) = elim (Bool-cases (bytes_key.same f g)) [
  | inl e ↦ (hits, lookup-assign line_hits f hits g ∙ (rw e))
  | inr e ↦ (old, lookup-assign line_hits f hits g ∙ (rw e h))
]

count_line-Follows :
    (l : Location) (k : Collector)
    → Knows k.line_hits l.source
    → (k' : Collector) × (count_line l k ≡ some k') × Follows k k'
unfolding count_line set_hits
count_line-Follows l k (hits, h) =
    elim (Bool-cases (nat_beq l.file_idx k.last.file_idx && nat_beq l.line k.last.line)) [
      | inl same ↦
          (record k { last = l }, rw same, record { contracts = refl; files = λ f old. old })
      | inr moved ↦ (
        record k {
          line_hits =
              assign k.line_hits l.source
                (assign hits l.line ((get_hits k.line_hits l.source l.line + 1) % 2 ^ 64));
          last = l;
        },
        rw (moved, h),
        record { contracts = refl; files = λ f old. Knows-assign k.line_hits l.source _ f old },
      )
    ]

visit-Follows :
    (found : Option Location) (k : Collector)
    → ((l : Location) → found ≡ some l → has_no_line l ≡ false → Knows k.line_hits l.source)
    → (k' : Collector) × (visit found k ≡ some k') × Follows k k'
unfolding visit
visit-Follows none k known = (k, refl, record { contracts = refl; files = λ f old. old })
visit-Follows (some l) k known = elim (Bool-cases (has_no_line l)) [
  | inl none_ ↦ (k, rw none_, record { contracts = refl; files = λ f old. old })
  | inr lined ↦
      let (k', counted, follows) = count_line-Follows l k (known l refl lined) in
      (k', rw (lined, counted), follows)
]

pub IsCovered-Follows :
    {k k' : Collector} {c : CompiledContract}
    → Follows k k'
    → IsCovered k.line_hits c
    → IsCovered k'.line_hits c
IsCovered-Follows follows covered = record {
  numbered = covered.numbered;
  known = λ i l here lined. follows.files l.source (covered.known i l here lined);
}

module _ {Mapper : Type 0} where
  pub IsReady-Follows :
      (r : Registry Mapper) {k k' : Collector}
      → Follows k k'
      → IsReady r k.line_hits
      → IsReady r k'.line_hits
  IsReady-Follows r follows ready addr c deployed =
      IsCovered-Follows follows (ready addr c deployed)

  -- `Source` finds a location or none, and a location's file is known.
  pub source_total :
      (r : Registry Mapper) (hits : LineHits) (addr : Bytes) (pc : ℕ)
      → IsReady r hits
      → (found : Option Location) × (source r addr pc ≡ ok found)
        × ((l : Location) → found ≡ some l → has_no_line l ≡ false → Knows hits l.source)
  unfolding source location
  source_total r hits addr pc ready = elim (Option-cases (lookup r.deployed_contracts addr)) [
    | inl missing ↦ (none, rw missing, λ l h. absurd (cc))
    | inr (c, deployed) ↦ elim (Option-cases (lookup c.instructions pc)) [
      | inl between ↦ (none, rw (deployed, location, between), λ l h. absurd (cc))
      | inr (i, begins) ↦
          let covered = ready addr c deployed in
          let (l, here) = covered.numbered pc i begins in
          (
            some l,
            rw (deployed, location, begins, here),
            λ l' same lined.
                let same' : l ≡ l' = cc in covered.known i l' (here ∙ ap some same') lined,
          )
    ]
  ]

  pub state_at-visit :
      (pc : ℕ) (r : Registry Mapper) (k : Collector) (contract : Bytes) (callers : List Bytes)
      (found : Option Location)
      → k.contracts ≡ contract ∷ callers
      → source r contract pc ≡ ok found
      → state_at pc r k ≡ visit found k
  unfolding state_at
  state_at-visit pc r k contract callers found stack finds = simp (state_at, stack, finds)

  pub state_at-Follows :
      (pc : ℕ) (r : Registry Mapper) (k : Collector) (contract : Bytes) (callers : List Bytes)
      → k.contracts ≡ contract ∷ callers
      → IsReady r k.line_hits
      → (k' : Collector) × (state_at pc r k ≡ some k') × Follows k k'
  state_at-Follows pc r k contract callers stack ready =
      let (found, finds, known) = source_total r k.line_hits contract pc ready in
      let (k', visited, follows) = visit-Follows found k known in
      (k', state_at-visit pc r k contract callers found stack finds ∙ visited, follows)

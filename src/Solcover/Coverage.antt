-- ===== src/Solcover/Coverage.antt =====
-- solcover/coverage.go: the collector, which follows the calls of an EVM trace and counts the lines
-- that it enters. `none` is a panic. The order in which Go walks a map is a parameter.
pub mod Report
pub mod Follow
pub mod Laws
pub mod Calls
pub mod Fresh
pub mod Counts
pub mod Repeat
mod Tests
use ethier.Common.{
  ℕ, ◌+◌, ◌%◌, ◌^◌, Bool, ◌&&◌, ◌||◌, List, [], ◌∷◌, ◌++◌, map, Option, none, some, Bytes,
  bytes_key, number_key, length, get_elem?, nat_beq, if◌then◌else◌, lookup, assign, ok, err, panics,
}
use ethier.Common.Int.{pos}
use ethier.Solcover.ByteCode.{OpCodes}
use ethier.Solcover.Location.{Location, MapperPackage}
use ethier.Solcover.Registry.{
  CompiledContract, ContractMatcher, Registry, register_deployed_contract, source,
}

-- A `map[string]map[int]int`. A count is the pattern of a 64-bit int.
abbrev pub LineHits : Type 0
LineHits = List (Bytes × List (ℕ × ℕ))

-- A `coverageCollector`; the current contract, the last one of the slice, stands first.
pub record Collector : Type 0 where
  pub contracts : List Bytes
  pub line_hits : LineHits
  pub last : Location

-- The calls that the EVM makes of the collector, with the arguments that it reads.
pub data Event : Type 0 where
  capture_tx_start capture_tx_end capture_end capture_fault : Event
  capture_start : (to : Bytes) (create : Bool) (input : Bytes) → Event
  capture_state : (pc : ℕ) → Event
  capture_enter : (to : Bytes) → Event
  capture_exit : Event

-- `new(Location)`
abbrev pub zero_location : Location
zero_location = record {
  instruction_number = 0;
  op_code = 0;
  file_idx = 0;
  source = [];
  start = pos 0;
  length_ = pos 0;
  line = 0;
  col = 0;
  end_line = 0;
  end_col = 0;
  jump = [];
  modifier_depth = pos 0;
}

-- `lineHits[f][line] = n`, a panic on the nil map of an unknown file.
unfoldable pub set_hits : LineHits → Bytes → ℕ → ℕ → Option LineHits
set_hits line_hits file line n = elim (lookup line_hits file) [
  | none ↦ none
  | some hits ↦ some (assign line_hits file (assign hits line n))
]

-- `lineHits[f][line]`, which is 0 where it is missing.
unfoldable pub get_hits : LineHits → Bytes → ℕ → ℕ
get_hits line_hits file line = elim (lookup line_hits file) [
  | none ↦ 0
  | some hits ↦ elim (lookup hits line) [ none ↦ 0 | some n ↦ n ]
]

-- The loop over a contract's locations in `Collector`.
unfoldable pub reset_lines : List Bytes → List Location → LineHits → Option LineHits
unfolding set_hits
reset_lines source_list [] line_hits = some line_hits
reset_lines source_list (l ∷ ls) line_hits = elim (get_elem? source_list l.file_idx) [
  | none ↦ reset_lines source_list ls line_hits
  | some f ↦ elim (set_hits line_hits f l.line 0) [
    | none ↦ none
    | some reset ↦ reset_lines source_list ls reset
  ]
]

-- The loop over the contracts.
unfoldable pub reset_contracts : List CompiledContract → LineHits → Option LineHits
unfolding reset_lines
reset_contracts [] line_hits = some line_hits
reset_contracts (c ∷ cs) line_hits = elim (reset_lines c.source_list c.locations line_hits) [
  | none ↦ none
  | some reset ↦ reset_contracts cs reset
]

-- The part of `CaptureState` behind its guard.
unfoldable pub count_line : Location → Collector → Option Collector
unfolding set_hits get_hits
count_line l cc =
    if nat_beq l.file_idx cc.last.file_idx && nat_beq l.line cc.last.line
    then some (record cc { last = l })
    else elim (set_hits cc.line_hits l.source l.line
        ((get_hits cc.line_hits l.source l.line + 1) % 2 ^ 64)) [
          | none ↦ none
          | some line_hits ↦ some (record cc { line_hits = line_hits; last = l })
        ]

-- `loc.Source == "" || loc.Line == 0`
unfoldable pub has_no_line : Location → Bool
has_no_line l = nat_beq (length l.source) 0 || nat_beq l.line 0

-- `CaptureState` of a location, or of none.
unfoldable pub visit : Option Location → Collector → Option Collector
unfolding count_line has_no_line
visit none cc = some cc
visit (some l) cc = if has_no_line l then some cc else count_line l cc

-- The package's variables and the collector.
pub record Tracing (Mapper : Type 0) : Type 0 where
  pub registry : Registry Mapper
  pub collector : Collector

module _ {Mapper : Type 0} where
  -- `Collector()`, given the contracts in the order in which the two maps are walked.
  unfoldable pub new_collector :
      (List (Bytes × CompiledContract) → List (Bytes × CompiledContract))
      → (List (Bytes × ContractMatcher) → List (Bytes × ContractMatcher))
      → Registry Mapper
      → Option Collector
  unfolding reset_contracts
  new_collector walk_hashes walk_matchers r =
      let by_hash = map (λ e. e.1) (walk_hashes r.contracts_by_hash) in
      let by_matcher = map (λ e. e.1.compiled) (walk_matchers r.contract_matchers) in
      elim (reset_contracts (by_hash ++ by_matcher) (map (λ e. (e.0, [])) r.source_code)) [
        | none ↦ none
        | some line_hits ↦
            some (record { contracts = []; line_hits = line_hits; last = zero_location })
      ]

  unfoldable pub state_at : ℕ → Registry Mapper → Collector → Option Collector
  unfolding visit
  state_at pc r cc = elim cc.contracts [
    | [] ↦ none
    | contract ∷ callers ↦ elim (source r contract pc) [
      | ok loc ↦ visit loc cc
      | err e ↦ none
      | panics ↦ none
    ]
  ]

module _ {Mapper : Type 0} (offset : MapperPackage Mapper) (vm : OpCodes) (sha256 : Bytes → Bytes)
    (walk : List (Bytes × ContractMatcher) → List (Bytes × ContractMatcher)) where
  unfoldable pub capture : Event → Tracing Mapper → Option (Tracing Mapper)
  unfolding state_at
  capture (capture_start to create input) t = some (record {
    registry =
        if create
        then register_deployed_contract offset vm sha256 walk to input t.registry
        else t.registry;
    collector = record t.collector { contracts = to ∷ [] };
  })
  capture (capture_state pc) t = elim (state_at pc t.registry t.collector) [
    | none ↦ none
    | some cc ↦ some (record t { collector = cc })
  ]
  capture (capture_enter to) t =
      some (record t { collector = record t.collector { contracts = to ∷ t.collector.contracts } })
  capture capture_exit t = elim t.collector.contracts [
    | [] ↦ none
    | contract ∷ callers ↦
        some (record t { collector = record t.collector { contracts = callers } })
  ]
  capture _ t = some t

  -- A trace.
  unfoldable pub run : List Event → Tracing Mapper → Option (Tracing Mapper)
  unfolding capture
  run [] t = some t
  run (e ∷ es) t = elim (capture e t) [ none ↦ none | some t' ↦ run es t' ]

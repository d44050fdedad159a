-- ===== src/Solcover/Coverage/Tests.antt =====
-- Runs of solcover/coverage.go on a contract of three instructions, and its theorem at a concrete
-- trace.
use mathlib.Core.List.{
  Mem, Pairwise, Pairwise-singleton, forall_mem-cons, not-mem-nil, reverse, reverse_perm,
}
use mathlib.Core.List.Perm
use mathlib.Core.HLevel.{¬_prop}
use ethier.Common.{
  ℕ, zero, suc, false, List, [], ◌∷◌, Option, none, some, ◌≡◌, ◌≢◌, refl, ap, Bytes, bytes_key,
  bytes_beq, number_key, codes, length, get_elem?, leb, ◌&&◌, lookup, Bool-cases, inl, inr, arith,
}
use ethier.Golang.Sort.{sort_slice}
use ethier.Golang.Print.{print_int}
use ethier.Solcover.ByteCode.{OpCodes}
use ethier.Solcover.Location.{Location, MapperPackage}
use ethier.Solcover.Registry.{CompiledContract, Registry, source}
use ethier.Solcover.Coverage.{
  LineHits, Collector, Event, capture_start, capture_state, capture_enter, capture_exit,
  zero_location, has_no_line, new_collector, state_at, run,
}
use ethier.Solcover.Coverage.Report.{hits_of, lcov_trace_file}
use ethier.Solcover.Coverage.Report.Laws.{DistinctLines, lcov_trace_file-walk}
use ethier.Solcover.Coverage.Follow.{Knows, IsCovered, IsReady, Balanced, nothing, state, call}
use ethier.Solcover.Coverage.Laws.{run-Balanced}
use ethier.Solcover.Coverage.Repeat.{}

abbrev pub evm : OpCodes
evm = record { is_push = λ c. leb 0x60 c && leb c 0x7f; push0 = 0x5f }

-- A mapper that keeps nothing and is never asked.
abbrev pub text_mapper : MapperPackage Bytes
text_mapper = record {
  new_mapper = λ contents. contents;
  len = length;
  line_and_column = λ m n. none;
}

abbrev pub toy_sha : Bytes → Bytes
toy_sha b = b

abbrev pub same_order {ℓ} : {A : Type ℓ} → List A → List A
same_order xs = xs

abbrev pub file_name : Bytes
file_name = codes "A.sol"

abbrev on_line : ℕ → ℕ → Location
on_line i line = record zero_location { instruction_number = i; source = file_name; line = line }

abbrev first_line : Location
first_line = on_line 0 1

abbrev third_line : Location
third_line = on_line 1 3

abbrev two_instructions : CompiledContract
two_instructions = record {
  contract = record { code = []; runtime_code = []; src_map_runtime = [] };
  name = codes "A";
  source_list = file_name ∷ [];
  locations = first_line ∷ third_line ∷ [];
  instructions = (0, 0) ∷ (2, 1) ∷ [];
}

abbrev pub address : Bytes
address = codes "0xa"

abbrev pub deployed : Registry Bytes
deployed = record {
  source_code =
      (file_name, record { contents = codes "x"; mapper = codes "x"; is_external = false }) ∷ [];
  contracts_by_name = [];
  contracts_by_hash = (codes "code", two_instructions) ∷ [];
  contract_matchers = [];
  deployed_contracts = (address, two_instructions) ∷ [];
}

abbrev pub no_hits : LineHits
no_hits = (file_name, (1, 0) ∷ (3, 0) ∷ []) ∷ []

abbrev fresh : Collector
fresh = record { contracts = []; line_hits = no_hits; last = zero_location }

collector_fresh : new_collector same_order same_order deployed ≡ some fresh
unfolding new_collector
collector_fresh = refl

-- The first line, an inner call of the same contract, and the first line twice.
abbrev pub trace : List Event
trace =
    capture_state 0
    ∷ capture_enter address
    ∷ capture_state 2
    ∷ capture_exit
    ∷ capture_state 0
    ∷ capture_state 0
    ∷ []

abbrev after_trace : LineHits
after_trace = (file_name, (1, 2) ∷ (3, 1) ∷ []) ∷ []

trace_hits :
    run text_mapper evm toy_sha same_order
      (capture_start address false [] ∷ trace)
      (record { registry = deployed; collector = fresh })
    ≡ some (record {
      registry = deployed;
      collector = record { contracts = address ∷ []; line_hits = after_trace; last = first_line };
    })
unfolding run source
trace_hits = refl

trace_report :
    lcov_trace_file text_mapper same_order same_order deployed after_trace
    ≡ codes "SF:A.sol\nFNF:0\nFNH:0\nDA:1,2\nDA:3,1\nLH:2\nLF:2\nend_of_record\n"
unfolding lcov_trace_file sort_slice print_int
trace_report = refl

abbrev pub started : Collector
started = record fresh { contracts = address ∷ [] }

pub trace-Balanced : Balanced trace
trace-Balanced = state 0 (call address (state 2 nothing) (state 0 (state 0 nothing)))

two_instructions-IsCovered : IsCovered no_hits two_instructions
two_instructions-IsCovered = record { numbered = numbered_; known = known_ }
  where
    numbered_ :
        (pc i : ℕ)
        → lookup two_instructions.instructions pc ≡ some i
        → (l : Location) × (get_elem? two_instructions.locations i ≡ some l)
    numbered_ pc zero h = (first_line, refl)
    numbered_ pc (suc zero) h = (third_line, refl)
    numbered_ pc (suc (suc i)) h = absurd (ground arith)

    known_ :
        (i : ℕ) (l : Location)
        → get_elem? two_instructions.locations i ≡ some l
        → has_no_line l ≡ false
        → Knows no_hits l.source
    known_ zero l h lined =
        let e : l ≡ first_line = cc in ((1, 0) ∷ (3, 0) ∷ [], rw (ap (λ q. q.source) e) refl)
    known_ (suc zero) l h lined =
        let e : l ≡ third_line = cc in ((1, 0) ∷ (3, 0) ∷ [], rw (ap (λ q. q.source) e) refl)
    known_ (suc (suc i)) l h lined = cc

pub deployed-IsReady : IsReady deployed no_hits
deployed-IsReady addr c h = elim (Bool-cases (bytes_beq address addr)) [
  | inl same ↦
      let found : ◌≡◌ {A = Option CompiledContract} (some two_instructions) (some c) =
        rw same at h in
      let e : c ≡ two_instructions = cc in rw e two_instructions-IsCovered
  | inr other ↦
      let missing : ◌≡◌ {A = Option CompiledContract} none (some c) = rw other at h in absurd (cc)
]

run-Balanced_example :
    (k' : Collector) × (run text_mapper evm toy_sha same_order trace
        (record { registry = deployed; collector = started })
      ≡ some (record { registry = deployed; collector = k' }))
    × (k'.contracts ≡ address ∷ [])
    × IsReady deployed k'.line_hits
run-Balanced_example =
    run-Balanced text_mapper evm toy_sha same_order trace deployed started address [] trace-Balanced
      refl deployed-IsReady

abbrev on_first : Collector
on_first = record started { line_hits = (file_name, (1, 1) ∷ (3, 0) ∷ []) ∷ []; last = first_line }

first_step : state_at 0 deployed started ≡ some on_first
unfolding state_at source
first_step = refl

abbrev two_counts : List (ℕ × ℕ)
two_counts = (1, 2) ∷ (3, 1) ∷ []

after_trace-DistinctLines : (file : Bytes) → DistinctLines (hits_of after_trace file)
unfolding hits_of
after_trace-DistinctLines file = elim (Bool-cases (bytes_beq file_name file)) [
  | inl same ↦ rw same distinct
  | inr other ↦ rw other Pairwise.nil
]
  where
    apart : (b : ℕ × ℕ) → Mem b ((3, 1) ∷ []) → 1 ≢ b.0
    apart =
        (forall_mem-cons {p = λ b. 1 ≢ b.0} (λ b. ¬_prop)).1
          (omega arith, λ b m. absurd (not-mem-nil m))

    distinct : DistinctLines two_counts
    distinct = Pairwise.cons apart (Pairwise-singleton _ (3, 1))

lcov_trace_file-walk_example :
    lcov_trace_file text_mapper same_order same_order deployed after_trace
    ≡ lcov_trace_file text_mapper reverse reverse deployed after_trace
lcov_trace_file-walk_example =
    lcov_trace_file-walk text_mapper same_order reverse (λ m. Perm.rfl) reverse_perm same_order
      reverse deployed after_trace (λ m. Perm.rfl) reverse_perm after_trace-DistinctLines

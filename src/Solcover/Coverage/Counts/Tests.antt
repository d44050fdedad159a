-- ===== src/Solcover/Coverage/Counts/Tests.antt =====
-- The counts of a concrete trace.
use ethier.Common.{
  ℕ, ◌+◌, ◌%◌, ◌^◌, ◌<◌, [], some, ◌≡◌, Bytes, bytes_key, number_key, refl, ◌==◌, Bool-cases, inl,
  inr, arith,
}
use ethier.Solcover.Coverage.{Collector, get_hits, zero_location, run}
use ethier.Solcover.Coverage.Counts.Lines.{entered, occurrences}
use ethier.Solcover.Coverage.Counts.{lines_of, run-occurrences}
use ethier.Solcover.Coverage.Tests.{
  evm, text_mapper, toy_sha, same_order, address, trace, started, deployed, no_hits, file_name,
  trace-Balanced, deployed-IsReady,
}

no_hits-lt : (f : Bytes) (n : ℕ) → get_hits no_hits f n < 2 ^ 64
unfolding get_hits
no_hits-lt f n = elim (Bool-cases (file_name == f)) [
  | inr other ↦ rw (get_hits, other) (omega arith)
  | inl here ↦ elim (Bool-cases (1 == n)) [
    | inl first ↦ rw (get_hits, here, first) (omega arith)
    | inr later ↦ elim (Bool-cases (3 == n)) [
      | inl third ↦ rw (get_hits, here, later, third) (omega arith)
      | inr neither ↦ rw (get_hits, here, later, neither) (omega arith)
    ]
  ]
]

run-occurrences_example :
    (k' : Collector) × (run text_mapper evm toy_sha same_order trace
        (record { registry = deployed; collector = started })
      ≡ some (record { registry = deployed; collector = k' }))
    × ((f : Bytes) (n : ℕ)
        → get_hits k'.line_hits f n
          ≡ (get_hits no_hits f n
              + occurrences f n (entered zero_location (lines_of deployed address trace-Balanced)))
            % 2 ^ 64)
run-occurrences_example =
    run-occurrences text_mapper evm toy_sha same_order trace deployed started address []
      trace-Balanced refl deployed-IsReady no_hits-lt

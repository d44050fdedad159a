-- ===== src/Ethtest/Errors.antt =====
-- The errors of the ethtest packages, and what a test's `testing.TB` does with them.
use ethier.Common.{List, ◌∷◌, Bytes, Outcome, ok, err, panics}

-- An error of a package outside the repository by a number, and the texts that wrap errors.
pub data TestError : Type 0 where
  external : (code : Bytes) → TestError
  wrapped : (site : Bytes) → TestError → TestError
  unsupported_entity : (entity : Bytes) → TestError
  unexpected_address : (got want : Bytes) → TestError
  unexpected_contracts : (got want : List Bytes) → TestError
  no_abi : TestError

-- What `tb.Cleanup` was given.
pub data Cleanup : Type 0 where
  close_backend close_coordinator : Cleanup

-- A test: the errors reported to it, the last first, and its cleanups, the last first, which is the
-- order in which they are called.
pub record Tb : Type 0 where
  pub reports : List TestError
  pub cleanups : List Cleanup

-- A call that returned, or ended in `tb.Fatal`, or in a panic.
pub data Tested {ℓ} (A : Type ℓ) : Type ℓ where
  returned : A → Tested A
  fatal : Tested A
  panicked : Tested A

-- `tb.Error`
unfoldable pub report : TestError → Tb → Tb
report e tb = record tb { reports = e ∷ tb.reports }

-- `tb.Fatal` on an error, under the text of the call.
unfoldable pub or_fatal {ℓ} : {A : Type ℓ} → Bytes → Outcome TestError A → Tb → Tested A × Tb
unfolding report
or_fatal site (ok a) tb = (returned a, tb)
or_fatal site (err e) tb = (fatal, report (wrapped site e) tb)
or_fatal site panics tb = (panicked, tb)

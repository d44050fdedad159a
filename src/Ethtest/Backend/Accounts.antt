-- ===== src/Ethtest/Backend/Accounts.antt =====
-- ethtest/simbackend.go: a backend's accounts by number. An index out of range panics.
use ethier.Common.{ℕ, none, some, Bytes, get_elem?, Outcome, ok, ◌>>=◌, or_panic}
use ethier.Common.Int.{ℤ}
use ethier.Ethtest.Errors.{TestError}
use ethier.Ethtest.Backend.{TransactOpts, CallOpts, SimulatedBackend}

module _ {Chain Signer Mapper : Type 0} where
  -- `(*SimulatedBackend).Acc`
  unfoldable pub acc :
      ℕ → SimulatedBackend Chain Signer Mapper → Outcome TestError (TransactOpts Signer)
  acc account sb = or_panic (get_elem? sb.accounts account) >>= λ a.
      ok (record { from = a.from; signer = a.signer; value = none })

  -- `(*SimulatedBackend).Addr`
  unfoldable pub addr : ℕ → SimulatedBackend Chain Signer Mapper → Outcome TestError Bytes
  addr account sb = or_panic (get_elem? sb.accounts account) >>= λ a. ok (a.from)

  -- `(*SimulatedBackend).WithValueFrom`
  unfoldable pub with_value_from :
      ℕ → ℤ → SimulatedBackend Chain Signer Mapper → Outcome TestError (TransactOpts Signer)
  unfolding acc
  with_value_from account value sb =
      acc account sb >>= λ opts. ok (record opts { value = some value })

  -- `(*SimulatedBackend).CallFrom`
  unfoldable pub call_from : ℕ → SimulatedBackend Chain Signer Mapper → Outcome TestError CallOpts
  call_from account sb =
      or_panic (get_elem? sb.accounts account) >>= λ a. ok (record { from = a.from })

-- ===== src/Ethtest/Backend/Laws.antt =====
-- Backends with their accounts, and the passage of blocks.
use ethier.Common.{
  ℕ, ◌<◌, List, [], ◌∷◌, Option, none, some, ◌≡◌, sym, ap, ◌∙◌, Bytes, All, bytes_key, get_elem?,
  lookup, Outcome, ok, ◌>>=◌, or_panic, bind-ok, ok-injective,
}
use ethier.Common.Int.{ℤ, positive_part}
use ethier.Ethtest.Errors.{TestError}
use ethier.Ethtest.Backend.{TransactOpts, Geth, SimulatedBackend}
use ethier.Ethtest.Backend.Accounts.{acc}
use ethier.Ethtest.Backend.Genesis.{Genesis, genesis, new_simulated_backend}
use ethier.Ethtest.Backend.Genesis.Laws.{entities, IsKey, genesis-Derived}
use ethier.Solcover.Registry.{CompiledContract, ContractMatcher, Registry}
use ethier.Solcover.Coverage.{new_collector}

All-zip :
    {P Q R : Bytes → Type 0}
    → ((m : Bytes) → P m → Q m → R m)
    → (l : List Bytes) → All P l
    → All Q l
    → All R l
All-zip f [] p q = tt
All-zip f (m ∷ l) (p, ps) (q, qs) = (f m p q, All-zip f l ps qs)

found_account :
    {Signer : Type 0} → Option (TransactOpts Signer) → Outcome TestError (TransactOpts Signer)
found_account found =
    or_panic found >>= λ a. ok (record { from = a.from; signer = a.signer; value = none })

module _ {Chain Tx Key Signer Mapper : Type 0} (geth : Geth Chain Tx Key Signer)
    (walk_hashes : List (Bytes × CompiledContract) → List (Bytes × CompiledContract))
    (walk_matchers : List (Bytes × ContractMatcher) → List (Bytes × ContractMatcher)) where
  new_simulated_backend-genesis :
      (n : ℤ) (r : Registry Mapper) (sb : SimulatedBackend Chain Signer Mapper)
      → new_simulated_backend geth walk_hashes walk_matchers n r ≡ ok sb
      → (g : Genesis Signer) × (genesis geth n ≡ ok g)
        × (sb.accounts ≡ g.accounts)
        × (sb.mock_accounts ≡ g.mock_accounts)
  unfolding new_simulated_backend
  new_simulated_backend-genesis n r sb h =
      let (g, made, h') = bind-ok (genesis geth n) _ h in
      let (coll, collects, done) =
        bind-ok (or_panic (new_collector walk_hashes walk_matchers r)) _ h' in
      let same = ok-injective done in
      (g, made, sym (ap (λ b. b.accounts) same), sym (ap (λ b. b.mock_accounts) same))

  -- Two backends that were made give the same answer for every account number that both were asked
  -- for, and know the same account for every mocked entity.
  pub new_simulated_backend-acc :
      (n n' : ℤ) (r r' : Registry Mapper) (sb sb' : SimulatedBackend Chain Signer Mapper)
      → new_simulated_backend geth walk_hashes walk_matchers n r ≡ ok sb
      → new_simulated_backend geth walk_hashes walk_matchers n' r' ≡ ok sb'
      → ((i : ℕ) → i < positive_part n → i < positive_part n' → acc i sb ≡ acc i sb')
        × All (λ m. lookup sb.mock_accounts m ≡ lookup sb'.mock_accounts m) entities
  unfolding acc found_account
  new_simulated_backend-acc n n' r r' sb sb' h h' =
      let (g, made, accounts, mocks) = new_simulated_backend-genesis n r sb h in
      let (g', made', accounts', mocks') = new_simulated_backend-genesis n' r' sb' h' in
      let d = genesis-Derived geth n g made in
      let d' = genesis-Derived geth n' g' made' in
      (
        λ i lt lt'.
            let (a, seed, here) = d.numbered i lt in
            let (a', seed', here') = d'.numbered i lt' in
            let same : a ≡ a' = ok-injective (sym seed ∙ seed') in
            ap (λ l. found_account (get_elem? l i)) accounts
            ∙ ap found_account (here ∙ ap some same ∙ sym here')
            ∙ sym (ap (λ l. found_account (get_elem? l i)) accounts'),
        All-zip {P = IsKey g.mock_accounts} {Q = IsKey g'.mock_accounts}
            {R = λ m. lookup sb.mock_accounts m ≡ lookup sb'.mock_accounts m}
            (λ m (a, here) (a', here').
              let same : a ≡ a' =
                ok-injective (sym (d.mocked m a here).0 ∙ (d'.mocked m a' here').0) in
              ap (λ l. lookup l m) mocks
              ∙ here
              ∙ ap some same
              ∙ sym here'
              ∙ sym (ap (λ l. lookup l m) mocks'))
            entities d.named d'.named,
      )

-- ===== src/Ethtest/Backend/Life.antt =====
-- A backend over its life: from the contracts that were registered, by its construction, through all
-- transactions.
mod Tests
use ethier.Common.{
  Bool, true, List, [], ◌∷◌, ◌≡◌, refl, sym, ap, ap₂, subst, ◌∙◌, Bytes, Outcome, ok, bind-ok,
  ok-injective,
}
use ethier.Common.Entries.{Visits}
use ethier.Common.Int.{ℤ}
use ethier.Ethtest.Errors.{TestError}
use ethier.Ethtest.Backend.{Geth, SimulatedBackend, send_transaction}
use ethier.Ethtest.Backend.Genesis.{genesis, new_simulated_backend}
use ethier.Ethtest.Backend.Transactions.{Covers, settled, send_transaction_lem}
use ethier.Solcover.ByteCode.{OpCodes}
use ethier.Solcover.Location.{MapperPackage}
use ethier.Solcover.Registry.{CompiledContract, ContractMatcher, Registry}
use ethier.Solcover.Registry.Consistent.{IsDeployable, IsConsistent-IsDeployable, no_registrations}
use ethier.Solcover.Registry.Reachable.{Reaches, Reaches-IsConsistent}
use ethier.Solcover.Coverage.Calls.{Calls}
use ethier.Solcover.Coverage.Fresh.{new_collector-IsTracked}

abbrev Result : Type 0
Result = Outcome TestError (Unit {0})

module _ {Chain Tx Key Signer : Type 0} (geth : Geth Chain Tx Key Signer) where
  -- The embedded chain alone, without a collector: the results, and the chain at the end.
  pub bare_all : List Tx → Bool → Chain → List Result × Chain
  bare_all [] auto_commit chain = ([], chain)
  bare_all (tx ∷ txs) auto_commit chain =
      let sent = geth.send_transaction tx chain in
      let rest = bare_all txs auto_commit (settled geth sent.result auto_commit sent.chain) in
      (sent.result ∷ rest.0, rest.1)

module _ {Chain Tx Key Signer Mapper : Type 0} (geth : Geth Chain Tx Key Signer)
    (offset : MapperPackage Mapper) (vm : OpCodes) (sha256 : Bytes → Bytes)
    (walk : List (Bytes × ContractMatcher) → List (Bytes × ContractMatcher)) where
  -- The backend's transactions, one after the other.
  pub send_all :
      List Tx
      → SimulatedBackend Chain Signer Mapper
      → List Result × SimulatedBackend Chain Signer Mapper
  unfolding send_transaction
  send_all [] sb = ([], sb)
  send_all (tx ∷ txs) sb =
      let (result, sb') = send_transaction geth offset vm sha256 walk tx sb in
      let rest = send_all txs sb' in (result ∷ rest.0, rest.1)

  module _ (sends : (tx : Tx) (c : Chain) → Calls (geth.send_transaction tx c).trace)
      (commits : (c : Chain) → Calls (geth.commit c).trace) where
    send_all-bare_all :
        (txs : List Tx) (sb : SimulatedBackend Chain Signer Mapper)
        → Covers geth offset vm sha256 walk sb
        → ((send_all txs sb).0 ≡ (bare_all geth txs sb.auto_commit sb.chain).0)
          × ((send_all txs sb).1.chain ≡ (bare_all geth txs sb.auto_commit sb.chain).1)
          × Covers geth offset vm sha256 walk (send_all txs sb).1
    unfolding send_all bare_all
    send_all-bare_all [] sb covers = (refl, refl, covers)
    send_all-bare_all (tx ∷ txs) sb covers =
        let sent = geth.send_transaction tx sb.chain in
        let (sb', sends_, chain, mode, covers') =
          send_transaction_lem geth offset vm sha256 walk tx sb (sends tx sb.chain)
            (commits sent.chain) covers in
        let (results, last, covered) = send_all-bare_all txs sb' covers' in
        let next = settled geth sent.result sb.auto_commit sent.chain in
        let same = ap₂ (bare_all geth txs) mode chain in
        subst
          (λ p.
            (p.0 ∷ (send_all txs p.1).0 ≡ sent.result ∷ (bare_all geth txs sb.auto_commit next).0)
            × ((send_all txs p.1).1.chain ≡ (bare_all geth txs sb.auto_commit next).1)
            × Covers geth offset vm sha256 walk (send_all txs p.1).1)
          (sym sends_)
          (ap (sent.result ∷◌) (results ∙ ap (λ q. q.0) same), last ∙ ap (λ q. q.1) same, covered)

    module _ (visits : (m : List (Bytes × ContractMatcher)) → Visits (walk m) m)
        (walk_hashes : List (Bytes × CompiledContract) → List (Bytes × CompiledContract))
        (visits_hashes : (m : List (Bytes × CompiledContract)) → Visits (walk_hashes m) m)
        (walk_matchers : List (Bytes × ContractMatcher) → List (Bytes × ContractMatcher))
        (visits_matchers : (m : List (Bytes × ContractMatcher)) → Visits (walk_matchers m) m) where
      new_simulated_backend-Covers :
          (n : ℤ) (r : Registry Mapper) (sb : SimulatedBackend Chain Signer Mapper)
          → IsDeployable r
          → new_simulated_backend geth walk_hashes walk_matchers n r ≡ ok sb
          → Covers geth offset vm sha256 walk sb × (sb.auto_commit ≡ true)
      unfolding new_simulated_backend
      new_simulated_backend-Covers n r sb deployable h =
          let (g, made, h') = bind-ok (genesis geth n) _ h in
          let (k, collects, tracked) =
            new_collector-IsTracked offset vm sha256 walk visits walk_hashes visits_hashes
              walk_matchers visits_matchers r deployable in
          let same = ok-injective (rw collects at h') in
          (
            subst (λ b. Covers geth offset vm sha256 walk b) same tracked,
            sym (ap (λ b. b.auto_commit) same),
          )

      -- A backend that was made after any calls of the functions that register sources, contracts
      -- and deployments, each contract with a source map entry for every instruction: when the
      -- chain's traces are those of whole calls with balanced steps, its transactions, one after
      -- the other, give the results and the chain of the embedded chain alone, and the collector
      -- still covers every contract that is deployed or that a deployment can find.
      pub new_simulated_backend-bare_all :
          (n : ℤ) (r : Registry Mapper) (sb : SimulatedBackend Chain Signer Mapper) (txs : List Tx)
          → Reaches offset vm sha256 walk no_registrations r
          → new_simulated_backend geth walk_hashes walk_matchers n r ≡ ok sb
          → ((send_all txs sb).0 ≡ (bare_all geth txs true sb.chain).0)
            × ((send_all txs sb).1.chain ≡ (bare_all geth txs true sb.chain).1)
            × Covers geth offset vm sha256 walk (send_all txs sb).1
      new_simulated_backend-bare_all n r sb txs reached made =
          let deployable =
            IsConsistent-IsDeployable (Reaches-IsConsistent offset vm sha256 walk visits reached) in
          let (covers, auto) = new_simulated_backend-Covers n r sb deployable made in
          let (results, chain, covered) = send_all-bare_all txs sb covers in
          (
            results ∙ ap (λ a. (bare_all geth txs a sb.chain).0) auto,
            chain ∙ ap (λ a. (bare_all geth txs a sb.chain).1) auto,
            covered,
          )

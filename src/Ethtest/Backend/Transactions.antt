-- ===== src/Ethtest/Backend/Transactions.antt =====
-- Transactions sent to the backend: what is committed, and that the collector follows.
use ethier.Common.{
  Bool, true, List, some, ◌≡◌, refl, sym, ap, subst, ◌∙◌, Bytes, Outcome, ok, Bool-cases,
  Outcome-cases, inl, inr,
}
use ethier.Ethtest.Errors.{TestError}
use ethier.Ethtest.Backend.{Geth, SimulatedBackend, follow, commit, send_transaction}
use ethier.Solcover.ByteCode.{OpCodes}
use ethier.Solcover.Location.{MapperPackage}
use ethier.Solcover.Registry.{ContractMatcher}
use ethier.Solcover.Coverage.{Event}
use ethier.Solcover.Coverage.Calls.{Calls, IsTracked, run-IsTracked}

module _ {Chain Tx Key Signer : Type 0} (geth : Geth Chain Tx Key Signer) where
  -- The chain after a transaction: with the next block only where the transaction was taken and the
  -- backend commits by itself.
  unfoldable pub settled : Outcome TestError (Unit {0}) → Bool → Chain → Chain
  settled (ok u) true chain = (geth.commit chain).chain
  settled _ _ chain = chain

module _ {Chain Tx Key Signer Mapper : Type 0} (geth : Geth Chain Tx Key Signer)
    (offset : MapperPackage Mapper) (vm : OpCodes) (sha256 : Bytes → Bytes)
    (walk : List (Bytes × ContractMatcher) → List (Bytes × ContractMatcher)) where
  -- The backend's collector covers what is deployed on the chain.
  abbrev pub Covers : SimulatedBackend Chain Signer Mapper → Type 0
  Covers sb = IsTracked offset vm sha256 walk sb.tracing.registry sb.tracing.collector.line_hits

  follow-Covers :
      (trace : List Event) (chain : Chain) (sb : SimulatedBackend Chain Signer Mapper)
      → Calls trace
      → Covers sb
      → (sb' : SimulatedBackend Chain Signer Mapper) × (follow geth offset vm sha256 walk trace
            chain sb
          ≡ some sb')
        × (sb'.chain ≡ chain)
        × (sb'.auto_commit ≡ sb.auto_commit)
        × Covers sb'
  unfolding follow
  follow-Covers trace chain sb traced covers =
      let (t, runs, tracked) =
        run-IsTracked offset vm sha256 walk sb.tracing.registry sb.tracing.collector traced
          covers in
      (record sb { chain = chain; tracing = t }, rw (follow, runs), refl, refl, tracked)

  pub commit-Covers :
      (sb : SimulatedBackend Chain Signer Mapper)
      → Calls (geth.commit sb.chain).trace
      → Covers sb
      → (sb' : SimulatedBackend Chain Signer Mapper) × (commit geth offset vm sha256 walk sb
          ≡ some sb')
        × (sb'.chain ≡ (geth.commit sb.chain).chain)
        × (sb'.auto_commit ≡ sb.auto_commit)
        × Covers sb'
  unfolding commit
  commit-Covers sb traced covers =
      let sent = geth.commit sb.chain in follow-Covers sent.trace sent.chain sb traced covers

  send_transaction-commit :
      (tx : Tx) (sb pending mined : SimulatedBackend Chain Signer Mapper) (u : Unit {0})
      → follow geth offset vm sha256 walk
          (geth.send_transaction tx sb.chain).trace
          (geth.send_transaction tx sb.chain).chain
          sb
        ≡ some pending
      → (geth.send_transaction tx sb.chain).result ≡ ok u
      → pending.auto_commit ≡ true
      → commit geth offset vm sha256 walk pending ≡ some mined
      → send_transaction geth offset vm sha256 walk tx sb ≡ (ok u, mined)
  unfolding send_transaction
  send_transaction-commit tx sb pending mined u follows taken auto mines =
      rw (send_transaction, follows, taken, auto, mines)

  -- When the chain's traces are those of whole calls with balanced steps, and the collector covers
  -- every contract that is deployed or that a deployment can find, SendTransaction gives the
  -- embedded backend's result; the chain has the next block only where the transaction was taken
  -- and the backend commits by itself, its mode stays, and the collector still covers every such
  -- contract.
  pub send_transaction_lem :
      (tx : Tx) (sb : SimulatedBackend Chain Signer Mapper)
      → Calls (geth.send_transaction tx sb.chain).trace
      → Calls (geth.commit (geth.send_transaction tx sb.chain).chain).trace
      → Covers sb
      → (sb' : SimulatedBackend Chain Signer Mapper) × (send_transaction geth offset vm sha256 walk
            tx sb
          ≡ ((geth.send_transaction tx sb.chain).result, sb'))
        × (sb'.chain
            ≡ settled geth
                (geth.send_transaction tx sb.chain).result
                sb.auto_commit
                (geth.send_transaction tx sb.chain).chain)
        × (sb'.auto_commit ≡ sb.auto_commit)
        × Covers sb'
  unfolding send_transaction settled
  send_transaction_lem tx sb sends commits covers =
      let sent = geth.send_transaction tx sb.chain in
      let (pending, follows, at, mode, covers1) =
        follow-Covers sent.trace sent.chain sb sends covers in
      elim (Outcome-cases sent.result) [
        | inr (inl (e, fails)) ↦
            (pending, rw (send_transaction, follows, fails), at ∙ rw fails, mode, covers1)
        | inr (inr fails) ↦
            (pending, rw (send_transaction, follows, fails), at ∙ rw fails, mode, covers1)
        | inl (u, taken) ↦ elim (Bool-cases sb.auto_commit) [
          | inr manual ↦ (
            pending,
            rw (send_transaction, follows, taken, mode, manual),
            at ∙ rw (taken, manual),
            mode,
            covers1,
          )
          | inl auto ↦
              let traced = subst (λ c. Calls (geth.commit c).trace) (sym at) commits in
              let (mined, mines, at2, mode2, covers2) = commit-Covers pending traced covers1 in
              (
                mined,
                send_transaction-commit tx sb pending mined u follows taken (mode ∙ auto) mines
                    ∙ ap (λ r. (r, mined)) (sym taken),
                at2 ∙ ap (λ c. (geth.commit c).chain) at ∙ rw (taken, auto),
                mode2 ∙ mode,
                covers2,
              )
        ]
      ]

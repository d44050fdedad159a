-- ===== src/Ethtest/Backend/Genesis/Created.antt =====
-- The numbered accounts of a new backend: each has the key of its own seed, and is funded.
use ethier.Common.{
  ℕ, zero, suc, ◌+◌, ◌^◌, ◌<◌, List, ◌∷◌, some, ◌≡◌, refl, ap, subst, ◌∙◌, Bytes, bytes_key,
  get_elem?, lookup, assign, lookup-assign, lookup-assign_self, ok, bind-ok, Outcome-cases,
  ok-injective, Bool-cases, inl, inr, arith,
}
use ethier.Common.Int.{ℤ, pos}
use ethier.Eth.Converters.{ether}
use ethier.Ethtest.Backend.{TransactOpts, Geth}
use ethier.Ethtest.Backend.Genesis.{
  GenesisAlloc, account_seed, transactor, create_account, create_accounts,
}

-- A hundred ether in wei.
abbrev pub hundred : ℤ
hundred = pos (10 ^ 20)

abbrev pub IsFunded : GenesisAlloc → Bytes → Type 0
IsFunded alloc addr = lookup alloc addr ≡ some hundred

pub assign-IsFunded :
    (alloc : GenesisAlloc) (a x : Bytes) → IsFunded alloc x → IsFunded (assign alloc a hundred) x
assign-IsFunded alloc a x h = elim (Bool-cases (bytes_key.same a x)) [
  | inl same ↦ lookup-assign alloc a hundred x ∙ rw same
  | inr other ↦ lookup-assign alloc a hundred x ∙ rw (other, h)
]

module _ {Chain Tx Key Signer : Type 0} (geth : Geth Chain Tx Key Signer) where
  pub create_account-ok :
      (seed : Bytes) (alloc : GenesisAlloc) {created : TransactOpts Signer × GenesisAlloc}
      → create_account geth seed alloc ≡ ok created
      → (transactor geth seed ≡ ok created.0) × (created.1 ≡ assign alloc created.0.from hundred)
  unfolding create_account ether
  create_account-ok seed alloc {created} h =
      let (opts, made, done) = bind-ok (transactor geth seed) _ h in
      let same : (opts, assign alloc opts.from hundred) ≡ created = ok-injective done in
      subst (λ c. (transactor geth seed ≡ ok c.0) × (c.1 ≡ assign alloc c.0.from hundred)) same
        (made, refl)

  -- What the loop over the numbered accounts returns.
  pub record Created (n i : ℕ) (alloc : GenesisAlloc) (l : List (TransactOpts Signer))
      (alloc' : GenesisAlloc) : Type 0 where
    pub seeded :
        (j : ℕ)
        → j < n
        → (a : TransactOpts Signer) × (transactor geth (account_seed (i + j)) ≡ ok a)
          × (get_elem? l j ≡ some a)
    pub grows : (x : Bytes) → IsFunded alloc x → IsFunded alloc' x
    pub funded : (j : ℕ) (a : TransactOpts Signer) → get_elem? l j ≡ some a → IsFunded alloc' a.from

  Created-cons :
      (n i : ℕ) (alloc alloc' : GenesisAlloc) (a : TransactOpts Signer)
      (l : List (TransactOpts Signer))
      → transactor geth (account_seed i) ≡ ok a
      → Created n (i + 1) (assign alloc a.from hundred) l alloc'
      → Created (suc n) i alloc (a ∷ l) alloc'
  Created-cons n i alloc alloc' a l made rest = record {
    seeded = seeded_;
    grows = λ x h. rest.grows x (assign-IsFunded alloc a.from x h);
    funded = funded_;
  }
    where
      seeded_ :
          (j : ℕ)
          → j < suc n
          → (b : TransactOpts Signer) × (transactor geth (account_seed (i + j)) ≡ ok b)
            × (get_elem? (a ∷ l) j ≡ some b)
      seeded_ zero h = (a, ap (λ k. transactor geth (account_seed k)) (omega arith) ∙ made, refl)
      seeded_ (suc j) h =
          let (b, made', there) = rest.seeded j (omega arith) in
          (b, ap (λ k. transactor geth (account_seed k)) (omega arith) ∙ made', there)

      funded_ :
          (j : ℕ) (b : TransactOpts Signer) → get_elem? (a ∷ l) j ≡ some b → IsFunded alloc' b.from
      funded_ zero b h =
          let same : a ≡ b = cc in
          rest.grows b.from (
            subst (λ c. IsFunded (assign alloc a.from hundred) c.from) same
              (lookup-assign_self alloc a.from hundred))
      funded_ (suc j) b h = rest.funded j b h

  pub create_accounts-Created :
      (n i : ℕ) (alloc : GenesisAlloc) {made : List (TransactOpts Signer) × GenesisAlloc}
      → create_accounts geth n i alloc ≡ ok made
      → Created n i alloc made.0 made.1
  unfolding create_accounts
  create_accounts-Created zero i alloc {made} h =
      subst (λ m. Created 0 i alloc m.0 m.1) (ok-injective h)
        (record {
          seeded = λ j lt. absurd (omega arith);
          grows = λ x f. f;
          funded = λ j a none_. absurd (cc);
        })
  create_accounts-Created (suc n) i alloc {made} h =
      elim (Outcome-cases (create_account geth (account_seed i) alloc)) [
        | inr (inl (e, fails)) ↦ absurd (ground arith)
        | inr (inr fails) ↦ absurd (ground arith)
        | inl (created, creates) ↦ elim (Outcome-cases (create_accounts geth n (i + 1) created.1)) [
          | inr (inl (e, fails)) ↦ absurd (ground arith)
          | inr (inr fails) ↦ absurd (ground arith)
          | inl (more, continues) ↦
              let (made0, next_alloc) = create_account-ok (account_seed i) alloc creates in
              let rest = create_accounts-Created n (i + 1) created.1 continues in
              subst (λ m. Created (suc n) i alloc m.0 m.1)
                (ok-injective (rw (create_accounts, creates, continues) at h))
                (Created-cons n i alloc more.1 created.0 more.0 made0
                  (subst (λ x. Created n (i + 1) x more.0 more.1) next_alloc rest))
        ]
      ]

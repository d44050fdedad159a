-- ===== src/Ethtest/Backend/Genesis/Laws.antt =====
-- Accounts are the same in every backend, and funded.
use ethier.Common.{
  ℕ, ◌+◌, ◌<◌, List, [], ◌∷◌, Option, some, ◌≡◌, sym, ap, subst, ◌∙◌, Bytes, All, bytes_key,
  get_elem?, lookup, assign, lookup-assign, lookup-assign_self, ok, bind-ok, Outcome-cases,
  ok-injective, Bool-cases, inl, inr, arith,
}
use ethier.Common.Int.{ℤ, positive_part}
use ethier.Ethtest.Backend.{TransactOpts, Geth, open_sea, chainlink, ethier_entity, weth}
use ethier.Ethtest.Backend.Genesis.{
  GenesisAlloc, Genesis, account_seed, transactor, create_account, create_accounts, create_mocks,
  precompiled, genesis,
}
use ethier.Ethtest.Backend.Genesis.Created.{
  hundred, IsFunded, assign-IsFunded, create_account-ok, create_accounts-Created,
}

-- The entities that every backend mocks.
abbrev pub entities : List Bytes
entities = open_sea ∷ chainlink ∷ ethier_entity ∷ weth ∷ []

-- A name that a map knows.
abbrev pub IsKey : {V : Type 0} → List (Bytes × V) → Bytes → Type 0
IsKey {V} m x = (v : V) × (lookup m x ≡ some v)

assign-IsKey :
    {V : Type 0} (m : List (Bytes × V)) (k : Bytes) (v : V) (x : Bytes)
    → IsKey m x
    → IsKey (assign m k v) x
assign-IsKey m k v x (w, h) = elim (Bool-cases (bytes_key.same k x)) [
  | inl same ↦ (v, lookup-assign m k v x ∙ rw same)
  | inr other ↦ (w, lookup-assign m k v x ∙ rw (other, h))
]

module _ {Chain Tx Key Signer : Type 0} (geth : Geth Chain Tx Key Signer) where
  -- Every mocked entity so far has the transactor of its name, and is funded.
  IsSeeded : List (Bytes × TransactOpts Signer) → GenesisAlloc → Type 0
  IsSeeded mocks alloc =
      (x : Bytes) (a : TransactOpts Signer)
      → lookup mocks x ≡ some a
      → (transactor geth x ≡ ok a) × IsFunded alloc a.from

  assign-IsSeeded :
      (mocks : List (Bytes × TransactOpts Signer)) (alloc : GenesisAlloc) (mock : Bytes)
      (a : TransactOpts Signer)
      → transactor geth mock ≡ ok a
      → IsSeeded mocks alloc
      → IsSeeded (assign mocks mock a) (assign alloc a.from hundred)
  unfolding IsSeeded
  assign-IsSeeded mocks alloc mock a made seeded x b h = elim (Bool-cases (bytes_key.same mock x)) [
    | inl same ↦
        let is_mock : mock ≡ x = (bytes_key.same_iff mock x).0 same in
        let found : ◌≡◌ {A = Option (TransactOpts Signer)} (some a) (some b) =
          rw same at (sym (lookup-assign mocks mock a x) ∙ h) in
        let is_a : a ≡ b = cc in
        (rw (← is_mock, ← is_a) made, rw (← is_a) (lookup-assign_self alloc a.from hundred))
    | inr other ↦
        let (made', old) = seeded x b (rw other at (sym (lookup-assign mocks mock a x) ∙ h)) in
        (made', assign-IsFunded alloc a.from b.from old)
  ]

  -- What the loop over the mocked entities returns.
  record Mocked (names : List Bytes) (mocks : List (Bytes × TransactOpts Signer))
      (alloc : GenesisAlloc) (mocks' : List (Bytes × TransactOpts Signer)) (alloc' : GenesisAlloc)
      : Type 0 where
    seeded : IsSeeded mocks alloc → IsSeeded mocks' alloc'
    grows : (x : Bytes) → IsFunded alloc x → IsFunded alloc' x
    keeps : (x : Bytes) → IsKey mocks x → IsKey mocks' x
    named : All (IsKey mocks') names

  create_mocks-Mocked :
      (names : List Bytes) (mocks : List (Bytes × TransactOpts Signer)) (alloc : GenesisAlloc)
      {made : List (Bytes × TransactOpts Signer) × GenesisAlloc}
      → create_mocks geth names mocks alloc ≡ ok made
      → Mocked names mocks alloc made.0 made.1
  unfolding create_mocks
  create_mocks-Mocked [] mocks alloc {made} h =
      subst (λ m. Mocked [] mocks alloc m.0 m.1) (ok-injective h)
        (record { seeded = λ s. s; grows = λ x f. f; keeps = λ x k. k; named = tt })
  create_mocks-Mocked (mock ∷ names) mocks alloc {made} h =
      elim (Outcome-cases (create_account geth mock alloc)) [
        | inr (inl (e, fails)) ↦ absurd (ground arith)
        | inr (inr fails) ↦ absurd (ground arith)
        | inl (created, creates) ↦
            let (made0, next_alloc) = create_account-ok geth mock alloc creates in
            let rest =
              create_mocks-Mocked names (assign mocks mock created.0) created.1
                (rw (create_mocks, creates) at h) in
            record {
              seeded = λ s. rest.seeded (
                  subst (IsSeeded (assign mocks mock created.0)) (sym next_alloc)
                    (assign-IsSeeded mocks alloc mock created.0 made0 s));
              grows = λ x f. rest.grows x (
                  subst (λ m. IsFunded m x) (sym next_alloc)
                    (assign-IsFunded alloc created.0.from x f));
              keeps = λ x k. rest.keeps x (assign-IsKey mocks mock created.0 x k);
              named = (
                rest.keeps mock (created.0, lookup-assign_self mocks mock created.0),
                rest.named,
              );
            }
      ]

  -- Accounts by their seeds, and a balance for each.
  pub record Derived (n : ℕ) (g : Genesis Signer) : Type 0 where
    pub numbered :
        (j : ℕ)
        → j < n
        → (a : TransactOpts Signer) × (transactor geth (account_seed j) ≡ ok a)
          × (get_elem? g.accounts j ≡ some a)
    pub mocked :
        (x : Bytes) (a : TransactOpts Signer)
        → lookup g.mock_accounts x ≡ some a
        → (transactor geth x ≡ ok a) × IsFunded g.alloc a.from
    pub named : All (IsKey g.mock_accounts) entities
    pub funded :
        (j : ℕ) (a : TransactOpts Signer)
        → get_elem? g.accounts j ≡ some a
        → IsFunded g.alloc a.from

  pub genesis-Derived :
      (n : ℤ) (g : Genesis Signer) → genesis geth n ≡ ok g → Derived (positive_part n) g
  unfolding genesis IsSeeded
  genesis-Derived n g h =
      let (numbered, creates, h') =
        bind-ok (create_accounts geth (positive_part n) 0 (precompiled 8 1 [])) _ h in
      let (mocked, mocks, done) = bind-ok (create_mocks geth entities [] numbered.1) _ h' in
      let c = create_accounts-Created geth (positive_part n) 0 (precompiled 8 1 []) creates in
      let m = create_mocks-Mocked entities [] numbered.1 mocks in
      subst (Derived (positive_part n)) (ok-injective done) (record {
        numbered = λ j lt.
            let (a, made, here) = c.seeded j lt in
            let same : j ≡ 0 + j = omega arith in
            (a, ap (λ k. transactor geth (account_seed k)) same ∙ made, here);
        mocked = m.seeded (λ x a none_. absurd (cc));
        named = m.named;
        funded = λ j a here. m.grows a.from (c.funded j a here);
      })

  -- In the first block every account of a new backend, numbered or mocked, has a hundred ether.
  genesis-IsFunded :
      (n : ℤ) (g : Genesis Signer)
      → genesis geth n ≡ ok g
      → ((i : ℕ) (a : TransactOpts Signer)
          → get_elem? g.accounts i ≡ some a
          → IsFunded g.alloc a.from)
        × ((m : Bytes) (a : TransactOpts Signer)
            → lookup g.mock_accounts m ≡ some a
            → IsFunded g.alloc a.from)
  genesis-IsFunded n g h =
      let d = genesis-Derived n g h in (d.funded, λ m a here. (d.mocked m a here).1)

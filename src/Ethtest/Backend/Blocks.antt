-- ===== src/Ethtest/Backend/Blocks.antt =====
-- The passage of blocks.
use Prim.Native.Nat.{max}
use ethier.Common.{
  ℕ, zero, suc, ◌+◌, ◌-◌, ◌<◌, ◌≤◌, Bool, true, false, List, some, ◌≡◌, refl, ap, ◌∙◌, Bytes,
  bytes_key, ◌||◌, Bool-cases, inl, inr, arith,
}
use ethier.Common.Int.{ℤ, pos, negsuc, positive_part}
use ethier.Ethtest.Backend.{
  Geth, SimulatedBackend, commit, block_number, is_above, fast_forward_loop, fast_forward,
}
use ethier.Solcover.ByteCode.{OpCodes}
use ethier.Solcover.Location.{MapperPackage}
use ethier.Solcover.Registry.{ContractMatcher}
use ethier.Solcover.Coverage.Calls.{Calls}
use ethier.Ethtest.Backend.Transactions.{Covers, commit-Covers}

is_above_lt : (target : ℤ) (n : ℕ) → is_above target n ≡ true → n < positive_part target
unfolding is_above
is_above_lt (pos t) n h = ground arith
is_above_lt (negsuc t) n h = absurd (cc)

is_above_le : (target : ℤ) (n : ℕ) → is_above target n ≡ false → positive_part target ≤ n
unfolding is_above
is_above_le (pos t) n h = ground arith
is_above_le (negsuc t) n h = omega arith

or_true : (b : Bool) → b || true ≡ true
or_true true = refl
or_true false = refl

or_false : (b : Bool) → b || false ≡ b
or_false true = refl
or_false false = refl

module _ {Chain Tx Key Signer Mapper : Type 0} (geth : Geth Chain Tx Key Signer)
    (offset : MapperPackage Mapper) (vm : OpCodes) (sha256 : Bytes → Bytes)
    (walk : List (Bytes × ContractMatcher) → List (Bytes × ContractMatcher))
    (mines : (c : Chain) → geth.block_number (geth.commit c).chain ≡ geth.block_number c + 1)
    (commits : (c : Chain) → Calls (geth.commit c).trace) where
  commit_mines :
      (sb : SimulatedBackend Chain Signer Mapper)
      → Covers geth offset vm sha256 walk sb
      → (mined : SimulatedBackend Chain Signer Mapper) × (commit geth offset vm sha256 walk sb
          ≡ some mined)
        × (block_number geth offset vm sha256 walk mined
            ≡ block_number geth offset vm sha256 walk sb + 1)
        × Covers geth offset vm sha256 walk mined
  unfolding block_number
  commit_mines sb covers =
      let (mined, commits_, chain, mode, covers') =
        commit-Covers geth offset vm sha256 walk sb (commits sb.chain) covers in
      (mined, commits_, ap geth.block_number chain ∙ mines sb.chain, covers')

  fast_forward_loop_lem :
      (fuel : ℕ) (target : ℤ) (done : Bool) (sb : SimulatedBackend Chain Signer Mapper)
      → positive_part target - block_number geth offset vm sha256 walk sb < fuel
      → Covers geth offset vm sha256 walk sb
      → (sb' : SimulatedBackend Chain Signer Mapper) × (fast_forward_loop geth offset vm sha256 walk
            fuel target done sb
          ≡ some (done || is_above target (block_number geth offset vm sha256 walk sb), sb'))
        × (block_number geth offset vm sha256 walk sb'
            ≡ max (block_number geth offset vm sha256 walk sb) (positive_part target))
        × Covers geth offset vm sha256 walk sb'
  unfolding fast_forward_loop
  fast_forward_loop_lem zero target done sb h covers = absurd (omega arith)
  fast_forward_loop_lem (suc fuel) target done sb h covers =
      let n = block_number geth offset vm sha256 walk sb in
      elim (Bool-cases (is_above target n)) [
        | inr reached ↦ (
          sb,
          rw (fast_forward_loop, reached, or_false done),
          omega (arith, is_above_le target n reached),
          covers,
        )
        | inl above ↦
            let (mined, mines_, next, covers') = commit_mines sb covers in
            let lower = is_above_lt target n above in
            let (sb', loops, stops, covered) =
              fast_forward_loop_lem fuel target true mined (omega arith) covers' in
            (
              sb',
              rw (fast_forward_loop, above, mines_, or_true done) loops,
              omega (arith, stops, next, lower),
              covered,
            )
      ]

  -- When a commit adds one block to the chain, the traces of commits are those of whole calls with
  -- balanced steps, and the collector covers every contract that is deployed or that a deployment
  -- can find: FastForward returns within one round more than there are blocks to go; the backend is
  -- at the requested block, or where it was if that is later, the result tells whether a block was
  -- committed, and the collector still covers every such contract.
  pub fast_forward-block_number :
      (fuel : ℕ) (target : ℤ) (sb : SimulatedBackend Chain Signer Mapper)
      → positive_part target - block_number geth offset vm sha256 walk sb < fuel
      → Covers geth offset vm sha256 walk sb
      → (sb' : SimulatedBackend Chain Signer Mapper) × (fast_forward geth offset vm sha256 walk fuel
            target sb
          ≡ some (is_above target (block_number geth offset vm sha256 walk sb), sb'))
        × (block_number geth offset vm sha256 walk sb'
            ≡ max (block_number geth offset vm sha256 walk sb) (positive_part target))
        × Covers geth offset vm sha256 walk sb'
  unfolding fast_forward
  fast_forward-block_number fuel target sb h covers =
      fast_forward_loop_lem fuel target false sb h covers

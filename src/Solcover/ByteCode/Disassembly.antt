-- ===== src/Solcover/ByteCode/Disassembly.antt =====
-- `parseCode` against the EVM's own layout of byte code: PUSH1 to PUSH32, the bytes 0x60 to 0x7f, are
-- followed by 1 to 32 bytes of data, and no other op code by any.
use ethier.Common.{
  ℕ, zero, suc, ◌+◌, ◌-◌, ◌^◌, ◌<◌, ◌≤◌, true, false, List, [], ◌∷◌, some, ◌≡◌, refl, ap, ◌∙◌, map,
  Bytes, length, lookup, number_key, ok, ltb, leb, ◌&&◌, if◌then◌else◌, arith, Bool-cases, inl, inr,
}
use ethier.Golang.Hex.{hex_decode}
use ethier.Solcover.ByteCode.{
  OpCodes, Parsed, pushed, parse_code, trim_0x, replace_placeholders, push_zero_address,
}
use ethier.Solcover.ByteCode.Laws.{listing, index_in, parse_code-listing}

-- The number of bytes of data behind an op code.
data_size : ℕ → ℕ
data_size c = if leb 0x60 c && leb c 0x7f then suc (c - 0x60) else 0

-- The offsets and op codes of the instructions, where `left` bytes of data come first.
pub disassembly : ℕ → ℕ → Bytes → List (ℕ × ℕ)
disassembly offset left [] = []
disassembly offset (suc left) (b ∷ code) = disassembly (offset + 1) left code
disassembly offset zero (c ∷ code) = (offset, c) ∷ disassembly (offset + 1) (data_size c) code

-- go-ethereum's `PUSH0` and `IsPush`. Versions differ in whether PUSH0 itself is a push.
pub record IsEvm (vm : OpCodes) : Type 0 where
  pub push0 : vm.push0 ≡ 0x5f
  pub pushes : (c : ℕ) → 0x60 ≤ c → c ≤ 0x7f → vm.is_push c ≡ true
  pub below : (c : ℕ) → c < 0x5f → vm.is_push c ≡ false
  pub above : (c : ℕ) → 0x7f < c → vm.is_push c ≡ false

module _ (vm : OpCodes) (is_evm : IsEvm vm) where
  pushed-data_size : (c : ℕ) → pushed vm c ≡ data_size c
  unfolding pushed data_size
  pushed-data_size c = elim (Bool-cases (ltb c 0x5f)) [
    | inl low ↦ rw (is_evm.below c (ground (arith, low))) (ground (arith, low))
    | inr from ↦ elim (Bool-cases (ltb 0x7f c)) [
      | inl high ↦ rw (is_evm.above c (ground (arith, high))) (ground (arith, high))
      | inr to ↦ elim (Bool-cases (leb 0x60 c)) [
        | inl push ↦
            rw (is_evm.pushes c (ground (arith, push)) (ground (arith, to)), is_evm.push0)
              (ground (arith, push, to))
        | inr other ↦ rw is_evm.push0 (ground (arith, from, other))
      ]
    ]
  ]

  listing-disassembly :
      (offset left : ℕ) (code : Bytes) → listing vm offset left code ≡ disassembly offset left code
  unfolding listing disassembly
  listing-disassembly offset left [] = refl
  listing-disassembly offset zero (c ∷ code) = ap ((offset, c) ∷◌) (
      ap (λ n. listing vm (offset + 1) n code) (pushed-data_size c)
      ∙ listing-disassembly (offset + 1) (data_size c) code)
  listing-disassembly offset (suc left) (b ∷ code) = listing-disassembly (offset + 1) left code

  -- For a runtime code whose text decodes to fewer than 2^63 bytes, where PUSH0 of go-ethereum is
  -- 0x5f and its IsPush is true from 0x60 to 0x7f and false below 0x5f and above 0x7f, parseCode
  -- returns; its op codes are those of the disassembly, in which 0x60 to 0x7f are followed by 1 to
  -- 32 bytes of data and every other op code by none, and its map sends every program counter to
  -- the number of the instruction that begins there, and no other program counter to anything.
  pub parse_code-disassembly :
      (runtime_code : Bytes) (code : Bytes)
      → hex_decode (
          replace_placeholders
            (length (trim_0x runtime_code))
            push_zero_address
            (trim_0x runtime_code))
        ≡ some code
      → length code < 2 ^ 63
      → (out : Parsed) × (parse_code vm runtime_code ≡ ok out)
        × (out.op_codes ≡ map (λ q. q.1) (disassembly 0 0 code))
        × ((pc : ℕ) → lookup out.instructions pc ≡ index_in pc (disassembly 0 0 code))
  parse_code-disassembly runtime_code code decoded short =
      let (out, returns, codes, finds) = parse_code-listing vm runtime_code code decoded short in
      let same = listing-disassembly 0 0 code in
      (out, returns, codes ∙ ap (map (λ q. q.1)) same, λ pc. finds pc ∙ ap (index_in pc) same)

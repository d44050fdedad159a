-- ===== src/Solcover/ByteCode.antt =====
-- solcover/solcover.go, `parseCode`: which program counters start an instruction, and the
-- instructions without the bytes that they push. The EVM's op codes come from go-ethereum and are
-- a parameter.
pub mod Laws
pub mod Disassembly
use ethier.Common.{
  ℕ, zero, suc, ◌+◌, ◌-◌, ◌%◌, ◌^◌, Bool, List, [], ◌∷◌, ◌++◌, Option, none, some, Bytes, codes,
  length, get_elem?, replicate, nat_beq, if◌then◌else◌, assign, number_key, Outcome, or_err,
  or_panic, ◌>>=◌,
}
use ethier.Golang.Hex.{hex_value, is_hex_digit, hex_decode}

-- `strings.TrimPrefix(s, "0x")`
unfoldable pub trim_0x : Bytes → Bytes
trim_0x (a ∷ b ∷ s) =
    if nat_beq a b'0' then (if nat_beq b b'x' then s else a ∷ b ∷ s) else a ∷ b ∷ s
trim_0x s = s

-- What follows a literal prefix.
unfoldable pub after_literal : Bytes → Bytes → Option Bytes
after_literal [] s = some s
after_literal (p ∷ ps) [] = none
after_literal (p ∷ ps) (c ∷ s) = if nat_beq p c then after_literal ps s else none

-- What follows `n` hexadecimal digits.
unfoldable pub after_digits : ℕ → Bytes → Option Bytes
unfolding hex_value
after_digits zero s = some s
after_digits (suc n) [] = none
after_digits (suc n) (c ∷ s) = if is_hex_digit c then after_digits n s else none

-- `73__\$[[:xdigit:]]{34}\$__` at the front of a text: what follows it.
unfoldable pub after_placeholder : Bytes → Option Bytes
unfolding after_literal after_digits
after_placeholder s = elim (after_literal (codes "73__$") s) [
  | none ↦ none
  | some middle ↦ elim (after_digits 34 middle) [
    | none ↦ none
    | some end ↦ after_literal (codes "$__") end
  ]
]

-- `ReplaceAllString`: from the left, without overlap. Each round takes a byte at least.
unfoldable pub replace_placeholders : ℕ → Bytes → Bytes → Bytes
unfolding after_placeholder
replace_placeholders zero by s = s
replace_placeholders (suc fuel) by [] = []
replace_placeholders (suc fuel) by (c ∷ s) = elim (after_placeholder (c ∷ s)) [
  | some rest ↦ by ++ replace_placeholders fuel by rest
  | none ↦ c ∷ replace_placeholders fuel by s
]

-- PUSH20 of the zero address.
abbrev pub push_zero_address : Bytes
push_zero_address = codes "73" ++ replicate 40 b'0'

-- `vm.OpCode.IsPush` and `vm.PUSH0`.
pub record OpCodes : Type 0 where
  pub is_push : ℕ → Bool
  pub push0 : ℕ

pub data ParseError : Type 0 where
  bad_hex : ParseError

-- A map from program counters to instruction numbers, and the op codes by instruction number.
pub record Parsed : Type 0 where
  pub instructions : List (ℕ × ℕ)
  pub op_codes : List ℕ

module _ (vm : OpCodes) where
  -- `uint64(c - vm.PUSH0)`, a difference of bytes.
  unfoldable pub pushed : ℕ → ℕ
  pushed c = if vm.is_push c then (c + 256 - vm.push0) % 256 else 0

  -- `for pc, n := uint64(0), uint64(len(code)); pc < n; pc++`; `none` means that the fuel ran out.
  unfoldable pub parse_loop : ℕ → Bytes → ℕ → ℕ → Parsed → Option Parsed
  unfolding pushed
  parse_loop zero code pc instruction p = none
  parse_loop (suc fuel) code pc instruction p = elim (get_elem? code pc) [
    | none ↦ some p
    | some c ↦
        parse_loop fuel code (((pc + pushed c) % 2 ^ 64 + 1) % 2 ^ 64) (instruction + 1) (record {
          instructions = assign p.instructions pc instruction;
          op_codes = p.op_codes ++ c ∷ [];
        })
  ]

  -- `parseCode`, of a contract's `RuntimeCode`.
  unfoldable pub parse_code : Bytes → Outcome ParseError Parsed
  unfolding trim_0x replace_placeholders parse_loop hex_decode
  parse_code runtime_code =
      let raw = trim_0x runtime_code in
      let linked = replace_placeholders (length raw) push_zero_address raw in
      do
        code ← or_err bad_hex (hex_decode linked)
        or_panic
            (parse_loop (length code + 1) code 0 0 (record { instructions = []; op_codes = [] }))

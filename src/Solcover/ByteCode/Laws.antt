-- ===== src/Solcover/ByteCode/Laws.antt =====
-- `parseCode` against a walk over the code, byte by byte.
use ethier.Common.{
  ℕ, zero, suc, ◌+◌, ◌-◌, ◌%◌, ◌^◌, ◌≤◌, ◌<◌, List, [], ◌∷◌, ◌++◌, Option, none, some, ◌≡◌, refl,
  sym, ap, ◌∙◌, map, Bytes, length, get_elem?, drop, append_assoc, append-nil, nat_beq,
  if◌then◌else◌, lookup, assign, lookup-assign, ok, arith, number_key, drop-drop, drop-get_elem?,
  get_elem?-none, get_elem?-some, drop_all, inl, inr, Option-cases,
}
use native.Mathlib.Decide.{ℕ_discrete}
use ethier.Golang.Hex.{hex_decode}
use ethier.Solcover.ByteCode.{
  OpCodes, Parsed, pushed, parse_loop, parse_code, trim_0x, replace_placeholders, push_zero_address,
}

-- The byte code as a listing of offsets and op codes: `left` bytes of it are still data that the
-- last PUSH instruction pushes.
unfoldable pub listing : OpCodes → ℕ → ℕ → Bytes → List (ℕ × ℕ)
listing vm offset left [] = []
listing vm offset zero (c ∷ code) = (offset, c) ∷ listing vm (offset + 1) (pushed vm c) code
listing vm offset (suc left) (c ∷ code) = listing vm (offset + 1) left code

-- The place of an offset in a listing.
pub index_in : ℕ → List (ℕ × ℕ) → Option ℕ
index_in pc [] = none
index_in pc ((offset, c) ∷ rest) =
    if nat_beq offset pc
    then some 0
    else elim (index_in pc rest) [ none ↦ none | some i ↦ some (suc i) ]

-- An offset's instruction number, counted from `n`, or what stood in the map before.
shifted : ℕ → Option ℕ → Option ℕ → Option ℕ
shifted n none old = old
shifted n (some i) old = some (n + i)

-- One more entry in the map, and one more instruction in front of the listing.
shifted_step :
    (m : List (ℕ × ℕ)) (pc c n j : ℕ) (later : List (ℕ × ℕ))
    → (j ≡ pc → index_in j later ≡ none)
    → shifted (n + 1) (index_in j later) (lookup (assign m pc n) j)
      ≡ shifted n (index_in j ((pc, c) ∷ later)) (lookup m j)
unfolding shifted index_in
shifted_step m pc c n j later fresh = elim (ℕ_discrete j pc) [
  | yes e ↦ rw (lookup-assign m pc n j, fresh e) (ground arith)
  | no ne ↦ elim (Option-cases (index_in j later)) [
    | inl none_later ↦ rw (lookup-assign m pc n j, none_later) (ground arith)
    | inr (i, found) ↦ rw (lookup-assign m pc n j, found) (ground arith)
  ]
]

module _ (vm : OpCodes) where
  listing-drop :
      (left offset : ℕ) (code : Bytes)
      → listing vm offset left code ≡ listing vm (offset + left) 0 (drop left code)
  unfolding listing
  listing-drop zero offset [] = refl
  listing-drop zero offset (c ∷ code) = ground arith
  listing-drop (suc left) offset [] = refl
  listing-drop (suc left) offset (c ∷ code) =
      listing-drop left (offset + 1) code
      ∙ ap (λ o. listing vm o 0 (drop left code)) (shift offset left)
    where
      shift : (a b : ℕ) → a + 1 + b ≡ a + suc b
      shift a b = omega arith

  index_in_before :
      (pc offset left : ℕ) (code : Bytes)
      → pc < offset
      → index_in pc (listing vm offset left code) ≡ none
  unfolding listing index_in
  index_in_before pc offset left [] h = refl
  index_in_before pc offset zero (c ∷ code) h =
      ground (arith, index_in_before pc (offset + 1) (pushed vm c) code (omega arith))
  index_in_before pc offset (suc left) (c ∷ code) h =
      index_in_before pc (offset + 1) left code (omega arith)

  pushed-lt : (c : ℕ) → pushed vm c < 256
  unfolding pushed
  pushed-lt c = ground arith

  -- One round: the instruction at `pc`, and the code behind the bytes that it pushes.
  listing_step :
      (code : Bytes) (pc c : ℕ)
      → get_elem? code pc ≡ some c
      → listing vm pc 0 (drop pc code)
        ≡ (pc, c) ∷ listing vm (pc + pushed vm c + 1) 0 (drop (pc + pushed vm c + 1) code)
  listing_step code pc c h = rw (drop-get_elem? code pc c h) (
      unfold listing in
      (ap (λ r. (pc, c) ∷ r)
        (listing-drop (pushed vm c) (pc + 1) (drop (suc pc) code)
          ∙ ap (listing vm (pc + 1 + pushed vm c) 0) (drop-drop (suc pc) (pushed vm c) code)
          ∙ ap (λ o. listing vm o 0 (drop (suc pc + pushed vm c) code)) {y = pc + pushed vm c + 1}
              (omega arith)
          ∙ ap (λ o. listing vm (pc + pushed vm c + 1) 0 (drop o code)) (omega arith))))

  -- Below `2 ^ 63` the counter does not wrap around.
  parse_loop_step :
      (fuel : ℕ) (code : Bytes) (pc n c : ℕ) (p : Parsed)
      → get_elem? code pc ≡ some c
      → pc < 2 ^ 63
      → parse_loop vm (suc fuel) code pc n p
        ≡ parse_loop vm fuel code
            (pc + pushed vm c + 1)
            (n + 1)
            (record { instructions = assign p.instructions pc n; op_codes = p.op_codes ++ c ∷ [] })
  parse_loop_step fuel code pc n c p found h =
      let small = pushed-lt c in
      let next : ((pc + pushed vm c) % 2 ^ 64 + 1) % 2 ^ 64 ≡ pc + pushed vm c + 1 = omega arith in
      unfold parse_loop in rw (found, parse_loop) (rw next)

  loop-listing :
      (fuel : ℕ) (code : Bytes) (pc n : ℕ) (p : Parsed)
      → length code - pc < fuel
      → length code < 2 ^ 63
      → (out : Parsed) × (parse_loop vm fuel code pc n p ≡ some out)
        × (out.op_codes ≡ p.op_codes ++ map (λ q. q.1) (listing vm pc 0 (drop pc code)))
        × ((j : ℕ)
            → lookup out.instructions j
              ≡ shifted n (index_in j (listing vm pc 0 (drop pc code))) (lookup p.instructions j))
  unfolding parse_loop
  loop-listing zero code pc n p hf hn = absurd (omega arith)
  loop-listing (suc fuel) code pc n p hf hn = elim (Option-cases (get_elem? code pc)) [
    | inl out ↦
        let end = drop_all pc code (get_elem?-none code pc out) in
        (
          p,
          rw (out, parse_loop),
          rw end (unfold listing in sym (append-nil p.op_codes)),
          λ j. rw end (unfold listing index_in shifted in refl),
        )
    | inr (c, found) ↦
        let within = get_elem?-some code pc c found in
        let here = listing_step code pc c found in
        let p' : Parsed = record {
          instructions = assign p.instructions pc n;
          op_codes = p.op_codes ++ c ∷ [];
        } in
        let (out, returns, codes, finds) =
          loop-listing fuel code (pc + pushed vm c + 1) (n + 1) p' (omega arith) hn in
        (
          out,
          parse_loop_step fuel code pc n c p found (omega arith) ∙ returns,
          rw here (codes ∙ append_assoc p.op_codes (c ∷ []) _),
          λ j. rw here (
              finds j
              ∙ shifted_step p.instructions pc c n j
                  (listing vm (pc + pushed vm c + 1) 0 (drop (pc + pushed vm c + 1) code))
                  (λ e.
                    index_in_before j (pc + pushed vm c + 1) 0 (drop (pc + pushed vm c + 1) code)
                      (omega arith))),
        )
  ]

  -- For a runtime code whose text decodes to fewer than 2^63 bytes, parseCode returns; its op codes
  -- are those of the disassembly listing of the code, and its map sends every program counter to
  -- the number of the instruction that begins there, and no other program counter to anything.
  pub parse_code-listing :
      (runtime_code : Bytes) (code : Bytes)
      → hex_decode (
          replace_placeholders
            (length (trim_0x runtime_code))
            push_zero_address
            (trim_0x runtime_code))
        ≡ some code
      → length code < 2 ^ 63
      → (out : Parsed) × (parse_code vm runtime_code ≡ ok out)
        × (out.op_codes ≡ map (λ q. q.1) (listing vm 0 0 code))
        × ((pc : ℕ) → lookup out.instructions pc ≡ index_in pc (listing vm 0 0 code))
  unfolding parse_code
  parse_code-listing runtime_code code decoded hn =
      let (out, returns, codes, finds) =
        loop-listing (length code + 1) code 0 0 (record { instructions = []; op_codes = [] })
          (omega arith) hn in
      (
        out,
        rw decoded (rw returns),
        codes,
        λ pc. finds pc ∙ from_zero (index_in pc (listing vm 0 0 code)),
      )
    where
      from_zero : (found : Option ℕ) → shifted 0 found none ≡ found
      from_zero none = unfold shifted in refl
      from_zero (some i) = unfold shifted in ground arith

  -- An instruction's offset lies behind the listing's start, and its op code is the byte there.
  listing-get_elem? :
      (offset left : ℕ) (code : Bytes) (pc i : ℕ)
      → index_in pc (listing vm offset left code) ≡ some i
      → (offset ≤ pc)
        × (get_elem? (map (λ q. q.1) (listing vm offset left code)) i
            ≡ get_elem? code (pc - offset))
  unfolding listing index_in
  listing-get_elem? offset left [] pc i h = cc
  listing-get_elem? offset (suc left) (c ∷ code) pc i h =
      let (behind, same) = listing-get_elem? (offset + 1) left code pc i h in
      let back : pc - offset ≡ suc (pc - (offset + 1)) = omega arith in (omega arith, rw back same)
  listing-get_elem? offset zero (c ∷ code) pc i h = elim (ℕ_discrete offset pc) [
    | yes e ↦
        let here : i ≡ 0 = ground arith in
        let start : pc - offset ≡ 0 = omega arith in (omega arith, rw (here, start) refl)
    | no ne ↦ elim (Option-cases (index_in pc (listing vm (offset + 1) (pushed vm c) code))) [
      | inl missing ↦ absurd (ground arith)
      | inr (k, found) ↦
          let (behind, same) = listing-get_elem? (offset + 1) (pushed vm c) code pc k found in
          let place : i ≡ suc k = ground arith in
          let back : pc - offset ≡ suc (pc - (offset + 1)) = omega arith in
          (omega arith, rw (place, back) same)
    ]
  ]

  -- Where parseCode, on a code of fewer than 2^63 bytes, maps a program counter to an instruction
  -- number, the op code of that number is the byte of the code at the program counter.
  pub parse_code-op_code :
      (runtime_code : Bytes) (code : Bytes) (out : Parsed) (pc i : ℕ)
      → hex_decode (
          replace_placeholders
            (length (trim_0x runtime_code))
            push_zero_address
            (trim_0x runtime_code))
        ≡ some code
      → length code < 2 ^ 63
      → parse_code vm runtime_code ≡ ok out
      → lookup out.instructions pc ≡ some i
      → get_elem? out.op_codes i ≡ get_elem? code pc
  parse_code-op_code runtime_code code out pc i decoded hn parsed found =
      let (out', returns, codes, finds) = parse_code-listing runtime_code code decoded hn in
      let same : out' ≡ out = cc in
      let place = rw same at (finds pc) in
      let codes' = rw same at codes in
      rw codes' (
        (listing-get_elem? 0 0 code pc i (sym place ∙ found)).1 ∙ ap (get_elem? code) (omega arith))

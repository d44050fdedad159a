-- ===== src/Eth/Signer/Laws.antt =====
-- Compact signatures give back what they were made of, and what the signing methods sign.
use Prim.Native.Nat.{bit_or}
use ethier.Common.{
  ℕ, zero, suc, ◌+◌, ◌*◌, ◌/◌, ◌%◌, ◌<◌, Bool, true, false, ◌&&◌, ◌||◌, List, [], ◌∷◌, ◌++◌, Option,
  none, some, ◌≡◌, ◌≢◌, refl, sym, ap, ◌∙◌, Bytes, length, length-append, append_assoc, get_elem?,
  set, take, drop, nat_beq, nat_beq_iff, nat_beq_ne, Outcome, ok, err, panics, ◌>>=◌, or_panic,
  Bool-cases, inl, inr, arith,
}
use ethier.Eth.Signer.{
  SignError, bad_length, bad_v, RandomRead, compact_signature, append_random_nonce, sign_message,
  sign, personal_sign, personal_sign_with_nonce,
}

-- The decoding of EIP-2098: the high bit of the byte at 32 becomes the last byte again.
pub expand : Bytes → Option Bytes
expand c = elim (get_elem? c 32) [
  | none ↦ none
  | some b ↦ some (take 32 c ++ b % 128 ∷ drop 33 c ++ b / 128 ∷ [])
]

-- Seven bits below a high bit, checked one by one.
high_bit : ℕ → Bool
high_bit zero = true
high_bit (suc b) = nat_beq (bit_or b 128) (b + 128) && nat_beq (bit_or b 0) b && high_bit b

high_bit_all : high_bit 128 ≡ true
unfolding high_bit
high_bit_all = refl

high_bit_below : (k b : ℕ) → b < k → high_bit k ≡ true → (bit_or b 128 ≡ b + 128) × (bit_or b 0 ≡ b)
unfolding high_bit
high_bit_below zero b h all = absurd (omega arith)
high_bit_below (suc k) b h all = elim (Bool-cases (nat_beq b k)) [
  | inl last ↦
      let e = (nat_beq_iff b k).0 last in
      rw e (ground (arith, nat_beq_iff (bit_or k 128) (k + 128), nat_beq_iff (bit_or k 0) k))
  | inr earlier ↦ high_bit_below k b (ground (arith, nat_beq_iff b k)) (ground arith)
]

bit_or_high : (b v : ℕ) → b < 128 → v < 2 → bit_or b (v * 128 % 256) ≡ b + v * 128
bit_or_high b zero hb hv = (high_bit_below 128 b hb high_bit_all).1 ∙ omega arith
bit_or_high b (suc zero) hb hv = (high_bit_below 128 b hb high_bit_all).0
bit_or_high b (suc (suc v)) hb hv = absurd (omega arith)

get_elem?-append {ℓ} :
    {A : Type ℓ} (r : List A) (b : A) (s : List A) → get_elem? (r ++ b ∷ s) (length r) ≡ some b
get_elem?-append [] b s = refl
get_elem?-append (x ∷ r) b s = get_elem?-append r b s

set-append {ℓ} :
    {A : Type ℓ} (r : List A) (b c : A) (s : List A) → set (r ++ b ∷ s) (length r) c ≡ r ++ c ∷ s
set-append [] b c s = refl
set-append (x ∷ r) b c s = ap (x ∷◌) (set-append r b c s)

take-append_left {ℓ} : {A : Type ℓ} (r s : List A) → take (length r) (r ++ s) ≡ r
take-append_left [] s = refl
take-append_left (x ∷ r) s = ap (x ∷◌) (take-append_left r s)

drop-append_left {ℓ} :
    {A : Type ℓ} (r : List A) (b : A) (s : List A) → drop (suc (length r)) (r ++ b ∷ s) ≡ s
drop-append_left [] b s = refl
drop-append_left (x ∷ r) b s = drop-append_left r b s

expand-append :
    (r s : Bytes) (b v : ℕ)
    → length r ≡ 32
    → b < 128
    → expand (r ++ (b + v * 128) ∷ s) ≡ some (r ++ b ∷ s ++ v ∷ [])
unfolding expand
expand-append r s b v hr hb =
    let here : get_elem? (r ++ (b + v * 128) ∷ s) 32 ≡ some (b + v * 128) =
      rw (← hr) (get_elem?-append r (b + v * 128) s) in
    let front : take 32 (r ++ (b + v * 128) ∷ s) ≡ r =
      rw (← hr) (take-append_left r ((b + v * 128) ∷ s)) in
    let back : drop 33 (r ++ (b + v * 128) ∷ s) ≡ s =
      ap (λ n. drop (suc n) (r ++ (b + v * 128) ∷ s)) (sym hr)
      ∙ drop-append_left r (b + v * 128) s in
    let low : (b + v * 128) % 128 ≡ b = omega arith in
    let high : (b + v * 128) / 128 ≡ v = omega arith in rw (expand, here, front, back, low, high)

-- The last byte of a signature in its parts.
get_elem?-last :
    (r s : Bytes) (b v : ℕ)
    → length r ≡ 32
    → length s ≡ 31
    → get_elem? (r ++ b ∷ s ++ v ∷ []) 64 ≡ some v
get_elem?-last r s b v hr hs =
    let whole : get_elem? ((r ++ b ∷ s) ++ v ∷ []) (length (r ++ b ∷ s)) ≡ some v =
      get_elem?-append (r ++ b ∷ s) v [] in
    let size : length (r ++ b ∷ s) ≡ 64 = omega (arith, length-append r (b ∷ s)) in
    ap (get_elem? ((r ++ b ∷ s) ++ v ∷ [])) (sym size) ∙ whole

take-first :
    (r s : Bytes) (b v : ℕ)
    → length r ≡ 32
    → length s ≡ 31
    → take 64 (r ++ b ∷ s ++ v ∷ []) ≡ r ++ b ∷ s
take-first r s b v hr hs =
    let whole : take (length (r ++ b ∷ s)) ((r ++ b ∷ s) ++ v ∷ []) ≡ r ++ b ∷ s =
      take-append_left (r ++ b ∷ s) (v ∷ []) in
    let size : length (r ++ b ∷ s) ≡ 64 = omega (arith, length-append r (b ∷ s)) in
    ap (λ n. take n ((r ++ b ∷ s) ++ v ∷ [])) (sym size) ∙ whole

-- A signature of 32 bytes, then 32 bytes whose highest bit is 0, then a parity of 0 or 1, has a
-- compact form of 64 bytes from which the decoding of EIP-2098 restores the whole signature.
pub compact_signature-expand :
    (r s : Bytes) (b v : ℕ)
    → length r ≡ 32
    → length s ≡ 31
    → b < 128
    → v < 2
    → (c written : Bytes) × (compact_signature (r ++ b ∷ s ++ v ∷ []) ≡ ok (c, written))
      × (length c ≡ 64)
      × (expand c ≡ some (r ++ b ∷ s ++ v ∷ []))
unfolding compact_signature
compact_signature-expand r s b v hr hs hb hv =
    let rsv = r ++ b ∷ s ++ v ∷ [] in
    let size : length rsv ≡ 65 =
      omega (arith, length-append (r ++ b ∷ s) (v ∷ []), length-append r (b ∷ s)) in
    let full : nat_beq (length rsv) 65 ≡ true = (nat_beq_iff (length rsv) 65).1 size in
    let parity : nat_beq v 0 || nat_beq v 1 ≡ true =
      ground (arith, nat_beq_iff v 0, nat_beq_iff v 1) in
    let here : get_elem? rsv 32 ≡ some b =
      ap (λ l. get_elem? l 32) (append_assoc r (b ∷ s) (v ∷ []))
      ∙ ap (get_elem? (r ++ b ∷ (s ++ v ∷ []))) (sym hr)
      ∙ get_elem?-append r b (s ++ v ∷ []) in
    let high : set rsv 32 (bit_or b (v * 128 % 256)) ≡ r ++ (b + v * 128) ∷ s ++ v ∷ [] =
      ap (set rsv 32) (bit_or_high b v hb hv)
      ∙ ap (λ l. set l 32 (b + v * 128)) (append_assoc r (b ∷ s) (v ∷ []))
      ∙ ap (λ n. set (r ++ b ∷ (s ++ v ∷ [])) n (b + v * 128)) (sym hr)
      ∙ set-append r b (b + v * 128) (s ++ v ∷ [])
      ∙ sym (append_assoc r ((b + v * 128) ∷ s) (v ∷ [])) in
    (
      r ++ (b + v * 128) ∷ s,
      r ++ (b + v * 128) ∷ s ++ v ∷ [],
      rw (
        full,
        get_elem?-last r s b v hr hs,
        parity,
        here,
        high,
        take-first r s (b + v * 128) v hr hs,
      ),
      omega (arith, length-append r ((b + v * 128) ∷ s)),
      expand-append r s b v hr hb,
    )

-- CompactSignature refuses every length other than 65, and at that length every last byte above 1.
compact_signature_refuses :
    (rsv : Bytes)
    → (length rsv ≢ 65 → compact_signature rsv ≡ err (bad_length (length rsv)))
      × ((v : ℕ)
          → length rsv ≡ 65
          → get_elem? rsv 64 ≡ some v
          → 1 < v
          → compact_signature rsv ≡ err (bad_v v))
unfolding compact_signature
compact_signature_refuses rsv = (
  λ h. let short : nat_beq (length rsv) 65 ≡ false = nat_beq_ne (length rsv) 65 h in rw short,
  λ v h last large.
      let full : nat_beq (length rsv) 65 ≡ true = (nat_beq_iff (length rsv) 65).1 h in
      let other : nat_beq v 0 || nat_beq v 1 ≡ false =
        ground (arith, nat_beq_iff v 0, nat_beq_iff v 1) in
      rw (full, last, other),
)

abbrev keep : Option Bytes → Bytes → Outcome SignError (Bytes × Option Bytes)
keep nonce sig = ok (sig, nonce)

abbrev answer : Bytes × Option Bytes → Outcome SignError (Bytes × Bytes)
answer s = or_panic (s.1) >>= λ nonce. ok (s.0, nonce)

abbrev beside : Bytes → Bytes → Outcome SignError (Bytes × Bytes)
beside nonce sig = ok (sig, nonce)

same_answer :
    (nonce : Bytes) (o : Outcome SignError Bytes)
    → (o >>= keep (some nonce) >>= answer) ≡ (o >>= keep none >>= (λ s. ok (s.0)) >>= beside nonce)
same_answer nonce (ok sig) = refl
same_answer nonce (err e) = refl
same_answer nonce panics = refl

module _ (keccak256 : Bytes → Bytes) (ecdsa_sign : Bytes → Option Bytes) where
  -- With 32 random bytes read, PersonalSignWithNonce gives the nonce and what PersonalSign gives
  -- for the message with the nonce behind it, a failure included.
  pub personal_sign_with_nonce-personal_sign :
      (random : RandomRead) (buf : Bytes)
      → random.n ≡ 32
      → random.failed ≡ false
      → personal_sign_with_nonce keccak256 ecdsa_sign random buf ≡ (
          personal_sign keccak256 ecdsa_sign random (buf ++ random.nonce) >>= λ sig.
          ok (sig, random.nonce))
  unfolding personal_sign_with_nonce personal_sign sign append_random_nonce sign_message
  personal_sign_with_nonce-personal_sign random buf hn hf =
      let full : nat_beq random.n 32 ≡ true = (nat_beq_iff random.n 32).1 hn in
      rw (full, hf)
        (same_answer random.nonce (
          sign_message keccak256 ecdsa_sign (buf ++ random.nonce)
            (record { raw = false; compact = true; personal = true; with_nonce = false })))

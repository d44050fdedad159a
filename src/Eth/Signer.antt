-- ===== src/Eth/Signer.antt =====
-- eth/signer.go: compact signatures, the prefix of personal messages, and the signing methods.
-- Keccak256, the signature of go-ethereum under the Signer's key, and the source of random bytes
-- are parameters.
pub mod Laws
use Prim.Native.Nat.{bit_or}
use ethier.Common.{
  ℕ, ◌+◌, ◌*◌, ◌%◌, Bool, true, false, ◌||◌, ◌∷◌, ◌++◌, Option, none, some, Bytes, codes, length,
  get_elem?, set, take, nat_beq, if◌then◌else◌, Outcome, ok, err, ◌>>=◌, or_err, or_panic,
}
use ethier.Common.Int.{pos}
use ethier.Golang.Print.{print_int}

pub data SignError : Type 0 where
  bad_length bad_v : ℕ → SignError
  bad_nonce bad_hash : SignError

-- `CompactSignature`: the signature, and what the argument's array then holds, since the high bit
-- is written into it.
unfoldable pub compact_signature : Bytes → Outcome SignError (Bytes × Bytes)
compact_signature rsv =
    if nat_beq (length rsv) 65
    then (or_panic (get_elem? rsv 64) >>= λ v.
        if nat_beq v 0 || nat_beq v 1
        then (or_panic (get_elem? rsv 32) >>= λ b.
            let written = set rsv 32 (bit_or b (v * 128 % 256)) in ok (take 64 written, written))
        else err (bad_v v))
    else err (bad_length (length rsv))

-- `WithPersonalMessagePrefix`
unfoldable pub with_personal_message_prefix : Bytes → Bytes
unfolding print_int
with_personal_message_prefix message =
    (25 ∷ codes "Ethereum Signed Message:\n" ++ print_int (pos (length message))) ++ message

-- What `rand.Read(nonce[:])` returns, and the array behind it.
pub record RandomRead : Type 0 where
  pub n : ℕ
  pub failed : Bool
  pub nonce : Bytes

-- `appendRandomNonce`
unfoldable pub append_random_nonce : RandomRead → Bytes → Outcome SignError (Bytes × Bytes)
append_random_nonce random buf =
    if nat_beq random.n 32
    then (if random.failed then err bad_nonce else ok (buf ++ random.nonce, random.nonce))
    else err bad_nonce

-- `signOpts`
pub record SignOpts : Type 0 where
  pub raw : Bool
  pub compact : Bool
  pub personal : Bool
  pub with_nonce : Bool

module _ (keccak256 : Bytes → Bytes) (ecdsa_sign : Bytes → Option Bytes) where
  -- `(*Signer).sign` from the prefix on.
  unfoldable pub sign_message : Bytes → SignOpts → Outcome SignError Bytes
  unfolding with_personal_message_prefix compact_signature
  sign_message buf opts =
      let message = if opts.personal then with_personal_message_prefix buf else buf in
      let digest = if opts.raw then message else keccak256 message in
      or_err bad_hash (ecdsa_sign digest) >>= λ sig.
      if opts.compact then compact_signature sig >>= (λ c. ok (c.0)) else ok sig

  -- `(*Signer).sign`; the nonce is nil without the option.
  unfoldable pub sign : RandomRead → Bytes → SignOpts → Outcome SignError (Bytes × Option Bytes)
  unfolding append_random_nonce sign_message
  sign random buf opts =
      if opts.with_nonce
      then (append_random_nonce random buf >>= λ b.
          sign_message (b.0) opts >>= λ sig. ok (sig, some (b.1)))
      else (sign_message buf opts >>= λ sig. ok (sig, none))

  -- The methods without a nonce read nothing from the random source.
  unfoldable pub raw_sign : RandomRead → Bytes → Outcome SignError Bytes
  unfolding sign
  raw_sign random buf =
      sign random buf (record { raw = true; compact = false; personal = false; with_nonce = false })
      >>= λ s. ok (s.0)

  -- `(*Signer).Sign`
  unfoldable pub sign_hashed : RandomRead → Bytes → Outcome SignError Bytes
  unfolding sign
  sign_hashed random buf =
      sign random buf
        (record { raw = false; compact = false; personal = false; with_nonce = false })
      >>= λ s. ok (s.0)

  unfoldable pub personal_sign : RandomRead → Bytes → Outcome SignError Bytes
  unfolding sign
  personal_sign random buf =
      sign random buf (record { raw = false; compact = true; personal = true; with_nonce = false })
      >>= λ s. ok (s.0)

  -- `*nonce` panics on nil.
  unfoldable pub personal_sign_with_nonce : RandomRead → Bytes → Outcome SignError (Bytes × Bytes)
  unfolding sign
  personal_sign_with_nonce random buf =
      sign random buf (record { raw = false; compact = true; personal = true; with_nonce = true })
      >>= λ s. or_panic (s.1) >>= λ nonce. ok (s.0, nonce)

  unfoldable pub personal_sign_address : RandomRead → Bytes → Outcome SignError Bytes
  unfolding personal_sign
  personal_sign_address random addr = personal_sign random addr

-- ===== src/Eth/Tests.antt =====
-- Runs of eth/signer.go and eth/converters.go, and their theorems at concrete inputs.
use ethier.Common.{
  ℕ, false, [], ◌∷◌, ◌++◌, Option, some, ◌≡◌, refl, Bytes, codes, length, replicate, ok, ◌>>=◌,
  arith,
}
use ethier.Common.Int.{ℤ, pos, negsuc, ◌*ℤ◌}
use ethier.Eth.Converters.{wei, ether_fraction}
use ethier.Eth.Converters.Laws.{IsQuotient, ether_fraction-IsQuotient}
use ethier.Eth.Wallet.{
  Keys, Signer, default_hd_path_prefix, new_signer, signer_from_prf, signer_from_seed_phrase,
  mnemonic,
}
use ethier.Eth.Wallet.Laws.{signer_from_seed_phrase_again}
use ethier.Eth.Signer.{
  RandomRead, compact_signature, with_personal_message_prefix, personal_sign,
  personal_sign_with_nonce,
}
use ethier.Eth.Signer.Laws.{
  expand, compact_signature-expand, personal_sign_with_nonce-personal_sign,
}

abbrev r_bytes : Bytes
r_bytes = replicate 32 7

abbrev s_bytes : Bytes
s_bytes = replicate 31 9

compact_signature-expand_example :
    (c written : Bytes) × (compact_signature (r_bytes ++ 5 ∷ s_bytes ++ 1 ∷ []) ≡ ok (c, written))
    × (length c ≡ 64)
    × (expand c ≡ some (r_bytes ++ 5 ∷ s_bytes ++ 1 ∷ []))
compact_signature-expand_example =
    compact_signature-expand r_bytes s_bytes 5 1 refl refl (omega arith) (omega arith)

abbrev bad_parity : Bytes
bad_parity = replicate 64 1 ++ 27 ∷ []

prefixed :
    with_personal_message_prefix (codes "hello") ≡ 25 ∷ codes "Ethereum Signed Message:\n5hello"
unfolding with_personal_message_prefix
prefixed = refl

abbrev some_nonce : RandomRead
some_nonce = record { n = 32; failed = false; nonce = replicate 32 3 }

-- A toy signature: the hash is the text, and every text has the same signature.
abbrev toy_keccak : Bytes → Bytes
toy_keccak text = text

abbrev toy_signature : Bytes → Option Bytes
toy_signature text = some (replicate 64 (length text) ++ 1 ∷ [])

personal_sign_with_nonce-personal_sign_example :
    personal_sign_with_nonce toy_keccak toy_signature some_nonce (codes "hello") ≡ (
      personal_sign toy_keccak toy_signature some_nonce (codes "hello" ++ some_nonce.nonce)
      >>= λ sig. ok (sig, some_nonce.nonce))
personal_sign_with_nonce-personal_sign_example =
    personal_sign_with_nonce-personal_sign toy_keccak toy_signature some_nonce (codes "hello") refl
      refl

ether_fraction-IsQuotient_example :
    (q : ℤ) × (ether_fraction (negsuc 0) (negsuc 2) ≡ some q)
    × IsQuotient (negsuc 0 *ℤ pos wei) (negsuc 2) q
ether_fraction-IsQuotient_example =
    ether_fraction-IsQuotient (negsuc 0) (negsuc 2) (λ e. absurd (cc))

-- Toy keys: a seed is its mnemonic and its password, and an account's key is its path and the seed.
abbrev toy_keys : Keys Bytes Bytes Bytes Bytes Bytes Bytes
toy_keys = record {
  new_entropy = λ bits. some (replicate 16 7);
  new_mnemonic = λ entropy. some (codes "zoo " ++ entropy);
  new_seed = λ m password. some (m ++ password);
  new_from_seed = λ seed. some seed;
  parse_derivation_path = λ path. some path;
  derive = λ wallet path. some (path ++ wallet);
  private_key = λ wallet account. some account;
  compute_prf = λ f input n. some (replicate n 3);
  mnemonic_from_entropy = λ entropy. some (codes "zoo " ++ entropy);
  keyed_transactor = λ key id. some key;
  pubkey_to_address = λ key. key;
  address_string = λ address. address;
}

signer_from_seed_phrase_again_example :
    ((bit_size : ℤ) (s : Signer Bytes)
      → new_signer toy_keys bit_size ≡ ok s
      → signer_from_seed_phrase toy_keys default_hd_path_prefix (mnemonic toy_keys s) [] 0 ≡ ok s)
    × ((hdp : Bytes) (src : Bytes) (input : Bytes) (account : ℕ) (s : Signer Bytes)
        → signer_from_prf toy_keys hdp src input account ≡ ok s
        → signer_from_seed_phrase toy_keys hdp (mnemonic toy_keys s) [] account ≡ ok s)
signer_from_seed_phrase_again_example = signer_from_seed_phrase_again toy_keys

-- The toy keys do give a signer.
toy_signer :
    (s : Signer Bytes) × (new_signer toy_keys (pos 128) ≡ ok s)
    × (mnemonic toy_keys s ≡ codes "zoo " ++ replicate 16 7)
unfolding new_signer signer_from_seed_phrase mnemonic
toy_signer = (_, refl, refl)

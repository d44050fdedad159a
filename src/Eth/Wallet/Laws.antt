-- ===== src/Eth/Wallet/Laws.antt =====
-- Mnemonics give their Signers back, and accounts have paths of their own.
use ethier.Common.{
  ℕ, ◌<◌, ◌^◌, [], ◌∷◌, ◌++◌, ◌≡◌, sym, ap, ◌∙◌, Bytes, ok, or_err, bind-ok, ok-injective, arith,
}
use ethier.Common.Int.{ℤ}
use ethier.Golang.Print.{print_int, print_digits}
use ethier.Golang.Print.Laws.{print_digits_injective}
use ethier.Eth.Wallet.{
  Signer, create_seed, create_wallet, parse_path, derive_account, obtain_key, compute_entropy,
  derive_mnemonic, Keys, default_hd_path_prefix, derivation_path, signer_from_seed_phrase,
  new_mnemonic, new_signer, signer_from_prf, mnemonic,
}

append_cancel : (p : Bytes) (a b : Bytes) → p ++ a ≡ p ++ b → a ≡ b
append_cancel [] a b h = h
append_cancel (c ∷ p) a b h = append_cancel p a b cc

-- Two accounts of 64 bits with the same derivation path under one prefix are the same account.
derivation_path_injective :
    (hdp : Bytes) (a b : ℕ)
    → a < 2 ^ 64
    → b < 2 ^ 64
    → derivation_path hdp a ≡ derivation_path hdp b
    → a ≡ b
unfolding derivation_path print_int
derivation_path_injective hdp a b ha hb h =
    print_digits_injective 20 a b (omega arith) (omega arith)
      (append_cancel hdp (print_digits 20 a) (print_digits 20 b) h)

module _ {Key Wallet Path_ Account Prf Transactor : Type 0}
    (keys : Keys Key Wallet Path_ Account Prf Transactor) where
  signer_from_seed_phrase-mnemonic :
      (hdp mn password : Bytes) (account : ℕ) (s : Signer Key)
      → signer_from_seed_phrase keys hdp mn password account ≡ ok s
      → mnemonic keys s ≡ mn
  unfolding signer_from_seed_phrase mnemonic
  signer_from_seed_phrase-mnemonic hdp mn password account s h =
      let (seed, _, h1) = bind-ok (or_err create_seed (keys.new_seed mn password)) _ h in
      let (wallet, _, h2) = bind-ok (or_err create_wallet (keys.new_from_seed seed)) _ h1 in
      let (path, _, h3) =
        bind-ok (or_err parse_path (keys.parse_derivation_path (derivation_path hdp account))) _
          h2 in
      let (acc, _, h4) = bind-ok (or_err derive_account (keys.derive wallet path)) _ h3 in
      let (key, _, done) = bind-ok (or_err obtain_key (keys.private_key wallet acc)) _ h4 in
      sym (ap (λ q. q.mnemonic) (ok-injective done))

  again :
      (hdp mn : Bytes) (account : ℕ) (s : Signer Key)
      → signer_from_seed_phrase keys hdp mn [] account ≡ ok s
      → signer_from_seed_phrase keys hdp (mnemonic keys s) [] account ≡ ok s
  again hdp mn account s h =
      ap (λ m. signer_from_seed_phrase keys hdp m [] account)
        (signer_from_seed_phrase-mnemonic hdp mn [] account s h)
      ∙ h

  -- The mnemonic of a Signer that was made anew, or from a pseudo-random function, gives the same
  -- Signer again, without a password and for the same prefix and account.
  pub signer_from_seed_phrase_again :
      ((bit_size : ℤ) (s : Signer Key)
        → new_signer keys bit_size ≡ ok s
        → signer_from_seed_phrase keys default_hd_path_prefix (mnemonic keys s) [] 0 ≡ ok s)
      × ((hdp : Bytes) (src : Prf) (input : Bytes) (account : ℕ) (s : Signer Key)
          → signer_from_prf keys hdp src input account ≡ ok s
          → signer_from_seed_phrase keys hdp (mnemonic keys s) [] account ≡ ok s)
  unfolding new_signer signer_from_prf
  signer_from_seed_phrase_again = (
    λ bit_size s h.
        let (m, made, h') = bind-ok (new_mnemonic keys bit_size) _ h in
        again default_hd_path_prefix m 0 s h',
    λ hdp src input account s h.
        let (entropy, _, h1) =
          bind-ok (or_err compute_entropy (keys.compute_prf src input 32)) _ h in
        let (mn, _, h2) =
          bind-ok (or_err derive_mnemonic (keys.mnemonic_from_entropy entropy)) _ h1 in
        again hdp mn account s h2,
  )

-- ===== src/Eth/Wallet.antt =====
-- eth/signer.go: Signers from mnemonics, seed phrases and pseudo-random functions. BIP39, the wallet,
-- Tink's functions and go-ethereum's keys are parameters.
pub mod Laws
use ethier.Common.{
  ℕ, [], ◌++◌, Option, none, some, Bytes, codes, Outcome, ok, panics, or_err, ◌>>=◌,
}
use ethier.Common.Int.{ℤ, pos}
use ethier.Golang.Print.{print_int}

-- A `Signer`.
pub record Signer (Key : Type 0) : Type 0 where
  pub key : Key
  pub mnemonic : Bytes

pub data WalletError : Type 0 where
  generate_entropy convert_entropy create_seed create_wallet parse_path derive_account : WalletError
  obtain_key compute_entropy derive_mnemonic bad_chain : WalletError

-- `bip39`, `hdwallet`, `prf`, `crypto` and `bind`; `compute_prf` may fail, as may all but the last two.
pub record Keys (Key Wallet Path_ Account Prf Transactor : Type 0) : Type 0 where
  pub new_entropy : ℤ → Option Bytes
  pub new_mnemonic : Bytes → Option Bytes
  pub new_seed : Bytes → Bytes → Option Bytes
  pub new_from_seed : Bytes → Option Wallet
  pub parse_derivation_path : Bytes → Option Path_
  pub derive : Wallet → Path_ → Option Account
  pub private_key : Wallet → Account → Option Key
  pub compute_prf : Prf → Bytes → ℕ → Option Bytes
  pub mnemonic_from_entropy : Bytes → Option Bytes
  pub keyed_transactor : Key → ℤ → Option Transactor
  pub pubkey_to_address : Key → Bytes
  pub address_string : Bytes → Bytes

-- `DefaultHDPathPrefix`
abbrev pub default_hd_path_prefix : Bytes
default_hd_path_prefix = codes "m/44'/60'/0'/0/"

-- `fmt.Sprintf("%s%d", hdp, account)`
unfoldable pub derivation_path : Bytes → ℕ → Bytes
unfolding print_int
derivation_path hdp account = hdp ++ print_int (pos account)

module _ {Key Wallet Path_ Account Prf Transactor : Type 0}
    (keys : Keys Key Wallet Path_ Account Prf Transactor) where
  -- `HDPathPrefix.SignerFromSeedPhrase`
  unfoldable pub signer_from_seed_phrase :
      Bytes → Bytes → Bytes → ℕ → Outcome WalletError (Signer Key)
  unfolding derivation_path
  signer_from_seed_phrase hdp mnemonic password account = do
    seed ← or_err create_seed (keys.new_seed mnemonic password)
    wallet ← or_err create_wallet (keys.new_from_seed seed)
    path ← or_err parse_path (keys.parse_derivation_path (derivation_path hdp account))
    acc ← or_err derive_account (keys.derive wallet path)
    key ← or_err obtain_key (keys.private_key wallet acc)
    ok (record { key = key; mnemonic = mnemonic })

  -- `NewMnemonic`
  unfoldable pub new_mnemonic : ℤ → Outcome WalletError Bytes
  new_mnemonic bit_size = do
    buf ← or_err generate_entropy (keys.new_entropy bit_size)
    or_err convert_entropy (keys.new_mnemonic buf)

  -- `NewSigner`
  unfoldable pub new_signer : ℤ → Outcome WalletError (Signer Key)
  unfolding new_mnemonic signer_from_seed_phrase
  new_signer bit_size = do
    m ← new_mnemonic bit_size
    signer_from_seed_phrase default_hd_path_prefix m [] 0

  -- `HDPathPrefix.SignerFromPRF`
  unfoldable pub signer_from_prf : Bytes → Prf → Bytes → ℕ → Outcome WalletError (Signer Key)
  unfolding signer_from_seed_phrase
  signer_from_prf hdp src input account = do
    entropy ← or_err compute_entropy (keys.compute_prf src input 32)
    mn ← or_err derive_mnemonic (keys.mnemonic_from_entropy entropy)
    signer_from_seed_phrase hdp mn [] account

  -- `HDPathPrefix.SignerFromPRFSet`, of the functions by their numbers; a nil one would panic.
  unfoldable pub signer_from_prf_set :
      Bytes → (ℕ → Option Prf) → ℕ → Bytes → ℕ → Outcome WalletError (Signer Key)
  unfolding signer_from_prf
  signer_from_prf_set hdp prfs primary_id input account = elim (prfs primary_id) [
    | none ↦ panics
    | some src ↦ signer_from_prf hdp src input account
  ]

  -- `(*Signer).Address`
  unfoldable pub address : Signer Key → Bytes
  address s = keys.pubkey_to_address s.key

  -- `(*Signer).String`
  unfoldable pub string : Signer Key → Bytes
  unfolding address
  string s = keys.address_string (address s)

  -- `(*Signer).Mnemonic`
  unfoldable pub mnemonic : Signer Key → Bytes
  mnemonic s = s.mnemonic

  -- `(*Signer).TransactorWithChainID`
  unfoldable pub transactor_with_chain_id : ℤ → Signer Key → Outcome WalletError Transactor
  transactor_with_chain_id chain_id s = or_err bad_chain (keys.keyed_transactor s.key chain_id)

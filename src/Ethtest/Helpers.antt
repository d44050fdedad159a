-- ===== src/Ethtest/Helpers.antt =====
-- ethtest/ethtest.go and ethtest/revert/revert.go: errors that a contract's execution gave, big
-- numbers compared, and reverts checked by their text. errdiff is a parameter.
use ethier.Common.{
  [], ◌∷◌, ◌++◌, ◌*◌, ◌^◌, ◌%◌, ◌≡◌, refl, ℕ, Bool, true, false, Option, none, some, Bytes, codes,
  length, nat_beq, if◌then◌else◌,
}
use ethier.Golang.Print.{print_digits}
use ethier.Common.Int.{to_int64, ℤ, pos, negsuc}

-- An error that is both an `rpc.Error` and an `rpc.DataError`.
pub record RpcError (Data : Type 0) : Type 0 where
  pub error_code : ℤ
  pub error_data : Data

-- `(*big.Int).Cmp(…) == 0`
unfoldable pub same_big : ℤ → ℤ → Bool
same_big (pos a) (pos b) = nat_beq a b
same_big (negsuc a) (negsuc b) = nat_beq a b
same_big _ _ = false

-- `ExecutionErrData`; an error of another type is `none`.
unfoldable pub execution_err_data : {Data : Type 0} → Option (RpcError Data) → Option Data
unfolding same_big
execution_err_data none = none
execution_err_data (some e) = if same_big e.error_code (pos 3) then some e.error_data else none

-- The function that `Comparers` appends; `none` is a nil pointer.
unfoldable pub big_equal : Option ℤ → Option ℤ → Bool
unfolding same_big
big_equal none none = true
big_equal none (some b) = false
big_equal (some a) none = false
big_equal (some a) (some b) = same_big a b

-- A `Checker`.
abbrev pub Checker : Type 0
Checker = Bytes

-- `Any`
abbrev pub any : Checker
any = codes "execution reverted"

-- `Checker.Diff`; an error is its text.
unfoldable pub diff : (Option Bytes → Bytes → Bytes) → Checker → Option Bytes → Bytes
diff substring c e = substring e (if nat_beq (length c) 0 then any else c)

-- Checkers for OpenZeppelin modifiers.
abbrev already_initialized : Checker
already_initialized = codes "Initializable: contract is already initialized"

abbrev only_owner : Checker
only_owner = codes "Ownable: caller is not the owner"

abbrev paused : Checker
paused = codes "Pausable: paused"

abbrev reentrant : Checker
reentrant = codes "ReentrancyGuard: reentrant call"

-- Checkers for ethier libraries and contracts.
abbrev erc721_approve_or_owner : Checker
erc721_approve_or_owner = codes "ERC721ACommon: Not approved nor owner"

abbrev invalid_signature : Checker
invalid_signature = codes "SignatureChecker: Invalid signature"

abbrev not_started : Checker
not_started = codes "LinearDutchAuction: Not started"

abbrev sold_out : Checker
sold_out = codes "Seller: Sold out"

-- Checkers for the wETH test double.
abbrev weth_withdraw : Checker
weth_withdraw = codes "WETH9Test: insufficient balance to withdraw"

abbrev weth_transfer : Checker
weth_transfer = codes "WETH9Test: insufficient balance to transfer"

abbrev weth_allowance : Checker
weth_allowance = codes "WETH9Test: insufficient allowance"

-- `eth.Symbol`, in UTF-8.
abbrev symbol : Bytes
symbol = 0xce ∷ 0x9e ∷ []

-- `GasPrice`
abbrev default_gas_price : ℕ
default_gas_price = 200

-- The text that `LogGas` logs for a transaction's gas at a price; `comma` is `humanize.Comma` and
-- `float_string` the text of a fraction with four digits. Both conversions to int64 wrap around.
unfoldable log_gas : (ℤ → Bytes) → (ℤ → ℕ → Bytes) → (gas gas_price : ℕ) → Bytes → Bytes
unfolding to_int64 print_digits
log_gas comma float_string gas gas_price prefix =
    codes "["
    ++ prefix
    ++ codes "] "
    ++ comma (to_int64 gas)
    ++ codes " = "
    ++ float_string (to_int64 (gas * gas_price % 2 ^ 64)) (10 ^ 9)
    ++ symbol
    ++ codes " @ "
    ++ print_digits 20 gas_price
    ++ codes " gwei"

usual_price :
    log_gas
      (λ n. codes "21,000")
      (λ n d. if same_big n (pos 4_200_000) then codes "0.0042" else [])
      21_000
      default_gas_price
      (codes "mint")
    ≡ codes "[mint] 21,000 = 0.0042" ++ symbol ++ codes " @ 200 gwei"
unfolding log_gas same_big
usual_price = refl

same_number :
    (big_equal (some (pos 3)) (some (pos 3)) ≡ true) × (big_equal none (some (pos 0)) ≡ false)
unfolding big_equal
same_number = (refl, refl)

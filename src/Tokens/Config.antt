-- ===== src/Tokens/Config.antt =====
-- tokens/config.go: the configuration of a swap and its check. A *big.Int is an option of a natural
-- number: the amounts of the on-chain configuration are unsigned.
use check_tx_server.Common.{
  ℕ, ◌==◌, ltb, leb, Bool, true, false, ◌&&◌, Option, none, some, if◌then◌else◌,
}
use check_tx_server.Errors.{GoError, plain}

pub record SwapConfig : Type 0 where
  pub maximum_swap : Option ℕ
  pub minimum_swap : Option ℕ
  pub big_value_threshold : Option ℕ
  pub swap_fee_rate_per_million : ℕ
  pub maximum_swap_fee : Option ℕ
  pub minimum_swap_fee : Option ℕ

-- The amount, where the check has made sure that there is one
abbrev pub amount : Option ℕ → ℕ
amount none = 0
amount (some n) = n

abbrev missing : Option ℕ → Bool
missing none = true
missing (some n) = false

abbrev missing_or_zero : Option ℕ → Bool
missing_or_zero none = true
missing_or_zero (some n) = n == 0

-- SwapConfig.CheckConfig: `none` is the nil error
unfoldable pub check_config : SwapConfig → Option GoError
check_config c =
    if missing_or_zero c.maximum_swap
    then some (plain "token must config 'MaximumSwap' (positive)")
    else if missing_or_zero c.minimum_swap
    then some (plain "token must config 'MinimumSwap' (positive)")
    else if ltb (amount c.maximum_swap) (amount c.minimum_swap)
    then some (plain "wrong token config, MinimumSwap > MaximumSwap")
    else if missing_or_zero c.big_value_threshold
    then some (plain "token must config 'BigValueThreshold' (positive)")
    else if leb 1000000 c.swap_fee_rate_per_million
    then some (plain "token must config 'SwapFeeRatePerMillion' (< 1000000)")
    else if missing c.maximum_swap_fee
    then some (plain "token must config 'MaximumSwapFee' (non-negative)")
    else if missing c.minimum_swap_fee
    then some (plain "token must config 'MinimumSwapFee' (non-negative)")
    else if ltb (amount c.maximum_swap_fee) (amount c.minimum_swap_fee)
    then some (plain "wrong token config, MinimumSwapFee > MaximumSwapFee")
    else if ltb (amount c.minimum_swap) (amount c.minimum_swap_fee)
    then some (plain "wrong token config, MinimumSwap < MinimumSwapFee")
    else if c.swap_fee_rate_per_million == 0 && ltb 0 (amount c.minimum_swap_fee)
    then some (plain "wrong token config, MinimumSwapFee should be 0 if SwapFeeRatePerMillion is 0")
    else none

-- ===== src/Tokens/Value.antt =====
-- tokens/base.go: what a swap pays out, after the fee and the change of decimals. A nil *big.Int is
-- `none`; amounts are not negative, and big integers do not overflow.
pub mod Laws
use check_tx_server.Common.{
  ℕ, suc, ◌+◌, ◌-◌, ◌*◌, ◌/◌, ◌^◌, String, ◌==◌, ltb, leb, Bool, true, false, not, ◌&&◌, ◌||◌,
  Option, none, some, List, any, str_eq, to_lower, decimal, lookup, if◌then◌else◌,
}
use check_tx_server.Tokens.Payload.{get_token_id}
use check_tx_server.Tokens.{SwapType, SwapTxInfo, erc20_swap_type}
use check_tx_server.Tokens.Config.{SwapConfig, amount}
use mathlib.Core.Option

-- A signed percentage, an int64 of the source: `surcharge n` is n, and `discount n` is -(n + 1).
pub data Percent : Type 0 where
  surcharge discount : ℕ → Percent

-- The package variables that the functions read: routerSwapType, swapConfigMap (the key is the token id,
-- then the chain id), bigValueWhitelist and the BaseFeePercent of the extra configuration.
pub record Settings : Type 0 where
  pub router_swap_type : SwapType
  pub swap_configs : List (String × List (String × SwapConfig))
  pub big_value_whitelist : List (String × List String)
  pub base_fee_percents : Option (List (String × Percent))

unfoldable pub is_erc20_router : Settings → Bool
is_erc20_router g = g.router_swap_type == erc20_swap_type

config_for : String → Option (List (String × SwapConfig)) → Option SwapConfig
config_for chain none = none
config_for chain (some m) = lookup chain m

unfoldable pub get_swap_config : Settings → String → String → Option SwapConfig
unfolding config_for lookup
get_swap_config g token_id to_chain_id = config_for to_chain_id (lookup token_id g.swap_configs)

whitelisted : String → Option (List String) → Bool
whitelisted caller none = false
whitelisted caller (some callers) = any (str_eq (to_lower caller)) callers

-- params.IsInBigValueWhitelist
unfoldable pub is_in_big_value_whitelist : Settings → String → String → Bool
unfolding whitelisted lookup
is_in_big_value_whitelist g token_id caller =
    whitelisted caller (lookup token_id g.big_value_whitelist)

or_zero_percent : Option Percent → Percent
or_zero_percent none = surcharge 0
or_zero_percent (some p) = p

percent_for : String → Option (List (String × Percent)) → Percent
percent_for chain none = surcharge 0
percent_for chain (some m) = or_zero_percent (lookup chain m)

-- params.GetBaseFeePercent
unfoldable pub get_base_fee_percent : Settings → String → Percent
unfolding percent_for or_zero_percent lookup
get_base_fee_percent g chain_id = percent_for chain_id g.base_fee_percents

-- ConvertTokenValue, at a value that is not nil
unfoldable pub convert : ℕ → ℕ → ℕ → ℕ
convert from_value from_decimals to_decimals =
    if from_decimals == to_decimals
    then from_value
    else if ltb to_decimals from_decimals
    then from_value / 10 ^ (from_decimals - to_decimals)
    else from_value * 10 ^ (to_decimals - from_decimals)

unfoldable pub convert_token_value : Option ℕ → ℕ → ℕ → Option ℕ
unfolding convert
convert_token_value from_value from_decimals to_decimals =
    Option.map (λ v. convert v from_decimals to_decimals) from_value

threshold_of : Option SwapConfig → ℕ → Option ℕ
unfolding convert_token_value
threshold_of none from_decimals = some 0
threshold_of (some c) from_decimals = convert_token_value c.big_value_threshold 18 from_decimals

unfoldable pub get_big_value_threshold : Settings → String → String → ℕ → Option ℕ
unfolding threshold_of get_swap_config
get_big_value_threshold g token_id to_chain_id from_decimals =
    threshold_of (get_swap_config g token_id to_chain_id) from_decimals

-- swapFee + minSwapFee * percent / 100, and 0 where that is negative. Div of big integers rounds the
-- quotient by 100 down, so that of a negative number away from 0.
unfoldable pub adjust_base_fee : Percent → ℕ → ℕ → ℕ
adjust_base_fee (surcharge n) min_fee fee =
    if not (n == 0) && ltb 0 min_fee then fee + min_fee * n / 100 else fee
adjust_base_fee (discount n) min_fee fee =
    if ltb 0 min_fee then fee - (min_fee * suc n + 99) / 100 else fee

-- The fee of CalcSwapValue, at amounts of the configuration that are not nil
unfoldable pub swap_fee : SwapConfig → Bool → Percent → ℕ → ℕ → ℕ
unfolding adjust_base_fee
swap_fee c in_whitelist percent value from_decimals =
    let min_fee = convert (amount c.minimum_swap_fee) 18 from_decimals in
    let max_fee = convert (amount c.maximum_swap_fee) 18 from_decimals in
    let by_rate = value * c.swap_fee_rate_per_million / 1000000 in
    if in_whitelist
    then min_fee
    else adjust_base_fee percent min_fee
        (if ltb by_rate min_fee then min_fee else if ltb max_fee by_rate then max_fee else by_rate)

value_after_fee : Option SwapConfig → Bool → Percent → ℕ → ℕ → ℕ → ℕ
value_after_fee none in_whitelist percent value from_decimals to_decimals = 0
value_after_fee (some c) in_whitelist percent value from_decimals to_decimals =
    if ltb 0 c.swap_fee_rate_per_million
    then (let fee = swap_fee c in_whitelist percent value from_decimals in
        if leb value fee then 0 else convert (value - fee) from_decimals to_decimals)
    else convert value from_decimals to_decimals

unfoldable pub calc_swap_value : Settings → String → String → ℕ → ℕ → ℕ → String → String → ℕ
unfolding value_after_fee
calc_swap_value g token_id to_chain_id value from_decimals to_decimals origin_from origin_tx_to =
    let in_whitelist =
      is_in_big_value_whitelist g token_id origin_from
      || is_in_big_value_whitelist g token_id origin_tx_to in
    if not (is_erc20_router g)
    then value
    else value_after_fee (get_swap_config g token_id to_chain_id) in_whitelist
        (get_base_fee_percent g to_chain_id) value from_decimals to_decimals

in_range : Settings → SwapTxInfo → ℕ → ℕ → ℕ → Option SwapConfig → Bool
in_range g info value from_decimals to_decimals none = false
in_range g info value from_decimals to_decimals (some c) =
    let token_id = get_token_id info.swap_info in
    let chain = decimal info.to_chain_id in
    if ltb value (convert (amount c.minimum_swap) 18 from_decimals)
    then false
    else if ltb (convert (amount c.maximum_swap) 18 from_decimals) value
        && not (is_in_big_value_whitelist g token_id info.from)
        && not (is_in_big_value_whitelist g token_id info.tx_to)
    then false
    else ltb 0
        (calc_swap_value g token_id chain value from_decimals to_decimals info.from info.tx_to)

valued : Settings → SwapTxInfo → ℕ → ℕ → Option ℕ → Bool
valued g info from_decimals to_decimals none = false
valued g info from_decimals to_decimals (some value) =
    if value == 0
    then false
    else in_range g info value from_decimals to_decimals
        (get_swap_config g (get_token_id info.swap_info) (decimal info.to_chain_id))

unfoldable pub check_token_swap_value : Settings → SwapTxInfo → ℕ → ℕ → Bool
unfolding valued in_range
check_token_swap_value g info from_decimals to_decimals =
    if not (is_erc20_router g) then true else valued g info from_decimals to_decimals info.value

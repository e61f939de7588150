-- ===== src/Tokens/Value/Laws.antt =====
-- What a swap pays out: bounds, monotonicity and exactness of the change of decimals.
use check_tx_server.Common.{
  ℕ, ◌+◌, ◌-◌, ◌*◌, ◌/◌, ◌^◌, ◌≤◌, ◌<◌, ◌≡◌, ◌⊎◌, arith, String, Bool, true, false, ◌||◌, none,
  some,
}
use check_tx_server.Tokens.Config.{SwapConfig, amount, check_config}
use check_tx_server.Tokens.Value.{
  Percent, surcharge, discount, Settings, convert, swap_fee, calc_swap_value, get_swap_config,
  is_erc20_router, value_after_fee, is_in_big_value_whitelist, get_base_fee_percent,
}
use native.Mathlib.Nat.{
  pow-le-pow_right, mul-div_cancel, div-mul-le_self, mul-le-mul_right, mul-le-mul_left, le_of_lt,
}

-- A power of ten is positive.
ten_pow : (n : ℕ) → 0 < 10 ^ n
ten_pow n = pow-le-pow_right {n = 10} (omega arith) {i = 0} {j = n} (omega arith)

up_down : (value k : ℕ) → value * 10 ^ k / 10 ^ k ≡ value
up_down value k = mul-div_cancel value (ten_pow k)

-- Changing to as many decimals or more, and back, gives the value.
pub convert-convert :
    (value few more : ℕ) → few ≤ more → convert (convert value few more) more few ≡ value
unfolding convert
convert-convert value few more h = ground (arith, up_down value (more - few))

-- Changing the decimals and back never gives more than the value.
pub convert-convert_le : (value f t : ℕ) → convert (convert value f t) t f ≤ value
unfolding convert
convert-convert_le value f t =
    ground (arith, up_down value (t - f), div-mul-le_self value (10 ^ (f - t)))

div_mono : (a b n : ℕ) → a ≤ b → a / n ≤ b / n
div_mono a b n h = grind arith

pub convert_mono : (a b f t : ℕ) → a ≤ b → convert a f t ≤ convert b f t
unfolding convert
convert_mono a b f t h =
    ground (arith, div_mono a b (10 ^ (f - t)), mul-le-mul_right {m = a} {n = b} (10 ^ (t - f)) h)

-- What a configuration that passed its check guarantees of the fee.
checked_rate : (c : SwapConfig) → check_config c ≡ none → c.swap_fee_rate_per_million < 1000000
unfolding check_config
checked_rate c valid = ground arith

checked_fees :
    (c : SwapConfig) → check_config c ≡ none → amount c.minimum_swap_fee ≤ amount c.maximum_swap_fee
unfolding check_config
checked_fees c valid = ground arith

-- The fee of a checked configuration without a change by the base fee percentage lies between the
-- configured bounds, in the token's decimals; for an account on the whitelist it is the minimum.
pub swap_fee_bounds :
    (c : SwapConfig) (in_whitelist : Bool) (value decimals : ℕ)
    → check_config c ≡ none
    → let lo = convert (amount c.minimum_swap_fee) 18 decimals in
      let hi = convert (amount c.maximum_swap_fee) 18 decimals in
      let fee = swap_fee c in_whitelist (surcharge 0) value decimals in
      (lo ≤ fee) × (fee ≤ hi) × ((in_whitelist ≡ false) ⊎ (fee ≡ lo))
unfolding swap_fee
swap_fee_bounds c in_whitelist value decimals valid =
    let ordered = convert_mono _ _ 18 decimals (checked_fees c valid) in ground arith

-- Where a rate is below one, a part of a larger amount grows by no more than the amount.
rate_slope : (a d r : ℕ) → r < 1000000 → (a + d) * r / 1000000 ≤ a * r / 1000000 + d
rate_slope a d r h = omega (arith, mul-le-mul_left d (le_of_lt h))

-- What is left after the fee grows with the value, whatever the base fee percentage.
left_mono :
    (c : SwapConfig) (in_whitelist : Bool) (percent : Percent) (a d decimals : ℕ)
    → c.swap_fee_rate_per_million < 1000000
    → swap_fee c in_whitelist percent (a + d) decimals
      ≤ swap_fee c in_whitelist percent a decimals + d
unfolding swap_fee
left_mono c in_whitelist (surcharge n) a d decimals h =
    ground (arith, rate_slope a d c.swap_fee_rate_per_million h)
left_mono c in_whitelist (discount n) a d decimals h =
    ground (arith, rate_slope a d c.swap_fee_rate_per_million h)

after_fee_mono :
    (c : SwapConfig) (in_whitelist : Bool) (percent : Percent) (a d f t : ℕ)
    → c.swap_fee_rate_per_million < 1000000
    → value_after_fee (some c) in_whitelist percent a f t
      ≤ value_after_fee (some c) in_whitelist percent (a + d) f t
unfolding value_after_fee
after_fee_mono c in_whitelist percent a d f t h =
    let fee = swap_fee c in_whitelist percent a f in
    let fee' = swap_fee c in_whitelist percent (a + d) f in
    ground (
      arith,
      left_mono c in_whitelist percent a d f h,
      convert_mono (a - fee) (a + d - fee') f t,
      convert_mono a (a + d) f t,
    )

module _ (g : Settings) (token_id to_chain_id : String) (f t : ℕ) (from tx_to : String) where
  abbrev payout : ℕ → ℕ
  payout value = calc_swap_value g token_id to_chain_id value f t from tx_to

  abbrev in_whitelist : Bool
  in_whitelist =
      is_in_big_value_whitelist g token_id from || is_in_big_value_whitelist g token_id tx_to

  abbrev fee : SwapConfig → ℕ → ℕ
  fee c value = swap_fee c in_whitelist (get_base_fee_percent g to_chain_id) value f

  -- Sending more never pays out less, where the configuration of the token and the chain has passed its
  -- check.
  pub calc_swap_value_mono :
      (c : SwapConfig) (a b : ℕ)
      → get_swap_config g token_id to_chain_id ≡ some c
      → check_config c ≡ none
      → a ≤ b
      → payout a ≤ payout b
  unfolding calc_swap_value
  calc_swap_value_mono c a b e valid h =
      let more =
        after_fee_mono c in_whitelist (get_base_fee_percent g to_chain_id) a (b - a) f t
          (checked_rate c valid) in
      let whole : a + (b - a) ≡ b = omega arith in rw (e) (ground (arith, rw whole at more))

  -- A swap creates no value: what an ERC20 router pays out for a token with a fee rate, changed back
  -- to the decimals of the source, and the fee are no more than what came in, unless it pays nothing.
  pub calc_swap_value_conserves :
      (c : SwapConfig) (value : ℕ)
      → get_swap_config g token_id to_chain_id ≡ some c
      → is_erc20_router g ≡ true
      → 0 < c.swap_fee_rate_per_million
      → (payout value ≡ 0) ⊎ (convert (payout value) t f + fee c value ≤ value)
  unfolding calc_swap_value value_after_fee
  calc_swap_value_conserves c value e erc20 rate =
      rw (e) (ground (arith, convert-convert_le (value - fee c value) f t))

-- ===== src/Tests/Value.antt =====
-- The theorems on amounts at one token configuration.
use check_tx_server.Common.{
  ◌+◌, ◌*◌, ◌^◌, ◌≤◌, ◌≡◌, ◌⊎◌, refl, true, false, some, none, [], ◌∷◌, lookup, arith,
}
use check_tx_server.Tokens.Whitelist.{
  Whitelists, add_or_remove_big_value_whitelist, whitelist-first,
}
use check_tx_server.Tokens.Config.{SwapConfig, check_config}
use check_tx_server.Tokens.Value.{
  Settings, surcharge, discount, convert, swap_fee, calc_swap_value, get_swap_config,
  is_erc20_router, get_base_fee_percent, is_in_big_value_whitelist,
}
use check_tx_server.Tokens.Value.Laws.{
  swap_fee_bounds, calc_swap_value_mono, calc_swap_value_conserves,
}

abbrev usdc : SwapConfig
usdc = record {
  maximum_swap = some (10 ^ 24);
  minimum_swap = some (10 ^ 19);
  big_value_threshold = some (10 ^ 23);
  swap_fee_rate_per_million = 1000;
  maximum_swap_fee = some (10 ^ 21);
  minimum_swap_fee = some (10 ^ 18);
}

abbrev settings : Settings
settings = record {
  router_swap_type = 1;
  swap_configs = ("USDC", ("56", usdc) ∷ []) ∷ [];
  big_value_whitelist = [];
  base_fee_percents = some (("56", discount 49) ∷ []);
}

usdc_checked : check_config usdc ≡ none
unfolding check_config
usdc_checked = refl

usdc_found : get_swap_config settings "USDC" "56" ≡ some usdc
unfolding get_swap_config lookup
usdc_found = refl

erc20 : is_erc20_router settings ≡ true
unfolding is_erc20_router
erc20 = refl

swap_fee_bounds_example :
    (convert (10 ^ 18) 18 6 ≤ swap_fee usdc false (surcharge 0) 50000000 6)
    × (swap_fee usdc false (surcharge 0) 50000000 6 ≤ convert (10 ^ 21) 18 6)
    × ((false ≡ false) ⊎ (swap_fee usdc false (surcharge 0) 50000000 6 ≡ convert (10 ^ 18) 18 6))
swap_fee_bounds_example = swap_fee_bounds usdc false 50000000 6 usdc_checked

calc_swap_value_mono_example :
    calc_swap_value settings "USDC" "56" 50000000 6 18 "0xa" "0xb"
    ≤ calc_swap_value settings "USDC" "56" 50000001 6 18 "0xa" "0xb"
calc_swap_value_mono_example =
    calc_swap_value_mono settings "USDC" "56" 6 18 "0xa" "0xb" usdc 50000000 50000001 usdc_found
      usdc_checked (omega arith)

-- The minimum fee of one dollar, less half of it
payout_test : calc_swap_value settings "USDC" "56" 50000000 6 18 "0xa" "0xb" ≡ 49500000 * 10 ^ 12
unfolding calc_swap_value get_swap_config is_erc20_router get_base_fee_percent
    is_in_big_value_whitelist lookup swap_fee convert
payout_test = refl

calc_swap_value_conserves_example :
    (calc_swap_value settings "USDC" "56" 50000000 6 18 "0xa" "0xb" ≡ 0)
    ⊎ (convert (calc_swap_value settings "USDC" "56" 50000000 6 18 "0xa" "0xb") 18 6
          + swap_fee usdc false (discount 49) 50000000 6
        ≤ 50000000)
unfolding get_base_fee_percent is_in_big_value_whitelist lookup
calc_swap_value_conserves_example =
    calc_swap_value_conserves settings "USDC" "56" 6 18 "0xa" "0xb" usdc 50000000 usdc_found erc20
      (omega arith)

abbrev lists : Whitelists
lists = record { current = ("USDC", "0xa" ∷ []) ∷ []; extra = none }

dai_unlisted : lookup "DAI" lists.current ≡ none
unfolding lookup
dai_unlisted = refl

whitelist-first_example :
    lookup "USDC" (add_or_remove_big_value_whitelist "DAI" ("0xB" ∷ []) true lists).current ≡ none
whitelist-first_example = whitelist-first "DAI" ("0xB" ∷ []) lists "USDC" dai_unlisted refl

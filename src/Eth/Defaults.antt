-- ===== src/Eth/Defaults.antt =====
-- What a transaction takes where its arguments leave it open: setDefaults and getOrInitEthExtra of
-- tokens/eth/buildtx.go.
use check_tx_server.Common.{ℕ, Option, none, some, if◌then◌else◌}
use check_tx_server.Errors.{TokenError, token, panicked}
use check_tx_server.Exec.{Result, ok, err, Exec, pure, fail, attempt, lift, ◌>>=◌, ◌>>◌}
use check_tx_server.Tokens.{BuildTxArgs, AllExtras, EthExtraArgs}
use check_tx_server.Abi.Bytes.{Bytes}
use check_tx_server.Eth.{ChainBridge, Net}
use check_tx_server.Eth.Build.{eth_extra_of}
use check_tx_server.Eth.Fees.{
  FeeParams, Calls, Building, call_tick, get_gas_price, get_gas_tip_cap, get_gas_fee_cap,
  gas_limit_of,
}

abbrev pub gas_only : ℕ → EthExtraArgs → EthExtraArgs
gas_only gas x = record x { gas = some gas }

abbrev no_extra : EthExtraArgs
no_extra = record {
  gas = none;
  gas_price = none;
  gas_tip_cap = none;
  gas_fee_cap = none;
  nonce = none;
  deadline = 0;
}

-- getOrInitEthExtra
abbrev pub extra_or_init : Option EthExtraArgs → EthExtraArgs
extra_or_init none = no_extra
extra_or_init (some x) = x

abbrev pub with_eth_extra : Option AllExtras → EthExtraArgs → AllExtras
with_eth_extra none x = record { eth_extra = some x; replace_num = 0; sequence = none; fee = none }
with_eth_extra (some a) x = record a { eth_extra = some x }

abbrev pub wei_or_zero : Option ℕ → ℕ
wei_or_zero none = 0
wei_or_zero (some v) = v

module _ (n : Net) (b : ChainBridge) (p : FeeParams) (calls : Calls) where
  -- The fee fields; what is given stays.
  abbrev given_or : Option ℕ → Exec Building ℕ → Exec Building ℕ
  given_or none m = m
  given_or (some v) m = pure v

  abbrev pub legacy_fees : BuildTxArgs → EthExtraArgs → Option ℕ → Exec Building EthExtraArgs
  legacy_fees args x (some price) = pure x
  legacy_fees args x none = do
    price ← get_gas_price p calls args
    pure (record x { gas_price = some price; gas_tip_cap = none; gas_fee_cap = none })

  abbrev pub with_fees : BuildTxArgs → EthExtraArgs → Exec Building EthExtraArgs
  with_fees args x =
      if p.is_dynamic_fee_tx_enabled
      then (do
        tip ← given_or x.gas_tip_cap (get_gas_tip_cap p calls args)
        cap ← given_or x.gas_fee_cap (get_gas_fee_cap p calls tip)
        pure (record x { gas_tip_cap = some tip; gas_fee_cap = some cap; gas_price = none }))
      else legacy_fees args x x.gas_price

  -- A nil input panics.
  abbrev input_or_panic : Option Bytes → Result Bytes
  input_or_panic none = err panicked
  input_or_panic (some input) = ok input

  abbrev pub with_gas : BuildTxArgs → EthExtraArgs → Option ℕ → Exec Building EthExtraArgs
  with_gas args x (some gas) = pure x
  with_gas args x none = do
    lift (input_or_panic args.input)
    t ← call_tick
    r ← attempt (lift (calls.estimate_gas t args))
    elim r [
      | err e ↦ fail (token TokenError.estimate_gas_failed)
      | ok estimated ↦ pure (gas_only (gas_limit_of p calls estimated) x)
    ]

  unfoldable pub set_defaults : BuildTxArgs → Exec Building BuildTxArgs
  unfolding call_tick get_gas_price get_gas_tip_cap get_gas_fee_cap gas_limit_of
  set_defaults args = do
    let valued = record args { value = some (wei_or_zero args.value) }
    x ← with_fees valued (extra_or_init (eth_extra_of n b args.extra))
    y ← with_gas valued x x.gas
    pure (record valued { extra = some (with_eth_extra args.extra y) })

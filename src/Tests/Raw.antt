-- ===== src/Tests/Raw.antt =====
-- The transaction that pays out the swap of Tests/Building.antt.
use check_tx_server.Common.{
  ◌≡◌, refl, true, false, some, none, [], ◌∷◌, lookup, to_lower, equal_fold, decimal, arith,
}
use check_tx_server.Exec.{ok}
use check_tx_server.Db
use check_tx_server.Tokens.{BuildTxArgs, get_replace_num}
use check_tx_server.Tokens.Payload.{get_token_id}
use check_tx_server.Tokens.Value.{calc_swap_value, get_swap_config, is_erc20_router, convert}
use check_tx_server.NonceSetter.{get_swap_nonce}
use check_tx_server.Hex.{from_hex, text_length, without_prefix, after_prefix}
use check_tx_server.Abi.Pack.{pack_data_with_func_hash}
use check_tx_server.Eth.{
  Net, hex_to_address, bytes_to_address, is_zero, get_token_config, get_bridge_by_chain_id,
  get_cached_multichain_token, get_router_contract, get_router_info,
}
use check_tx_server.Eth.Build.{
  build_erc20_swap_tx_input, build_erc20_swapout_tx_input, get_receiver_and_amount, with_input,
}
use check_tx_server.Eth.Build.Functions.{
  get_swap_in_func_hash, any_swap_in_auto_func_hash, hex_to_hash, is_hex_address, is_hex,
}
use check_tx_server.Eth.Build.Words.{payment}
use check_tx_server.Eth.Fees.{
  FeeParams, Calls, Building, call_tick, retrying, add_percent, adjust_swap_gas_price,
  get_gas_price, get_default_gas_limit, gas_limit_of, get_min_reserve_fee,
}
use check_tx_server.Eth.Defaults.{set_defaults, with_eth_extra}
use check_tx_server.Eth.Raw.{
  RawTx, legacy, on_nonces, get_router_mpc, get_account_nonce, build_tx, built_from,
  build_raw_transaction,
}
use check_tx_server.Eth.Raw.Pays.{Payout, build_raw_transaction-Payout}
use check_tx_server.Tests.Fixtures.{env}
use check_tx_server.Tests.Erc20.{net, router_text, token_text}
use check_tx_server.Tests.Building.{here, erc20, asked}

abbrev pub settled : Net
settled = record net {
  router_infos =
      (router_text, record { router_mpc = "0xMPC"; router_factory = ""; router_w_native = "" })
      ∷ [];
}

abbrev pub fees : FeeParams
fees = record {
  is_test_mode = false;
  is_dynamic_fee_tx_enabled = false;
  is_parallel_swap_enabled = false;
  is_auto_swap_nonce_enabled = true;
  server = some (record {
    plus_gas_price_percentage = 20;
    replace_plus_gas_price_percent = 10;
    max_plus_gas_price_percentage = 100;
    max_gas_price_fluct_percent = 5;
    default_gas_limit = none;
    dynamic_fee_tx = none;
  });
  fixed_gas_price = none;
  max_gas_price = some 100;
  min_reserve_fee = some 10;
}

abbrev pub calls : Calls
calls = record {
  suggest_price = λ t. ok 5;
  suggest_gas_tip_cap = λ t. ok 1;
  get_base_fee = λ t. ok 1;
  estimate_gas = λ t args. ok 50000;
  get_balance = λ t sender. ok 3000000;
  get_pool_nonce = λ t sender block. ok 0;
}

abbrev pub start : Building
start = record {
  nonces = record {
    db = record { ticks = 0; swaps = []; results = [] };
    swap_nonce = ("0xmpc", 7) ∷ [];
    recycle_nonce = [];
  };
  latest_gas_price = none;
}

abbrev with_call : BuildTxArgs
with_call = with_input settled here asked token_text (some 200) (
    pack_data_with_func_hash any_swap_in_auto_func_hash (
      payment (hex_to_hash asked.swap_id) (hex_to_address token_text) (hex_to_address asked.bind)
        200 1))

abbrev paying : RawTx
paying = record {
  nonce = 7;
  to = hex_to_address router_text;
  value = some 0;
  gas_limit = 90000;
  fee = legacy (some 6);
  input = pack_data_with_func_hash any_swap_in_auto_func_hash (
      payment (hex_to_hash asked.swap_id) (hex_to_address token_text) (hex_to_address asked.bind)
        200 1);
}

abbrev filled : BuildTxArgs
filled = record with_call {
  value = some 0;
  extra = some (
      with_eth_extra none (record {
        gas = some 90000;
        gas_price = some 6;
        gas_tip_cap = none;
        gas_fee_cap = none;
        nonce = some 7;
        deadline = 0;
      }));
}

builds :
    (build_raw_transaction env settled here fees calls ok ok asked start).0 ≡ ok (paying, filled)
unfolding build_raw_transaction built_from on_nonces set_defaults build_tx get_router_mpc
    get_account_nonce call_tick retrying add_percent adjust_swap_gas_price get_gas_price
    get_default_gas_limit gas_limit_of get_min_reserve_fee get_swap_nonce get_replace_num
    get_token_id get_router_contract get_router_info equal_fold Db.now build_erc20_swap_tx_input
    build_erc20_swapout_tx_input get_receiver_and_amount get_swap_in_func_hash is_hex_address is_hex
    hex_to_address bytes_to_address is_zero get_token_config get_bridge_by_chain_id
    get_cached_multichain_token calc_swap_value get_swap_config is_erc20_router convert lookup
    to_lower decimal from_hex text_length without_prefix after_prefix
builds = refl

build_raw_transaction-Payout_example :
    Payout env settled here fees calls ok ok asked erc20 200 paying filled
build_raw_transaction-Payout_example =
    build_raw_transaction-Payout env settled here fees calls ok ok asked erc20 200 start paying
      filled refl refl refl refl refl (omega arith) builds

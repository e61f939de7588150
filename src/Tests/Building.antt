-- ===== src/Tests/Building.antt =====
-- The payout of a swap of the token on chain 56.
use check_tx_server.Common.{◌≡◌, refl, some, lookup, to_lower, decimal}
use check_tx_server.Exec.{ok}
use check_tx_server.Tokens.{BuildTxArgs}
use check_tx_server.Tokens.Payload.{Erc20Info, no_info}
use check_tx_server.Tokens.Value.{calc_swap_value, get_swap_config, is_erc20_router, convert}
use check_tx_server.Hex.{from_hex, text_length, without_prefix, after_prefix}
use check_tx_server.Abi.Pack.{pack_data_with_func_hash}
use check_tx_server.Eth.{
  ChainBridge, hex_to_address, bytes_to_address, is_zero, get_token_config, get_bridge_by_chain_id,
  get_cached_multichain_token,
}
use check_tx_server.Eth.Build.{
  build_erc20_swap_tx_input, build_erc20_swapout_tx_input, get_receiver_and_amount, with_input,
}
use check_tx_server.Eth.Build.Functions.{
  get_swap_in_func_hash, any_swap_in_auto_func_hash, hex_to_hash, is_hex_address, is_hex,
}
use check_tx_server.Eth.Build.Words.{payment}
use check_tx_server.Eth.Verify.{no_erc20}
use check_tx_server.Tests.Fixtures.{args}
use check_tx_server.Tests.Erc20.{net, chain, token_text}

abbrev pub here : ChainBridge
here = chain "56" 56

abbrev pub erc20 : Erc20Info
erc20 = record no_erc20 { token = token_text; token_id = "USDC" }

abbrev pub asked : BuildTxArgs
asked = record args {
  swap_info = record no_info { erc20 = some erc20 };
  bind = "0x0000000000000000000000000000000000000004";
  origin_value = some 200;
}

abbrev built : BuildTxArgs
built = with_input net here asked token_text (some 200) (
    pack_data_with_func_hash any_swap_in_auto_func_hash (
      payment (hex_to_hash asked.swap_id) (hex_to_address token_text) (hex_to_address asked.bind)
        200 1))

builds : build_erc20_swap_tx_input net here 1700000000 asked ≡ ok built
unfolding build_erc20_swap_tx_input build_erc20_swapout_tx_input get_receiver_and_amount
    get_swap_in_func_hash is_hex_address is_hex hex_to_address bytes_to_address is_zero
    get_token_config get_bridge_by_chain_id get_cached_multichain_token calc_swap_value
    get_swap_config is_erc20_router convert lookup to_lower decimal from_hex text_length
    without_prefix after_prefix
builds = refl

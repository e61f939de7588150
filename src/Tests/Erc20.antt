-- ===== src/Tests/Erc20.antt =====
-- A swap of a token with an underlying one, announced on chain 1 for chain 56.
use check_tx_server.Common.{
  ◌^◌, ◌≡◌, refl, ℕ, String, true, false, some, none, [], ◌∷◌, ◌++◌, lookup, to_lower, equal_fold,
  decimal, arith,
}
use check_tx_server.Errors.{TokenError, token, panicked}
use check_tx_server.Exec.{ok, err}
use check_tx_server.Tokens.Config.{SwapConfig}
use check_tx_server.Tokens.Payload.{Erc20Info, no_info, get_token_id}
use check_tx_server.Tokens.Value.{
  check_token_swap_value, get_swap_config, is_erc20_router, convert, calc_swap_value,
}
use check_tx_server.Abi.Bytes.{Bytes, zeros, get_big_int}
use check_tx_server.Abi.Pack.{pack_data}
use check_tx_server.Hex.{encode, from_hex}
use check_tx_server.Eth.{
  Log, TxReceipt, TokenConfig, ChainBridge, Params, Net, tick, bytes_to_address, hex_to_address,
  lower_hex, is_zero, get_token_config, get_router_contract, get_bridge_by_chain_id,
  get_cached_multichain_token, is_use_from_chain_id_in_receipt_disabled, dont_check_token_received,
}
use check_tx_server.Eth.Receipt.{
  get_swap_tx_receipt, get_transaction_status, confirmations_of, receipt_checked, recipient_checked,
  is_status_ok,
}
use check_tx_server.Eth.Logs.{
  log_any_swap_out_topic, set_token_id, with_token_id, parse_swapout, parse_swapout2,
  parse_by_topic, check_log_source, verify_erc20_swap_tx_log,
}
use check_tx_server.Eth.Logs.Packed.{event, read_from, parse_swapout2-pack_data}
use check_tx_server.Eth.Received.{
  transfer_topic, judge, judge_transfer, search, received_by, by_config, check_token_received,
}
use check_tx_server.Eth.Checks.{
  check_call_by_contract, check_swap_with_permit, swap_checked, check_erc20_swap_info,
}
use check_tx_server.Eth.Verify.{unverified, verified_log, verify_erc20_swap_tx}
use check_tx_server.Eth.Verify.Sound.{Sound, verify_erc20_swap_tx-Sound}
use check_tx_server.Eth.Verify.Panics.{verify_erc20_swap_tx-panics}

abbrev address : ℕ → Bytes
address k = zeros 19 ++ (k ∷ [])

abbrev word : ℕ → Bytes
word k = zeros 31 ++ (k ∷ [])

abbrev pub token_text : String
token_text = "0x0000000000000000000000000000000000000001"

abbrev pub router_text : String
router_text = "0x0000000000000000000000000000000000000002"

abbrev underlying_text : String
underlying_text = "0x0000000000000000000000000000000000000005"

abbrev usdc : SwapConfig
usdc = record {
  maximum_swap = some (10 ^ 24);
  minimum_swap = some 1;
  big_value_threshold = some (10 ^ 23);
  swap_fee_rate_per_million = 0;
  maximum_swap_fee = some 0;
  minimum_swap_fee = some 0;
}

abbrev any_usdc : TokenConfig
any_usdc = record {
  token_id = "USDC";
  decimals = 18;
  contract_version = 6;
  router_contract = "";
  underlying = underlying_text;
}

abbrev pub chain : String → ℕ → ChainBridge
chain id number = record {
  chain_config = record {
    chain_id = id;
    chain_number = number;
    router_contract = router_text;
    confirmations = 10;
    initial_height = 0;
  };
  token_configs = (token_text, any_usdc) ∷ [];
  is_valid_address = λ s. true;
  get_pair_for = none;
}

abbrev params : Params
params = record {
  enable_swap_trade = false;
  enable_swap_with_permit = true;
  allow_call_by_constructor = false;
  allow_call_by_contract = false;
  check_eip1167_master = false;
  call_by_contract_whitelist = [];
  call_by_contract_code_hash_whitelist = [];
  disable_use_from_chain_id_in_receipt_chains = [];
  dont_check_received_token_ids = [];
  force_any_swap_in_auto = false;
  server_swap_deadline_offset = some 0;
}

-- The sender's transfer of 200 of the underlying token to the token
abbrev transfer : Log
transfer = record {
  address = address 5;
  topics = transfer_topic ∷ word 3 ∷ word 1 ∷ [];
  log_data = some (word 200);
  removed = none;
}

abbrev swapout : Log
swapout = record {
  address = address 2;
  topics = log_any_swap_out_topic ∷ word 1 ∷ word 3 ∷ word 4 ∷ [];
  log_data = some (word 200 ++ (word 1 ++ word 56));
  removed = none;
}

abbrev bare : Log
bare = record { address = address 9; topics = []; log_data = none; removed = none }

abbrev receipt : TxReceipt
receipt = record {
  block_number = 100;
  status = some 1;
  from = address 3;
  recipient = some (address 2);
  logs = transfer ∷ swapout ∷ bare ∷ [];
}

abbrev pub net : Net
net = record {
  params = params;
  settings = record {
    router_swap_type = 1;
    swap_configs = ("USDC", ("56", usdc) ∷ []) ∷ [];
    big_value_whitelist = [];
    base_fee_percents = none;
  };
  router_bridges = ("1", chain "1" 1) ∷ ("56", chain "56" 56) ∷ [];
  multichain_tokens = ("usdc", ("56", token_text) ∷ []) ∷ [];
  router_infos = [];
  get_transaction_receipt = λ t hash. ok receipt;
  get_latest_block_number = λ t. ok 200;
  get_payload = λ t hash. err (token TokenError.not_found);
  get_eip1167_master = λ t a. zeros 20;
  get_contract_code_hash = λ t a. zeros 32;
  text_of = λ bs. "receiver";
  room = 100;
}

parse_swapout2-pack_data_example :
    parse_swapout2 net
      (chain "1" 1)
      (zeros 32 ∷ word 1 ∷ word 3 ∷ [])
      (some (pack_data (event (65 ∷ []) 200 1 56)))
      (unverified 0 "0xab" 1)
    ≡ set_token_id net
        (chain "1" 1)
        (read_from net (chain "1" 1) (word 1) (word 3) (65 ∷ []) 200 1 56 (unverified 0 "0xab" 1))
parse_swapout2-pack_data_example =
    parse_swapout2-pack_data (65 ∷ []) 200 1 56 (omega arith) net (chain "1" 1)
      (unverified 0 "0xab" 1) (zeros 32) (word 1) (word 3) (omega arith) (omega arith) (omega arith)

receipt_found : (get_swap_tx_receipt net (chain "1" 1) false (unverified 0 "0xab" 2)).0 ≡ ok receipt
unfolding get_swap_tx_receipt get_transaction_status confirmations_of tick receipt_checked
    recipient_checked is_status_ok is_zero
receipt_found = refl

verify_erc20_swap_tx-panics_example :
    (verify_erc20_swap_tx net (chain "1" 1) 0 "0xab" 2 false).0 ≡ err panicked
verify_erc20_swap_tx-panics_example =
    verify_erc20_swap_tx-panics net (chain "1" 1) 0 "0xab" 2 false receipt bare receipt_found refl
      refl

pub passed : (verify_erc20_swap_tx net (chain "1" 1) 0 "0xab" 1 false).0 ≡ ok tt
unfolding verify_erc20_swap_tx verified_log get_swap_tx_receipt get_transaction_status
    confirmations_of tick receipt_checked recipient_checked is_status_ok is_zero
    verify_erc20_swap_tx_log parse_by_topic parse_swapout set_token_id with_token_id
    check_log_source check_token_received by_config received_by search judge judge_transfer
    check_erc20_swap_info check_call_by_contract check_swap_with_permit swap_checked
    bytes_to_address hex_to_address lower_hex get_token_config get_router_contract
    get_bridge_by_chain_id get_cached_multichain_token is_use_from_chain_id_in_receipt_disabled
    dont_check_token_received transfer_topic log_any_swap_out_topic encode from_hex lookup to_lower
    equal_fold decimal get_big_int check_token_swap_value get_swap_config is_erc20_router convert
    get_token_id calc_swap_value
passed = refl

verify_erc20_swap_tx-Sound_example :
    (erc20 : Erc20Info) × ((verify_erc20_swap_tx net (chain "1" 1) 0 "0xab" 1 false).1.swap_info
      ≡ record no_info { erc20 = some erc20 })
    × Sound net
        (chain "1" 1)
        0
        "0xab"
        1
        false
        (verify_erc20_swap_tx net (chain "1" 1) 0 "0xab" 1 false).1
        erc20
verify_erc20_swap_tx-Sound_example =
    verify_erc20_swap_tx-Sound net (chain "1" 1) 0 "0xab" 1 false passed

-- ===== src/Tests/Accepting.antt =====
-- A node of the MPC group that is asked to sign the payout of a swap.
use check_tx_server.Common.{
  ℕ, String, ◌≡◌, refl, Bool, true, false, some, none, [], ◌∷◌, decimal, lookup, to_lower,
  equal_fold,
}
use check_tx_server.Errors.{TokenError, token}
use check_tx_server.Exec.{Result, err}
use check_tx_server.Tokens.{BuildTxArgs, SwapTxInfo, get_tx_nonce, is_valid_type}
use check_tx_server.Tokens.Payload.{Erc20Info}
use check_tx_server.Worker.{Bridge, get_bridge_by_chain_id}
use check_tx_server.Worker.Accept.{SignInfoData, Node, Acceptor}
use check_tx_server.Worker.Accept.Judge.{
  process_accept_info, verify_sign_info, with_context, checked_args, is_mpc_initiator,
  rebuild_and_verify_msg_hash, rebuild_from, judged, reply, agreement,
}
use check_tx_server.Worker.Accept.Judge.Agrees.{Answered, process_accept_info-Answered}
use check_tx_server.Worker.Accept.Judge.OnEth.{on_eth, process_accept_info-Sound}
use check_tx_server.Eth.Verify.{verify_transaction}
use check_tx_server.Eth.Verify.Sound.{Sound}
use check_tx_server.Tokens.Payload.{get_token_id}
use check_tx_server.Tokens.Value.{
  check_token_swap_value, get_swap_config, is_erc20_router, convert, calc_swap_value,
}
use check_tx_server.Abi.Bytes.{get_big_int}
use check_tx_server.Hex.{encode, from_hex}
use check_tx_server.Eth.{
  tick, bytes_to_address, hex_to_address, lower_hex, is_zero, get_token_config, get_router_contract,
  get_cached_multichain_token, is_use_from_chain_id_in_receipt_disabled, dont_check_token_received,
}
use check_tx_server.Eth.Receipt.{
  get_swap_tx_receipt, get_transaction_status, confirmations_of, receipt_checked, recipient_checked,
  is_status_ok,
}
use check_tx_server.Eth.Logs.{
  log_any_swap_out_topic, set_token_id, with_token_id, parse_swapout, parse_by_topic,
  check_log_source, verify_erc20_swap_tx_log,
}
use check_tx_server.Eth.Received.{
  transfer_topic, judge, judge_transfer, search, received_by, by_config, check_token_received,
}
use check_tx_server.Eth.Checks.{
  check_call_by_contract, check_swap_with_permit, swap_checked, check_erc20_swap_info,
}
use check_tx_server.Eth.Verify.{verified_log, verify_erc20_swap_tx}
use check_tx_server.Eth
use check_tx_server.Tests.Fixtures.{args, one_result}
use check_tx_server.Tests.Jobs.{bridge, setup}
use check_tx_server.Tests.Erc20.{net, chain}

abbrev pub request : BuildTxArgs
request = record args {
  swap_id = "0xab";
  log_index = 1;
  bind = "0x0000000000000000000000000000000000000004";
}

abbrev pub others : ℕ → String → ℕ → Bool → Result SwapTxInfo
others = λ t tx i allow. err (token TokenError.not_found)

abbrev source : Bridge
source = on_eth net (chain "1" 1) others bridge

abbrev node : Node
node = record {
  setup = record setup { bridges = ("1", source) ∷ ("56", bridge) ∷ [] };
  mpc_initiators = "0xinit" ∷ [];
  is_pending_invalid_accept = false;
  unmarshal = λ s. some request;
  do_accept_sign = λ t a. none;
  put_fails = λ t. false;
}

abbrev pub info : SignInfoData
info = record { account = "0xInit"; key = "0xkey"; msg_hash = "0xm" ∷ []; msg_context = "{}" ∷ [] }

abbrev pub before : Acceptor
before = record {
  db = one_result;
  cached_accept_infos = [];
  records = some [];
  savings = [];
  answers = [];
}

process_accept_info-Answered_example :
    Answered node info before.records before (process_accept_info node info before).1
process_accept_info-Answered_example = process_accept_info-Answered node info before

agrees : (process_accept_info node info before).1.answers ≡ agreement node info ∷ []
unfolding process_accept_info verify_sign_info with_context checked_args is_mpc_initiator
    get_tx_nonce rebuild_and_verify_msg_hash is_valid_type get_bridge_by_chain_id decimal lookup
    equal_fold to_lower rebuild_from verify_transaction judged reply verify_erc20_swap_tx
    verified_log get_swap_tx_receipt get_transaction_status confirmations_of tick receipt_checked
    recipient_checked is_status_ok is_zero verify_erc20_swap_tx_log parse_by_topic parse_swapout
    set_token_id with_token_id check_log_source check_token_received by_config received_by search
    judge judge_transfer check_erc20_swap_info check_call_by_contract check_swap_with_permit
    swap_checked bytes_to_address hex_to_address lower_hex get_token_config get_router_contract
    get_cached_multichain_token is_use_from_chain_id_in_receipt_disabled dont_check_token_received
    transfer_topic log_any_swap_out_topic encode from_hex get_big_int check_token_swap_value
    get_swap_config is_erc20_router convert get_token_id calc_swap_value Eth.get_bridge_by_chain_id
agrees = refl

source_set : get_bridge_by_chain_id node.setup (decimal request.from_chain_id) ≡ some source
unfolding get_bridge_by_chain_id lookup decimal
source_set = refl

process_accept_info-Sound_example :
    (time : ℕ) × (swap : SwapTxInfo) × (erc20 : Erc20Info) × Sound net
      (chain "1" 1)
      time
      "0xab"
      1
      false
      swap
      erc20
    × (equal_fold request.bind swap.bind ≡ true)
    × (56 ≡ swap.to_chain_id)
process_accept_info-Sound_example =
    process_accept_info-Sound node net (chain "1" 1) others bridge info before (agreement node info)
      request agrees refl refl refl source_set

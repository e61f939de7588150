-- ===== src/Errors.antt =====
-- Go errors as values: tokens/errors.go, mongodb/errors.go and the sentinels of package worker.
use check_tx_server.Common.{ℕ, String, ◌==◌, Bool, true, false, ◌||◌, Option, none, some}
use Prim.Native.String.{◌++◌ as append}

-- The sentinel errors of package tokens.
pub data TokenError : Type 0 where
  not_implemented swap_type_not_supported no_bridge_for_chain_id swap_trade_not_support : TokenError
  not_found tx_not_found tx_not_stable log_index_out_of_range : TokenError
  tx_with_wrong_receipt tx_with_wrong_receiver tx_with_wrong_contract tx_with_wrong_topics :
      TokenError
  swapout_log_not_found tx_with_removed_log wrong_bind_address wrong_raw_tx : TokenError
  unsupported_func_hash wrong_count_of_msg_hashes msg_hash_mismatch swap_in_blacklist : TokenError
  tx_before_initial_height estimate_gas_failed rpc_query_error miss_dynamic_fee_config : TokenError
  from_chain_id_mismatch miss_mpc_public_key miss_router_info sender_mismatch : TokenError
  tx_with_wrong_sender to_chain_id_mismatch tx_with_wrong_status unknown_swapout_type : TokenError
  empty_token_id no_enough_reserve_budget tx_with_no_payment tx_is_not_validated : TokenError
  tx_with_wrong_value tx_with_wrong_path miss_token_config no_underlying_token : TokenError

-- The text of each, as errors.New was given it.
unfoldable pub message : TokenError → String
message not_implemented = "not implemented"
message swap_type_not_supported = "swap type not supported"
message no_bridge_for_chain_id = "no bridge for chain id"
message swap_trade_not_support = "swap trade not support"
message not_found = "not found"
message tx_not_found = "tx not found"
message tx_not_stable = "tx not stable"
message log_index_out_of_range = "log index out of range"
message tx_with_wrong_receipt = "tx with wrong receipt"
message tx_with_wrong_receiver = "tx with wrong receiver"
message tx_with_wrong_contract = "tx with wrong contract"
message tx_with_wrong_topics = "tx with wrong log topics"
message swapout_log_not_found = "swapout log not found or removed"
message tx_with_removed_log = "tx with removed log"
message wrong_bind_address = "wrong bind address"
message wrong_raw_tx = "wrong raw tx"
message unsupported_func_hash = "unsupported method func hash"
message wrong_count_of_msg_hashes = "wrong count of msg hashed"
message msg_hash_mismatch = "message hash mismatch"
message swap_in_blacklist = "swap is in black list"
message tx_before_initial_height = "transaction before initial block height"
message estimate_gas_failed = "estimate gas failed"
message rpc_query_error = "rpc query error"
message miss_dynamic_fee_config = "miss dynamic fee config"
message from_chain_id_mismatch = "from chainID mismatch"
message miss_mpc_public_key = "miss mpc public key config"
message miss_router_info = "miss router info"
message sender_mismatch = "sender mismatch"
message tx_with_wrong_sender = "tx with wrong sender"
message to_chain_id_mismatch = "to chainID mismatch"
message tx_with_wrong_status = "tx with wrong status"
message unknown_swapout_type = "unknown swapout type"
message empty_token_id = "empty tokenID"
message no_enough_reserve_budget = "no enough reserve budget"
message tx_with_no_payment = "tx with no payment"
message tx_is_not_validated = "tx is not validated"
message tx_with_wrong_value = "tx with wrong value"
message tx_with_wrong_path = "swap trade tx with wrong path"
message miss_token_config = "miss token config"
message no_underlying_token = "no underlying token"

-- Which variable holds the error: errors.Is compares these.
abbrev pub position : TokenError → ℕ
position not_implemented = 0
position swap_type_not_supported = 1
position no_bridge_for_chain_id = 2
position swap_trade_not_support = 3
position not_found = 4
position tx_not_found = 5
position tx_not_stable = 6
position log_index_out_of_range = 7
position tx_with_wrong_receipt = 8
position tx_with_wrong_receiver = 9
position tx_with_wrong_contract = 10
position tx_with_wrong_topics = 11
position swapout_log_not_found = 12
position tx_with_removed_log = 13
position wrong_bind_address = 14
position wrong_raw_tx = 15
position unsupported_func_hash = 16
position wrong_count_of_msg_hashes = 17
position msg_hash_mismatch = 18
position swap_in_blacklist = 19
position tx_before_initial_height = 20
position estimate_gas_failed = 21
position rpc_query_error = 22
position miss_dynamic_fee_config = 23
position from_chain_id_mismatch = 24
position miss_mpc_public_key = 25
position miss_router_info = 26
position sender_mismatch = 27
position tx_with_wrong_sender = 28
position to_chain_id_mismatch = 29
position tx_with_wrong_status = 30
position unknown_swapout_type = 31
position empty_token_id = 32
position no_enough_reserve_budget = 33
position tx_with_no_payment = 34
position tx_is_not_validated = 35
position tx_with_wrong_value = 36
position tx_with_wrong_path = 37
position miss_token_config = 38
position no_underlying_token = 39

-- The special errors of package mongodb; `failure` is the code -32001 over the text of a driver's error.
pub data MgoError : Type 0 where
  item_not_found item_is_dup swap_not_found wrong_key : MgoError
  forbid_update_nonce forbid_update_swap_tx : MgoError
  failure : String → MgoError

unfoldable pub mgo_message : MgoError → String
mgo_message item_not_found = "mgoError: Item not found"
mgo_message item_is_dup = "mgoError: Item is duplicate"
mgo_message swap_not_found = "mgoError: Swap is not found"
mgo_message wrong_key = "mgoError: Wrong key"
mgo_message forbid_update_nonce = "mgoError: Forbid update swap nonce"
mgo_message forbid_update_swap_tx = "mgoError: Forbid update swap tx"
mgo_message (failure m) = append "mgoError: " m

-- The sentinel errors of package worker that control flow depends on.
pub data WorkerError : Type 0 where
  already_swapped send_tx_with_diff_hash swap_channel_is_full stable_channel_is_full : WorkerError
  identifier_mismatch initiator_mismatch wrong_msg_context : WorkerError

unfoldable pub worker_message : WorkerError → String
worker_message already_swapped = "already swapped"
worker_message send_tx_with_diff_hash = "send tx with different hash"
worker_message swap_channel_is_full = "swap task channel is full"
worker_message stable_channel_is_full = "stable task channel is full"
worker_message identifier_mismatch = "cross chain bridge identifier mismatch"
worker_message initiator_mismatch = "initiator mismatch"
worker_message wrong_msg_context = "wrong msg context"

abbrev worker_position : WorkerError → ℕ
worker_position already_swapped = 0
worker_position send_tx_with_diff_hash = 1
worker_position swap_channel_is_full = 2
worker_position stable_channel_is_full = 3
worker_position identifier_mismatch = 4
worker_position initiator_mismatch = 5
worker_position wrong_msg_context = 6

-- A non-nil `error`. `plain` is errors.New or Errorf at the place of use, `wrapped` is Errorf with %w
-- at its end, and `sign_has_disagree` is mpc.ErrGetSignStatusHasDisagree. `panicked` is no error: the
-- goroutine panics, which ends the program.
pub data GoError : Type 0 where
  token : TokenError → GoError
  mgo : MgoError → GoError
  worker : WorkerError → GoError
  sign_has_disagree panicked : GoError
  plain : String → GoError
  wrapped : String → GoError → GoError

-- err.Error()
unfoldable pub error_text : GoError → String
unfolding message mgo_message worker_message
error_text (token t) = message t
error_text (mgo m) = mgo_message m
error_text (worker w) = worker_message w
error_text sign_has_disagree = "getSignStatus failed, has disagree"
error_text panicked = "panic"
error_text (plain m) = m
error_text (wrapped m e) = append m (error_text e)

-- errors.Is at a sentinel of package tokens
unfoldable pub errors_is : GoError → TokenError → Bool
errors_is (token t) u = position t == position u
errors_is (wrapped m e) u = errors_is e u
errors_is _ u = false

abbrev pub is_panic : GoError → Bool
is_panic panicked = true
is_panic _ = false

-- errors.Is at a sentinel of package worker
unfoldable pub is_worker_error : GoError → WorkerError → Bool
is_worker_error (worker w) v = worker_position w == worker_position v
is_worker_error (wrapped m e) v = is_worker_error e v
is_worker_error _ v = false

-- errors.Is(err, mpc.ErrGetSignStatusHasDisagree)
unfoldable pub is_disagree : GoError → Bool
is_disagree sign_has_disagree = true
is_disagree (wrapped m e) = is_disagree e
is_disagree _ = false

-- A possibly nil error is an option.
unfoldable pub should_register_router_swap_for_error : Option GoError → Bool
should_register_router_swap_for_error none = true
should_register_router_swap_for_error (some err) =
    errors_is err tx_with_wrong_value
    || errors_is err tx_with_wrong_path
    || errors_is err miss_token_config
    || errors_is err no_underlying_token

unfoldable pub is_rpc_query_or_not_found_error : Option GoError → Bool
is_rpc_query_or_not_found_error none = false
is_rpc_query_or_not_found_error (some err) =
    errors_is err rpc_query_error || errors_is err not_found

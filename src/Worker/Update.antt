-- ===== src/Worker/Update.antt =====
-- worker/common.go: how the jobs write to the database.
use check_tx_server.Common.{
  ℕ, String, ◌==◌, not, Option, none, some, [], str_eq, decimal, if◌then◌else◌,
}
use check_tx_server.Exec.{Exec, ◌>>=◌}
use check_tx_server.Status
use check_tx_server.Status.{SwapStatus}
use check_tx_server.Tables.{MgoSwapResult, SwapResultUpdateItems}
use check_tx_server.Tokens.{SwapTxInfo}
use check_tx_server.Results.{
  add_router_swap_result, update_router_swap_result, update_router_swap_result_status,
}
use check_tx_server.Converts.{convert_to_swap_info}
use check_tx_server.Worker.{World, Setup, in_db, now}

pub record MatchTx : Type 0 where
  pub mpc : String
  pub swap_tx : String
  pub swap_height : ℕ
  pub swap_time : ℕ
  pub swap_value : String
  pub swap_nonce : ℕ

-- &MatchTx{}
abbrev pub empty_match : MatchTx
empty_match = record {
  mpc = "";
  swap_tx = "";
  swap_height = 0;
  swap_time = 0;
  swap_value = "";
  swap_nonce = 0;
}

-- &SwapResultUpdateItems{Status: KeepStatus, Timestamp: now()}
abbrev pub keep_at : ℕ → SwapResultUpdateItems
keep_at timestamp = record {
  mpc = "";
  swap_tx = "";
  swap_height = 0;
  swap_time = 0;
  swap_value = "";
  swap_nonce = 0;
  status = Status.keep_status;
  timestamp = timestamp;
  memo = "";
}

-- The updates that updateRouterSwapResult makes of a matching transaction
abbrev pub items_of : MatchTx → ℕ → SwapResultUpdateItems
items_of mtx timestamp =
    let sent = not (str_eq mtx.swap_tx "") in
    if mtx.swap_height == 0
    then record (keep_at timestamp) {
      swap_value = mtx.swap_value;
      swap_nonce = mtx.swap_nonce;
      mpc = if sent then mtx.mpc else "";
      swap_tx = if sent then mtx.swap_tx else "";
      status = if sent then Status.match_tx_not_stable else Status.keep_status;
    }
    else record (keep_at timestamp) {
      swap_nonce = mtx.swap_nonce;
      swap_height = mtx.swap_height;
      swap_time = mtx.swap_time;
      swap_tx = if sent then mtx.swap_tx else "";
    }

value_text : Option ℕ → String
value_text none = "0"
value_text (some n) = decimal n

-- The result that AddInitialSwapResult adds; its key and its InitTime are set when it is stored.
unfoldable pub initial_result : SwapTxInfo → SwapStatus → ℕ → MgoSwapResult
unfolding value_text
initial_result info status timestamp = record {
  key = "";
  swap_type = info.swap_type;
  tx_id = info.hash;
  tx_to = info.tx_to;
  tx_height = info.height;
  tx_time = info.timestamp;
  from = info.from;
  to = info.to;
  bind = info.bind;
  value = value_text info.value;
  log_index = info.log_index;
  from_chain_id = decimal info.from_chain_id;
  to_chain_id = decimal info.to_chain_id;
  swap_info = convert_to_swap_info info.swap_info;
  swap_tx = "";
  old_swap_txs = [];
  swap_height = 0;
  swap_time = 0;
  swap_value = "0";
  swap_nonce = 0;
  status = status;
  init_time = 0;
  timestamp = timestamp;
  memo = "";
  mpc = "";
}

module _ (u : Setup) where
  unfoldable pub add_initial_swap_result : SwapTxInfo → SwapStatus → Exec World (Unit {0})
  unfolding in_db
  add_initial_swap_result info status = do
    timestamp ← now u
    in_db (add_router_swap_result u.env (initial_result info status timestamp))

  module _ (from_chain_id tx_id : String) (log_index : ℕ) where
    unfoldable pub update_router_swap_result_of : MatchTx → Exec World (Unit {0})
    unfolding in_db
    update_router_swap_result_of mtx = do
      timestamp ← now u
      in_db (update_router_swap_result u.env from_chain_id tx_id log_index (items_of mtx timestamp))

    unfoldable pub update_swap_timestamp : Exec World (Unit {0})
    unfolding in_db
    update_swap_timestamp = do
      timestamp ← now u
      in_db (update_router_swap_result u.env from_chain_id tx_id log_index (keep_at timestamp))

    unfoldable pub update_swap_tx : String → Exec World (Unit {0})
    unfolding in_db
    update_swap_tx swap_tx = do
      timestamp ← now u
      in_db (
          update_router_swap_result u.env from_chain_id tx_id log_index
            (record (keep_at timestamp) { swap_tx = swap_tx }))

    abbrev mark : SwapStatus → Exec World (Unit {0})
    mark status = do
      timestamp ← now u
      in_db
          (update_router_swap_result_status u.env from_chain_id tx_id log_index status timestamp "")

    unfoldable pub mark_swap_result_unstable : Exec World (Unit {0})
    unfolding in_db
    mark_swap_result_unstable = mark Status.match_tx_not_stable

    unfoldable pub mark_swap_result_stable : Exec World (Unit {0})
    unfolding in_db
    mark_swap_result_stable = mark Status.match_tx_stable

    unfoldable pub mark_swap_result_failed : Exec World (Unit {0})
    unfolding in_db
    mark_swap_result_failed = mark Status.match_tx_failed

-- ===== src/Tests/Jobs.antt =====
-- The theorems on the jobs, at a bridge that confirms and signs everything.
use check_tx_server.Common.{
  ℕ, suc, ◌≡◌, ◌⊎◌, refl, false, none, some, [], ◌∷◌, any, str_eq, lookup, to_lower, decimal,
}
use check_tx_server.Errors.{TokenError, token}
use check_tx_server.Exec.{ok, err}
use check_tx_server.Tokens.{get_tx_nonce, SwapTxInfo}
use check_tx_server.Mongo.InMemory.{in_memory}
use check_tx_server.Db
use check_tx_server.Db.{
  Db, find_router_swap, find_swap, update_swap, find_router_swap_result, find_result, update_result,
}
use check_tx_server.Swaps.{update_router_swap_status}
use check_tx_server.Results.{update_router_swap_result}
use check_tx_server.Worker.{in_db, tick, now, World, Setup, Bridge, Sending, get_bridge_by_chain_id}
use check_tx_server.Worker.Send.{send_transaction, send_signed_transaction, retry_rounds}
use check_tx_server.Worker.Send.Bounds.{repeat}
use check_tx_server.Worker.Update.{update_router_swap_result_of}
use check_tx_server.Worker.Verify.{process_router_swap_verify, reverify_swap}
use check_tx_server.Worker.Verify.Passes.{NonePassed, Confirmed, process_router_swap_verify-passes}
use check_tx_server.Worker.Verify.Reverify.{reverify_swap-swaps}
use check_tx_server.Worker.History.{
  check_and_update_process_swap_task_cache, add_swap_history, add_entry, get_swap_history,
}
use check_tx_server.Worker.Swap.{
  prepare, sign, prevent_reswap, send_and_note, do_swap_serial, cache_key, built_and_signed,
}
use check_tx_server.Worker.Swap.Sends.{Unpaid, cached, Processed, do_swap_serial-sends}
use check_tx_server.Tokens.Payload.{no_info}
use check_tx_server.Tests.Fixtures.{env, tx, swap, fresh, one_swap, one_result, args}

abbrev info : SwapTxInfo
info = record {
  swap_info = no_info;
  swap_type = 1;
  hash = tx;
  height = 100;
  timestamp = 1600000000;
  from = "0xsender";
  tx_to = "0xrouter";
  to = "0xrouter";
  bind = "0xreceiver";
  value = some 5000;
  log_index = 0;
  from_chain_id = 1;
  to_chain_id = 56;
}

abbrev pub bridge : Bridge
bridge = record {
  get_transaction = λ n t. err (token TokenError.not_found);
  verify_msg_hash = λ raw hashes. none;
  get_signed_tx_hash_of_key_id = none;
  verify_transaction = λ n t a. ok info;
  get_transaction_status = λ n t. (none, none);
  build_raw_transaction = λ a db. (ok ("raw", a), db);
  mpc_sign_transaction = λ n raw a. ok ("signed", "0xhash");
  send_transaction = λ n signed. ok "0xhash";
  confirmations = 10;
  nonce_setter = none;
}

abbrev pub setup : Setup
setup = record {
  env = env;
  bridges = ("1", bridge) ∷ ("56", bridge) ∷ [];
  paused_chain_ids = [];
  chain_id_blacklist = [];
  token_id_blacklist = [];
  account_blacklist = [];
  identifier = "routerswap";
  parallel_swap = false;
  retry_send_loops = [];
  nonce_passed_intervals = [];
  wait_time_to_replace = 0;
  max_replace_count = 0;
  evict = λ n keys. [];
  parse_big = λ s. some 1;
  router_mpc = λ token_id chain_id. ok "0xmpc";
  is_big_value_swap = λ i. false;
}

abbrev pub world : Db → World
world db = record {
  db = db;
  cached_swap_tasks = [];
  cached_verifying_swaps = [];
  swap_ring = [];
  swap_tasks = ("56", []) ∷ [];
  sendings = [];
  recycled = [];
}

do_swap_serial_example :
    let w = world one_result in
    let v = (do_swap_serial setup args w).1 in
    (v.sendings ≡ [])
    ⊎ ((any (str_eq (cache_key setup args)) w.cached_swap_tasks ≡ false)
        × Unpaid setup args (built_and_signed setup args (cached setup args w)).1.db
        × ((n : ℕ) × (s : Sending) × (v.sendings ≡ repeat (suc n) s []))
        × Processed setup args v.db)
do_swap_serial_example = do_swap_serial-sends setup args (world one_result)

process_router_swap_verify_example :
    NonePassed (world one_swap) (process_router_swap_verify setup swap (world one_swap)).1
    ⊎ Confirmed setup swap (world one_swap)
process_router_swap_verify_example = process_router_swap_verify-passes setup swap (world one_swap)

reverify_swap_example : (reverify_swap setup args (world one_swap)).1.db.swaps ≡ one_swap.swaps
reverify_swap_example = reverify_swap-swaps setup args (world one_swap)

-- The job pays the swap out once, under the nonce 0 that the arguments hold.
pays_once :
    (do_swap_serial setup args (world one_result)).1.sendings
    ≡ record { chain_id = "56"; signed_tx = "signed" } ∷ []
unfolding do_swap_serial check_and_update_process_swap_task_cache prepare get_bridge_by_chain_id
    decimal in_db sign tick find_router_swap_result find_result in_memory to_lower fresh
    prevent_reswap add_swap_history update_router_swap_result_of now Db.now lookup update_result
    update_swap update_router_swap_result update_router_swap_status get_tx_nonce add_entry
    get_swap_history retry_rounds send_signed_transaction send_transaction built_and_signed
    send_and_note
pays_once = refl

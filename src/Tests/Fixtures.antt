-- ===== src/Tests/Fixtures.antt =====
-- A small world to run the code in: one swap from chain 1 to chain 56, a database in memory whose
-- regular expressions match only the text itself, and a clock that moves by a second.
use check_tx_server.Common.{
  false, ℕ, ◌+◌, ◌*◌, String, none, [], ◌∷◌, str_eq, lookup, arith, eq_iff, some,
}
use check_tx_server.Status
use check_tx_server.Tokens.Payload
use check_tx_server.Tables.{SwapInfo, MgoSwap, MgoSwapResult, to_swap_result}
use check_tx_server.Tokens.{BuildTxArgs}
use check_tx_server.Mongo.InMemory.{in_memory}
use check_tx_server.Db.{Db, Env, get_router_swap_key}
use check_tx_server.Db.Laws.{OnlySwap, OnlyResult}

abbrev pub env : Env
env = record {
  milli = λ n. 1700000000000 + 1000 * n;
  regex = str_eq;
  swaps_driver = in_memory;
  results_driver = in_memory;
}

abbrev pub tx : String
tx = "0xAb"

abbrev pub key : String
key = get_router_swap_key "1" tx 0

abbrev pub no_info : SwapInfo
no_info = record {
  erc20_swap_info = none;
  nft_swap_info = none;
  any_call_swap_info = none;
  curve_any_call_swap_info = none;
}

abbrev pub swap : MgoSwap
swap = record {
  key = key;
  swap_type = 1;
  tx_id = tx;
  tx_to = "0xrouter";
  from = "0xsender";
  bind = "0xreceiver";
  value = "5000";
  log_index = 0;
  from_chain_id = "1";
  to_chain_id = "56";
  swap_info = no_info;
  status = Status.tx_not_stable;
  init_time = 0;
  timestamp = 0;
  memo = "";
}

unfoldable pub fresh : MgoSwapResult
unfolding to_swap_result
fresh = record (to_swap_result swap) { status = Status.match_tx_empty }

abbrev pub one_swap : Db
one_swap = record { ticks = 0; swaps = (key, swap) ∷ []; results = [] }

abbrev pub one_result : Db
one_result = record { ticks = 0; swaps = (key, swap) ∷ []; results = (key, fresh) ∷ [] }

abbrev pub args : BuildTxArgs
args = record {
  swap_info = Payload.no_info;
  identifier = "routerswap";
  swap_id = tx;
  swap_type = 1;
  bind = "0xreceiver";
  log_index = 0;
  from_chain_id = 1;
  to_chain_id = 56;
  reswapping = false;
  from = "0xmpc";
  to = "";
  origin_from = "0xsender";
  origin_tx_to = "0xrouter";
  origin_value = some 5000;
  swap_value = some 4900;
  value = none;
  memo = "";
  input = none;
  extra = none;
}

pub one_swap-OnlySwap : OnlySwap env key one_swap
unfolding lookup
one_swap-OnlySwap j x at_j e = ground (arith, eq_iff key j)

pub one_result-OnlyResult :
    (r : MgoSwapResult) (n : ℕ)
    → OnlyResult env key (record { ticks = n; swaps = []; results = (key, r) ∷ [] })
unfolding lookup
one_result-OnlyResult r n j x at_j e = ground (arith, eq_iff key j)

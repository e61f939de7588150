-- ===== src/Tests/Admin.antt =====
-- The theorem on reswapping, at a swap whose payment failed.
use check_tx_server.Common.{
  ◌≡◌, refl, String, false, Option, some, [], ◌∷◌, eq_iff, lookup, to_lower, decimal, arith,
}
use check_tx_server.Exec.{ok, err}
use check_tx_server.Status
use check_tx_server.Tables.{MgoSwap, MgoSwapResult}
use check_tx_server.Tokens.{TxStatus}
use check_tx_server.Mongo.InMemory.{in_memory}
use check_tx_server.Db
use check_tx_server.Db.{
  Db, find_router_swap, find_swap, update_swap, find_router_swap_result, find_result, update_result,
}
use check_tx_server.Db.Laws.{OnlySwap}
use check_tx_server.Swaps.{update_router_swap_status}
use check_tx_server.Results.{update_router_swap_result_status}
use check_tx_server.Worker.{in_db, tick, get_bridge_by_chain_id}
use check_tx_server.Admin.{
  router_admin_reswap, allowed, bridge_or, succeeded, get_swap_results_tx_status,
}
use check_tx_server.Admin.BigValue.{after_find, router_admin_pass_big_value_lem}
use check_tx_server.Errors.{GoError}
use check_tx_server.Admin.{router_admin_pass_big_value}
use check_tx_server.Mongo.{Put}
use check_tx_server.Admin.Reswap.{Failed, router_admin_reswap_lem}
use check_tx_server.Worker.{Bridge}
use check_tx_server.Tests.Fixtures.{env, tx, key, swap, fresh, one_result-OnlyResult}
use check_tx_server.Tests.Jobs.{setup, world}

abbrev paid_swap : MgoSwap
paid_swap = record swap { status = Status.tx_processed }

abbrev failed_result : MgoSwapResult
failed_result = record fresh { status = Status.match_tx_failed; swap_tx = "0xpaid"; swap_nonce = 5 }

abbrev paid : Db
paid = record { ticks = 0; swaps = (key, paid_swap) ∷ []; results = (key, failed_result) ∷ [] }

paid-OnlySwap : OnlySwap env key paid
unfolding lookup
paid-OnlySwap j x at_j e = ground (arith, eq_iff key j)

reswap_runs : (router_admin_reswap setup "1" tx 0 (world paid)).0 ≡ ok tt
unfolding router_admin_reswap allowed bridge_or get_swap_results_tx_status get_bridge_by_chain_id
    in_db tick find_router_swap find_swap find_router_swap_result find_result
    update_router_swap_result_status update_router_swap_status update_swap update_result Db.now
    in_memory lookup to_lower decimal fresh
reswap_runs = refl

router_admin_reswap_example :
    let v = (router_admin_reswap setup "1" tx 0 (world paid)).1 in
    (r : MgoSwapResult) × (bridge : Bridge) × Failed setup "1" tx 0 paid r bridge
    × ((status : Option TxStatus) × (hash : String) × ((get_swap_results_tx_status bridge r
            (record (world paid) { db = (allowed setup "1" tx 0 paid).1 })).0
          ≡ ok (status, hash))
        × (succeeded status ≡ false))
    × ((s : MgoSwap) × (lookup key v.db.swaps ≡ some s) × (s.status ≡ Status.tx_not_swapped))
    × ((r' : MgoSwapResult) × (lookup key v.db.results ≡ some r')
        × (r'.status ≡ Status.reswapping)
        × (r'.swap_nonce ≡ 0)
        × (r'.swap_tx ≡ "")
        × (r'.old_swap_txs ≡ []))
router_admin_reswap_example =
    router_admin_reswap_lem setup "1" tx 0 (world paid) paid-OnlySwap
      (one_result-OnlyResult failed_result 0) reswap_runs

abbrev big_swap : MgoSwap
big_swap = record swap { status = Status.tx_with_big_value }

abbrev big : Db
big = record { ticks = 0; swaps = (key, big_swap) ∷ []; results = [] }

big-OnlySwap : OnlySwap env key big
unfolding lookup
big-OnlySwap j x at_j e = ground (arith, eq_iff key j)

pass_big_runs : (router_admin_pass_big_value setup "1" tx 0 big).0 ≡ ok tt
unfolding router_admin_pass_big_value find_router_swap find_swap find_router_swap_result find_result
    update_router_swap_status update_swap Db.now in_memory lookup to_lower decimal
pass_big_runs = refl

router_admin_pass_big_value_example :
    (s : MgoSwap) × (e : GoError) × (lookup key big.swaps ≡ some s)
    × (s.status ≡ Status.tx_with_big_value)
    × ((find_router_swap_result env "1" tx 0 (after_find setup "1" tx 0 big)).0 ≡ err e)
    × Put key
        (record s { status = Status.tx_not_swapped; timestamp = 1700000002; memo = "" })
        big.swaps
        (router_admin_pass_big_value setup "1" tx 0 big).1.swaps
unfolding find_router_swap find_swap find_router_swap_result find_result
router_admin_pass_big_value_example =
    router_admin_pass_big_value_lem setup "1" tx 0 big big-OnlySwap pass_big_runs

-- ===== src/Tests/Store.antt =====
-- The theorems on the database at one swap.
use check_tx_server.Common.{
  ℕ, ◌≡◌, ◌≢◌, refl, true, false, some, [], ◌∷◌, lookup, to_lower, decimal, arith,
}
use check_tx_server.Exec.{ok}
use check_tx_server.Status
use check_tx_server.Tables.{MgoSwap, MgoSwapResult}
use check_tx_server.Mongo.{Put}
use check_tx_server.Mongo.InMemory.{in_memory}
use check_tx_server.Db.{
  Db, Env, find_router_swap, find_swap, update_swap, find_router_swap_result, find_result,
  update_result, now,
}
use check_tx_server.Swaps.{pass_router_swap_verify}
use check_tx_server.Results.{allocate_router_swap_nonce}
use check_tx_server.Swaps.Verify.{pass_router_swap_verify_lem, pass-other_swap}
use check_tx_server.Results.Nonce.{allocate_router_swap_nonce_lem}
use check_tx_server.Tables.{SwapResultUpdateItems}
use check_tx_server.Db.{now_milli, insert_swap}
use check_tx_server.Swaps.{add_router_swap}
use check_tx_server.Swaps.Register.{Kept, add_router_swap-keeps}
use check_tx_server.Status.{
  is_result_status, is_registered_ok, get_router_swap_status_by_verify_error,
}
use check_tx_server.Tests.Fixtures.{
  env, tx, key, swap, fresh, one_swap, one_result, args, one_swap-OnlySwap, one_result-OnlyResult,
}

pass_runs : (pass_router_swap_verify env "1" tx 0 77 one_swap).0 ≡ ok tt
unfolding pass_router_swap_verify find_router_swap find_swap update_swap in_memory lookup to_lower
    decimal
pass_runs = refl

pass_router_swap_verify_example :
    (s : MgoSwap) × (lookup key one_swap.swaps ≡ some s)
    × (s.status ≡ Status.tx_not_stable)
    × Put key
        (record s { status = Status.tx_not_swapped; timestamp = 77 })
        one_swap.swaps
        (pass_router_swap_verify env "1" tx 0 77 one_swap).1.swaps
pass_router_swap_verify_example =
    pass_router_swap_verify_lem env "1" tx 0 77 one_swap one_swap-OnlySwap pass_runs

-- A database whose regular expressions match any text, and a swap that was already processed
abbrev loose : Env
loose = record env { regex = λ p s. true }

abbrev processed : MgoSwap
processed = record swap { status = Status.tx_processed }

abbrev two_swaps : Db
two_swaps = record { ticks = 0; swaps = ("other", swap) ∷ (key, processed) ∷ []; results = [] }

processed_at_key : lookup key two_swaps.swaps ≡ some processed
unfolding lookup to_lower decimal
processed_at_key = refl

pass_loose_runs : (pass_router_swap_verify loose "1" tx 0 77 two_swaps).0 ≡ ok tt
unfolding pass_router_swap_verify find_router_swap find_swap update_swap in_memory lookup to_lower
    decimal
pass_loose_runs = refl

pass-other_swap_example :
    (other : MgoSwap) × ((find_router_swap loose "1" tx 0 two_swaps).0 ≡ ok other)
    × (other.status ≡ Status.tx_not_stable)
    × (other ≢ processed)
    × (lookup key (pass_router_swap_verify loose "1" tx 0 77 two_swaps).1.swaps
        ≡ some (record processed { status = Status.tx_not_swapped; timestamp = 77 }))
pass-other_swap_example =
    pass-other_swap loose "1" tx 0 77 two_swaps processed processed_at_key (omega arith)
      pass_loose_runs

abbrev allocated_at : ℕ → Db
allocated_at nonce = (allocate_router_swap_nonce env args nonce false one_result).1

allocate_runs : (allocate_router_swap_nonce env args 5 false one_result).0 ≡ ok (5, 6)
unfolding fresh allocate_router_swap_nonce find_router_swap_result find_result now update_swap
    update_result in_memory lookup to_lower decimal
allocate_runs = refl

abbrev given_5 : MgoSwapResult
given_5 = record fresh {
  mpc = "0xmpc";
  status = Status.match_tx_not_stable;
  swap_nonce = 5;
  timestamp = 1700000001;
  swap_value = "4900";
}

allocate_results : (allocated_at 5).results ≡ (key, given_5) ∷ []
unfolding fresh allocate_router_swap_nonce find_router_swap_result find_result now update_swap
    update_result in_memory lookup to_lower decimal
allocate_results = refl

allocate_router_swap_nonce_example :
    (r : MgoSwapResult) × (lookup key one_result.results ≡ some r)
    × (r.swap_nonce ≡ 0)
    × (r.swap_tx ≡ "")
    × Put key
        (record r {
          mpc = "0xmpc";
          status = Status.match_tx_not_stable;
          swap_nonce = 5;
          timestamp = 1700000001;
          swap_value = "4900";
        })
        one_result.results
        (allocated_at 5).results
    × (◌≡◌ {A = ℕ × ℕ} (5, 6) (5, 6))
unfolding fresh find_router_swap_result find_result decimal
allocate_router_swap_nonce_example =
    allocate_router_swap_nonce_lem env args 5 false one_result (5, 6)
      (one_result-OnlyResult fresh 0) allocate_runs

add_router_swap-keeps_example : Kept one_swap (add_router_swap env swap one_swap).1
add_router_swap-keeps_example = add_router_swap-keeps env swap one_swap

abbrev no_swap : Db
no_swap = record { ticks = 0; swaps = []; results = [] }

add_runs : (add_router_swap env swap no_swap).0 ≡ ok tt
unfolding add_router_swap now_milli insert_swap in_memory lookup
add_runs = refl

abbrev with_5 : Db
with_5 = record { ticks = 0; swaps = []; results = (key, given_5) ∷ [] }

abbrev new_nonce : SwapResultUpdateItems
new_nonce = record {
  mpc = "";
  swap_tx = "0xother";
  swap_height = 0;
  swap_time = 0;
  swap_value = "";
  swap_nonce = 6;
  status = Status.match_tx_not_stable;
  timestamp = 77;
  memo = "";
}

-- ===== src/Tests/Runs.antt =====
-- Runs of the operations on results, at concrete calls.
use check_tx_server.Common.{
  ◌≡◌, refl, some, lookup, List, [], ◌∷◌, All, arith, decimal, false, to_lower,
}
use check_tx_server.Status
use check_tx_server.Tables.{MgoSwapResult}
use check_tx_server.Db.{Db}
use check_tx_server.Results.{allocate_router_swap_nonce}
use check_tx_server.Results.Calls.{Call, allocate, set_status, add_old_tx}
use check_tx_server.Results.Run.{run, run-Reach, run-keeps_nonce, ReachAt, Alone}
use check_tx_server.Tests.Fixtures.{env, tx, key, fresh, args, one_result, one_result-OnlyResult}

abbrev calls : List Call
calls = allocate args 5 false ∷ set_status "1" tx 0 Status.match_tx_stable 77 "" ∷ []

fresh-Alone : All (Alone env one_result) calls
unfolding fresh decimal
fresh-Alone = (one_result-OnlyResult fresh 0, (one_result-OnlyResult fresh 0, tt))

run-Reach_example :
    ReachAt calls key
      (lookup key one_result.results)
      (lookup key (run env calls one_result).results)
run-Reach_example = run-Reach env calls one_result fresh-Alone key

abbrev with_nonce_5 : MgoSwapResult
with_nonce_5 = record fresh { swap_nonce = 5 }

abbrev one_with_nonce : Db
one_with_nonce = record { ticks = 0; swaps = []; results = (key, with_nonce_5) ∷ [] }

abbrev later_calls : List Call
later_calls = add_old_tx "1" tx 0 "0xnew" ∷ allocate args 6 false ∷ []

with_nonce-Alone : All (Alone env one_with_nonce) later_calls
unfolding fresh decimal
with_nonce-Alone =
    (one_result-OnlyResult with_nonce_5 0, (one_result-OnlyResult with_nonce_5 0, tt))

with_nonce_at_key : lookup key one_with_nonce.results ≡ some with_nonce_5
unfolding lookup to_lower fresh decimal
with_nonce_at_key = refl

run-keeps_nonce_example :
    (r' : MgoSwapResult) × (lookup key (run env later_calls one_with_nonce).results ≡ some r')
    × (r'.swap_nonce ≡ 5)
run-keeps_nonce_example =
    run-keeps_nonce env later_calls one_with_nonce key with_nonce_5 with_nonce-Alone
      with_nonce_at_key (omega arith) refl

-- One allocation, and the calls that may come before the next
abbrev after_one : Db
after_one = (allocate_router_swap_nonce env args 5 false one_result).1

abbrev given_5 : MgoSwapResult
given_5 = record fresh {
  mpc = "0xmpc";
  status = Status.match_tx_not_stable;
  swap_nonce = 5;
  timestamp = 1700000001;
  swap_value = "4900";
}

abbrev between : List Call
between = add_old_tx "1" tx 0 "0xnew" ∷ set_status "1" tx 0 Status.match_tx_stable 77 "" ∷ []

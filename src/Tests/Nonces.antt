-- ===== src/Tests/Nonces.antt =====
-- The theorems on the nonces of a sender.
use check_tx_server.Common.{
  ℕ, String, List, ◌==◌, if◌then◌else◌, ◌+◌, ◌≤◌, ◌≡◌, ◌≢◌, refl, some, [], ◌∷◌, lookup, to_lower,
  decimal, arith,
}
use check_tx_server.Errors.{plain}
use check_tx_server.Exec.{Result, ok, err}
use check_tx_server.Mongo.InMemory.{in_memory}
use check_tx_server.Db
use check_tx_server.Db.{Db, find_router_swap_result, find_result, update_result, update_swap}
use check_tx_server.Results.{allocate_router_swap_nonce, check_router_swap_result_update}
use check_tx_server.NonceSetter.{
  Nonces, RecycleNonceRecord, try_allocate_recycle_nonce, init_swap_nonce, get_swap_nonce,
  recycle_ack_interval, set_nonce, allocate_nonce,
}
use check_tx_server.NonceSetter.Issue.{Call, allocate, set, issued, Increasing, issued-Increasing}
use check_tx_server.NonceSetter.Recycled.{try_allocate_recycle_nonce-once}
use check_tx_server.NonceSetter.Start.{FirstAnswer, init_swap_nonce-first}
use check_tx_server.Tests.Fixtures.{env, args, fresh, one_result}

abbrev nonces : Nonces
nonces = record { db = one_result; swap_nonce = ("0xmpc", 5) ∷ []; recycle_nonce = [] }

abbrev calls : List Call
calls = allocate args ∷ set "0xMPC" 9 ∷ allocate args ∷ []

issued_example : Increasing env "0xmpc" 5 (issued env "0xmpc" calls nonces)
unfolding lookup
issued_example = issued-Increasing env "0xmpc" calls nonces refl

abbrev returned : RecycleNonceRecord
returned = record { nonce = 3; timestamp = 1600000000 }

abbrev recycling : Nonces
recycling = record nonces { recycle_nonce = ("0xmpc", returned) ∷ [] }

gives_returned : (try_allocate_recycle_nonce env args recycle_ack_interval recycling).0 ≡ ok 3
unfolding try_allocate_recycle_nonce Db.now allocate_router_swap_nonce
    check_router_swap_result_update fresh find_router_swap_result find_result update_result
    update_swap in_memory lookup to_lower decimal
gives_returned = refl

try_allocate_example :
    (rec : RecycleNonceRecord) × (lookup "0xmpc" recycling.recycle_nonce ≡ some rec)
    × (3 ≡ rec.nonce)
    × (◌≢◌ {A = ℕ} 3 0)
    × (rec.timestamp + 300 ≤ 1700000000)
    × (lookup "0xmpc"
          (try_allocate_recycle_nonce env args recycle_ack_interval recycling).1.recycle_nonce
        ≡ some (record rec { nonce = 0 }))
    × ((try_allocate_recycle_nonce env args recycle_ack_interval recycling).1.swap_nonce
        ≡ recycling.swap_nonce)
unfolding to_lower
try_allocate_example =
    try_allocate_recycle_nonce-once env args recycle_ack_interval recycling 3 gives_returned

-- The second call is answered.
abbrev unsteady : ℕ → String → String → Result ℕ
unsteady n account height = if n == 0 then err (plain "timeout") else ok 8

second : FirstAnswer unsteady "0xmpc" nonces 1 8
second = (λ j lt. (plain "timeout", ground (arith, lt)), refl)

init_swap_nonce_example : get_swap_nonce "0xmpc" (init_swap_nonce unsteady "0xmpc" 5 nonces).1 ≡ 8
unfolding to_lower
init_swap_nonce_example = init_swap_nonce-first unsteady "0xmpc" 5 1 8 nonces (omega arith) second

-- A failed allocation gives no nonce; the one after SetNonce starts at what was set.
issues : issued env "0xmpc" calls nonces ≡ 5 ∷ []
unfolding issued allocate_nonce get_swap_nonce try_allocate_recycle_nonce allocate_router_swap_nonce
    check_router_swap_result_update fresh find_router_swap_result find_result update_result
    update_swap in_memory lookup to_lower decimal Db.now set_nonce
issues = refl

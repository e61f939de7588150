-- ===== src/Results/Nonce.antt =====
-- The nonce of a swap result is given once: AllocateRouterSwapNonce and checkRouterSwapResultUpdate.
use check_tx_server.Common.{
  ℕ, ◌+◌, ◌/◌, ◌^◌, ◌%◌, String, ◌≡◌, inl, inr, Bool, true, some, str_eq, eq_iff, lookup, arith,
  if◌then◌else◌, decimal,
}
use check_tx_server.Exec.{Result, ok}
use check_tx_server.Exec.Inversion.{Result-cases}
use check_tx_server.Status
use check_tx_server.Tables.{MgoSwapResult}
use check_tx_server.Tokens.{BuildTxArgs}
use check_tx_server.Mongo.{Put}
use check_tx_server.Db.{
  Db, Env, get_router_swap_key, find_router_swap_result, find_result, update_swap, update_result,
  now,
}
use check_tx_server.Db.Laws.{
  OnlyResult, find_router_swap_result-ok, update_result-ok, Put-of_Changed,
}
use check_tx_server.Results.{allocate_router_swap_nonce, some_or}

module _ (env : Env) (args : BuildTxArgs) (nonce : ℕ) (is_recycle_nonce : Bool) (db : Db) where
  abbrev key : String
  key = get_router_swap_key (decimal args.from_chain_id) args.swap_id args.log_index

  abbrev find : Result MgoSwapResult × Db
  find = find_router_swap_result env (decimal args.from_chain_id) args.swap_id args.log_index db

  abbrev allocate : Result (ℕ × ℕ) × Db
  allocate = allocate_router_swap_nonce env args nonce is_recycle_nonce db

  -- What an allocation at the time `at` sets
  abbrev allocated : ℕ → MgoSwapResult → MgoSwapResult
  allocated at r = record r {
    mpc = args.from;
    status = Status.match_tx_not_stable;
    swap_nonce = nonce;
    timestamp = at;
    swap_value = some_or args.swap_value r.swap_value;
  }

  abbrev time : ℕ
  time = env.milli find.1.ticks

  -- An allocation that returns found a result that had no nonce and no transaction.
  allocate-run :
      (out : ℕ × ℕ)
      → allocate.0 ≡ ok out
      → (r : MgoSwapResult) × (find.0 ≡ ok r)
        × (r.swap_nonce ≡ 0)
        × (str_eq r.swap_tx "" ≡ true)
        × (out ≡ (nonce, if is_recycle_nonce then 0 else (nonce + 1) % 2 ^ 64))
  unfolding allocate_router_swap_nonce
  allocate-run out h = elim (Result-cases find.0) [
    | inl (r, e) ↦ (r, e, ground arith, ground arith, ground arith)
    | inr (x, e) ↦ absurd (ground arith)
  ]

  -- What an allocation that returns answers
  pub allocate-out :
      (out : ℕ × ℕ)
      → allocate.0 ≡ ok out
      → out ≡ (nonce, if is_recycle_nonce then 0 else (nonce + 1) % 2 ^ 64)
  allocate-out out h = let (_, _, _, _, is) = allocate-run out h in is

  abbrev timed : Db
  timed = (now env find.1).1

  -- The result is updated as the driver answers, and the update of the swap's status leaves it alone.
  allocate-results :
      (out : ℕ × ℕ)
      → allocate.0 ≡ ok out
      → ((update_result env key (allocated (time / 1000)) timed).0 ≡ ok tt)
        × (allocate.1.results ≡ (update_result env key (allocated (time / 1000)) timed).1.results)
  unfolding allocate_router_swap_nonce now update_swap
  allocate-results out h = elim (Result-cases find.0) [
    | inl (r, e) ↦ elim (Result-cases (update_result env key (allocated (time / 1000)) timed).0) [
      | inl (u, done) ↦ (done, ground arith)
      | inr (x, done) ↦ absurd (ground arith)
    ]
    | inr (x, e) ↦ absurd (ground arith)
  ]

  -- Where no other result answers the query, an allocation that returns gave the nonce to a result
  -- that had no nonce and no transaction: the result now holds the nonce, the sender and the status
  -- MatchTxNotStable, every other result is as before, and the counter is one higher, modulo 2^64, or
  -- cleared if the nonce was recycled.
  pub allocate_router_swap_nonce_lem :
      (out : ℕ × ℕ)
      → OnlyResult env key db
      → allocate.0 ≡ ok out
      → (r : MgoSwapResult) × (lookup key db.results ≡ some r)
        × (r.swap_nonce ≡ 0)
        × (r.swap_tx ≡ "")
        × Put key (allocated (time / 1000) r) db.results allocate.1.results
        × (out ≡ (nonce, if is_recycle_nonce then 0 else (nonce + 1) % 2 ^ 64))
  unfolding find_router_swap_result find_result now
  allocate_router_swap_nonce_lem out only h =
      let (r, e, zero_nonce, no_tx, result) = allocate-run out h in
      let (done, same) = allocate-results out h in
      let at_key = find_router_swap_result-ok env _ _ _ db r only e in
      let changed = update_result-ok env key (allocated (time / 1000)) timed done in
      (
        r,
        at_key,
        zero_nonce,
        (eq_iff r.swap_tx "").0 no_tx,
        rw same (Put-of_Changed key (allocated (time / 1000)) _ _ r at_key changed),
        result,
      )

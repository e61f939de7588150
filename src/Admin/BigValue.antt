-- ===== src/Admin/BigValue.antt =====
-- When a swap of a big value may be paid out.
use check_tx_server.Common.{ℕ, suc, ◌/◌, String, ◌≡◌, inl, inr, some, lookup, arith}
use check_tx_server.Errors.{GoError}
use check_tx_server.Exec.{ok, err}
use check_tx_server.Exec.Inversion.{Result-cases}
use check_tx_server.Status
use check_tx_server.Tables.{MgoSwap}
use check_tx_server.Db
use check_tx_server.Db.{
  Db, get_router_swap_key, find_router_swap, find_router_swap_result, find_swap, find_result,
  update_swap,
}
use check_tx_server.Db.Laws.{OnlySwap, find_router_swap-ok, update_swap-ok, Put-of_Changed}
use check_tx_server.Mongo.{Put}
use check_tx_server.Swaps.{update_router_swap_status}
use check_tx_server.Worker.{Setup}
use check_tx_server.Admin.{router_admin_pass_big_value, set_swap_status}

module _ (u : Setup) (c t : String) (i : ℕ) (db : Db) where
  abbrev key : String
  key = get_router_swap_key c t i

  abbrev pub after_find : Db
  after_find = (find_router_swap u.env c t i db).1

  abbrev after_search : Db
  after_search = (find_router_swap_result u.env c t i after_find).1

  pass-run :
      (router_admin_pass_big_value u c t i db).0 ≡ ok tt
      → (s : MgoSwap) × (e : GoError) × ((find_router_swap u.env c t i db).0 ≡ ok s)
        × (s.status ≡ Status.tx_with_big_value)
        × ((find_router_swap_result u.env c t i after_find).0 ≡ err e)
        × (router_admin_pass_big_value u c t i db ≡ set_swap_status u c t i after_search)
  unfolding router_admin_pass_big_value
  pass-run h = elim (Result-cases (find_router_swap u.env c t i db).0) [
    | inr (x, e) ↦ absurd (ground arith)
    | inl (s, e) ↦ elim (Result-cases (find_router_swap_result u.env c t i after_find).0) [
      | inl (r, e') ↦ absurd (ground arith)
      | inr (x, e') ↦ (s, x, e, ground arith, e', ground arith)
    ]
  ]

  abbrev passed : ℕ → MgoSwap → MgoSwap
  passed at s = record s { status = Status.tx_not_swapped; timestamp = at; memo = "" }

  -- Where no other swap answers the query, a RouterAdminPassBigValue that returns found the swap under
  -- its key with the status TxWithBigValue, got an error from the query for its result, and left the
  -- swap with the status TxNotSwapped and no memo, and every other swap as it was.
  pub router_admin_pass_big_value_lem :
      OnlySwap u.env key db
      → (router_admin_pass_big_value u c t i db).0 ≡ ok tt
      → (s : MgoSwap) × (e : GoError) × (lookup key db.swaps ≡ some s)
        × (s.status ≡ Status.tx_with_big_value)
        × ((find_router_swap_result u.env c t i after_find).0 ≡ err e)
        × Put key
            (passed (u.env.milli after_search.ticks / 1000) s)
            db.swaps
            (router_admin_pass_big_value u c t i db).1.swaps
  unfolding Db.now update_router_swap_status find_router_swap find_swap find_router_swap_result
      find_result
  router_admin_pass_big_value_lem only h =
      let (s, e, is, big, no_result, run) = pass-run h in
      let time = u.env.milli after_search.ticks / 1000 in
      let timed = record after_search { ticks = suc after_search.ticks } in
      let at = find_router_swap-ok u.env c t i db s only is in
      let done : (update_swap u.env key (passed time) timed).0 ≡ ok tt = rw run at h in
      let changed = update_swap-ok u.env key (passed time) timed done in
      (s, e, at, big, no_result, rw run (Put-of_Changed key (passed time) _ _ s at changed))

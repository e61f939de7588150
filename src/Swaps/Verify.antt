-- ===== src/Swaps/Verify.antt =====
-- Passing the verification of a swap.
use check_tx_server.Common.{ℕ, String, ◌≡◌, ◌≢◌, ap, sym, ◌∙◌, inl, inr, some, lookup, arith}
use check_tx_server.Exec.{ok}
use check_tx_server.Exec.Inversion.{Result-cases}
use check_tx_server.Status
use check_tx_server.Tables.{MgoSwap}
use check_tx_server.Mongo.{Put}
use check_tx_server.Db.{Db, Env, get_router_swap_key, find_router_swap, find_swap, update_swap}
use check_tx_server.Db.Laws.{
  OnlySwap, find_router_swap-ok, update_swap-ok, Put-of_Changed, lookup-changed,
}
use check_tx_server.Swaps.{pass_router_swap_verify}

module _ (env : Env) (c t : String) (i timestamp : ℕ) (db : Db) where
  abbrev key : String
  key = get_router_swap_key c t i

  abbrev passed : MgoSwap → MgoSwap
  passed s = record s { status = Status.tx_not_swapped; timestamp = timestamp }

  abbrev after_find : Db
  after_find = (find_router_swap env c t i db).1

  -- A pass that returns is the update, of a swap that was found with the status TxNotStable.
  pass-run :
      (pass_router_swap_verify env c t i timestamp db).0 ≡ ok tt
      → (s : MgoSwap) × ((find_router_swap env c t i db).0 ≡ ok s)
        × (s.status ≡ Status.tx_not_stable)
        × (pass_router_swap_verify env c t i timestamp db ≡ update_swap env key passed after_find)
  unfolding pass_router_swap_verify
  pass-run h = elim (Result-cases (find_router_swap env c t i db).0) [
    | inl (s, e) ↦ (s, e, ground arith, ground arith)
    | inr (x, e) ↦ absurd (ground arith)
  ]

  -- Where no other swap answers the query, a pass that returns found the swap under its key with the
  -- status TxNotStable, and left it with the status TxNotSwapped and the new timestamp; every other
  -- registered swap is as before.
  pub pass_router_swap_verify_lem :
      OnlySwap env key db
      → (pass_router_swap_verify env c t i timestamp db).0 ≡ ok tt
      → (s : MgoSwap) × (lookup key db.swaps ≡ some s)
        × (s.status ≡ Status.tx_not_stable)
        × Put key (passed s) db.swaps (pass_router_swap_verify env c t i timestamp db).1.swaps
  unfolding find_router_swap find_swap
  pass_router_swap_verify_lem only h =
      let (s, e, stable, run) = pass-run h in
      let at_key = find_router_swap-ok env c t i db s only e in
      let done : (update_swap env key passed after_find).0 ≡ ok tt = rw run at h in
      let changed = update_swap-ok env key passed after_find done in
      (s, at_key, stable, rw run (Put-of_Changed key passed _ _ s at_key changed))

  -- Where the swap under the key has another status than TxNotStable, a pass that returns was answered
  -- with another swap, which is TxNotStable, and marks the swap under the key as TxNotSwapped: the query is
  -- a $regex on the key, and the update goes to the key itself.
  pub pass-other_swap :
      (s : MgoSwap)
      → lookup key db.swaps ≡ some s
      → s.status ≢ Status.tx_not_stable
      → (pass_router_swap_verify env c t i timestamp db).0 ≡ ok tt
      → (other : MgoSwap) × ((find_router_swap env c t i db).0 ≡ ok other)
        × (other.status ≡ Status.tx_not_stable)
        × (other ≢ s)
        × (lookup key (pass_router_swap_verify env c t i timestamp db).1.swaps ≡ some (passed s))
  unfolding find_router_swap find_swap
  pass-other_swap s at_key settled h =
      let (other, e, stable, run) = pass-run h in
      let done : (update_swap env key passed after_find).0 ≡ ok tt = rw run at h in
      (
        other,
        e,
        stable,
        λ same. settled (ap (λ x. x.status) (sym same) ∙ stable),
        rw run (
            lookup-changed key passed _ _ (update_swap-ok env key passed after_find done) s at_key),
      )

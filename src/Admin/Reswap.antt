-- ===== src/Admin/Reswap.antt =====
-- When a swap may be paid out again.
use check_tx_server.Common.{
  ℕ, suc, ◌/◌, String, ◌≡◌, ◌≢◌, refl, ap, ◌∙◌, inl, inr, Bool-cases, Option-cases, false, Option,
  none, some, List, [], ◌∷◌, str_eq, eq_iff, lookup, arith,
}
use check_tx_server.Exec.{ok}
use check_tx_server.Exec.Inversion.{Result-cases}
use check_tx_server.Status
use check_tx_server.Tables.{MgoSwap, MgoSwapResult}
use check_tx_server.Tokens.{TxStatus}
use check_tx_server.Db
use check_tx_server.Db.{
  Db, Env, get_router_swap_key, find_router_swap, find_router_swap_result, find_swap, find_result,
  update_swap, update_result,
}
use check_tx_server.Db.Laws.{
  OnlySwap, OnlyResult, find_router_swap-ok, find_router_swap_result-ok, update_swap-ok,
  update_result-ok, lookup-changed,
}
use check_tx_server.Swaps.{update_router_swap_status}
use check_tx_server.Results.{update_router_swap_result_status, with_result_status}
use check_tx_server.Worker.{World, Setup, Bridge, NonceSetter, in_db, tick, get_bridge_by_chain_id}
use check_tx_server.Admin.{
  succeeded, allowed, reset, check_pool_nonce, checked_and_reset, get_swap_results_tx_status,
  router_admin_reswap, answered, old_status, bridge_or,
}

bridge_or-ok : (o : Option Bridge) (b : Bridge) → bridge_or o ≡ ok b → o ≡ some b
unfolding bridge_or
bridge_or-ok none b h = cc
bridge_or-ok (some x) b h = cc

-- The documents are as they were.
abbrev SameDb : World → World → Type 0
SameDb w v = (v.db.swaps ≡ w.db.swaps) × (v.db.results ≡ w.db.results)

old_status-SameDb :
    (bridge : Bridge) (txs : List String) (w : World) → SameDb w (old_status bridge txs w).1
unfolding old_status answered tick
old_status-SameDb bridge [] w = (refl, refl)
old_status-SameDb bridge (tx ∷ txs) w =
    let later = old_status-SameDb bridge txs (tick w).1 in
    elim (Option-cases (bridge.get_transaction_status w.db.ticks tx).1) [
      | inl fine ↦ ground arith
      | inr (x, failed) ↦ ground arith
    ]

status-SameDb :
    (bridge : Bridge) (r : MgoSwapResult) (w : World)
    → SameDb w (get_swap_results_tx_status bridge r w).1
unfolding get_swap_results_tx_status answered tick
status-SameDb bridge r w =
    let later = old_status-SameDb bridge r.old_swap_txs (tick w).1 in
    elim (Option-cases (bridge.get_transaction_status w.db.ticks r.swap_tx).1) [
      | inl fine ↦ ground arith
      | inr (x, failed) ↦ ground arith
    ]

nonce-SameDb :
    (setter : Option NonceSetter) (r : MgoSwapResult) (w : World)
    → SameDb w (check_pool_nonce setter r w).1
unfolding check_pool_nonce tick
nonce-SameDb none r w = (refl, refl)
nonce-SameDb (some setter) r w = ground arith

module _ (u : Setup) (c t : String) (i : ℕ) where
  abbrev key : String
  key = get_router_swap_key c t i

  -- A processed swap whose payment failed, and the bridge of its destination chain
  abbrev pub Failed : Db → MgoSwapResult → Bridge → Type 0
  Failed db r bridge =
      ((s : MgoSwap) × (lookup key db.swaps ≡ some s)
        × (s.status ≡ Status.tx_processed)
        × (get_bridge_by_chain_id u s.to_chain_id ≡ some bridge))
      × (lookup key db.results ≡ some r)
      × (r.status ≡ Status.match_tx_failed)
      × (r.swap_tx ≢ "")

  found_docs :
      (db : Db)
      → let d = (find_router_swap_result u.env c t i (find_router_swap u.env c t i db).1).1 in
        (d.swaps ≡ db.swaps) × (d.results ≡ db.results)
  unfolding find_router_swap find_swap find_router_swap_result find_result
  found_docs db = (refl, refl)

  allowed-run :
      (db : Db) (r : MgoSwapResult) (bridge : Bridge)
      → (allowed u c t i db).0 ≡ ok (r, bridge)
      → let db' = (find_router_swap u.env c t i db).1 in
        ((s : MgoSwap) × ((find_router_swap u.env c t i db).0 ≡ ok s)
          × (s.status ≡ Status.tx_processed)
          × (bridge_or (get_bridge_by_chain_id u s.to_chain_id) ≡ ok bridge))
        × ((find_router_swap_result u.env c t i db').0 ≡ ok r)
        × (r.status ≡ Status.match_tx_failed)
        × (str_eq r.swap_tx "" ≡ false)
        × ((allowed u c t i db).1 ≡ (find_router_swap_result u.env c t i db').1)
  unfolding allowed
  allowed-run db r bridge h = elim (Result-cases (find_router_swap u.env c t i db).0) [
    | inr (x, e) ↦ absurd (ground arith)
    | inl (s, e) ↦
        elim (Result-cases
          (find_router_swap_result u.env c t i (find_router_swap u.env c t i db).1).0) [
            | inr (x, e') ↦ absurd (ground arith)
            | inl (r', e') ↦
                elim (Result-cases (bridge_or (get_bridge_by_chain_id u s.to_chain_id))) [
                  | inr (x, e'') ↦ absurd (ground arith)
                  | inl (b, e'') ↦ (
                    (s, e, ground arith, ground arith),
                    ground arith,
                    ground arith,
                    ground arith,
                    ground arith,
                  )
                ]
          ]
  ]

  reset-lem :
      (db : Db) (r : MgoSwapResult)
      → (reset u c t i db).0 ≡ ok tt
      → lookup key db.results ≡ some r
      → (r' : MgoSwapResult) × (lookup key (reset u c t i db).1.results ≡ some r')
        × (r'.status ≡ Status.reswapping)
        × (r'.swap_nonce ≡ 0)
        × (r'.swap_tx ≡ "")
        × (r'.old_swap_txs ≡ [])
  unfolding reset Db.now update_router_swap_result_status update_router_swap_status update_swap
  reset-lem db r h e =
      let time = u.env.milli db.ticks / 1000 in
      let f = with_result_status Status.reswapping time "" in
      let timed = record db { ticks = suc db.ticks } in
      elim (Result-cases (update_result u.env key f timed).0) [
        | inr (x, e') ↦ absurd (ground arith)
        | inl (x, e') ↦
            let at = lookup-changed key f _ _ (update_result-ok u.env key f timed e') r e in
            (f r, ground arith, refl, refl, refl, refl)
      ]

  reset-swap :
      (db : Db) (s : MgoSwap)
      → (reset u c t i db).0 ≡ ok tt
      → lookup key db.swaps ≡ some s
      → (s' : MgoSwap) × (lookup key (reset u c t i db).1.swaps ≡ some s')
        × (s'.status ≡ Status.tx_not_swapped)
  unfolding reset Db.now update_router_swap_result_status update_router_swap_status update_result
  reset-swap db s h e =
      let timed = record db { ticks = suc db.ticks } in
      let f = with_result_status Status.reswapping (u.env.milli db.ticks / 1000) "" in
      let db' = (update_result u.env key f timed).1 in
      let g : MgoSwap → MgoSwap = λ x. record x {
        status = Status.tx_not_swapped;
        timestamp = u.env.milli db'.ticks / 1000;
        memo = "";
      } in
      let timed' = record db' { ticks = suc db'.ticks } in
      elim (Result-cases (update_result u.env key f timed).0) [
        | inr (x, e') ↦ absurd (ground arith)
        | inl (x, e') ↦ elim (Result-cases (update_swap u.env key g timed').0) [
          | inr (x', e'') ↦ absurd (ground arith)
          | inl (x', e'') ↦
              let at = lookup-changed key g _ _ (update_swap-ok u.env key g timed' e'') s e in
              (g s, ground arith, refl)
        ]
      ]

  checked-run :
      (w : World) (r : MgoSwapResult) (bridge : Bridge)
      → (checked_and_reset u c t i (r, bridge) w).0 ≡ ok tt
      → let asked = get_swap_results_tx_status bridge r w in
        let w' = (check_pool_nonce bridge.nonce_setter r asked.1).1 in
        ((status : Option TxStatus) × (hash : String) × (asked.0 ≡ ok (status, hash))
          × (succeeded status ≡ false))
        × ((check_pool_nonce bridge.nonce_setter r asked.1).0 ≡ ok tt)
        × ((reset u c t i w'.db).0 ≡ ok tt)
        × ((checked_and_reset u c t i (r, bridge) w).1.db ≡ (reset u c t i w'.db).1)
  unfolding checked_and_reset in_db
  checked-run w r bridge h =
      let asked = get_swap_results_tx_status bridge r w in
      elim (Result-cases asked.0) [
        | inr (x, e) ↦ absurd (ground arith)
        | inl ((status, hash), e) ↦ elim (Bool-cases (succeeded status)) [
          | inl paid ↦ absurd (ground arith)
          | inr unpaid ↦ elim (Result-cases (check_pool_nonce bridge.nonce_setter r asked.1).0) [
            | inr (x, e') ↦ absurd (ground arith)
            | inl (x, e') ↦ ((status, hash, e, unpaid), e', ground arith, ground arith)
          ]
        ]
      ]

  -- Where no other swap or result answers the queries for the key, a RouterAdminReswap that returns
  -- found a processed swap whose payment failed, for which the destination chain reported no
  -- successful transaction, and left the swap as TxNotSwapped and the result as Reswapping, without
  -- nonce and transactions.
  pub router_admin_reswap_lem :
      (w : World)
      → OnlySwap u.env key w.db
      → OnlyResult u.env key w.db
      → (router_admin_reswap u c t i w).0 ≡ ok tt
      → let v = (router_admin_reswap u c t i w).1 in
        (r : MgoSwapResult) × (bridge : Bridge) × Failed w.db r bridge
        × ((status : Option TxStatus) × (hash : String) × ((get_swap_results_tx_status bridge r
                (record w { db = (allowed u c t i w.db).1 })).0
              ≡ ok (status, hash))
            × (succeeded status ≡ false))
        × ((s : MgoSwap) × (lookup key v.db.swaps ≡ some s) × (s.status ≡ Status.tx_not_swapped))
        × ((r' : MgoSwapResult) × (lookup key v.db.results ≡ some r')
            × (r'.status ≡ Status.reswapping)
            × (r'.swap_nonce ≡ 0)
            × (r'.swap_tx ≡ "")
            × (r'.old_swap_txs ≡ []))
  unfolding router_admin_reswap in_db find_router_swap find_swap
  router_admin_reswap_lem w only only' h = elim (Result-cases (allowed u c t i w.db).0) [
    | inr (x, e) ↦ absurd (ground arith)
    | inl ((r, bridge), e) ↦
        let w1 = (in_db (allowed u c t i) w).1 in
        let run : router_admin_reswap u c t i w ≡ checked_and_reset u c t i (r, bridge) w1 =
          ground arith in
        let (found_it, result_is, failed, has_tx, left) = allowed-run w.db r bridge e in
        let (s, swap_is, processed, bridge_is) = found_it in
        let at_swap = find_router_swap-ok u.env c t i w.db s only swap_is in
        let at_result : lookup key w.db.results ≡ some r =
          find_router_swap_result-ok u.env c t i (find_router_swap u.env c t i w.db).1 r only'
            result_is in
        let (asked, nonce_ok, reset_ok, final) = checked-run w1 r bridge (rw run at h) in
        let w2 = (get_swap_results_tx_status bridge r w1).1 in
        let w3 = (check_pool_nonce bridge.nonce_setter r w2).1 in
        let (swaps1, results1) = found_docs w.db in
        let (swaps2, results2) = status-SameDb bridge r w1 in
        let (swaps3, results3) = nonce-SameDb bridge.nonce_setter r w2 in
        let swaps : w3.db.swaps ≡ w.db.swaps = swaps3 ∙ swaps2 ∙ ap (λ d. d.swaps) left ∙ swaps1 in
        let results : w3.db.results ≡ w.db.results =
          results3 ∙ results2 ∙ ap (λ d. d.results) left ∙ results1 in
        let (s', at_s', unswapped) =
          reset-swap w3.db s reset_ok (ap (λ m. lookup key m) swaps ∙ at_swap) in
        let (r', at_r', again, no_nonce, no_swap_tx, no_old) =
          reset-lem w3.db r reset_ok (ap (λ m. lookup key m) results ∙ at_result) in
        let end : (router_admin_reswap u c t i w).1.db ≡ (reset u c t i w3.db).1 =
          ap (λ p. p.1.db) run ∙ final in
        (
          r,
          bridge,
          (
            (s, at_swap, processed, bridge_or-ok _ bridge bridge_is),
            at_result,
            failed,
            λ none. ground (arith, eq_iff r.swap_tx ""),
          ),
          asked,
          (s', ap (λ d. lookup key d.swaps) end ∙ at_s', unswapped),
          (r', ap (λ d. lookup key d.results) end ∙ at_r', again, no_nonce, no_swap_tx, no_old),
        )
  ]

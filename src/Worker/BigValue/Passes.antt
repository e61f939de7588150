-- ===== src/Worker/BigValue/Passes.antt =====
-- When processPassBigValRouterSwap passes a swap.
use check_tx_server.Common.{
  ℕ, suc, ◌*◌, ◌-◌, ◌/◌, ◌<◌, ◌≤◌, ◌≡◌, refl, Bool-cases, Option-cases, ◌⊎◌, inl, inr, some, arith,
  ltb, ◌==◌,
}
use check_tx_server.Exec.{Result, ok, err}
use check_tx_server.Exec.Inversion.{Result-cases}
use check_tx_server.Status
use check_tx_server.Tables.{MgoSwap, MgoSwapResult}
use check_tx_server.Tokens.{SwapTxInfo}
use check_tx_server.Db
use check_tx_server.Db.{find_router_swap_result, find_result}
use check_tx_server.Worker.{
  World, Setup, Bridge, in_db, tick, now, get_sep_time_in_find, get_bridge_by_chain_id,
  bridge_or_error,
}
use check_tx_server.Worker.Verify.{verify_args}
use check_tx_server.Worker.BigValue.{
  process_pass_big_val_router_swap, verify_and_pass, pass_big_value_time_required,
  min_time_interval_to_pass_big_value,
}

module _ (u : Setup) (swap : MgoSwap) where
  -- Where `w` is the world when the job takes up the swap, the clock's next two readings are twelve hours
  -- or more after the swap was registered, in milliseconds, and five minutes or more after it was updated
  -- (both of which hold of a time of 0). The swap waits for its big value, and its chain confirms it.
  abbrev pub Due : World → Type 0
  Due w =
      (bridge : Bridge) × (info : SwapTxInfo) × (swap.status ≡ Status.tx_with_big_value)
      × (swap.init_time ≤ (u.env.milli w.db.ticks / 1000 - 43200) * 1000)
      × (swap.timestamp ≤ u.env.milli (suc w.db.ticks) / 1000 - 300)
      × (get_bridge_by_chain_id u swap.from_chain_id ≡ some bridge)
      × ((k : ℕ) × (suc w.db.ticks < k)
          × (bridge.verify_transaction k swap.tx_id (verify_args swap.swap_type swap.log_index)
              ≡ ok info))

  sep_time_lem : (time dist : ℕ) → get_sep_time_in_find time dist ≡ time - dist
  unfolding get_sep_time_in_find
  sep_time_lem time dist = ground arith

  verify_and_pass-swaps :
      (r : Result MgoSwapResult) (w : World)
      → ((verify_and_pass u swap r w).1.db.swaps ≡ w.db.swaps)
        ⊎ ((bridge : Bridge) × (info : SwapTxInfo) × (get_bridge_by_chain_id u swap.from_chain_id
              ≡ some bridge)
            × (bridge.verify_transaction w.db.ticks swap.tx_id
                  (verify_args swap.swap_type swap.log_index)
                ≡ ok info))
  unfolding verify_and_pass bridge_or_error tick
  verify_and_pass-swaps (ok x) w = inl refl
  verify_and_pass-swaps (err e) w =
      elim (Option-cases (get_bridge_by_chain_id u swap.from_chain_id)) [
        | inl free ↦ inl (ground (arith, free))
        | inr (bridge, at) ↦
            elim (Result-cases (
              bridge.verify_transaction w.db.ticks swap.tx_id
                (verify_args swap.swap_type swap.log_index))) [
                  | inl (info, confirms) ↦ inr (bridge, info, at, confirms)
                  | inr (x, fails) ↦ inl (ground (arith, at, fails))
                ]
      ]

  -- processPassBigValRouterSwap leaves every swap as it was, unless the swap is TxWithBigValue, was
  -- registered at least twelve hours and updated at least five minutes before the times that the clock
  -- gives first and next, where these times of the swap are not 0, and afterwards the bridge of its source
  -- chain confirms it.
  pub process_pass_big_val_router_swap-Due :
      (w : World) → ((process_pass_big_val_router_swap u swap w).1.db.swaps ≡ w.db.swaps) ⊎ Due w
  unfolding process_pass_big_val_router_swap now in_db Db.now find_router_swap_result find_result
  process_pass_big_val_router_swap-Due w =
      elim (Bool-cases (swap.status == Status.tx_with_big_value)) [
        | inr other ↦ inl (ground (arith, other))
        | inl big ↦
            elim (Bool-cases (
              ltb
                (get_sep_time_in_find (u.env.milli w.db.ticks / 1000) pass_big_value_time_required
                  * 1000)
                swap.init_time)) [
                  | inl young ↦ inl (ground (arith, big, young))
                  | inr aged ↦
                      elim (Bool-cases (
                        ltb
                          (get_sep_time_in_find (u.env.milli (suc w.db.ticks) / 1000)
                            min_time_interval_to_pass_big_value)
                          swap.timestamp)) [
                            | inl fresh ↦ inl (ground (arith, big, aged, fresh))
                            | inr rested ↦
                                let found =
                                  in_db
                                    (find_router_swap_result u.env swap.from_chain_id swap.tx_id
                                      swap.log_index)
                                    (now u (now u w).1).1 in
                                elim (verify_and_pass-swaps found.0 found.1) [
                                  | inl same ↦ inl (ground (arith, big, aged, rested, same))
                                  | inr (bridge, info, at, confirms) ↦ inr (
                                    bridge,
                                    info,
                                    ground (arith, big),
                                    ground (
                                      arith,
                                      aged,
                                      sep_time_lem (u.env.milli w.db.ticks / 1000)
                                          pass_big_value_time_required,
                                    ),
                                    ground (
                                      arith,
                                      rested,
                                      sep_time_lem (u.env.milli (suc w.db.ticks) / 1000)
                                          min_time_interval_to_pass_big_value,
                                    ),
                                    at,
                                    (found.1.db.ticks, omega arith, confirms),
                                  )
                                ]
                          ]
                ]
      ]

-- ===== src/Worker/Verify/Passes.antt =====
-- processRouterSwapVerify: which swaps may be paid out after it.
use check_tx_server.Common.{
  String, ◌≡◌, ◌≢◌, ◌⊎◌, inl, inr, refl, Bool-cases, ◌||◌, true, false, Option, none, some, arith,
  lookup, any, str_eq,
}
use check_tx_server.Exec.{Result, ok, err}
use check_tx_server.Exec.Inversion.{Result-cases}
use check_tx_server.Errors.{GoError, TokenError, token, error_text}
use check_tx_server.Tables.{MgoSwap}
use check_tx_server.Tokens.{SwapTxInfo}
use check_tx_server.Db
use check_tx_server.Db.{get_router_swap_key, update_result}
use check_tx_server.Swaps.Update.{update_router_swap_status-status}
use check_tx_server.Results.{update_router_swap_result_status}
use check_tx_server.Worker.{
  World, Setup, Bridge, in_db, tick, now, get_bridge_by_chain_id, is_blacked, is_chain_id_paused,
}
use check_tx_server.Worker.Verify.{
  set_status, verified, verified_ok, verified_missing, verify_on, verify_args,
  process_router_swap_verify, failure_status, add_verifying,
}
use check_tx_server.Status
use check_tx_server.Status.{SwapStatus}

-- Every swap that `v` holds with the status TxNotSwapped is one of `w`, as it is there.
abbrev pub NonePassed : World → World → Type 0
NonePassed w v =
    (k : String) (s : MgoSwap)
    → lookup k v.db.swaps ≡ some s
    → s.status ≡ Status.tx_not_swapped
    → lookup k w.db.swaps ≡ some s

failure_status-not_swapped : (e : GoError) → failure_status e ≢ Status.tx_not_swapped
unfolding failure_status
failure_status-not_swapped e h = ground arith

module _ (u : Setup) (swap : MgoSwap) where
  set_status-NonePassed :
      (status : SwapStatus) (memo : String) (w : World)
      → status ≢ Status.tx_not_swapped
      → NonePassed w (set_status u swap status memo w).1
  unfolding in_db now Db.now
  set_status-NonePassed status memo w h =
      update_router_swap_status-status u.env swap.from_chain_id swap.tx_id swap.log_index status _
        memo _ Status.tx_not_swapped h

  abbrev answer : Bridge → World → Result SwapTxInfo
  answer bridge w =
      bridge.verify_transaction w.db.ticks swap.tx_id (verify_args swap.swap_type swap.log_index)

  missing-NonePassed : (e : GoError) (w : World) → NonePassed w (verified_missing u swap e w).1
  unfolding verified_missing in_db now Db.now Db.now_milli update_router_swap_result_status
      update_result
  missing-NonePassed e w k s at_k passed = ground (
    arith,
    set_status-NonePassed Status.tx_verify_failed (error_text e) (in_db (Db.now_milli u.env) w).1
        (omega arith) k s,
  )

  verified-NonePassed : (e : GoError) (w : World) → NonePassed w (verified u swap (err e) w).1
  unfolding verified
  verified-NonePassed e w k s at_k passed = ground (
    arith,
    missing-NonePassed e w k s,
    set_status-NonePassed (failure_status e) (error_text e) w (failure_status-not_swapped e) k s,
  )

  ok-NonePassed :
      (info : SwapTxInfo) (w : World)
      → u.is_big_value_swap info ≡ true
      → NonePassed w (verified u swap (ok info) w).1
  unfolding verified verified_ok
  ok-NonePassed info w big k s at_k passed =
      ground
        (arith, set_status-NonePassed Status.tx_with_big_value "big swap value" w (omega arith) k s)

  -- What allows a swap to be paid out: its source chain confirmed it, and it is not blacklisted and
  -- not of a big value.
  abbrev pub Confirmed : World → Type 0
  Confirmed w =
      (bridge : Bridge) × (info : SwapTxInfo) × (get_bridge_by_chain_id u swap.from_chain_id
        ≡ some bridge)
      × (answer bridge w ≡ ok info)
      × (u.is_big_value_swap info ≡ false)
      × (is_blacked u swap ≡ false)

  verify_on-NonePassed :
      (bridge : Option Bridge) (w : World)
      → get_bridge_by_chain_id u swap.from_chain_id ≡ bridge
      → is_blacked u swap ≡ false
      → NonePassed w (verify_on u swap bridge w).1 ⊎ Confirmed w
  unfolding verify_on tick
  verify_on-NonePassed none w at unblacked = inl (λ k s e p. e)
  verify_on-NonePassed (some bridge) w at unblacked = elim (Result-cases (answer bridge w)) [
    | inr (e, is) ↦
        inl (λ k s at_k passed. verified-NonePassed e (tick w).1 k s (rw is at at_k) passed)
    | inl (info, is) ↦ elim (Bool-cases (u.is_big_value_swap info)) [
      | inr small ↦ inr (bridge, info, at, is, small, unblacked)
      | inl big ↦
          inl (λ k s at_k passed. ok-NonePassed info (tick w).1 big k s (rw is at at_k) passed)
    ]
  ]

  -- After the verification of a swap, whether it returns or fails, every swap that has the status
  -- TxNotSwapped, with which it is paid out, had it before, unless the bridge of the source chain
  -- confirmed the swap, and it is not blacklisted and not of a big value.
  pub process_router_swap_verify-passes :
      (w : World) → NonePassed w (process_router_swap_verify u swap w).1 ⊎ Confirmed w
  unfolding process_router_swap_verify
  process_router_swap_verify-passes w =
      elim (Bool-cases
        (is_chain_id_paused u swap.from_chain_id || is_chain_id_paused u swap.to_chain_id)) [
          | inl paused ↦ inl (λ k s e passed. ground arith)
          | inr running ↦ elim (Bool-cases (any (str_eq swap.key) w.cached_verifying_swaps)) [
            | inl already ↦ inl (λ k s e passed. ground arith)
            | inr first ↦ elim (Bool-cases (is_blacked u swap)) [
              | inl blacked ↦ inl (λ k s e passed. ground (
                arith,
                set_status-NonePassed Status.swap_in_blacklist
                    (error_text (token TokenError.swap_in_blacklist)) (add_verifying u swap.key w)
                    (omega arith) k s,
              ))
              | inr unblacked ↦
                  let run : process_router_swap_verify u swap w
                      ≡ verify_on u swap (get_bridge_by_chain_id u swap.from_chain_id)
                          (add_verifying u swap.key w) =
                    ground arith in
                  rw run (verify_on-NonePassed _ (add_verifying u swap.key w) refl unblacked)
            ]
          ]
        ]

-- ===== src/Worker/Verify.antt =====
-- worker/verify.go and reverifySwap of worker/swap.go: verifying a registered swap on its source chain.
-- The number of running verifications (curVerifyRoutines) only delays the job and is left out.
pub mod Reverify
pub mod Passes
use check_tx_server.Common.{
  ℕ, suc, ◌+◌, ◌*◌, String, ltb, leb, ◌==◌, Bool, true, false, not, ◌||◌, Option, none, some, List,
  [], ◌∷◌, length, any, str_eq, decimal, without, if◌then◌else◌,
}
use check_tx_server.Errors.{GoError, TokenError, token, errors_is, error_text}
use check_tx_server.Exec.{
  Result, ok, err, Exec, pure, fail, gets, modify, attempt, lift, ◌>>=◌, ◌>>◌,
}
use check_tx_server.Status
use check_tx_server.Status.{SwapStatus}
use check_tx_server.Tables.{MgoSwap}
use check_tx_server.Tokens.{SwapTxInfo, VerifyArgs, BuildTxArgs}
use check_tx_server.Db
use check_tx_server.Swaps.{pass_router_swap_verify, update_router_swap_status}
use check_tx_server.Results.{update_router_swap_result_status}
use check_tx_server.Worker.{
  World, Setup, Bridge, in_db, tick, now, get_bridge_by_chain_id, is_chain_id_paused, is_blacked,
}
use check_tx_server.Worker.Update.{add_initial_swap_result}

abbrev pub max_cached_verifying_swaps : ℕ
max_cached_verifying_swaps = 100

-- seconds
abbrev pub max_tx_not_found_time : ℕ
max_tx_not_found_time = 2 * 24 * 3600

-- Into the set of the swaps in verification: at its full size one member makes room.
abbrev pub add_verifying : Setup → String → World → World
add_verifying u key w = record w {
  cached_verifying_swaps =
      key
      ∷ (if leb max_cached_verifying_swaps (length w.cached_verifying_swaps)
          then u.evict w.db.ticks w.cached_verifying_swaps
          else w.cached_verifying_swaps);
}

abbrev pub remove_verifying : String → World → World
remove_verifying key w = record w { cached_verifying_swaps = without key w.cached_verifying_swaps }

-- The status that an error of the verification gives a swap, where the swap is given up
unfoldable pub failure_status : GoError → SwapStatus
failure_status e =
    if errors_is e TokenError.tx_with_wrong_value
    then Status.tx_with_wrong_value
    else if errors_is e TokenError.tx_with_wrong_path
    then Status.tx_with_wrong_path
    else if errors_is e TokenError.miss_token_config
    then Status.miss_token_config
    else if errors_is e TokenError.no_underlying_token
    then Status.no_underlying_token
    else Status.tx_verify_failed

abbrev pub verify_args : ℕ → ℕ → VerifyArgs
verify_args swap_type log_index = record {
  swap_type = swap_type;
  log_index = log_index;
  allow_unstable = false;
}

module _ (u : Setup) where
  module _ (swap : MgoSwap) where
    abbrev pub set_status : SwapStatus → String → Exec World (Unit {0})
    set_status status memo = do
      timestamp ← now u
      in_db (
          update_router_swap_status u.env swap.from_chain_id swap.tx_id swap.log_index status
            timestamp memo)

    -- The swap is real: `dbErr` is only logged.
    verified_ok : SwapTxInfo → Exec World (Unit {0})
    verified_ok info =
        if u.is_big_value_swap info
        then (attempt (set_status Status.tx_with_big_value "big swap value") >> pure tt)
        else (attempt (do
          timestamp ← now u
          in_db
              (pass_router_swap_verify u.env swap.from_chain_id swap.tx_id swap.log_index timestamp)
          add_initial_swap_result u info Status.match_tx_empty)
            >> pure tt)

    verified_missing : GoError → Exec World (Unit {0})
    verified_missing e = do
      now_milli ← in_db (Db.now_milli u.env)
      if ltb (swap.init_time + 1000 * max_tx_not_found_time) now_milli
          then (do
            attempt (set_status Status.tx_verify_failed (error_text e))
            timestamp ← now u
            attempt (
                in_db (
                  update_router_swap_result_status u.env swap.from_chain_id swap.tx_id
                    swap.log_index Status.tx_verify_failed timestamp (error_text e)))
            fail e)
          else (do modify (remove_verifying swap.key); fail e)

    verified : Result SwapTxInfo → Exec World (Unit {0})
    unfolding verified_ok verified_missing failure_status
    verified (ok info) = verified_ok info
    verified (err e) =
        if errors_is e TokenError.tx_not_stable || errors_is e TokenError.rpc_query_error
        then (do modify (remove_verifying swap.key); fail e)
        else if errors_is e TokenError.tx_not_found || errors_is e TokenError.not_found
        then verified_missing e
        else (do attempt (set_status (failure_status e) (error_text e)); fail e)

    verify_on : Option Bridge → Exec World (Unit {0})
    unfolding verified
    verify_on none = fail (token TokenError.no_bridge_for_chain_id)
    verify_on (some bridge) = do
      n ← tick
      verified (bridge.verify_transaction n swap.tx_id (verify_args swap.swap_type swap.log_index))

    unfoldable pub process_router_swap_verify : Exec World (Unit {0})
    unfolding verify_on
    process_router_swap_verify =
        if is_chain_id_paused u swap.from_chain_id || is_chain_id_paused u swap.to_chain_id
        then pure tt
        else (do
          verifying ← gets (λ w. w.cached_verifying_swaps)
          if any (str_eq swap.key) verifying then pure tt else (do
            modify (add_verifying u swap.key)
            if is_blacked u swap
                then (do
                  attempt (
                      set_status Status.swap_in_blacklist
                        (error_text (token TokenError.swap_in_blacklist)))
                  fail (token TokenError.swap_in_blacklist))
                else verify_on (get_bridge_by_chain_id u swap.from_chain_id)))

  -- What reverifySwap does with the answer of the source chain
  reverified : BuildTxArgs → Result SwapTxInfo → Exec World (Unit {0})
  reverified args (ok info) = pure tt
  reverified args (err e) =
      if errors_is e TokenError.tx_not_stable || errors_is e TokenError.rpc_query_error
      then pure tt
      else (do
        let chain = decimal args.from_chain_id
        timestamp ← now u
        attempt (
            in_db (
              update_router_swap_status u.env chain args.swap_id args.log_index Status.tx_not_stable
                timestamp ""))
        timestamp' ← now u
        attempt (
            in_db (
              update_router_swap_result_status u.env chain args.swap_id args.log_index
                Status.tx_not_stable timestamp' (error_text e)))
        pure tt)

  reverify_on : BuildTxArgs → Option Bridge → Exec World (Unit {0})
  unfolding reverified
  reverify_on args none = pure tt
  reverify_on args (some bridge) = do
    n ← tick
    reverified args
        (bridge.verify_transaction n args.swap_id (verify_args args.swap_type args.log_index))

  unfoldable pub reverify_swap : BuildTxArgs → Exec World (Unit {0})
  unfolding reverify_on
  reverify_swap args = reverify_on args (get_bridge_by_chain_id u (decimal args.from_chain_id))

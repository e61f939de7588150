-- ===== src/Worker/BigValue.antt =====
-- worker/passbigvalue.go: passing a swap of a big value once it is old enough.
pub mod Passes
use check_tx_server.Common.{ℕ, ◌*◌, ltb, ◌==◌, not, if◌then◌else◌}
use check_tx_server.Exec.{Result, ok, err, Exec, pure, attempt, lift, ◌>>=◌, ◌>>◌}
use check_tx_server.Status
use check_tx_server.Tables.{MgoSwap, MgoSwapResult}
use check_tx_server.Db.{find_router_swap_result}
use check_tx_server.Admin.{router_admin_pass_big_value}
use check_tx_server.Worker.{
  World, Setup, in_db, tick, now, get_sep_time_in_find, get_bridge_by_chain_id, bridge_or_error,
}
use check_tx_server.Worker.Update.{add_initial_swap_result}
use check_tx_server.Worker.Verify.{verify_args}

-- seconds
abbrev pub min_time_interval_to_pass_big_value : ℕ
min_time_interval_to_pass_big_value = 300

abbrev pub pass_big_value_time_required : ℕ
pass_big_value_time_required = 12 * 3600

module _ (u : Setup) where
  verify_and_pass : MgoSwap → Result MgoSwapResult → Exec World (Unit {0})
  verify_and_pass swap (ok result) = pure tt
  verify_and_pass swap (err e) = do
    bridge ← lift (bridge_or_error (get_bridge_by_chain_id u swap.from_chain_id))
    n ← tick
    info ← lift (bridge.verify_transaction n swap.tx_id (verify_args swap.swap_type swap.log_index))
    in_db (router_admin_pass_big_value u swap.from_chain_id swap.tx_id swap.log_index)
    attempt (add_initial_swap_result u info Status.match_tx_empty)
    pure tt

  unfoldable pub process_pass_big_val_router_swap : MgoSwap → Exec World (Unit {0})
  unfolding verify_and_pass
  process_pass_big_val_router_swap swap =
      if not (swap.status == Status.tx_with_big_value) then pure tt else (do
        time ← now u
        if ltb (get_sep_time_in_find time pass_big_value_time_required * 1000) swap.init_time
            then pure tt
            else (do
              time' ← now u
              if ltb (get_sep_time_in_find time' min_time_interval_to_pass_big_value) swap.timestamp
                  then pure tt
                  else (do
                    result_or ← attempt (
                        in_db (
                          find_router_swap_result u.env swap.from_chain_id swap.tx_id
                            swap.log_index))
                    verify_and_pass swap result_or)))

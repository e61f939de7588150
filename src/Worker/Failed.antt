-- ===== src/Worker/Failed.antt =====
-- worker/checkfailedswap.go: looking again at a result that was given up.
pub mod Revives
use check_tx_server.Common.{
  ℕ, String, ltb, leb, ◌==◌, not, ◌&&◌, ◌||◌, Option, none, some, str_eq, equal_fold, if◌then◌else◌,
}
use check_tx_server.Errors.{TokenError, token, wrapped}
use check_tx_server.Exec.{Result, ok, err, Exec, pure, fail, ◌>>=◌}
use check_tx_server.Tables.{MgoSwapResult, get_token_id}
use check_tx_server.Tokens.{TxStatus, is_swap_tx_on_chain_and_failed}
use check_tx_server.Worker.{World, Setup, Bridge, NonceSetter, tick, get_bridge_by_chain_id}
use check_tx_server.Worker.Update.{mark_swap_result_stable, mark_swap_result_unstable}
use check_tx_server.Worker.Stable.{get_swap_tx_status}

module _ (u : Setup) where
  nonce_checked : MgoSwapResult → Result ℕ → Exec World (Unit {0})
  nonce_checked swap (err e) = fail (wrapped "get router mpc nonce failed, " e)
  nonce_checked swap (ok nonce) =
      if leb nonce swap.swap_nonce
      then mark_swap_result_unstable u swap.from_chain_id swap.tx_id swap.log_index
      else pure tt

  by_nonce : NonceSetter → MgoSwapResult → Exec World (Unit {0})
  unfolding nonce_checked
  by_nonce setter swap = do n ← tick; nonce_checked swap (setter.get_pool_nonce n swap.mpc "latest")

  located_on : Bridge → NonceSetter → Option TxStatus × MgoSwapResult → Exec World (Unit {0})
  unfolding by_nonce
  located_on bridge setter (none, swap) = by_nonce setter swap
  located_on bridge setter (some s, swap) =
      if is_swap_tx_on_chain_and_failed (some s)
      then pure tt
      else if ltb 0 s.block_height
      then (if ltb s.confirmations bridge.confirmations
          then mark_swap_result_unstable u swap.from_chain_id swap.tx_id swap.log_index
          else mark_swap_result_stable u swap.from_chain_id swap.tx_id swap.log_index)
      else by_nonce setter swap

  by_sender : Bridge → NonceSetter → MgoSwapResult → Result String → Exec World (Unit {0})
  unfolding located_on
  by_sender bridge setter swap (err e) = pure tt
  by_sender bridge setter swap (ok router_mpc) =
      if not (equal_fold swap.mpc router_mpc)
      then fail (token TokenError.sender_mismatch)
      else (do found ← get_swap_tx_status bridge swap; located_on bridge setter found)

  on_setter : Bridge → MgoSwapResult → Option NonceSetter → Exec World (Unit {0})
  unfolding by_sender
  on_setter bridge swap none = pure tt
  on_setter bridge swap (some setter) =
      by_sender bridge setter swap (u.router_mpc (get_token_id swap.swap_info) swap.to_chain_id)

  on_bridge : MgoSwapResult → Option Bridge → Exec World (Unit {0})
  unfolding on_setter
  on_bridge swap none = pure tt
  on_bridge swap (some bridge) = on_setter bridge swap bridge.nonce_setter

  unfoldable pub check_failed_router_swap : MgoSwapResult → Exec World (Unit {0})
  unfolding on_bridge
  check_failed_router_swap swap =
      if (swap.swap_nonce == 0 && swap.swap_height == 0) || str_eq swap.swap_tx ""
      then pure tt
      else on_bridge swap (get_bridge_by_chain_id u swap.to_chain_id)

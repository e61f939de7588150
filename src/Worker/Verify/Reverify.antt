-- ===== src/Worker/Verify/Reverify.antt =====
-- reverifySwap of worker/swap.go: what is left of a swap whose signing was refused.
use check_tx_server.Common.{◌≡◌, refl, Option, none, some, arith}
use check_tx_server.Exec.{Result, ok, err}
use check_tx_server.Tokens.{BuildTxArgs, SwapTxInfo}
use check_tx_server.Db.{Db, Env, update_result}
use check_tx_server.Db
use check_tx_server.Swaps.{update_router_swap_status}
use check_tx_server.Results.{update_router_swap_result_status}
use check_tx_server.Worker.{World, Setup, Bridge, in_db, tick, now}
use check_tx_server.Worker.Verify.{reverified, reverify_on, reverify_swap}

module _ (u : Setup) (args : BuildTxArgs) where
  reverified-swaps :
      (answer : Result SwapTxInfo) (w : World)
      → (reverified u args answer w).1.db.swaps ≡ w.db.swaps
  unfolding reverified in_db now Db.now update_router_swap_status update_router_swap_result_status
      update_result
  reverified-swaps (ok info) w = refl
  reverified-swaps (err e) w = ground arith

  reverify_on-swaps :
      (bridge : Option Bridge) (w : World) → (reverify_on u args bridge w).1.db.swaps ≡ w.db.swaps
  unfolding reverify_on tick
  reverify_on-swaps none w = refl
  reverify_on-swaps (some bridge) w = reverified-swaps _ _

  -- Verifying a swap again leaves every registered swap as it was: the status TxNotStable that it
  -- means to give the swap is always refused.
  pub reverify_swap-swaps : (w : World) → (reverify_swap u args w).1.db.swaps ≡ w.db.swaps
  unfolding reverify_swap
  reverify_swap-swaps w = reverify_on-swaps _ w

-- ===== src/Results/Updates.antt =====
-- What the updates of a result keep: UpdateRouterSwapResult and UpdateRouterOldSwapTxs.
use check_tx_server.Common.{ℕ, String, Bool, not, ◌==◌, ◌||◌}
use check_tx_server.Status
use check_tx_server.Tables.{SwapResultUpdateItems}
use check_tx_server.Db.{Db, Env, get_router_swap_key}

module _ (env : Env) (c t : String) (i : ℕ) (items : SwapResultUpdateItems) (db : Db) where
  abbrev key : String
  key = get_router_swap_key c t i

  abbrev checked : Bool
  checked = not (items.swap_nonce == 0) || items.status == Status.match_tx_not_stable

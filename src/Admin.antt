-- ===== src/Admin.antt =====
-- mongodb/api.go: what an administrator may do with a swap (RouterAdminPassBigValue,
-- RouterAdminReswap).
pub mod BigValue
pub mod Reswap
use check_tx_server.Common.{
  ℕ, suc, String, leb, ltb, Bool, true, false, not, ◌&&◌, Option, none, some, List, [], ◌∷◌, concat,
  str_eq, ◌==◌, if◌then◌else◌,
}
use check_tx_server.Errors.{GoError, TokenError, token, plain}
use check_tx_server.Exec.{Result, ok, err, Exec, pure, fail, attempt, lift, ◌>>=◌, ◌>>◌}
use check_tx_server.Status
use check_tx_server.Status.{status_string}
use check_tx_server.Tables.{MgoSwap, MgoSwapResult}
use check_tx_server.Tokens.{TxStatus, is_swap_tx_on_chain_and_failed}
use check_tx_server.Db.{Db, find_router_swap, find_router_swap_result}
use check_tx_server.Db
use check_tx_server.Swaps.{update_router_swap_status}
use check_tx_server.Results.{update_router_swap_result_status}
use check_tx_server.Worker.{World, Setup, Bridge, NonceSetter, in_db, tick, get_bridge_by_chain_id}

refuse_result : Result MgoSwapResult → Exec Db (Unit {0})
refuse_result (ok result) = fail (plain "can not pass big value swap with result exist")
refuse_result (err e) = pure tt

-- txStatus != nil && txStatus.BlockHeight > 0 && !txStatus.IsSwapTxOnChainAndFailed()
abbrev pub succeeded : Option TxStatus → Bool
succeeded none = false
succeeded (some s) = ltb 0 s.block_height && not (is_swap_tx_on_chain_and_failed (some s))

unfoldable pub bridge_or : Option Bridge → Result Bridge
bridge_or none = err (token TokenError.no_bridge_for_chain_id)
bridge_or (some b) = ok b

-- The answer of GetTransactionStatus counts where there is no error.
answered :
    Option TxStatus × Option GoError
    → Exec World (Option TxStatus × String)
    → String
    → Exec World (Option TxStatus × String)
answered (status, none) next tx = pure (status, tx)
answered (status, some e) next tx = next

module _ (bridge : Bridge) where
  -- The loop over OldSwapTxs of getSwapResultsTxStatus
  old_status : List String → Exec World (Option TxStatus × String)
  unfolding answered
  old_status [] = pure (none, "")
  old_status (tx ∷ txs) = do
    let next = old_status txs
    n ← tick
    answered (bridge.get_transaction_status n tx) next tx

  unfoldable pub get_swap_results_tx_status : MgoSwapResult → Exec World (Option TxStatus × String)
  unfolding old_status answered
  get_swap_results_tx_status res = do
    n ← tick
    answered (bridge.get_transaction_status n res.swap_tx) (old_status res.old_swap_txs) res.swap_tx

check_pool_nonce : Option NonceSetter → MgoSwapResult → Exec World (Unit {0})
check_pool_nonce none res = pure tt
check_pool_nonce (some setter) res = do
  n ← tick
  nonce ← lift (setter.get_pool_nonce n res.mpc "latest")
  if leb nonce res.swap_nonce then fail (plain "can not retry swap with lower nonce") else pure tt

module _ (u : Setup) (from_chain_id tx_id : String) (log_index : ℕ) where
  abbrev set_swap_status : Exec Db (Unit {0})
  set_swap_status = do
    timestamp ← Db.now u.env
    update_router_swap_status u.env from_chain_id tx_id log_index Status.tx_not_swapped timestamp ""

  abbrev set_result_status : Status.SwapStatus → Exec Db (Unit {0})
  set_result_status status = do
    timestamp ← Db.now u.env
    update_router_swap_result_status u.env from_chain_id tx_id log_index status timestamp ""

  unfoldable pub router_admin_pass_big_value : Exec Db (Unit {0})
  unfolding refuse_result
  router_admin_pass_big_value = do
    swap ← find_router_swap u.env from_chain_id tx_id log_index
    if not (swap.status == Status.tx_with_big_value)
        then fail (
            plain (
              concat (
                "swap status is "
                ∷ status_string swap.status
                ∷ ", not big value status "
                ∷ status_string Status.tx_with_big_value
                ∷ [])))
        else pure tt
    result_or ← attempt (find_router_swap_result u.env from_chain_id tx_id log_index)
    refuse_result result_or
    set_swap_status

  -- RouterAdminReswap up to the bridge
  unfoldable pub allowed : Exec Db (MgoSwapResult × Bridge)
  allowed = do
    swap ← find_router_swap u.env from_chain_id tx_id log_index
    if not (swap.status == Status.tx_processed)
        then fail (
            plain
              (concat ("swap status is " ∷ status_string swap.status ∷ ", can not reswap" ∷ [])))
        else pure tt
    res ← find_router_swap_result u.env from_chain_id tx_id log_index
    if not (res.status == Status.match_tx_failed)
        then fail (
            plain (
              concat
                ("swap result status is " ∷ status_string res.status ∷ ", can not reswap" ∷ [])))
        else if str_eq res.swap_tx ""
        then fail (plain "swap without swaptx")
        else pure tt
    bridge ← lift (bridge_or (get_bridge_by_chain_id u swap.to_chain_id))
    pure (res, bridge)

  -- The result first, then the swap: both are to be paid out again.
  reset : Exec Db (Unit {0})
  reset = do set_result_status Status.reswapping; set_swap_status

  checked_and_reset : MgoSwapResult × Bridge → Exec World (Unit {0})
  checked_and_reset (res, bridge) = do
    (status, tx_hash) ← get_swap_results_tx_status bridge res
    if succeeded status
        then (do
          attempt (in_db (set_result_status Status.match_tx_not_stable))
          fail (plain (concat ("swap succeed with swaptx " ∷ tx_hash ∷ []))))
        else (do check_pool_nonce bridge.nonce_setter res; in_db reset)

  unfoldable pub router_admin_reswap : Exec World (Unit {0})
  unfolding check_pool_nonce reset checked_and_reset
  router_admin_reswap = do found ← in_db allowed; checked_and_reset found

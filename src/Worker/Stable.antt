-- ===== src/Worker/Stable.antt =====
-- worker/stable.go and checkIfSwapNonceHasPassed of worker/replace.go: following a transaction that
-- was sent until it is stable, has failed, or can no longer come.
pub mod Search
pub mod Settles
pub mod Passed
pub mod Open
use check_tx_server.Common.{
  ℕ, String, ltb, ◌==◌, Bool, true, false, not, ◌&&◌, Option, none, some, List, [], ◌∷◌, str_eq,
  lookup, concat, decimal, if◌then◌else◌,
}
use check_tx_server.Errors.{GoError, TokenError, token, plain, wrapped}
use check_tx_server.Exec.{Result, ok, err, Exec, pure, fail, attempt, lift, ◌>>=◌, ◌>>◌}
use check_tx_server.Status
use check_tx_server.Tables.{MgoSwapResult}
use check_tx_server.Tokens.{TxStatus, Receipt, is_swap_tx_on_chain_and_failed}
use check_tx_server.Db.{find_router_swap_result}
use check_tx_server.Worker.{
  World, Setup, Bridge, NonceSetter, in_db, tick, now, get_sep_time_in_find, get_bridge_by_chain_id,
  bridge_or_error,
}
use check_tx_server.Worker.Update.{
  empty_match, update_router_swap_result_of, update_swap_tx, mark_swap_result_stable,
  mark_swap_result_failed,
}

-- seconds
abbrev pub treat_as_nonce_passed_interval : ℕ
treat_as_nonce_passed_interval = 600

abbrev with_receipt : Receipt → Bool
with_receipt Receipt.absent = false
with_receipt _ = true

-- isTxOnChain
abbrev pub is_tx_on_chain : Option TxStatus → Bool
is_tx_on_chain none = false
is_tx_on_chain (some s) = not (s.block_height == 0) && with_receipt s.receipt

-- txStatus != nil && txStatus.BlockHeight > 0
abbrev pub has_height : Option TxStatus → Bool
has_height none = false
has_height (some s) = ltb 0 s.block_height

-- err == nil && isTxOnChain(txStatus)
abbrev pub answers : Option TxStatus × Option GoError → Bool
answers (status, none) = is_tx_on_chain status
answers (status, some e) = false

module _ (bridge : Bridge) where
  abbrev pub Located : Type 0
  Located = Option TxStatus × MgoSwapResult

  -- The loop over OldSwapTxs; `first` is what the latest transaction's query answered.
  search_old : MgoSwapResult → Option TxStatus → List String → Exec World Located
  search_old swap first [] = pure (first, swap)
  search_old swap first (old ∷ olds) = do
    let rest = search_old swap first olds
    if str_eq swap.swap_tx old then rest else (do
      n ← tick
      let answer = bridge.get_transaction_status n old
      if answers answer then pure (answer.0, record swap { swap_tx = old }) else rest)

  -- getSwapTxStatus, with the result whose SwapTx it may replace
  unfoldable pub get_swap_tx_status : MgoSwapResult → Exec World Located
  unfolding search_old
  get_swap_tx_status swap = do
    n ← tick
    let answer = bridge.get_transaction_status n swap.swap_tx
    if answers answer then pure (answer.0, swap) else search_old swap answer.0 swap.old_swap_txs

interval_of : Option ℕ → ℕ
interval_of none = treat_as_nonce_passed_interval
interval_of (some n) = if n == 0 then treat_as_nonce_passed_interval else n

sent_error : Bool → Exec World (Unit {0})
sent_error is_replace = if is_replace then fail (plain "swaptx exist in chain") else pure tt

module _ (u : Setup) where
  -- The result is given up, unless it is being swapped again.
  mark_passed : MgoSwapResult → Exec World (Unit {0})
  mark_passed res = do
    old_res ← in_db (find_router_swap_result u.env res.from_chain_id res.tx_id res.log_index)
    if old_res.status == Status.reswapping
        then fail (plain "forbid mark reswaping result to failed status")
        else (attempt (mark_swap_result_failed u res.from_chain_id res.tx_id res.log_index)
            >> pure tt)

  nonce_error : Bool → ℕ → ℕ → Exec World (Unit {0})
  nonce_error is_replace swap_nonce nonce =
      if is_replace
      then fail (
          plain (
            concat (
              "swap nonce ("
              ∷ decimal swap_nonce
              ∷ ") is lower than latest nonce ("
              ∷ decimal nonce
              ∷ ")"
              ∷ [])))
      else pure tt

  -- The interval has passed: the status is asked for once more, where the first query gave none.
  passed_interval : Bridge → MgoSwapResult → Bool → ℕ → Option TxStatus → Exec World (Unit {0})
  unfolding mark_passed nonce_error sent_error
  passed_interval bridge res is_replace nonce (some s) = do
    mark_passed res
    nonce_error is_replace res.swap_nonce nonce
  passed_interval bridge res is_replace nonce none = do
    (status, res') ← get_swap_tx_status bridge res
    if has_height status
        then sent_error is_replace
        else (do mark_passed res'; nonce_error is_replace res'.swap_nonce nonce)

  passed_by : Bridge → MgoSwapResult → Bool → NonceSetter → Exec World (Unit {0})
  unfolding passed_interval interval_of
  passed_by bridge res is_replace setter = do
    n ← tick
    nonce ← lift (elim (setter.get_pool_nonce n res.mpc "latest") [
      | ok nonce ↦ ok nonce
      | err e ↦ err (wrapped "get router mpc nonce failed, " e)
    ])
    (status, res') ← get_swap_tx_status bridge res
    if has_height status
        then sent_error is_replace
        else if ltb res'.swap_nonce nonce && ltb 0 res'.swap_nonce
        then (do
          time ← now u
          let interval = interval_of (lookup res'.from_chain_id u.nonce_passed_intervals)
          if ltb res'.timestamp (get_sep_time_in_find time interval)
              then passed_interval bridge res' is_replace nonce status
              else nonce_error is_replace res'.swap_nonce nonce)
        else pure tt

  passed_by_setter : Bridge → MgoSwapResult → Bool → Option NonceSetter → Exec World (Unit {0})
  unfolding passed_by
  passed_by_setter bridge res is_replace none = pure tt
  passed_by_setter bridge res is_replace (some setter) = passed_by bridge res is_replace setter

  unfoldable pub check_if_swap_nonce_has_passed :
      Bridge → MgoSwapResult → Bool → Exec World (Unit {0})
  unfolding passed_by_setter
  check_if_swap_nonce_has_passed bridge res is_replace =
      passed_by_setter bridge res is_replace bridge.nonce_setter

  -- `swap` is the result, with the transaction that was found, and `old_swap_tx` the one it held.
  module _ (swap : MgoSwapResult) (old_swap_tx : String) where
    abbrev moved : Bool
    moved = not (str_eq swap.swap_tx old_swap_tx)

    confirmed_deep : TxStatus → Exec World (Unit {0})
    confirmed_deep s = do
      if moved
          then (attempt (update_swap_tx u swap.from_chain_id swap.tx_id swap.log_index swap.swap_tx)
              >> pure tt)
          else pure tt
      if is_swap_tx_on_chain_and_failed (some s)
          then mark_swap_result_failed u swap.from_chain_id swap.tx_id swap.log_index
          else mark_swap_result_stable u swap.from_chain_id swap.tx_id swap.log_index

    first_seen : TxStatus → Exec World (Unit {0})
    first_seen s =
        update_router_swap_result_of u swap.from_chain_id swap.tx_id swap.log_index
          (record empty_match {
            swap_height = s.block_height;
            swap_time = s.block_time;
            swap_tx = if moved then swap.swap_tx else "";
          })

  unseen : Bridge → MgoSwapResult → Exec World (Unit {0})
  unseen bridge swap =
      if not (swap.swap_height == 0)
      then pure tt
      else check_if_swap_nonce_has_passed bridge swap false

  followed : Bridge → String → Option TxStatus × MgoSwapResult → Exec World (Unit {0})
  unfolding unseen first_seen confirmed_deep
  followed bridge old_swap_tx (none, swap) = unseen bridge swap
  followed bridge old_swap_tx (some s, swap) =
      if s.block_height == 0
      then unseen bridge swap
      else if not (swap.swap_height == 0)
      then (if ltb s.confirmations bridge.confirmations
          then pure tt
          else confirmed_deep swap old_swap_tx s)
      else first_seen swap old_swap_tx s

  unfoldable pub process_router_swap_stable : MgoSwapResult → Exec World (Unit {0})
  unfolding followed bridge_or_error
  process_router_swap_stable swap = do
    bridge ← lift (bridge_or_error (get_bridge_by_chain_id u swap.to_chain_id))
    located ← get_swap_tx_status bridge swap
    followed bridge swap.swap_tx located

-- ===== src/Results.antt =====
-- mongodb/api.go: what keeps the result of a verified swap.
pub mod Nonce
pub mod Updates
pub mod Calls
pub mod Steps
pub mod Run
use check_tx_server.Common.{
  ℕ, ◌+◌, ◌^◌, ◌%◌, String, ◌==◌, Bool, not, ◌&&◌, ◌||◌, Option, none, some, [], ◌∷◌, ◌++◌, List,
  str_eq, equal_fold, any, decimal, if◌then◌else◌,
}
use check_tx_server.Errors.{plain, mgo, forbid_update_nonce, forbid_update_swap_tx}
use check_tx_server.Exec.{Exec, pure, fail, attempt, lift, ◌>>=◌, ◌>>◌}
use check_tx_server.Status
use check_tx_server.Status.{SwapStatus}
use check_tx_server.Tables.{MgoSwapResult, SwapResultUpdateItems}
use check_tx_server.Tokens.{BuildTxArgs}
use check_tx_server.Db.{
  Db, Env, get_router_swap_key, mgo_error, now_milli, now, insert_result, update_swap,
  update_result, find_router_swap_result,
}

-- The fields that UpdateRouterSwapResultStatus sets
abbrev pub with_result_status : SwapStatus → ℕ → String → MgoSwapResult → MgoSwapResult
with_result_status status timestamp memo r =
    let kept = record r {
      status = status;
      timestamp = timestamp;
      memo = if not (str_eq memo "") then memo else r.memo;
    } in
    if status == Status.reswapping
    then record kept {
      memo = "";
      swap_tx = "";
      old_swap_txs = [];
      swap_height = 0;
      swap_time = 0;
      swap_nonce = 0;
    }
    else kept

-- The fields that UpdateRouterSwapResult sets
abbrev pub with_items : SwapResultUpdateItems → MgoSwapResult → MgoSwapResult
with_items items r = record r {
  timestamp = items.timestamp;
  status = if not (items.status == Status.keep_status) then items.status else r.status;
  mpc = if not (str_eq items.mpc "") then items.mpc else r.mpc;
  swap_tx = if not (str_eq items.swap_tx "") then items.swap_tx else r.swap_tx;
  swap_height = if not (items.swap_height == 0) then items.swap_height else r.swap_height;
  swap_time = if not (items.swap_time == 0) then items.swap_time else r.swap_time;
  swap_value = if not (str_eq items.swap_value "") then items.swap_value else r.swap_value;
  memo =
      if not (str_eq items.memo "")
      then items.memo
      else if items.status == Status.match_tx_not_stable
      then ""
      else r.memo;
  swap_nonce = if not (items.swap_nonce == 0) then items.swap_nonce else r.swap_nonce;
}

abbrev pub has_old_tx : String → List String → Bool
has_old_tx swap_tx txs = any (equal_fold swap_tx) txs

-- The fields that UpdateRouterOldSwapTxs sets, from the result that it read
abbrev pub with_old_swap_tx : MgoSwapResult → String → ℕ → MgoSwapResult → MgoSwapResult
with_old_swap_tx read swap_tx timestamp r = record r {
  swap_tx = swap_tx;
  timestamp = timestamp;
  old_swap_txs = elim read.old_swap_txs [
    | [] ↦ read.swap_tx ∷ swap_tx ∷ []
    | _ ∷ _ ↦ r.old_swap_txs ++ (swap_tx ∷ [])
  ];
}

abbrev pub some_or : Option ℕ → String → String
some_or none s = s
some_or (some n) s = decimal n

module _ (env : Env) where
  unfoldable pub add_router_swap_result : MgoSwapResult → Exec Db (Unit {0})
  add_router_swap_result mr = do
    let key = get_router_swap_key mr.from_chain_id mr.tx_id mr.log_index
    init_time ← now_milli env
    reply ← insert_result env (record mr { key = key; init_time = init_time })
    lift (mgo_error reply)

  unfoldable pub check_router_swap_result_update : String → String → ℕ → ℕ → Exec Db (Unit {0})
  check_router_swap_result_update from_chain_id tx_id log_index swap_nonce = do
    result ← find_router_swap_result env from_chain_id tx_id log_index
    if not (result.swap_nonce == 0)
        then fail (mgo forbid_update_nonce)
        else if not (str_eq result.swap_tx "")
        then fail (mgo forbid_update_swap_tx)
        else pure tt

  -- The nonce returned, and what `nonceptr` holds afterwards.
  unfoldable pub allocate_router_swap_nonce : BuildTxArgs → ℕ → Bool → Exec Db (ℕ × ℕ)
  unfolding check_router_swap_result_update
  allocate_router_swap_nonce args nonce is_recycle_nonce =
      let from_chain_id = decimal args.from_chain_id in
      let key = get_router_swap_key from_chain_id args.swap_id args.log_index in
      if is_recycle_nonce && nonce == 0 then fail (plain "swap nonce is alreay recycled") else (do
        check_router_swap_result_update from_chain_id args.swap_id args.log_index nonce
        now_time ← now env
        update_result env key (λ r. record r {
          mpc = args.from;
          status = Status.match_tx_not_stable;
          swap_nonce = nonce;
          timestamp = now_time;
          swap_value = some_or args.swap_value r.swap_value;
        })
        attempt (
            update_swap env key
              (λ s. record s { status = Status.tx_processed; timestamp = now_time }))
        pure (nonce, if is_recycle_nonce then 0 else (nonce + 1) % 2 ^ 64))

  unfoldable pub update_router_swap_result_status :
      String → String → ℕ → SwapStatus → ℕ → String → Exec Db (Unit {0})
  update_router_swap_result_status from_chain_id tx_id log_index status timestamp memo =
      update_result env (get_router_swap_key from_chain_id tx_id log_index)
        (with_result_status status timestamp memo)

  unfoldable pub update_router_old_swap_txs : String → String → ℕ → String → Exec Db (Unit {0})
  update_router_old_swap_txs from_chain_id tx_id log_index swap_tx =
      if str_eq swap_tx "" then pure tt else (do
        result ← find_router_swap_result env from_chain_id tx_id log_index
        if equal_fold swap_tx result.swap_tx || has_old_tx swap_tx result.old_swap_txs
            then pure tt
            else (do
              now_time ← now env
              update_result env (get_router_swap_key from_chain_id tx_id log_index)
                  (with_old_swap_tx result swap_tx now_time)))

  unfoldable pub update_router_swap_result :
      String → String → ℕ → SwapResultUpdateItems → Exec Db (Unit {0})
  unfolding check_router_swap_result_update
  update_router_swap_result from_chain_id tx_id log_index items = do
    if not (items.swap_nonce == 0) || items.status == Status.match_tx_not_stable
        then check_router_swap_result_update from_chain_id tx_id log_index items.swap_nonce
        else pure tt
    update_result env (get_router_swap_key from_chain_id tx_id log_index) (with_items items)

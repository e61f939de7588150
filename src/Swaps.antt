-- ===== src/Swaps.antt =====
-- mongodb/api.go: what registers a swap and moves its status.
pub mod Verify
pub mod Update
pub mod Register
use check_tx_server.Common.{
  ℕ, ◌+◌, ◌*◌, String, ◌==◌, ltb, Bool, true, false, not, Option, none, some, [], ◌∷◌, str_eq,
  concat, if◌then◌else◌,
}
use check_tx_server.Errors.{plain}
use check_tx_server.Exec.{Result, ok, err, Exec, pure, fail, attempt, lift, ◌>>=◌, ◌>>◌}
use check_tx_server.Status
use check_tx_server.Status.{SwapStatus, is_registered_ok, status_string}
use check_tx_server.Tables.{MgoSwap, MgoSwapResult, SwapInfo}
use check_tx_server.Mongo.{Reply, duplicate_key}
use check_tx_server.Db.{
  Db, Env, get_router_swap_key, mgo_error, now_milli, now, find_swap, find_result, insert_swap,
  update_swap, find_router_swap, find_router_swap_result,
}

-- The error of a call, put in other words
abbrev pub or_plain {ℓ} : {A : Type ℓ} → String → Result A → Result A
or_plain message (ok a) = ok a
or_plain message (err e) = err (plain message)

registered_by_result : MgoSwap → Result MgoSwapResult → MgoSwap × Bool
registered_by_result swap (ok result) = (swap, true)
registered_by_result swap (err e) = (swap, false)

refuse_if_found : Result MgoSwapResult → Exec Db (Unit {0})
refuse_if_found (ok result) = fail (plain "forbid update swap info if swap result exists")
refuse_if_found (err e) = pure tt

module _ (env : Env) where
  -- The last case of AddRouterSwap: `errt` is looked at, and the update's error is not.
  refresh_at : String → Result MgoSwap → Exec Db (Unit {0})
  refresh_at key (err e) = pure tt
  refresh_at key (ok swap) =
      if swap.status == Status.tx_not_swapped
      then (do
        now_time ← now env
        if ltb (swap.timestamp + 3 * 24 * 3600) now_time
            then (attempt (update_swap env key (λ s. record s { timestamp = now_time })) >> pure tt)
            else pure tt)
      else pure tt

  refresh : String → Reply (Unit {0}) → Exec Db (Unit {0})
  refresh key duplicate_key = do
    found_swap ← attempt (find_swap env (λ s. str_eq s.key key))
    refresh_at key found_swap
  refresh key _ = pure tt

  unfoldable pub add_router_swap : MgoSwap → Exec Db (Unit {0})
  unfolding refresh refresh_at
  add_router_swap ms = do
    let key = get_router_swap_key ms.from_chain_id ms.tx_id ms.log_index
    init_time ← now_milli env
    reply ← insert_swap env (record ms { key = key; init_time = init_time })
    refresh key reply
    lift (mgo_error reply)

  unfoldable pub pass_router_swap_verify : String → String → ℕ → ℕ → Exec Db (Unit {0})
  pass_router_swap_verify from_chain_id tx_id log_index timestamp = do
    swap_or ← attempt (find_router_swap env from_chain_id tx_id log_index)
    swap ← lift (or_plain "forbid pass verify as swap is not exist" swap_or)
    if not (swap.status == Status.tx_not_stable)
        then fail (
            plain (
              concat
                ("forbid pass verify as swap status is '" ∷ status_string swap.status ∷ "'" ∷ [])))
        else update_swap env (get_router_swap_key from_chain_id tx_id log_index)
            (λ s. record s { status = Status.tx_not_swapped; timestamp = timestamp })

  unfoldable pub update_router_swap_status :
      String → String → ℕ → SwapStatus → ℕ → String → Exec Db (Unit {0})
  update_router_swap_status from_chain_id tx_id log_index status timestamp memo =
      if status == Status.tx_not_stable
      then fail (plain "forbid update swap status to TxNotStable")
      else update_swap env (get_router_swap_key from_chain_id tx_id log_index) (λ s. record s {
        status = status;
        timestamp = timestamp;
        memo =
            if not (str_eq memo "")
            then memo
            else if status == Status.tx_not_swapped
            then ""
            else s.memo;
      })

  unfoldable pub update_router_swap_info_and_status :
      String → String → ℕ → SwapInfo → SwapStatus → ℕ → String → Exec Db (Unit {0})
  unfolding refuse_if_found
  update_router_swap_info_and_status from_chain_id tx_id log_index info status timestamp memo = do
    let key = get_router_swap_key from_chain_id tx_id log_index
    swap_or ← attempt (find_router_swap env from_chain_id tx_id log_index)
    swap ← lift (or_plain "forbid update swap info if swap is not exist" swap_or)
    if is_registered_ok swap.status
        then fail (
            plain (
              concat (
                "forbid update swap info from registered status "
                ∷ status_string swap.status
                ∷ [])))
        else pure tt
    result_or ← attempt (find_result env (λ r. str_eq r.key key))
    refuse_if_found result_or
    update_swap env key (λ s. record s {
      swap_info = info;
      status = status;
      timestamp = timestamp;
      init_time = timestamp * 1000;
      memo = memo;
    })

  registered : String → String → ℕ → Result MgoSwap → Exec Db (Option (MgoSwap × Bool))
  registered from_chain_id tx_id log_index (err e) = pure none
  registered from_chain_id tx_id log_index (ok swap) =
      if is_registered_ok swap.status then pure (some (swap, true)) else (do
        result_or ← attempt (find_router_swap_result env from_chain_id tx_id log_index)
        pure (some (registered_by_result swap result_or)))

  -- GetRegisteredRouterSwap: `none` is (nil, false)
  unfoldable pub get_registered_router_swap :
      String → String → ℕ → Exec Db (Option (MgoSwap × Bool))
  unfolding registered registered_by_result
  get_registered_router_swap from_chain_id tx_id log_index = do
    swap_or ← attempt (find_router_swap env from_chain_id tx_id log_index)
    registered from_chain_id tx_id log_index swap_or

-- ===== src/Worker/Replace.antt =====
-- worker/replace.go: sending a transaction again, under the same nonce.
pub mod Checks
use check_tx_server.Common.{
  ℕ, String, ltb, ◌==◌, Bool, true, false, not, ◌&&◌, ◌||◌, Option, none, some, ◌∷◌, length, str_eq,
  equal_fold, if◌then◌else◌,
}
use check_tx_server.Errors.{TokenError, token, plain, is_disagree}
use check_tx_server.Exec.{Result, ok, err, Exec, pure, fail, modify, attempt, lift, ◌>>=◌, ◌>>◌}
use check_tx_server.Status
use check_tx_server.Tables.{MgoSwap, MgoSwapResult, get_token_id}
use check_tx_server.Tokens.{BuildTxArgs}
use check_tx_server.Db.{find_router_swap}
use check_tx_server.Results.{update_router_old_swap_txs}
use check_tx_server.Tokens.Payload.{Info}
use check_tx_server.Converts.{convert_from_swap_info}
use check_tx_server.Worker.{
  World, Setup, Bridge, NonceSetter, in_db, tick, now, get_sep_time_in_find, get_bridge_by_chain_id,
  bridge_or_error,
}
use check_tx_server.Worker.Update.{update_swap_timestamp}
use check_tx_server.Worker.Send.{send_signed_transaction}
use check_tx_server.Worker.Verify.{reverify_swap}
use check_tx_server.Worker.Stable.{check_if_swap_nonce_has_passed}
use check_tx_server.Worker.Swap.{get_from_to_chain_id_and_value}

-- seconds
abbrev pub def_wait_time_to_replace : ℕ
def_wait_time_to_replace = 300

abbrev pub def_max_replace_count : ℕ
def_max_replace_count = 20

module _ (u : Setup) where
  -- The checks of the result alone
  unfoldable pub replaceable : MgoSwapResult → Bool → Exec World (Unit {0})
  replaceable res is_manual =
      if str_eq res.swap_tx "" && not u.parallel_swap
      then fail (plain "swap without swaptx")
      else if res.swap_nonce == 0 && not is_manual
      then fail (plain "swap nonce is zero")
      else if not (res.status == Status.match_tx_not_stable)
      then fail (plain "swap result status is not 'MatchTxNotStable'")
      else if not (res.swap_height == 0) && not is_manual
      then fail (plain "swaptx with block height")
      else pure tt

  unfoldable pub verify_replace_swap : MgoSwapResult → Bool → Exec World MgoSwap
  verify_replace_swap res is_manual = do
    swap ← in_db (find_router_swap u.env res.from_chain_id res.tx_id res.log_index)
    replaceable res is_manual
    bridge ← lift (bridge_or_error (get_bridge_by_chain_id u res.to_chain_id))
    check_if_swap_nonce_has_passed u bridge res true
    pure swap

  recycle_by : MgoSwapResult → Option NonceSetter → Exec World (Unit {0})
  recycle_by res none = pure tt
  recycle_by res (some setter) =
      if res.swap_nonce == 0 || str_eq res.mpc ""
      then pure tt
      else modify (λ w. record w {
        recycled =
            record { chain_id = res.to_chain_id; sender = res.mpc; nonce = res.swap_nonce }
            ∷ w.recycled;
      })

  recycle_on : MgoSwapResult → Option Bridge → Exec World (Unit {0})
  recycle_on res none = pure tt
  recycle_on res (some bridge) = recycle_by res bridge.nonce_setter

  recycle_verified : MgoSwapResult → Result MgoSwap → Exec World (Unit {0})
  recycle_verified res (err e) = pure tt
  recycle_verified res (ok swap) = recycle_on res (get_bridge_by_chain_id u res.to_chain_id)

  unfoldable pub check_and_recycle_swap_nonce : MgoSwapResult → Exec World (Unit {0})
  unfolding recycle_verified recycle_on recycle_by
  check_and_recycle_swap_nonce res =
      if not u.parallel_swap
      then pure tt
      else (do verified ← attempt (verify_replace_swap res false); recycle_verified res verified)

  -- The arguments of the new transaction
  abbrev pub replace_args : MgoSwapResult → MgoSwap → Info → Option ℕ → ℕ → ℕ → ℕ → BuildTxArgs
  replace_args res swap info gas_price from_chain_id to_chain_id value =
      let earlier = length res.old_swap_txs in
      record {
        swap_info = info;
        identifier = u.identifier;
        swap_id = res.tx_id;
        swap_type = res.swap_type;
        bind = res.bind;
        log_index = res.log_index;
        from_chain_id = from_chain_id;
        to_chain_id = to_chain_id;
        reswapping = false;
        from = res.mpc;
        to = "";
        origin_from = swap.from;
        origin_tx_to = swap.tx_to;
        origin_value = some value;
        swap_value = none;
        value = none;
        memo = "";
        input = none;
        extra = some (record {
          eth_extra = some (record {
            gas = none;
            gas_price = gas_price;
            gas_tip_cap = none;
            gas_fee_cap = none;
            nonce = some res.swap_nonce;
            deadline = 0;
          });
          replace_num = if earlier == 0 then 1 else earlier;
          sequence = some res.swap_nonce;
          fee = none;
        });
      }

  -- The second half of ReplaceRouterSwap
  unfoldable pub build_replacement :
      MgoSwapResult
      → MgoSwap
      → Option ℕ
      → Bridge
      → ℕ × ℕ × ℕ
      → Exec World (Bridge × String × BuildTxArgs)
  build_replacement res swap gas_price bridge (from_chain_id, to_chain_id, value) = do
    attempt (update_swap_timestamp u res.from_chain_id res.tx_id res.log_index)
    info ← lift (convert_from_swap_info swap.swap_info)
    (raw_tx, built) ← in_db (
        bridge.build_raw_transaction
          (replace_args res swap info gas_price from_chain_id to_chain_id value))
    pure (bridge, raw_tx, built)

  -- What ReplaceRouterSwap leaves for signAndSendReplaceTx, which goes on beside it
  unfoldable pub replace_router_swap :
      MgoSwapResult → Option ℕ → Bool → Exec World (Bridge × String × BuildTxArgs)
  replace_router_swap res gas_price is_manual = do
    swap ← verify_replace_swap res is_manual
    bridge ← lift (bridge_or_error (get_bridge_by_chain_id u res.to_chain_id))
    router_mpc ← lift (u.router_mpc (get_token_id swap.swap_info) res.to_chain_id)
    if not (equal_fold res.mpc router_mpc) then fail (token TokenError.sender_mismatch) else pure tt
    ids ← get_from_to_chain_id_and_value u res.from_chain_id res.to_chain_id res.value
    build_replacement res swap gas_price bridge ids

  replaced : MgoSwapResult → Bridge → BuildTxArgs → Result (String × String) → Exec World (Unit {0})
  replaced res bridge built (err e) =
      if is_disagree e then (do reverify_swap u built; pure tt) else pure tt
  replaced res bridge built (ok (signed_tx, tx_hash)) = do
    in_db (update_router_old_swap_txs u.env res.from_chain_id res.tx_id res.log_index tx_hash)
    sent ← send_signed_transaction u bridge signed_tx built
    if not (str_eq tx_hash sent)
        then (attempt (
              in_db
                (update_router_old_swap_txs u.env res.from_chain_id res.tx_id res.log_index sent))
            >> pure tt)
        else pure tt

  unfoldable pub sign_and_send_replace_tx :
      Bridge → String → BuildTxArgs → MgoSwapResult → Exec World (Unit {0})
  unfolding replaced
  sign_and_send_replace_tx bridge raw_tx built res = do
    n ← tick
    replaced res bridge built (bridge.mpc_sign_transaction n raw_tx built)

  abbrev or_default : ℕ → ℕ → ℕ
  or_default n default = if n == 0 then default else n

  -- res.SwapTx != "" && getSepTimeInFind(waitTimeToReplace) < res.Timestamp
  unfoldable pub still_waiting : MgoSwapResult → Exec World Bool
  still_waiting res = if str_eq res.swap_tx "" then pure false else (do
    time ← now u
    let before =
        get_sep_time_in_find time (or_default u.wait_time_to_replace def_wait_time_to_replace)
    pure (ltb before res.timestamp))

  unfoldable pub replace_unless :
      MgoSwapResult → Bool → Exec World (Option (Bridge × String × BuildTxArgs))
  replace_unless res true = pure none
  replace_unless res false = do built ← replace_router_swap res none false; pure (some built)

  abbrev pub too_often : MgoSwapResult → Bool
  too_often res =
      ltb (or_default u.max_replace_count def_max_replace_count) (length res.old_swap_txs)

  -- The transaction to be signed, where one is
  unfoldable pub process_router_swap_replace :
      MgoSwapResult → Exec World (Option (Bridge × String × BuildTxArgs))
  process_router_swap_replace res =
      if too_often res
      then (do check_and_recycle_swap_nonce res; pure none)
      else (do waits ← still_waiting res; replace_unless res waits)

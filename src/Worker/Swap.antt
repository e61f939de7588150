-- ===== src/Worker/Swap.antt =====
-- worker/swap.go: from a verified swap to the transaction that pays it out.
pub mod Quiet
pub mod Sends
pub mod Tasks
use check_tx_server.Common.{
  ℕ, suc, ◌+◌, String, ltb, leb, ◌==◌, Bool, true, false, not, ◌&&◌, ◌||◌, Option, none, some, List,
  [], ◌∷◌, ◌++◌, length, any, str_eq, decimal, concat, lookup, set_entry, if◌then◌else◌,
}
use check_tx_server.Errors.{
  GoError, TokenError, token, worker, already_swapped, swap_channel_is_full, plain, is_disagree,
  error_text,
}
use check_tx_server.Exec.{
  Result, ok, err, Exec, pure, fail, gets, modify, attempt, lift, ◌>>=◌, ◌>>◌,
}
use check_tx_server.Status
use check_tx_server.Tables.{MgoSwap, MgoSwapResult, get_token_id}
use check_tx_server.Tokens.{BuildTxArgs, is_valid_type, get_tx_nonce}
use check_tx_server.Db.{get_router_swap_key, find_router_swap_result}
use check_tx_server.Swaps.{update_router_swap_status}
use check_tx_server.Results.{update_router_old_swap_txs, some_or}
use check_tx_server.Tokens.Payload.{no_info}
use check_tx_server.Converts.{convert_from_swap_info}
use check_tx_server.Worker.{
  World, Setup, Bridge, in_db, tick, now, get_bridge_by_chain_id, bridge_or_error,
  is_chain_id_paused, is_blacked,
}
use check_tx_server.Worker.Update.{
  MatchTx, empty_match, update_router_swap_result_of, update_swap_tx,
}
use check_tx_server.Worker.Verify.{reverify_swap}
use check_tx_server.Worker.Send.{send_signed_transaction}
use check_tx_server.Worker.History.{
  get_swap_history, add_swap_history, check_and_update_process_swap_task_cache, remove_swap_task,
}

abbrev pub swap_chan_size : ℕ
swap_chan_size = 50

-- The result is neither fresh nor marked for another swap, or something was sent for it.
abbrev pub is_used : MgoSwapResult → Bool
is_used res =
    ltb 0 res.swap_nonce
    || not (res.status == Status.match_tx_empty || res.status == Status.reswapping)
    || not (str_eq res.swap_tx "")
    || not (res.swap_height == 0)
    || ltb 0 (length res.old_swap_txs)

abbrev or_error {ℓ} : {A : Type ℓ} → String → Option A → Result A
or_error message none = err (plain message)
or_error message (some a) = ok a

push_task : BuildTxArgs → Option (List BuildTxArgs) → Exec World (Unit {0})
push_task args none =
    fail (
      plain
        (concat ("no swapout task channel for chainID '" ∷ decimal args.to_chain_id ∷ "'" ∷ [])))
push_task args (some waiting) =
    if ltb (length waiting) swap_chan_size
    then modify (λ w. record w {
      swap_tasks = set_entry (decimal args.to_chain_id) (waiting ++ (args ∷ [])) w.swap_tasks;
    })
    else fail (worker swap_channel_is_full)

unfoldable pub dispatch_swap_task : BuildTxArgs → Exec World (Unit {0})
unfolding push_task
dispatch_swap_task args =
    if not (is_valid_type args.swap_type)
    then fail (plain (concat ("unknown router swap type " ∷ decimal args.swap_type ∷ [])))
    else (do
      tasks ← gets (λ w. w.swap_tasks)
      push_task args (lookup (decimal args.to_chain_id) tasks))

module _ (u : Setup) where
  mark_processed : MgoSwapResult → Exec World (Unit {0})
  mark_processed res = do
    timestamp ← now u
    attempt (
        in_db (
          update_router_swap_status u.env res.from_chain_id res.tx_id res.log_index
            Status.tx_processed timestamp ""))
    fail (worker already_swapped)

  process_non_empty_swap_result : MgoSwapResult → Exec World (Unit {0})
  unfolding mark_processed
  process_non_empty_swap_result res = if is_used res then mark_processed res else pure tt

  process_history : MgoSwapResult → Exec World (Unit {0})
  unfolding mark_processed
  process_history res =
      if (res.status == Status.match_tx_empty || res.status == Status.reswapping)
        && res.swap_nonce == 0
      then pure tt
      else (do
        ring ← gets (λ w. w.swap_ring)
        elim (get_swap_history res.from_chain_id res.tx_id res.log_index ring) [
          | none ↦ pure tt
          | some history ↦ mark_processed res
        ])

  unfoldable pub prevent_reswap : MgoSwapResult → Exec World (Unit {0})
  unfolding process_non_empty_swap_result process_history
  prevent_reswap res = do process_non_empty_swap_result res; process_history res

  -- The task for a verified swap that processRouterSwap dispatches
  abbrev task_of : MgoSwap → MgoSwapResult → ℕ → ℕ → ℕ → String → BuildTxArgs
  task_of swap res from_chain_id to_chain_id value router_mpc = record {
    swap_info = no_info;
    identifier = u.identifier;
    swap_id = swap.tx_id;
    swap_type = swap.swap_type;
    bind = swap.bind;
    log_index = swap.log_index;
    from_chain_id = from_chain_id;
    to_chain_id = to_chain_id;
    reswapping = res.status == Status.reswapping;
    from = router_mpc;
    to = "";
    origin_from = swap.from;
    origin_tx_to = swap.tx_to;
    origin_value = some value;
    swap_value = none;
    value = none;
    memo = "";
    input = none;
    extra = none;
  }

  unfoldable pub get_from_to_chain_id_and_value : String → String → String → Exec World (ℕ × ℕ × ℕ)
  get_from_to_chain_id_and_value from to amount = do
    from_chain_id ← lift (or_error (concat ("wrong fromChainID " ∷ from ∷ [])) (u.parse_big from))
    to_chain_id ← lift (or_error (concat ("wrong toChainID " ∷ to ∷ [])) (u.parse_big to))
    value ← lift (or_error (concat ("wrong value " ∷ amount ∷ [])) (u.parse_big amount))
    pure (from_chain_id, to_chain_id, value)

  process_unblacked : MgoSwap → Exec World (Unit {0})
  unfolding bridge_or_error
  process_unblacked swap = do
    res ← in_db (find_router_swap_result u.env swap.from_chain_id swap.tx_id swap.log_index)
    lift (bridge_or_error (get_bridge_by_chain_id u swap.to_chain_id))
    prevent_reswap res
    (from_chain_id, to_chain_id, value) ←
        get_from_to_chain_id_and_value swap.from_chain_id swap.to_chain_id res.value
    router_mpc ← lift (u.router_mpc (get_token_id swap.swap_info) swap.to_chain_id)
    info ← lift (convert_from_swap_info swap.swap_info)
    dispatch_swap_task
        (record (task_of swap res from_chain_id to_chain_id value router_mpc) { swap_info = info })

  unfoldable pub process_router_swap : MgoSwap → Exec World (Unit {0})
  unfolding process_unblacked
  process_router_swap swap =
      if is_chain_id_paused u swap.from_chain_id || is_chain_id_paused u swap.to_chain_id
      then pure tt
      else (do
        tasks ← gets (λ w. w.cached_swap_tasks)
        if any (str_eq (get_router_swap_key swap.from_chain_id swap.tx_id swap.log_index)) tasks
            then fail (worker already_swapped)
            else if is_blacked u swap
            then (do
              timestamp ← now u
              attempt (
                  in_db (
                    update_router_swap_status u.env swap.from_chain_id swap.tx_id swap.log_index
                      Status.swap_in_blacklist timestamp
                      (error_text (token TokenError.swap_in_blacklist))))
              pure tt)
            else process_unblacked swap)

  module _ (args : BuildTxArgs) where
    abbrev pub from_chain : String
    from_chain = decimal args.from_chain_id

    abbrev pub cache_key : String
    cache_key = get_router_swap_key from_chain args.swap_id args.log_index

    signed_or : Result (String × String) → Exec World (String × String)
    signed_or (ok signed) = pure signed
    signed_or (err e) = if is_disagree e then (do reverify_swap u args; fail e) else fail e

    unfoldable pub sign : Bridge → String → BuildTxArgs → Exec World (String × String)
    unfolding signed_or
    sign bridge raw_tx built = do n ← tick; signed_or (bridge.mpc_sign_transaction n raw_tx built)

    -- What doSwap sends, once it is in the database
    abbrev pub Prepared : Type 0
    Prepared = Bridge × BuildTxArgs × String × String

    abbrev pub matched : BuildTxArgs → String → MatchTx
    matched built tx_hash = record empty_match {
      swap_tx = tx_hash;
      swap_nonce = get_tx_nonce built;
      mpc = built.from;
      swap_value = some_or built.swap_value "";
    }

    unfoldable pub built_and_signed : Exec World Prepared
    unfolding bridge_or_error
    built_and_signed = do
      bridge ← lift (bridge_or_error (get_bridge_by_chain_id u (decimal args.to_chain_id)))
      (raw_tx, built) ← in_db (bridge.build_raw_transaction args)
      (signed_tx, tx_hash) ← sign bridge raw_tx built
      pure (bridge, built, signed_tx, tx_hash)

    -- The result is read again before the hash is noted in it.
    checked_and_noted : Prepared → Exec World Prepared
    checked_and_noted (bridge, built, signed_tx, tx_hash) = do
      res ← in_db (find_router_swap_result u.env from_chain args.swap_id args.log_index)
      prevent_reswap res
      add_swap_history from_chain args.swap_id args.log_index tx_hash
      update_router_swap_result_of u from_chain args.swap_id args.log_index (matched built tx_hash)
      pure (bridge, built, signed_tx, tx_hash)

    -- doSwap up to the update of the result: where this fails, the swap leaves the cache.
    unfoldable pub prepare : Exec World Prepared
    unfolding built_and_signed checked_and_noted
    prepare = do signed ← built_and_signed; checked_and_noted signed

    uncached : {A : Type 0} → Result A → Exec World A
    uncached (ok a) = pure a
    uncached (err e) = do modify (remove_swap_task cache_key); fail e

    -- A transaction that was sent under another hash than the signed one joins the old ones.
    unfoldable pub send_and_note : Bridge → BuildTxArgs → String → String → Exec World (Unit {0})
    send_and_note bridge built signed_tx tx_hash = do
      sent ← send_signed_transaction u bridge signed_tx built
      if not (str_eq tx_hash sent)
          then (attempt (
                in_db
                  (update_router_old_swap_txs u.env from_chain args.swap_id args.log_index sent))
              >> pure tt)
          else pure tt

    unfoldable pub do_swap_serial : Exec World (Unit {0})
    unfolding uncached
    do_swap_serial = do
      check_and_update_process_swap_task_cache u cache_key
      prepared ← attempt prepare
      (bridge, built, signed_tx, tx_hash) ← uncached prepared
      timestamp ← now u
      in_db (
          update_router_swap_status u.env from_chain args.swap_id args.log_index Status.tx_processed
            timestamp "")
      send_and_note bridge built signed_tx tx_hash

    built_or_uncached : Exec World (Bridge × String × BuildTxArgs)
    unfolding bridge_or_error
    built_or_uncached = do
      bridge ← lift (bridge_or_error (get_bridge_by_chain_id u (decimal args.to_chain_id)))
      (raw_tx, built) ← in_db (bridge.build_raw_transaction args)
      pure (bridge, raw_tx, built)

    -- What doSwapParallel leaves for signAndSendTx, which goes on beside it
    unfoldable pub do_swap_parallel : Exec World (Bridge × String × BuildTxArgs)
    unfolding built_or_uncached uncached
    do_swap_parallel = do
      check_and_update_process_swap_task_cache u cache_key
      built ← attempt built_or_uncached
      uncached built

    unfoldable pub sign_and_send_tx : Bridge → String → BuildTxArgs → Exec World (Unit {0})
    sign_and_send_tx bridge raw_tx built = do
      (signed_tx, tx_hash) ← sign bridge raw_tx built
      add_swap_history from_chain args.swap_id args.log_index tx_hash
      attempt (update_swap_tx u from_chain args.swap_id args.log_index tx_hash)
      send_and_note bridge built signed_tx tx_hash

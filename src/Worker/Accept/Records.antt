-- ===== src/Worker/Accept/Records.antt =====
-- worker/acceptdb.go: the database of the accepted swaps.
pub mod Clear
use Prim.Native.String.{◌++◌ as append}
use check_tx_server.Common.{
  ℕ, suc, ◌+◌, ◌-◌, String, ltb, leb, ◌==◌, Bool, true, false, not, ◌&&◌, ◌||◌, Option, none, some,
  List, [], ◌∷◌, length, any, str_eq, to_lower, equal_fold, decimal, concat, without, set_entry,
  if◌then◌else◌,
}
use mathlib.Core.Option
use check_tx_server.Errors.{
  GoError, TokenError, token, worker, already_swapped, identifier_mismatch, initiator_mismatch,
  wrong_msg_context, plain, panicked, is_panic, errors_is, is_worker_error,
  is_rpc_query_or_not_found_error, error_text,
}
use check_tx_server.Exec.{
  Result, ok, err, Exec, pure, fail, gets, modify, attempt, lift, ◌>>=◌, ◌>>◌,
}
use check_tx_server.Tokens.{
  SwapTxInfo, TxStatus, Receipt, with_status, VerifyArgs, BuildTxArgs, is_valid_type, get_tx_nonce,
}
use check_tx_server.Db.{Db}
use check_tx_server.Db
use check_tx_server.Worker.{
  Setup, Bridge, PooledTx, with_account_nonce, of_other_chain, get_bridge_by_chain_id,
}
use check_tx_server.Worker.Accept.{
  SignInfoData, Answer, Saving, Node, Acceptor, max_cached_accept_infos, tick, in_db, u, now,
}

-- seconds
abbrev pub allow_reswap_time_interval : ℕ
allow_reswap_time_interval = 1800

unfoldable pub get_swap_key_prefix : BuildTxArgs → String
unfolding to_lower decimal
get_swap_key_prefix args = to_lower (
    concat (
      args.swap_id
      ∷ ":"
      ∷ decimal args.log_index
      ∷ ":"
      ∷ decimal args.from_chain_id
      ∷ ":"
      ∷ decimal args.swap_type
      ∷ ":"
      ∷ []))

-- What stands behind the prefix, of a text that starts with it
unfoldable pub after : String → String → Option String
after String.[] s = some s
after (String.◌∷◌ c p) String.[] = none
after (String.◌∷◌ c p) (String.◌∷◌ d s) =
    let rest = after p s in if str_eq (String.◌∷◌ c "") (String.◌∷◌ d "") then rest else none

module _ (n : Node) where
  -- Whether a transaction that is on the chain ends the search: one that failed does not.
  pub settled : Receipt → Bool
  settled (with_status fine) = fine
  settled _ = true

  -- An old transaction that is in the pool: one of a reswap that is old enough, or under the same nonce,
  -- may be replaced.
  pub in_pool : BuildTxArgs → ℕ → ℕ → PooledTx → Bool
  in_pool args saved now_time of_other_chain = true
  in_pool args saved now_time (with_account_nonce nonce) =
      if args.reswapping && leb (saved + allow_reswap_time_interval) now_time
      then false
      else not (nonce == get_tx_nonce args)

  pub pooled : BuildTxArgs → ℕ → ℕ → Result PooledTx → Bool
  unfolding in_pool
  pooled args saved now_time (ok tx) = in_pool args saved now_time tx
  pooled args saved now_time (err e) = false

  -- `on_chain` answers the status where the call did not fail and the transaction has a block.
  pub on_chain : Option TxStatus × Option GoError → Option TxStatus
  on_chain (none, e) = none
  on_chain (some s, some e) = none
  on_chain (some s, none) = if ltb 0 s.block_height then some s else none

  pub has_swapped : Bridge → BuildTxArgs → String → ℕ → ℕ → Option TxStatus → Exec Acceptor Bool
  unfolding settled pooled
  has_swapped bridge args old_tx saved now_time (some s) = pure (settled s.receipt)
  has_swapped bridge args old_tx saved now_time none = do
    t ← tick
    pure (pooled args saved now_time (bridge.get_transaction t old_tx))

  -- A record: `none` is a nil bridge, whose call panics.
  pub checked_record : Option Bridge → BuildTxArgs → ℕ → String → ℕ → Exec Acceptor Bool
  unfolding on_chain has_swapped
  checked_record none args now_time old_tx saved = fail panicked
  checked_record (some bridge) args now_time old_tx saved = do
    t ← tick
    has_swapped bridge args old_tx saved now_time
        (on_chain (bridge.get_transaction_status t old_tx))

  -- The loop over the records under the prefix; the others are not seen.
  pub any_swapped : Option Bridge → BuildTxArgs → ℕ → List (String × ℕ) → Exec Acceptor (Unit {0})
  unfolding checked_record after get_swap_key_prefix
  any_swapped bridge args now_time [] = pure tt
  any_swapped bridge args now_time ((k, saved) ∷ rs) =
      let others = any_swapped bridge args now_time rs in
      elim (after (get_swap_key_prefix args) k) [
        | none ↦ others
        | some old_tx ↦ do
          swapped ← checked_record bridge args now_time old_tx saved
          if swapped then fail (worker already_swapped) else others
      ]

  pub check_records : BuildTxArgs → Option (List (String × ℕ)) → Exec Acceptor (Unit {0})
  unfolding now any_swapped get_bridge_by_chain_id decimal
  check_records args none = pure tt
  check_records args (some rs) = do
    now_time ← now n
    any_swapped (get_bridge_by_chain_id n.setup (decimal args.to_chain_id)) args now_time rs

  unfoldable pub check_accept_record : BuildTxArgs → Exec Acceptor (Unit {0})
  unfolding check_records
  check_accept_record args = do rs ← gets (λ w. w.records); check_records args rs

  put : String → Exec Acceptor (Unit {0})
  unfolding now tick set_entry
  put key = do
    now_time ← now n
    t ← tick
    if n.put_fails t
        then pure tt
        else modify (λ w. record w { records = Option.map (set_entry key now_time) w.records })

  -- saveAcceptRecord, whose errors are logged only
  unfoldable pub save_accept_record : Saving → Exec Acceptor (Unit {0})
  unfolding put get_swap_key_prefix
  save_accept_record s = elim s.bridge.get_signed_tx_hash_of_key_id [
    | none ↦ pure tt
    | some hash_of ↦ do
      t ← tick
      elim (hash_of t s.args.from s.key_id s.raw_tx) [
        | err e ↦ pure tt
        | ok swap_tx ↦ put (append (get_swap_key_prefix s.args) swap_tx)
      ]
  ]

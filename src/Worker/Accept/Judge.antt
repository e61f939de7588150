-- ===== src/Worker/Accept/Judge.antt =====
-- worker/accept.go: the node verifies the swap itself, builds the transaction again, and answers.
pub mod Quiet
pub mod Rebuilt
pub mod Agrees
pub mod OnEth
pub mod Paid
use Prim.Native.String.{◌++◌ as append}
use check_tx_server.Common.{
  ℕ, zero, suc, ◌+◌, ◌-◌, String, ltb, leb, ◌==◌, Bool, true, false, not, ◌&&◌, ◌||◌, Option, none,
  some, List, [], ◌∷◌, length, any, str_eq, to_lower, equal_fold, decimal, concat, without,
  set_entry, if◌then◌else◌,
}
use check_tx_server.Errors.{
  GoError, TokenError, token, worker, already_swapped, identifier_mismatch, initiator_mismatch,
  wrong_msg_context, plain, panicked, is_panic, errors_is, is_worker_error,
  is_rpc_query_or_not_found_error, error_text,
}
use check_tx_server.Exec.{
  Result, ok, err, Exec, pure, fail, gets, modify, attempt, lift, ◌>>=◌, ◌>>◌,
}
use check_tx_server.Tokens.{
  SwapTxInfo, TxStatus, Receipt, with_status, VerifyArgs, BuildTxArgs, AllExtras, is_valid_type,
  get_tx_nonce,
}
use check_tx_server.Db.{Db}
use check_tx_server.Db
use check_tx_server.Worker.{
  Setup, Bridge, PooledTx, with_account_nonce, of_other_chain, get_bridge_by_chain_id,
}
use check_tx_server.Worker.Accept.{
  SignInfoData, Answer, Saving, Node, Acceptor, max_cached_accept_infos, tick, in_db, u, now,
}
use check_tx_server.Worker.Accept.Records.{check_accept_record}

-- What an error makes of a request: it is dropped for good, or left for another time, or answered.
pub data Fate : Type 0 where
  discard : Fate
  ignore : Fate
  answer : Fate

-- The first characters of a text
pub first_chars : ℕ → String → String
first_chars zero s = ""
first_chars (suc k) String.[] = ""
first_chars (suc k) (String.◌∷◌ c s) = String.◌∷◌ c (first_chars k s)

module _ (n : Node) where
  abbrev pub verify_args : BuildTxArgs → VerifyArgs
  verify_args args = record {
    swap_type = args.swap_type;
    log_index = args.log_index;
    allow_unstable = false;
  }

  -- The arguments of the transaction that the node builds itself
  abbrev pub rebuilt_args : BuildTxArgs → SwapTxInfo → BuildTxArgs
  rebuilt_args args info = record {
    swap_info = info.swap_info;
    identifier = n.setup.identifier;
    swap_id = info.hash;
    swap_type = info.swap_type;
    bind = info.bind;
    log_index = info.log_index;
    from_chain_id = info.from_chain_id;
    to_chain_id = info.to_chain_id;
    reswapping = args.reswapping;
    from = args.from;
    to = "";
    origin_from = info.from;
    origin_tx_to = info.tx_to;
    origin_value = info.value;
    swap_value = none;
    value = none;
    memo = "";
    input = none;
    extra = args.extra;
  }

  -- The extra arguments, where there are any, are those of the transaction that was built: args.Extra is
  -- a pointer to them.
  abbrev pub shared_extra : Option AllExtras → Option AllExtras → Option AllExtras
  shared_extra none built = none
  shared_extra (some x) built = built

  abbrev pub with_shared : BuildTxArgs → BuildTxArgs → BuildTxArgs
  with_shared args built = record args { extra = shared_extra args.extra built.extra }

  -- `go saveAcceptRecord`, where the database is open and the transaction has a nonce
  abbrev pub noted : BuildTxArgs → Saving → Acceptor → Acceptor
  noted args s w = elim w.records [
    | none ↦ w
    | some rs ↦ if ltb 0 (get_tx_nonce args) then record w { savings = s ∷ w.savings } else w
  ]

  abbrev pub get_bridges : BuildTxArgs → Result (Bridge × Bridge)
  get_bridges args = elim (get_bridge_by_chain_id n.setup (decimal args.from_chain_id)) [
    | none ↦ err (token TokenError.no_bridge_for_chain_id)
    | some src ↦ elim (get_bridge_by_chain_id n.setup (decimal args.to_chain_id)) [
      | none ↦ err (token TokenError.no_bridge_for_chain_id)
      | some dst ↦ ok (src, dst)
    ]
  ]

  abbrev pub or_fail : Option GoError → Result (Unit {0})
  or_fail none = ok tt
  or_fail (some e) = err e

  unfoldable pub rebuild_from :
      String → List String → BuildTxArgs → Bridge → SwapTxInfo → Exec Acceptor (Unit {0})
  unfolding in_db get_tx_nonce decimal
  rebuild_from key_id msg_hash args dst info =
      if not (equal_fold args.bind info.bind)
      then fail (plain (concat ("bind mismatch: '" ∷ args.bind ∷ "' != '" ∷ info.bind ∷ "'" ∷ [])))
      else if not (args.to_chain_id == info.to_chain_id)
      then fail (
          plain (
            concat (
              "toChainID mismatch: '"
              ∷ decimal args.to_chain_id
              ∷ "' != '"
              ∷ decimal info.to_chain_id
              ∷ "'"
              ∷ [])))
      else do
        (raw_tx, built) ← in_db (dst.build_raw_transaction (rebuilt_args args info))
        lift (or_fail (dst.verify_msg_hash raw_tx msg_hash))
        modify (
            noted (with_shared args built)
              (record { bridge = dst; key_id = key_id; args = built; raw_tx = raw_tx }))

  unfoldable pub rebuild_and_verify_msg_hash :
      String → List String → BuildTxArgs → Exec Acceptor (Unit {0})
  unfolding rebuild_from is_valid_type get_bridge_by_chain_id decimal
  rebuild_and_verify_msg_hash key_id msg_hash args =
      if not (is_valid_type args.swap_type)
      then fail (plain (concat ("unknown router swap type " ∷ decimal args.swap_type ∷ [])))
      else do
        (src, dst) ← lift (get_bridges args)
        t ← tick
        info ← lift (src.verify_transaction t args.swap_id (verify_args args))
        rebuild_from key_id msg_hash args dst info

  unfoldable pub is_mpc_initiator : String → Bool
  is_mpc_initiator account = any (equal_fold account) n.mpc_initiators

  unfoldable pub checked_args : SignInfoData → BuildTxArgs → Exec Acceptor (Unit {0})
  unfolding check_accept_record rebuild_and_verify_msg_hash is_mpc_initiator get_tx_nonce
  checked_args info args =
      if not (str_eq args.identifier n.setup.identifier)
      then fail (worker identifier_mismatch)
      else if not (is_mpc_initiator info.account)
      then fail (worker initiator_mismatch)
      else do
        if ltb 0 (get_tx_nonce args) then check_accept_record n args else pure tt
        rebuild_and_verify_msg_hash info.key info.msg_hash args

  unfoldable pub with_context : SignInfoData → List String → Exec Acceptor (Unit {0})
  unfolding checked_args
  with_context info [] = fail panicked
  with_context info (text ∷ _) = elim (n.unmarshal text) [
    | none ↦ fail (worker wrong_msg_context)
    | some args ↦ checked_args info args
  ]

  unfoldable pub verify_sign_info : SignInfoData → Exec Acceptor (Unit {0})
  unfolding with_context
  verify_sign_info info = with_context info info.msg_context

  -- Into the set of the keys in work, unless it is there; at its full size one member makes room.
  abbrev pub cached : String → Acceptor → Acceptor
  cached key w = record w {
    cached_accept_infos =
        key
        ∷ (if leb max_cached_accept_infos (length w.cached_accept_infos)
            then n.setup.evict w.db.ticks w.cached_accept_infos
            else w.cached_accept_infos);
  }

  abbrev pub uncached : String → Acceptor → Acceptor
  uncached key w = record w { cached_accept_infos = without key w.cached_accept_infos }

  unfoldable pub fate : GoError → Fate
  unfolding is_worker_error errors_is is_rpc_query_or_not_found_error
  fate e =
      if is_worker_error e wrong_msg_context || is_worker_error e identifier_mismatch
      then discard
      else if errors_is e TokenError.tx_not_stable
          || errors_is e TokenError.tx_not_found
          || is_rpc_query_or_not_found_error (some e)
      then (if n.is_pending_invalid_accept then ignore else answer)
      else if is_worker_error e initiator_mismatch
          || errors_is e TokenError.tx_with_wrong_contract
          || errors_is e TokenError.no_bridge_for_chain_id
      then (if n.is_pending_invalid_accept then discard else answer)
      else answer

  abbrev pub agreement : SignInfoData → Answer
  agreement info = record {
    key_id = info.key;
    agrees = true;
    msg_hash = info.msg_hash;
    reasons = [];
  }

  unfoldable pub disagreement : SignInfoData → GoError → Answer
  unfolding first_chars error_text
  disagreement info e = record {
    key_id = info.key;
    agrees = false;
    msg_hash = info.msg_hash;
    reasons = first_chars 1000 (error_text e) ∷ [];
  }

  abbrev pub called : Answer → Acceptor → Acceptor
  called a w = record w { answers = a ∷ w.answers }

  -- DoAcceptSign, and the set of the keys afterwards
  unfoldable pub reply : SignInfoData → Answer → Exec Acceptor (Unit {0})
  unfolding tick
  reply info a = do
    t ← tick
    modify (called a)
    elim (n.do_accept_sign t a) [ none ↦ pure tt | some e ↦ modify (uncached info.key) ]

  unfoldable pub by_fate : SignInfoData → GoError → Fate → Exec Acceptor (Unit {0})
  unfolding reply disagreement
  by_fate info e discard = pure tt
  by_fate info e ignore = modify (uncached info.key)
  by_fate info e answer = reply info (disagreement info e)

  unfoldable pub judged : SignInfoData → Result (Unit {0}) → Exec Acceptor (Unit {0})
  unfolding reply by_fate fate
  judged info (ok tt) = reply info (agreement info)
  judged info (err e) = if is_panic e then fail e else by_fate info e (fate e)

  unfoldable pub process_accept_info : SignInfoData → Exec Acceptor (Unit {0})
  unfolding verify_sign_info judged
  process_accept_info info = do
    in_work ← gets (λ w. any (str_eq info.key) w.cached_accept_infos)
    if in_work
        then pure tt
        else do modify (cached info.key); r ← attempt (verify_sign_info info); judged info r

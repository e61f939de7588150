-- ===== src/Worker/Accept.antt =====
-- worker/accept.go and worker/acceptdb.go: the job with which a node of the MPC group agrees to a
-- signature, or does not. The number of running jobs (curAcceptRoutines) only delays it and is left out.
pub mod Records
pub mod Judge
use Prim.Native.String.{◌++◌ as append}
use check_tx_server.Common.{
  ℕ, suc, ◌+◌, ◌-◌, String, ltb, leb, ◌==◌, Bool, true, false, not, ◌&&◌, ◌||◌, Option, none, some,
  List, [], ◌∷◌, length, any, str_eq, to_lower, equal_fold, decimal, concat, without, set_entry,
  if◌then◌else◌,
}
use check_tx_server.Errors.{
  GoError, TokenError, token, worker, already_swapped, identifier_mismatch, initiator_mismatch,
  wrong_msg_context, plain, panicked, is_panic, errors_is, is_worker_error,
  is_rpc_query_or_not_found_error, error_text,
}
use check_tx_server.Exec.{
  Result, ok, err, Exec, pure, fail, gets, modify, attempt, lift, ◌>>=◌, ◌>>◌,
}
use check_tx_server.Tokens.{
  SwapTxInfo, TxStatus, Receipt, with_status, VerifyArgs, BuildTxArgs, is_valid_type, get_tx_nonce,
}
use check_tx_server.Db.{Db}
use check_tx_server.Db
use check_tx_server.Worker.{
  Setup, Bridge, PooledTx, with_account_nonce, of_other_chain, get_bridge_by_chain_id,
}

-- mpc.SignInfoData, as far as the job reads it
pub record SignInfoData : Type 0 where
  pub account : String
  pub key : String
  pub msg_hash : List String
  pub msg_context : List String

-- A call of DoAcceptSign
pub record Answer : Type 0 where
  pub key_id : String
  pub agrees : Bool
  pub msg_hash : List String
  pub reasons : List String

-- A saveAcceptRecord that was started, and may run later
pub record Saving : Type 0 where
  pub bridge : Bridge
  pub key_id : String
  pub args : BuildTxArgs
  pub raw_tx : String

-- What the node is configured with and calls: `unmarshal` is json.Unmarshal into a BuildTxArgs, and
-- `do_accept_sign` and `put_fails` tell whether the call failed, at the number of calls made before.
pub record Node : Type 0 where
  pub setup : Setup
  pub mpc_initiators : List String
  pub is_pending_invalid_accept : Bool
  pub unmarshal : String → Option BuildTxArgs
  pub do_accept_sign : ℕ → Answer → Option GoError
  pub put_fails : ℕ → Bool

-- `records` is the database of the accepted swaps, `none` where it was not opened; its values are times.
-- `answers` has the latest call first.
pub record Acceptor : Type 0 where
  pub db : Db
  pub cached_accept_infos : List String
  pub records : Option (List (String × ℕ))
  pub savings : List Saving
  pub answers : List Answer

abbrev pub max_cached_accept_infos : ℕ
max_cached_accept_infos = 500

unfoldable pub tick : Exec Acceptor ℕ
tick w = (ok w.db.ticks, record w { db = record (w.db) { ticks = suc w.db.ticks } })

unfoldable pub in_db : {A : Type 0} → Exec Db A → Exec Acceptor A
in_db m w = let (r, d) = m w.db in (r, record w { db = d })

module _ (n : Node) where
  abbrev pub u : Setup
  u = n.setup

  unfoldable pub now : Exec Acceptor ℕ
  unfolding in_db
  now = in_db (Db.now u.env)

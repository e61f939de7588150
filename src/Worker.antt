-- ===== src/Worker.antt =====
-- Package worker: the state that its jobs share, and what they call.
pub mod Update
pub mod Verify
pub mod History
pub mod Send
pub mod Swap
pub mod Turns
pub mod Stable
pub mod Replace
pub mod Failed
pub mod BigValue
pub mod Accept
use check_tx_server.Common.{
  ℕ, suc, ◌-◌, String, ltb, ◌==◌, Bool, true, false, ◌||◌, Option, none, some, List, [], ◌∷◌, any,
  str_eq, to_lower, lookup, if◌then◌else◌,
}
use check_tx_server.Errors.{GoError, TokenError, token}
use check_tx_server.Exec.{Result, ok, err, Exec}
use check_tx_server.Tables.{MgoSwap, SwapInfo, get_token_id}
use check_tx_server.Tokens.{SwapTxInfo, TxStatus, VerifyArgs, BuildTxArgs}
use check_tx_server.Hex.{BigInt}
use check_tx_server.Db.{Db, Env}
use check_tx_server.Db

-- swapInfo of swap.go, an entry of the history of sent swaps
pub record SwapHistory : Type 0 where
  pub chain_id : String
  pub tx_id : String
  pub log_index : ℕ
  pub match_tx : String

-- A call of SendTransaction
pub record Sending : Type 0 where
  pub chain_id : String
  pub signed_tx : String

-- A call of RecycleSwapNonce
pub record Recycling : Type 0 where
  pub chain_id : String
  pub sender : String
  pub nonce : ℕ

-- `cached_swap_tasks` and `cached_verifying_swaps` are sets, `swap_ring` has the oldest entry first,
-- `swap_tasks` holds the waiting tasks of the channel of each chain, `sendings` is what has been
-- handed to a bridge for sending, and `recycled` what has been given back to one, the latest first.
pub record World : Type 0 where
  pub db : Db
  pub cached_swap_tasks : List String
  pub cached_verifying_swaps : List String
  pub swap_ring : List SwapHistory
  pub swap_tasks : List (String × List BuildTxArgs)
  pub sendings : List Sending
  pub recycled : List Recycling

-- tokens.NonceSetter, as far as the jobs use it: the chain's nonce of an account
pub record NonceSetter : Type 0 where
  pub get_pool_nonce : ℕ → String → String → Result ℕ

-- What GetTransaction answers: a *types.RPCTransaction with its nonce, or a transaction of another kind
pub data PooledTx : Type 0 where
  with_account_nonce : ℕ → PooledTx
  of_other_chain : PooledTx

-- tokens.IBridge, as far as the jobs use it; the first argument counts the calls made before. Raw and
-- signed transactions are opaque. GetSignedTxHashOfKeyID is a method that only some bridges have. BuildRawTransaction fills in the arguments that it is given, and a
-- bridge that allocates nonces writes to the database.
pub record Bridge : Type 0 where
  pub verify_transaction : ℕ → String → VerifyArgs → Result SwapTxInfo
  pub get_transaction_status : ℕ → String → Option TxStatus × Option GoError
  pub get_transaction : ℕ → String → Result PooledTx
  pub verify_msg_hash : String → List String → Option GoError
  pub get_signed_tx_hash_of_key_id : Option (ℕ → String → String → String → Result String)
  pub build_raw_transaction : BuildTxArgs → Exec Db (String × BuildTxArgs)
  pub mpc_sign_transaction : ℕ → String → BuildTxArgs → Result (String × String)
  pub send_transaction : ℕ → String → Result String
  pub confirmations : ℕ
  pub nonce_setter : Option NonceSetter

-- The configuration and the other packages that the jobs call. `evict` is what mapset's Pop leaves.
-- `parse_big` is common.GetBigIntFromStr, and `retry_send_loops` is RetrySendTxLoopCount by chain, an int.
pub record Setup : Type 0 where
  pub env : Env
  pub bridges : List (String × Bridge)
  pub paused_chain_ids : List String
  pub chain_id_blacklist : List String
  pub token_id_blacklist : List String
  pub account_blacklist : List String
  pub identifier : String
  pub parallel_swap : Bool
  pub retry_send_loops : List (String × BigInt)
  pub nonce_passed_intervals : List (String × ℕ)
  pub wait_time_to_replace : ℕ
  pub max_replace_count : ℕ
  pub evict : ℕ → List String → List String
  pub parse_big : String → Option ℕ
  pub router_mpc : String → String → Result String
  pub is_big_value_swap : SwapTxInfo → Bool

-- An action of the database, among the jobs
unfoldable pub in_db : {A : Type 0} → Exec Db A → Exec World A
in_db m w = let (r, d) = m w.db in (r, record w { db = d })

-- The number of the next call that leaves the program
unfoldable pub tick : Exec World ℕ
tick w = (ok w.db.ticks, record w { db = record (w.db) { ticks = suc w.db.ticks } })

-- now()
unfoldable pub now : Setup → Exec World ℕ
unfolding in_db
now u = in_db (Db.now u.env)

-- getSepTimeInFind
unfoldable pub get_sep_time_in_find : ℕ → ℕ → ℕ
get_sep_time_in_find now_time dist = if ltb dist now_time then now_time - dist else 0

unfoldable pub get_bridge_by_chain_id : Setup → String → Option Bridge
unfolding lookup
get_bridge_by_chain_id u chain_id = lookup chain_id u.bridges

-- The bridge, or ErrNoBridgeForChainID
unfoldable pub bridge_or_error : Option Bridge → Result Bridge
bridge_or_error none = err (token TokenError.no_bridge_for_chain_id)
bridge_or_error (some b) = ok b

unfoldable pub is_chain_id_paused : Setup → String → Bool
is_chain_id_paused u chain_id = any (str_eq chain_id) u.paused_chain_ids

-- isBlacked of verify.go, with params.IsChainIDInBlackList and its like; the keys of the token and
-- account lists are in lower case
unfoldable pub is_blacked : Setup → MgoSwap → Bool
unfolding to_lower get_token_id
is_blacked u swap =
    any (str_eq swap.from_chain_id) u.chain_id_blacklist
    || any (str_eq swap.to_chain_id) u.chain_id_blacklist
    || any (str_eq (to_lower (get_token_id swap.swap_info))) u.token_id_blacklist
    || any (str_eq (to_lower swap.from)) u.account_blacklist
    || any (str_eq (to_lower swap.bind)) u.account_blacklist
    || any (str_eq (to_lower swap.tx_to)) u.account_blacklist

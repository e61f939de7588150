-- ===== src/Tables.antt =====
-- mongodb/tables.go: the documents of the database. int64 times, uint64 heights and nonces and int log
-- indexes are numbers here: none of this code makes them negative.
use check_tx_server.Common.{ℕ, String, Bool, List, [], Option, none, some}
use check_tx_server.Status.{SwapStatus}

pub record Erc20SwapInfo : Type 0 where
  pub token : String
  pub token_id : String
  pub for_native : Bool
  pub for_underlying : Bool
  pub path : List String
  pub amount_out_min : String
  pub call_proxy : String
  pub call_data : String

pub record NftSwapInfo : Type 0 where
  pub token : String
  pub token_id : String
  pub ids : List String
  pub amounts : List String
  pub batch : Bool
  pub nft_data : String

pub record AnyCallSwapInfo : Type 0 where
  pub call_from : String
  pub call_to : List String
  pub call_data : List String
  pub callbacks : List String
  pub call_nonces : List String

pub record CurveAnyCallSwapInfo : Type 0 where
  pub call_from : String
  pub call_to : String
  pub call_data : String
  pub fallback : String

-- A nil pointer is `none`.
pub record SwapInfo : Type 0 where
  pub erc20_swap_info : Option Erc20SwapInfo
  pub nft_swap_info : Option NftSwapInfo
  pub any_call_swap_info : Option AnyCallSwapInfo
  pub curve_any_call_swap_info : Option CurveAnyCallSwapInfo

token_of_nft : Option NftSwapInfo → String
token_of_nft none = ""
token_of_nft (some n) = n.token

token_of : Option Erc20SwapInfo → Option NftSwapInfo → String
token_of none n = token_of_nft n
token_of (some e) n = e.token

unfoldable pub get_token : SwapInfo → String
unfolding token_of token_of_nft
get_token s = token_of s.erc20_swap_info s.nft_swap_info

token_id_of_nft : Option NftSwapInfo → String
token_id_of_nft none = ""
token_id_of_nft (some n) = n.token_id

token_id_of : Option Erc20SwapInfo → Option NftSwapInfo → String
token_id_of none n = token_id_of_nft n
token_id_of (some e) n = e.token_id

unfoldable pub get_token_id : SwapInfo → String
unfolding token_id_of token_id_of_nft
get_token_id s = token_id_of s.erc20_swap_info s.nft_swap_info

-- MgoSwap: a registered swap
pub record MgoSwap : Type 0 where
  pub key : String
  pub swap_type : ℕ
  pub tx_id : String
  pub tx_to : String
  pub from : String
  pub bind : String
  pub value : String
  pub log_index : ℕ
  pub from_chain_id : String
  pub to_chain_id : String
  pub swap_info : SwapInfo
  pub status : SwapStatus
  pub init_time : ℕ
  pub timestamp : ℕ
  pub memo : String

-- MgoSwapResult: the result of a verified swap
pub record MgoSwapResult : Type 0 where
  pub key : String
  pub swap_type : ℕ
  pub tx_id : String
  pub tx_to : String
  pub tx_height : ℕ
  pub tx_time : ℕ
  pub from : String
  pub to : String
  pub bind : String
  pub value : String
  pub log_index : ℕ
  pub from_chain_id : String
  pub to_chain_id : String
  pub swap_info : SwapInfo
  pub swap_tx : String
  pub old_swap_txs : List String
  pub swap_height : ℕ
  pub swap_time : ℕ
  pub swap_value : String
  pub swap_nonce : ℕ
  pub status : SwapStatus
  pub init_time : ℕ
  pub timestamp : ℕ
  pub memo : String
  pub mpc : String

-- MgoSwap.ToSwapResult
unfoldable pub to_swap_result : MgoSwap → MgoSwapResult
to_swap_result swap = record {
  key = swap.key;
  swap_type = swap.swap_type;
  tx_id = swap.tx_id;
  tx_to = swap.tx_to;
  tx_height = 0;
  tx_time = 0;
  from = swap.from;
  to = "";
  bind = swap.bind;
  value = swap.value;
  log_index = swap.log_index;
  from_chain_id = swap.from_chain_id;
  to_chain_id = swap.to_chain_id;
  swap_info = swap.swap_info;
  swap_tx = "";
  old_swap_txs = [];
  swap_height = 0;
  swap_time = 0;
  swap_value = "";
  swap_nonce = 0;
  status = swap.status;
  init_time = swap.init_time;
  timestamp = swap.timestamp;
  memo = swap.memo;
  mpc = "";
}

pub record SwapResultUpdateItems : Type 0 where
  pub mpc : String
  pub swap_tx : String
  pub swap_height : ℕ
  pub swap_time : ℕ
  pub swap_value : String
  pub swap_nonce : ℕ
  pub status : SwapStatus
  pub timestamp : ℕ
  pub memo : String

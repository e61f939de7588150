-- ===== src/Tokens/Payload.antt =====
-- tokens/types.go: what a verified swap carries besides its parties and its value.
use check_tx_server.Common.{String, Bool, Option, none, some, List}
use check_tx_server.Abi.Bytes.{Bytes}
use check_tx_server.Hex.{BigInt}

-- The types of tokens/types.go. A nil *big.Int and nil call data of a swap of an ERC20 are `none`.
pub record Erc20Info : Type 0 where
  pub token : String
  pub token_id : String
  pub for_native : Bool
  pub for_underlying : Bool
  pub path : List String
  pub amount_out_min : Option BigInt
  pub call_proxy : String
  pub call_data : Option Bytes

pub record NftInfo : Type 0 where
  pub token : String
  pub token_id : String
  pub ids : List BigInt
  pub amounts : List BigInt
  pub batch : Bool
  pub nft_data : Bytes

pub record AnyCallInfo : Type 0 where
  pub call_from : String
  pub call_to : List String
  pub call_data : List Bytes
  pub callbacks : List String
  pub call_nonces : List BigInt

pub record CurveAnyCallInfo : Type 0 where
  pub call_from : String
  pub call_to : String
  pub call_data : Bytes
  pub fallback : String

pub record Info : Type 0 where
  pub erc20 : Option Erc20Info
  pub nft : Option NftInfo
  pub any_call : Option AnyCallInfo
  pub curve_any_call : Option CurveAnyCallInfo

abbrev pub no_info : Info
no_info = record { erc20 = none; nft = none; any_call = none; curve_any_call = none }

token_of_nft : Option NftInfo → String
token_of_nft none = ""
token_of_nft (some n) = n.token

token_of : Option Erc20Info → Option NftInfo → String
unfolding token_of_nft
token_of none n = token_of_nft n
token_of (some e) n = e.token

unfoldable pub get_token : Info → String
unfolding token_of
get_token s = token_of s.erc20 s.nft

token_id_of_nft : Option NftInfo → String
token_id_of_nft none = ""
token_id_of_nft (some n) = n.token_id

token_id_of : Option Erc20Info → Option NftInfo → String
unfolding token_id_of_nft
token_id_of none n = token_id_of_nft n
token_id_of (some e) n = e.token_id

unfoldable pub get_token_id : Info → String
unfolding token_id_of
get_token_id s = token_id_of s.erc20 s.nft

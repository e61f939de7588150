-- ===== src/Tokens.antt =====
-- tokens/types.go: the values that the packages pass to one another. A *big.Int or *uint64 that may be
-- nil is an option; chain ids and amounts are not negative.
pub mod Payload
pub mod Config
pub mod Value
pub mod Whitelist
use check_tx_server.Common.{
  ℕ, String, ltb, Bool, false, not, ◌&&◌, ◌==◌, Option, none, some, List, if◌then◌else◌,
}
use check_tx_server.Tokens.Payload.{Info}

abbrev pub SwapType : Type 0
SwapType = ℕ

abbrev pub erc20_swap_type : SwapType
erc20_swap_type = 1

abbrev pub nft_swap_type : SwapType
nft_swap_type = 2

abbrev pub any_call_swap_type : SwapType
any_call_swap_type = 3

abbrev pub max_valid_swap_type : SwapType
max_valid_swap_type = 4

unfoldable pub is_valid_type : SwapType → Bool
is_valid_type s = ltb 0 s && ltb s max_valid_swap_type

pub record SwapTxInfo : Type 0 where
  pub swap_info : Info
  pub swap_type : SwapType
  pub hash : String
  pub height : ℕ
  pub timestamp : ℕ
  pub from : String
  pub tx_to : String
  pub to : String
  pub bind : String
  pub value : Option ℕ
  pub log_index : ℕ
  pub from_chain_id : ℕ
  pub to_chain_id : ℕ

-- The `Receipt` of a TxStatus: nil, a StatusInterface and what its IsStatusOk says, or anything else.
pub data Receipt : Type 0 where
  absent : Receipt
  with_status : Bool → Receipt
  opaque : Receipt

pub record TxStatus : Type 0 where
  pub sender : String
  pub receipt : Receipt
  pub confirmations : ℕ
  pub block_height : ℕ
  pub block_hash : String
  pub block_time : ℕ

status_failed : Receipt → Bool
status_failed (with_status fine) = not fine
status_failed _ = false

-- TxStatus.IsSwapTxOnChainAndFailed; `none` is the nil receiver
unfoldable pub is_swap_tx_on_chain_and_failed : Option TxStatus → Bool
unfolding status_failed
is_swap_tx_on_chain_and_failed none = false
is_swap_tx_on_chain_and_failed (some s) =
    if s.block_height == 0 then false else status_failed s.receipt

pub record VerifyArgs : Type 0 where
  pub swap_type : SwapType
  pub log_index : ℕ
  pub allow_unstable : Bool

pub record EthExtraArgs : Type 0 where
  pub gas : Option ℕ
  pub gas_price : Option ℕ
  pub gas_tip_cap : Option ℕ
  pub gas_fee_cap : Option ℕ
  pub nonce : Option ℕ
  pub deadline : ℕ

pub record AllExtras : Type 0 where
  pub eth_extra : Option EthExtraArgs
  pub replace_num : ℕ
  pub sequence : Option ℕ
  pub fee : Option String

-- BuildTxArgs, with the fields of the SwapArgs that it embeds
pub record BuildTxArgs : Type 0 where
  pub swap_info : Info
  pub identifier : String
  pub swap_id : String
  pub swap_type : SwapType
  pub bind : String
  pub log_index : ℕ
  pub from_chain_id : ℕ
  pub to_chain_id : ℕ
  pub reswapping : Bool
  pub from : String
  pub to : String
  pub origin_from : String
  pub origin_tx_to : String
  pub origin_value : Option ℕ
  pub swap_value : Option ℕ
  pub value : Option ℕ
  pub memo : String
  pub input : Option (List ℕ)
  pub extra : Option AllExtras

value_or_zero : Option ℕ → ℕ
value_or_zero none = 0
value_or_zero (some n) = n

replace_num_of : Option AllExtras → ℕ
replace_num_of none = 0
replace_num_of (some x) = x.replace_num

unfoldable pub get_replace_num : BuildTxArgs → ℕ
unfolding replace_num_of
get_replace_num args = replace_num_of args.extra

nonce_of_eth : Option EthExtraArgs → Option ℕ → ℕ
nonce_of_eth none sequence = value_or_zero sequence
nonce_of_eth (some e) sequence = value_or_zero e.nonce

nonce_of : Option AllExtras → ℕ
nonce_of none = 0
nonce_of (some x) = nonce_of_eth x.eth_extra x.sequence

unfoldable pub get_tx_nonce : BuildTxArgs → ℕ
unfolding nonce_of nonce_of_eth value_or_zero
get_tx_nonce args = nonce_of args.extra

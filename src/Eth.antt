-- ===== src/Eth.antt =====
-- tokens/eth: verifying a swap of an ERC20 token on its source chain (tokens/eth/verifyerc20swaptx.go,
-- tokens/eth/verifytx.go), with the settings of params/config.go, the lookups of tokens/base.go and
-- router/types.go, and the addresses of common/ethaddress.go that it uses.
pub mod Receipt
pub mod Logs
pub mod Received
pub mod Checks
pub mod Verify
pub mod Build
pub mod Fees
pub mod Defaults
pub mod Raw
use check_tx_server.Common.{
  ℕ, zero, suc, ◌-◌, String, ltb, ◌==◌, Bool, true, false, not, ◌&&◌, ◌||◌, Option, none, some,
  List, [], ◌∷◌, length, any, str_eq, to_lower, lookup, if◌then◌else◌,
}
use check_tx_server.Errors.{GoError, plain, panicked}
use check_tx_server.Exec.{Result, ok, err, Exec}
use check_tx_server.Tokens.{SwapTxInfo}
use check_tx_server.Tokens.Payload.{Erc20Info}
use check_tx_server.Tokens.Value.{Settings}
use check_tx_server.Abi.Bytes.{Bytes, drop, left_pad_bytes, zeros}
use check_tx_server.Abi.Parse.{Parsed}
use check_tx_server.Hex.{encode, from_hex}

-- An address is its 20 bytes, a topic its 32. A nil pointer is `none`; the address of a log, and the
-- sender in a receipt, are never nil.
pub record Log : Type 0 where
  pub address : Bytes
  pub topics : List Bytes
  pub log_data : Option Bytes
  pub removed : Option Bool

pub record TxReceipt : Type 0 where
  pub block_number : ℕ
  pub status : Option ℕ
  pub from : Bytes
  pub recipient : Option Bytes
  pub logs : List Log

pub record TokenConfig : Type 0 where
  pub token_id : String
  pub decimals : ℕ
  pub contract_version : ℕ
  pub router_contract : String
  pub underlying : String

-- ChainConfig, after its CheckConfig: `chain_number` is the cached chainID.
pub record ChainConfig : Type 0 where
  pub chain_id : String
  pub chain_number : ℕ
  pub router_contract : String
  pub confirmations : ℕ
  pub initial_height : ℕ

-- CrossChainBridgeBase, with the methods of the bridge of a destination that the checks call; only some
-- bridges have GetPairFor. Keys of the token configurations are in lower case.
pub record ChainBridge : Type 0 where
  pub chain_config : ChainConfig
  pub token_configs : List (String × TokenConfig)
  pub is_valid_address : String → Bool
  pub get_pair_for : Option (ℕ → String → String → String → Result String)

pub record SwapRouterInfo : Type 0 where
  pub router_mpc : String
  pub router_factory : String
  pub router_w_native : String

-- What params/config.go keeps of the configuration; no offset is no server configuration.
pub record Params : Type 0 where
  pub enable_swap_trade : Bool
  pub enable_swap_with_permit : Bool
  pub allow_call_by_constructor : Bool
  pub allow_call_by_contract : Bool
  pub check_eip1167_master : Bool
  pub call_by_contract_whitelist : List (String × List String)
  pub call_by_contract_code_hash_whitelist : List (String × List String)
  pub disable_use_from_chain_id_in_receipt_chains : List String
  pub dont_check_received_token_ids : List String
  pub force_any_swap_in_auto : Bool
  pub server_swap_deadline_offset : Option ℕ

-- The packages that the bridge calls, and the calls of the chain's nodes, at the number of calls made
-- before. `text_of` is the conversion of bytes to a string, and `room` the number of elements that there
-- is memory for. Keys of token ids and routers are in lower case.
pub record Net : Type 0 where
  pub params : Params
  pub settings : Settings
  pub router_bridges : List (String × ChainBridge)
  pub multichain_tokens : List (String × List (String × String))
  pub router_infos : List (String × SwapRouterInfo)
  pub get_transaction_receipt : ℕ → String → Result TxReceipt
  pub get_latest_block_number : ℕ → Result ℕ
  pub get_payload : ℕ → String → Result (Option Bytes)
  pub get_eip1167_master : ℕ → Bytes → Bytes
  pub get_contract_code_hash : ℕ → Bytes → Bytes
  pub text_of : Bytes → String
  pub room : ℕ

-- `swap_info` of `info` stands in `erc20` while the swap is verified.
pub record Verifying : Type 0 where
  pub ticks : ℕ
  pub info : SwapTxInfo
  pub erc20 : Erc20Info

unfoldable pub tick : Exec Verifying ℕ
tick w = (ok w.ticks, record w { ticks = suc w.ticks })

-- Bytes
abbrev pub same_bytes : Bytes → Bytes → Bool
same_bytes [] [] = true
same_bytes [] (b ∷ bs) = false
same_bytes (a ∷ as') [] = false
same_bytes (a ∷ as') (b ∷ bs) = a == b && same_bytes as' bs

unfoldable pub bytes_to_address : Bytes → Bytes
bytes_to_address bs = if ltb 20 (length bs) then drop (length bs - 20) bs else left_pad_bytes bs 20

unfoldable pub hex_to_address : String → Bytes
unfolding bytes_to_address from_hex
hex_to_address s = bytes_to_address (from_hex s)

unfoldable pub lower_hex : Bytes → String
unfolding encode
lower_hex a = encode a

abbrev pub no_address : Bytes
no_address = zeros 20

unfoldable pub is_zero : Bytes → Bool
is_zero a = same_bytes a no_address

-- CrossChainBridgeBase
unfoldable pub get_token_config : ChainBridge → String → Option TokenConfig
unfolding lookup to_lower
get_token_config b token = lookup (to_lower token) b.token_configs

router_of : ChainBridge → Option TokenConfig → String
router_of b none = ""
router_of b (some c) =
    if not (str_eq c.router_contract "") then c.router_contract else b.chain_config.router_contract

unfoldable pub get_router_contract : ChainBridge → String → String
unfolding router_of get_token_config
get_router_contract b token =
    if not (str_eq token "")
    then router_of b (get_token_config b token)
    else b.chain_config.router_contract

-- router/types.go
token_on : String → Option (List (String × String)) → String
unfolding lookup
token_on chain_id none = ""
token_on chain_id (some m) = elim (lookup chain_id m) [ none ↦ "" | some a ↦ a ]

unfoldable pub get_cached_multichain_token : Net → String → String → String
unfolding token_on lookup to_lower
get_cached_multichain_token n token_id chain_id =
    token_on chain_id (lookup (to_lower token_id) n.multichain_tokens)

unfoldable pub get_bridge_by_chain_id : Net → String → Option ChainBridge
unfolding lookup
get_bridge_by_chain_id n chain_id = lookup chain_id n.router_bridges

unfoldable pub get_router_info : Net → String → Option SwapRouterInfo
unfolding lookup to_lower
get_router_info n router = lookup (to_lower router) n.router_infos

-- params/config.go
listed_in : String → Option (List String) → Bool
listed_in k none = false
listed_in k (some ks) = any (str_eq k) ks

unfoldable pub is_in_call_by_contract_whitelist : Params → String → String → Bool
unfolding listed_in lookup to_lower
is_in_call_by_contract_whitelist p chain_id caller =
    listed_in (to_lower caller) (lookup chain_id p.call_by_contract_whitelist)

has_members : Option (List String) → Bool
has_members none = false
has_members (some []) = false
has_members (some (k ∷ ks)) = true

unfoldable pub has_call_by_contract_code_hash_whitelist : Params → String → Bool
unfolding has_members lookup
has_call_by_contract_code_hash_whitelist p chain_id =
    has_members (lookup chain_id p.call_by_contract_code_hash_whitelist)

unfoldable pub is_in_call_by_contract_code_hash_whitelist : Params → String → String → Bool
unfolding listed_in lookup
is_in_call_by_contract_code_hash_whitelist p chain_id code_hash =
    listed_in code_hash (lookup chain_id p.call_by_contract_code_hash_whitelist)

unfoldable pub is_use_from_chain_id_in_receipt_disabled : Params → String → Bool
is_use_from_chain_id_in_receipt_disabled p chain_id =
    any (str_eq chain_id) p.disable_use_from_chain_id_in_receipt_chains

unfoldable pub dont_check_token_received : Params → String → Bool
unfolding to_lower
dont_check_token_received p token_id =
    any (str_eq (to_lower token_id)) p.dont_check_received_token_ids

-- abicoder.ErrParseDataError
abbrev pub parse_data_error : GoError
parse_data_error = plain "parse data error"

abbrev pub of_parsed : {A : Type 0} → Parsed A → Result A
of_parsed (Parsed.parsed a) = ok a
of_parsed Parsed.parse_error = err parse_data_error
of_parsed Parsed.panicked = err panicked

-- ===== src/Eth/Build/Functions.antt =====
-- The functions of the contracts, and the texts of hashes and addresses.
use Prim.Native.String.{String}
use check_tx_server.Common.{
  ◌-◌, ◌%◌, ltb, ◌==◌, Bool, true, not, ◌&&◌, length, is_some, if◌then◌else◌,
}
use check_tx_server.Abi.Bytes.{Bytes, drop, left_pad_bytes}
use check_tx_server.Hex.{from_hex, text_length, without_prefix, after_prefix, digit_value}
use check_tx_server.Eth.{TokenConfig, Params, hex_to_address, is_zero}

unfoldable pub any_swap_in_func_hash : Bytes
unfolding from_hex
any_swap_in_func_hash = from_hex "0x825bb13c"

unfoldable pub any_swap_in_underlying_func_hash : Bytes
unfolding from_hex
any_swap_in_underlying_func_hash = from_hex "0x3f88de89"

unfoldable pub any_swap_in_native_func_hash : Bytes
unfolding from_hex
any_swap_in_native_func_hash = from_hex "0x21974f28"

unfoldable pub any_swap_in_auto_func_hash : Bytes
unfolding from_hex
any_swap_in_auto_func_hash = from_hex "0x0175b1c4"

unfoldable pub any_swap_in_exact_tokens_for_tokens_func_hash : Bytes
unfolding from_hex
any_swap_in_exact_tokens_for_tokens_func_hash = from_hex "0x2fc1e728"

unfoldable pub any_swap_in_exact_tokens_for_native_func_hash : Bytes
unfolding from_hex
any_swap_in_exact_tokens_for_native_func_hash = from_hex "0x52a397d5"

unfoldable pub any_swap_in_and_exec_func_hash : Bytes
unfolding from_hex
any_swap_in_and_exec_func_hash = from_hex "0x22db7336"

unfoldable pub any_swap_in_underlying_and_exec_func_hash : Bytes
unfolding from_hex
any_swap_in_underlying_and_exec_func_hash = from_hex "0x302ef85a"

-- The contract's versions that force a function are 10001 to 10006.
unfoldable pub get_swap_in_func_hash : Params → TokenConfig → Bool → Bytes
get_swap_in_func_hash p c for_underlying =
    let bare = is_zero (hex_to_address c.underlying) in
    if for_underlying
    then any_swap_in_underlying_func_hash
    else if c.contract_version == 10001
    then any_swap_in_auto_func_hash
    else if c.contract_version == 10002
    then any_swap_in_func_hash
    else if c.contract_version == 10003
    then any_swap_in_underlying_func_hash
    else if c.contract_version == 10004
    then any_swap_in_native_func_hash
    else if c.contract_version == 0
    then (if bare then any_swap_in_func_hash else any_swap_in_auto_func_hash)
    else if bare && not p.force_any_swap_in_auto
    then any_swap_in_func_hash
    else any_swap_in_auto_func_hash

unfoldable pub get_swap_in_and_exec_func_hash : TokenConfig → Bytes
get_swap_in_and_exec_func_hash c =
    if c.contract_version == 10005
    then any_swap_in_and_exec_func_hash
    else if c.contract_version == 10006
    then any_swap_in_underlying_and_exec_func_hash
    else if is_zero (hex_to_address c.underlying)
    then any_swap_in_and_exec_func_hash
    else any_swap_in_underlying_and_exec_func_hash

unfoldable pub hex_to_hash : String → Bytes
hex_to_hash s =
    let bs = from_hex s in
    if ltb 32 (length bs) then drop (length bs - 32) bs else left_pad_bytes bs 32

all_hex : String → Bool
all_hex String.[] = true
all_hex (String.◌∷◌ c s) = is_some (digit_value c) && all_hex s

unfoldable pub is_hex : String → Bool
unfolding all_hex text_length
is_hex s = text_length s % 2 == 0 && all_hex s

unfoldable pub is_hex_address : String → Bool
unfolding is_hex
is_hex_address s =
    let rest = without_prefix s (after_prefix s) in text_length rest == 40 && is_hex rest

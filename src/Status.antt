-- ===== src/Status.antt =====
-- mongodb/status.go: the statuses of a registered swap and of its result. A status is a uint16.
pub mod Laws
use Prim.Native.String.{◌++◌ as append}
use check_tx_server.Common.{
  ℕ, String, List, [], ◌∷◌, ◌==◌, Bool, true, false, not, ◌||◌, Option, none, some, if◌then◌else◌,
  decimal,
}
use check_tx_server.Errors.{TokenError, GoError, errors_is, should_register_router_swap_for_error}

abbrev pub SwapStatus : Type 0
SwapStatus = ℕ

abbrev pub tx_not_stable : SwapStatus
tx_not_stable = 0

abbrev pub tx_verify_failed : SwapStatus
tx_verify_failed = 1

abbrev pub tx_with_wrong_value : SwapStatus
tx_with_wrong_value = 3

abbrev pub tx_not_swapped : SwapStatus
tx_not_swapped = 5

abbrev pub tx_processed : SwapStatus
tx_processed = 7

abbrev pub match_tx_empty : SwapStatus
match_tx_empty = 8

abbrev pub match_tx_not_stable : SwapStatus
match_tx_not_stable = 9

abbrev pub match_tx_stable : SwapStatus
match_tx_stable = 10

abbrev pub tx_with_big_value : SwapStatus
tx_with_big_value = 12

abbrev pub match_tx_failed : SwapStatus
match_tx_failed = 14

abbrev pub swap_in_blacklist : SwapStatus
swap_in_blacklist = 15

abbrev pub manual_make_fail : SwapStatus
manual_make_fail = 16

abbrev pub bind_addr_is_contract : SwapStatus
bind_addr_is_contract = 17

abbrev pub tx_with_wrong_path : SwapStatus
tx_with_wrong_path = 19

abbrev pub miss_token_config : SwapStatus
miss_token_config = 20

abbrev pub no_underlying_token : SwapStatus
no_underlying_token = 21

abbrev pub keep_status : SwapStatus
keep_status = 255

abbrev pub reswapping : SwapStatus
reswapping = 256

-- Status.IsResultStatus
unfoldable pub is_result_status : SwapStatus → Bool
is_result_status s =
    s == match_tx_empty
    || s == match_tx_not_stable
    || s == match_tx_stable
    || s == match_tx_failed
    || s == reswapping

-- Status.IsRegisteredOk
unfoldable pub is_registered_ok : SwapStatus → Bool
is_registered_ok s =
    s == tx_not_stable || s == tx_not_swapped || s == tx_processed || s == manual_make_fail

-- Status.String: the named statuses, in the order of the switch.
abbrev names : List (SwapStatus × String)
names =
    (tx_not_stable, "TxNotStable")
    ∷ (tx_verify_failed, "TxVerifyFailed")
    ∷ (tx_with_wrong_value, "TxWithWrongValue")
    ∷ (tx_not_swapped, "TxNotSwapped")
    ∷ (tx_processed, "TxProcessed")
    ∷ (match_tx_empty, "MatchTxEmpty")
    ∷ (match_tx_not_stable, "MatchTxNotStable")
    ∷ (match_tx_stable, "MatchTxStable")
    ∷ (tx_with_big_value, "TxWithBigValue")
    ∷ (match_tx_failed, "MatchTxFailed")
    ∷ (swap_in_blacklist, "SwapInBlacklist")
    ∷ (manual_make_fail, "ManualMakeFail")
    ∷ (tx_with_wrong_path, "TxWithWrongPath")
    ∷ (miss_token_config, "MissTokenConfig")
    ∷ (no_underlying_token, "NoUnderlyingToken")
    ∷ (keep_status, "KeepStatus")
    ∷ (reswapping, "Reswapping")
    ∷ []

name_in : SwapStatus → List (SwapStatus × String) → String
name_in s [] = append "unknown swap status " (decimal s)
name_in s ((t, n) ∷ rest) = if s == t then n else name_in s rest

unfoldable pub status_string : SwapStatus → String
unfolding name_in decimal
status_string s = name_in s names

unfoldable pub get_router_swap_status_by_verify_error : Option GoError → SwapStatus
get_router_swap_status_by_verify_error none = tx_not_stable
get_router_swap_status_by_verify_error (some err) =
    if not (should_register_router_swap_for_error (some err))
    then tx_verify_failed
    else if errors_is err TokenError.tx_with_wrong_value
    then tx_with_wrong_value
    else if errors_is err TokenError.tx_with_wrong_path
    then tx_with_wrong_path
    else if errors_is err TokenError.miss_token_config
    then miss_token_config
    else if errors_is err TokenError.no_underlying_token
    then no_underlying_token
    else tx_verify_failed

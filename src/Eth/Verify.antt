-- ===== src/Eth/Verify.antt =====
-- verifyERC20SwapTx, and VerifyTransaction of tokens/eth/verifytx.go for swaps of ERC20 tokens.
pub mod Fixed
pub mod Named
pub mod Parts
pub mod Said
pub mod Entry
pub mod Sound
pub mod Panics
use check_tx_server.Common.{
  ℕ, zero, suc, String, ◌==◌, Bool, true, false, Option, none, some, List, [], ◌∷◌, length,
  to_lower, if◌then◌else◌,
}
use check_tx_server.Errors.{GoError, TokenError, token}
use check_tx_server.Exec.{Result, ok, err, Exec, pure, fail, lift, ◌>>=◌, ◌>>◌}
use check_tx_server.Tokens.{
  SwapTxInfo, VerifyArgs, erc20_swap_type, nft_swap_type, any_call_swap_type,
}
use check_tx_server.Tokens.Payload.{Erc20Info, no_info}
use check_tx_server.Eth.{Log, TxReceipt, ChainBridge, Net, Verifying}
use check_tx_server.Eth.Receipt.{get_swap_tx_receipt}
use check_tx_server.Eth.Logs.{verify_erc20_swap_tx_log}
use check_tx_server.Eth.Received.{check_token_received}
use check_tx_server.Eth.Checks.{check_erc20_swap_info, assembled}

abbrev pub get_elem? : List Log → ℕ → Option Log
get_elem? [] i = none
get_elem? (l ∷ ls) zero = some l
get_elem? (l ∷ ls) (suc i) = get_elem? ls i

abbrev pub no_erc20 : Erc20Info
no_erc20 = record {
  token = "";
  token_id = "";
  for_native = false;
  for_underlying = false;
  path = [];
  amount_out_min = none;
  call_proxy = "";
  call_data = none;
}

-- The SwapTxInfo to begin with, at `ticks` calls made before
abbrev pub unverified : ℕ → String → ℕ → Verifying
unverified ticks tx_hash log_index = record {
  ticks = ticks;
  info = record {
    swap_info = no_info;
    swap_type = erc20_swap_type;
    hash = to_lower tx_hash;
    height = 0;
    timestamp = 0;
    from = "";
    tx_to = "";
    to = "";
    bind = "";
    value = none;
    log_index = log_index;
    from_chain_id = 0;
    to_chain_id = 0;
  };
  erc20 = no_erc20;
}

abbrev pub log_at : Option Log → Result Log
log_at none = err (token TokenError.log_index_out_of_range)
log_at (some l) = ok l

module _ (n : Net) (b : ChainBridge) where
  unfoldable pub verified_log : ℕ → Bool → Exec Verifying (Unit {0})
  verified_log log_index allow_unstable = do
    receipt ← get_swap_tx_receipt n b allow_unstable
    l ← lift (log_at (get_elem? receipt.logs log_index))
    verify_erc20_swap_tx_log n b l
    check_token_received n b receipt
    check_erc20_swap_info n b

  -- The error and the SwapTxInfo, which comes back beside an error too
  unfoldable pub verify_erc20_swap_tx : ℕ → String → ℕ → Bool → Result (Unit {0}) × SwapTxInfo
  unfolding verified_log
  verify_erc20_swap_tx ticks tx_hash log_index allow_unstable =
      let (r, w) = verified_log log_index allow_unstable (unverified ticks tx_hash log_index) in
      (r, assembled w)

  -- The caller of VerifyTransaction sees the error, or the SwapTxInfo.
  abbrev pub seen : Result (Unit {0}) × SwapTxInfo → Result SwapTxInfo
  seen (ok tt, info) = ok info
  seen (err e, info) = err e

  module _
      (verify_nft_swap_tx verify_any_call_swap_tx : ℕ → String → ℕ → Bool → Result SwapTxInfo) where
    unfoldable pub verify_transaction : ℕ → String → VerifyArgs → Result SwapTxInfo
    unfolding verify_erc20_swap_tx
    verify_transaction ticks tx_hash args =
        if args.swap_type == erc20_swap_type
        then seen (verify_erc20_swap_tx ticks tx_hash args.log_index args.allow_unstable)
        else if args.swap_type == nft_swap_type
        then verify_nft_swap_tx ticks tx_hash args.log_index args.allow_unstable
        else if args.swap_type == any_call_swap_type
        then verify_any_call_swap_tx ticks tx_hash args.log_index args.allow_unstable
        else err (token TokenError.swap_type_not_supported)

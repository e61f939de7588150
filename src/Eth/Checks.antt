-- ===== src/Eth/Checks.antt =====
-- What is checked of a swap that a log announces: checkCallByContract, checkSwapWithPermit and
-- checkERC20SwapInfo.
use check_tx_server.Common.{
  String, ltb, Bool, false, not, ◌&&◌, ◌||◌, Option, none, some, length, str_eq, equal_fold,
  decimal, if◌then◌else◌,
}
use check_tx_server.Errors.{TokenError, token}
use check_tx_server.Exec.{Result, ok, err, Exec, pure, fail, lift, ◌>>=◌, ◌>>◌}
use check_tx_server.Tokens.{SwapTxInfo}
use check_tx_server.Tokens.Payload.{no_info}
use check_tx_server.Tokens.Value.{check_token_swap_value}
use check_tx_server.Abi.Bytes.{Bytes, take, zeros}
use check_tx_server.Hex.{encode, from_hex}
use check_tx_server.Eth.{
  ChainBridge, Net, Verifying, tick, same_bytes, hex_to_address, lower_hex, is_zero,
  get_token_config, get_router_contract, get_cached_multichain_token, get_bridge_by_chain_id,
  is_in_call_by_contract_whitelist, has_call_by_contract_code_hash_whitelist,
  is_in_call_by_contract_code_hash_whitelist,
}

unfoldable pub any_swap_out_underlying_with_permit_func_hash : Bytes
unfolding from_hex
any_swap_out_underlying_with_permit_func_hash = from_hex "0x8d7d3eea"

unfoldable pub any_swap_out_underlying_with_transfer_permit_func_hash : Bytes
unfolding from_hex
any_swap_out_underlying_with_transfer_permit_func_hash = from_hex "0x1b91a934"

-- The SwapTxInfo with what stands beside it
abbrev pub assembled : Verifying → SwapTxInfo
assembled w = record (w.info) { swap_info = record no_info { erc20 = some w.erc20 } }

abbrev pub or_token_error : {A : Type 0} → TokenError → Option A → Result A
or_token_error e none = err (token e)
or_token_error e (some a) = ok a

module _ (n : Net) (b : ChainBridge) where
  -- Whether the contract that was called is a proxy of one on the whitelist
  unfoldable pub by_master : String → Exec Verifying Bool
  unfolding tick
  by_master tx_to =
      if n.params.check_eip1167_master
      then (do
        t ← tick
        let master = n.get_eip1167_master t (hex_to_address tx_to)
        pure (
            not (is_zero master)
            && is_in_call_by_contract_whitelist n.params b.chain_config.chain_id
                (lower_hex master)))
      else pure false

  unfoldable pub by_code_hash : String → Exec Verifying Bool
  unfolding tick
  by_code_hash tx_to =
      if has_call_by_contract_code_hash_whitelist n.params b.chain_config.chain_id
      then (do
        t ← tick
        let code_hash = n.get_contract_code_hash t (hex_to_address tx_to)
        pure (
            not (same_bytes code_hash (zeros 32))
            && is_in_call_by_contract_code_hash_whitelist n.params b.chain_config.chain_id
                (encode code_hash)))
      else pure false

  unfoldable pub check_call_by_contract : Exec Verifying (Unit {0})
  unfolding by_master by_code_hash
  check_call_by_contract w =
      (let router_contract = get_router_contract b w.erc20.token in
          if str_eq router_contract ""
          then fail (token TokenError.miss_router_info)
          else if not n.params.allow_call_by_contract
              && not (equal_fold w.info.tx_to router_contract)
              && not
                  (is_in_call_by_contract_whitelist n.params b.chain_config.chain_id w.info.tx_to)
          then (do
            proxy ← by_master w.info.tx_to
            if proxy then pure tt else do
              known ← by_code_hash w.info.tx_to
              if known then pure tt else fail (token TokenError.tx_with_wrong_contract))
          else pure tt)
        w

  abbrev pub is_permit : Bytes → Bool
  is_permit bs =
      same_bytes (take 4 bs) any_swap_out_underlying_with_permit_func_hash
      || same_bytes (take 4 bs) any_swap_out_underlying_with_transfer_permit_func_hash

  abbrev pub payload_error : Option Bytes → Result (Unit {0})
  payload_error none = err (token TokenError.unsupported_func_hash)
  payload_error (some bs) =
      if ltb (length bs) 4 || is_permit bs
      then err (token TokenError.unsupported_func_hash)
      else ok tt

  unfoldable pub check_swap_with_permit : Exec Verifying (Unit {0})
  unfolding tick
  check_swap_with_permit w =
      (let router_contract = get_router_contract b w.erc20.token in
          if n.params.enable_swap_with_permit
          then pure tt
          else if not (str_eq w.erc20.call_proxy "")
          then pure tt
          else if str_eq router_contract ""
          then fail (token TokenError.miss_router_info)
          else if equal_fold w.info.tx_to router_contract
          then (do
            t ← tick
            payload ← lift (n.get_payload t w.info.hash)
            lift (payload_error payload))
          else pure tt)
        w

  -- What follows the two checks; the destination's bridge is looked up twice.
  unfoldable pub swap_checked : Exec Verifying (Unit {0})
  swap_checked w =
      (do
        if not (str_eq (decimal w.info.from_chain_id) b.chain_config.chain_id)
            then fail (token TokenError.from_chain_id_mismatch)
            else pure tt
        from_cfg ←
            lift (or_token_error TokenError.miss_token_config (get_token_config b w.erc20.token))
        if str_eq w.erc20.token_id "" then fail (token TokenError.miss_token_config) else pure tt
        let to_chain_id = decimal w.info.to_chain_id
        let multichain_token = get_cached_multichain_token n w.erc20.token_id to_chain_id
        if str_eq multichain_token "" then fail (token TokenError.miss_token_config) else pure tt
        dst ← lift (
            or_token_error TokenError.no_bridge_for_chain_id (get_bridge_by_chain_id n to_chain_id))
        to_cfg ←
            lift
              (or_token_error TokenError.miss_token_config (get_token_config dst multichain_token))
        if w.erc20.for_underlying && is_zero (hex_to_address to_cfg.underlying)
            then fail (token TokenError.no_underlying_token)
            else pure tt
        if not (check_token_swap_value n.settings (assembled w) from_cfg.decimals to_cfg.decimals)
            then fail (token TokenError.tx_with_wrong_value)
            else pure tt
        if not (dst.is_valid_address w.info.bind)
            then fail (token TokenError.wrong_bind_address)
            else pure tt)
        w

  unfoldable pub check_erc20_swap_info : Exec Verifying (Unit {0})
  check_erc20_swap_info = do check_call_by_contract; check_swap_with_permit; swap_checked

-- ===== src/Eth/Logs.antt =====
-- Reading a log of the router contract: verifyERC20SwapTxLog, the parsers of its five kinds, and
-- checkSwapTradePath.
pub mod Packed
pub mod Says
use check_tx_server.Common.{
  ℕ, zero, suc, ◌-◌, String, ltb, ◌==◌, Bool, true, false, not, ◌&&◌, ◌||◌, Option, none, some,
  List, [], ◌∷◌, length, map, str_eq, equal_fold, decimal, if◌then◌else◌,
}
use check_tx_server.Errors.{
  GoError, TokenError, token, panicked, plain, is_rpc_query_or_not_found_error,
}
use check_tx_server.Exec.{Result, ok, err, Exec, pure, fail, gets, modify, lift, ◌>>=◌, ◌>>◌}
use check_tx_server.Tokens.{SwapTxInfo}
use check_tx_server.Tokens.Payload.{Erc20Info}
use check_tx_server.Abi.Bytes.{Bytes, get_big_int}
use check_tx_server.Abi.Parse.{parse_bytes_in_data, parse_address_slice_in_data}
use check_tx_server.Hex.{BigInt, pos, from_hex}
use check_tx_server.Eth.{
  Log, TxReceipt, ChainBridge, TokenConfig, SwapRouterInfo, Net, Verifying, tick, same_bytes,
  bytes_to_address, hex_to_address, lower_hex, is_zero, get_token_config, get_router_contract,
  get_cached_multichain_token, get_bridge_by_chain_id, get_router_info,
  is_use_from_chain_id_in_receipt_disabled, parse_data_error, of_parsed,
}

unfoldable pub log_any_swap_out_topic : Bytes
unfolding from_hex
log_any_swap_out_topic =
    from_hex "0x97116cf6cd4f6412bb47914d6db18da9e16ab2142f543b86e207c24fbd16b23a"

unfoldable pub log_any_swap_out2_topic : Bytes
unfolding from_hex
log_any_swap_out2_topic =
    from_hex "0x409e0ad946b19f77602d6cf11d59e1796ddaa4828159a0b4fb7fa2ff6b161b79"

unfoldable pub log_any_swap_out_and_call_topic : Bytes
unfolding from_hex
log_any_swap_out_and_call_topic =
    from_hex "0x8e7e5695fff09074d4c7d6c71615fd382427677f75f460c522357233f3bd3ec3"

unfoldable pub log_any_swap_trade_tokens_for_tokens_topic : Bytes
unfolding from_hex
log_any_swap_trade_tokens_for_tokens_topic =
    from_hex "0xfea6abdf4fd32f20966dff7619354cd82cd43dc78a3bee479f04c74dbfc585b3"

unfoldable pub log_any_swap_trade_tokens_for_native_topic : Bytes
unfolding from_hex
log_any_swap_trade_tokens_for_native_topic =
    from_hex "0x278277e0209c347189add7bd92411973b5f6b8644f7ac62ea1be984ce993f8f4"

-- common.BytesToAddress(topic).LowerHex()
abbrev pub address_text : Bytes → String
address_text topic = lower_hex (bytes_to_address topic)

abbrev pub with_info : (SwapTxInfo → SwapTxInfo) → Exec Verifying (Unit {0})
with_info f = modify (λ w. record w { info = f w.info })

abbrev pub with_erc20 : (Erc20Info → Erc20Info) → Exec Verifying (Unit {0})
with_erc20 f = modify (λ w. record w { erc20 = f w.erc20 })

-- *rlog.Data, which panics at nil
abbrev pub data_of : Option Bytes → Result Bytes
data_of none = err panicked
data_of (some bs) = ok bs

module _ (n : Net) (b : ChainBridge) where
  abbrev pub from_chain : ℕ → Bytes → ℕ
  from_chain at bs =
      if is_use_from_chain_id_in_receipt_disabled n.params b.chain_config.chain_id
      then b.chain_config.chain_number
      else get_big_int bs at 32

  -- The value and the chain ids, from `at` on
  abbrev pub amounts : ℕ → ℕ → ℕ → Bytes → SwapTxInfo → SwapTxInfo
  amounts value_at from_at to_at bs i = record i {
    value = some (get_big_int bs value_at 32);
    from_chain_id = from_chain from_at bs;
    to_chain_id = get_big_int bs to_at 32;
  }

  unfoldable pub with_token_id : Option TokenConfig → Exec Verifying (Unit {0})
  with_token_id none = fail (token TokenError.miss_token_config)
  with_token_id (some c) = with_erc20 (λ e. record e { token_id = c.token_id })

  -- The token id of the token that the log names
  unfoldable pub set_token_id : Exec Verifying (Unit {0})
  unfolding with_token_id
  set_token_id w = with_token_id (get_token_config b w.erc20.token) w

  unfoldable pub parse_swapout : List Bytes → Option Bytes → Exec Verifying (Unit {0})
  unfolding set_token_id bytes_to_address
  parse_swapout (_ ∷ t1 ∷ t2 ∷ t3 ∷ []) log_data = do
    bs ← lift (data_of log_data)
    if not (length bs == 96) then fail parse_data_error else pure tt
    with_erc20 (λ e. record e { token = address_text t1 })
    with_info
        (λ i. amounts 0 32 64 bs (record i { from = address_text t2; bind = address_text t3 }))
    set_token_id
  parse_swapout _ log_data = fail (token TokenError.tx_with_wrong_topics)

  unfoldable pub parse_swapout2 : List Bytes → Option Bytes → Exec Verifying (Unit {0})
  unfolding set_token_id bytes_to_address
  parse_swapout2 (_ ∷ t1 ∷ t2 ∷ []) log_data = do
    bs ← lift (data_of log_data)
    if ltb (length bs) 160 then fail parse_data_error else pure tt
    with_erc20 (λ e. record e { token = address_text t1 })
    with_info (λ i. record i { from = address_text t2 })
    bind ← lift (of_parsed (parse_bytes_in_data bs 0))
    with_info (λ i. amounts 32 64 96 bs (record i { bind = n.text_of bind }))
    set_token_id
  parse_swapout2 _ log_data = fail (token TokenError.tx_with_wrong_topics)

  unfoldable pub parse_swapout_and_call : List Bytes → Option Bytes → Exec Verifying (Unit {0})
  unfolding set_token_id bytes_to_address
  parse_swapout_and_call (_ ∷ t1 ∷ t2 ∷ []) log_data = do
    bs ← lift (data_of log_data)
    if ltb (length bs) 288 then fail parse_data_error else pure tt
    with_erc20 (λ e. record e { token = address_text t1 })
    with_info (λ i. record i { from = address_text t2 })
    bind ← lift (of_parsed (parse_bytes_in_data bs 0))
    with_info (λ i. amounts 32 64 96 bs (record i { bind = n.text_of bind }))
    call_proxy ← lift (of_parsed (parse_bytes_in_data bs 128))
    with_erc20 (λ e. record e { call_proxy = n.text_of call_proxy })
    call_data ← lift (of_parsed (parse_bytes_in_data bs 160))
    with_erc20 (λ e. record e { call_data = some call_data })
    set_token_id
  parse_swapout_and_call _ log_data = fail (token TokenError.tx_with_wrong_topics)

  abbrev pub or_fail : {A : Type 0} → GoError → Option A → Result A
  or_fail e none = err e
  or_fail e (some a) = ok a

  abbrev pub last_of : String → List String → String
  last_of p [] = p
  last_of p (q ∷ ps) = last_of q ps

  unfoldable pub native_checked : Bool → SwapRouterInfo → String → Exec Verifying (Unit {0})
  native_checked for_native r last =
      let w_native = hex_to_address r.router_w_native in
      if not for_native
      then pure tt
      else if is_zero w_native
      then fail (token TokenError.swap_trade_not_support)
      else if not (same_bytes w_native (hex_to_address last))
      then fail (token TokenError.tx_with_wrong_path)
      else pure tt

  unfoldable pub pair_error : Result String → Option GoError
  pair_error (ok pairs) =
      if str_eq pairs "" then some (token TokenError.tx_with_wrong_path) else none
  pair_error (err e) =
      if is_rpc_query_or_not_found_error (some e)
      then some e
      else some (token TokenError.tx_with_wrong_path)

  -- The pairs of the neighbours of the path
  unfoldable pub pairs_checked :
      (ℕ → String → String → String → Result String)
      → String
      → String
      → List String
      → Exec Verifying (Unit {0})
  unfolding pair_error tick
  pairs_checked get_pair_for factory p [] = pure tt
  pairs_checked get_pair_for factory p (q ∷ ps) = do
    t ← tick
    elim (pair_error (get_pair_for t factory p q)) [
      | some e ↦ fail e
      | none ↦ pairs_checked get_pair_for factory q ps
    ]

  unfoldable pub path_checked :
      ChainBridge → String → TokenConfig → Bool → List String → Exec Verifying (Unit {0})
  unfolding native_checked pairs_checked
  path_checked dst multichain_token cfg for_native (p ∷ q ∷ ps) = do
    let src = hex_to_address p
    if not (
          same_bytes src (hex_to_address cfg.underlying)
          || same_bytes src (hex_to_address multichain_token))
        then fail (token TokenError.tx_with_wrong_path)
        else pure tt
    let router_contract = get_router_contract dst multichain_token
    if str_eq router_contract "" then fail (token TokenError.miss_router_info) else pure tt
    r ← lift (or_fail (token TokenError.miss_router_info) (get_router_info n router_contract))
    native_checked for_native r (last_of q ps)
    if is_zero (hex_to_address r.router_factory)
        then fail (token TokenError.swap_trade_not_support)
        else pure tt
    get_pair_for ← lift (or_fail (token TokenError.swap_trade_not_support) dst.get_pair_for)
    pairs_checked get_pair_for r.router_factory p (q ∷ ps)
  path_checked dst multichain_token cfg for_native _ = fail (token TokenError.tx_with_wrong_path)

  unfoldable pub check_swap_trade_path : Exec Verifying (Unit {0})
  unfolding path_checked
  check_swap_trade_path w =
      (do
        let dst_chain_id = decimal w.info.to_chain_id
        dst ← lift (
            or_fail (token TokenError.no_bridge_for_chain_id)
              (get_bridge_by_chain_id n dst_chain_id))
        let multichain_token = get_cached_multichain_token n w.erc20.token_id dst_chain_id
        if str_eq multichain_token "" then fail (token TokenError.miss_token_config) else pure tt
        cfg ←
            lift
              (or_fail (token TokenError.miss_token_config) (get_token_config dst multichain_token))
        path_checked dst multichain_token cfg w.erc20.for_native w.erc20.path)
        w

  unfoldable pub with_path : List Bytes → Bytes → Exec Verifying (Unit {0})
  unfolding set_token_id
  with_path (a ∷ x ∷ y ∷ rest) bs = do
    with_info (λ i. record i { value = some (get_big_int bs 32 32) })
    with_erc20 (λ e. record e { amount_out_min = some (pos (get_big_int bs 64 32)) })
    with_info
        (λ i. record i { from_chain_id = from_chain 96 bs; to_chain_id = get_big_int bs 128 32 })
    with_erc20 (λ e. record e { token = lower_hex a; path = map lower_hex (x ∷ y ∷ rest) })
    set_token_id
    check_swap_trade_path
  with_path _ bs = fail (token TokenError.tx_with_wrong_path)

  unfoldable pub parse_trade_topics : Bool → List Bytes → Option Bytes → Exec Verifying (Unit {0})
  unfolding with_path bytes_to_address
  parse_trade_topics for_native (_ ∷ t1 ∷ t2 ∷ []) log_data = do
    bs ← lift (data_of log_data)
    if ltb (length bs) 192 then fail parse_data_error else pure tt
    with_erc20 (λ e. record e { for_native = for_native })
    with_info (λ i. record i { from = address_text t1; bind = address_text t2 })
    path ← lift (of_parsed (parse_address_slice_in_data n.room bs 0))
    with_path path bs
  parse_trade_topics for_native _ log_data = fail (token TokenError.tx_with_wrong_topics)

  unfoldable pub parse_swap_trade : Bool → List Bytes → Option Bytes → Exec Verifying (Unit {0})
  unfolding parse_trade_topics
  parse_swap_trade for_native topics log_data =
      if not n.params.enable_swap_trade
      then fail (token TokenError.swap_trade_not_support)
      else parse_trade_topics for_native topics log_data

  -- The parser of the first topic's kind; a log without topics panics.
  unfoldable pub parse_by_topic : Log → Bytes → Exec Verifying (Unit {0})
  parse_by_topic l t0 =
      if same_bytes t0 log_any_swap_out_topic
      then parse_swapout l.topics l.log_data
      else if same_bytes t0 log_any_swap_out2_topic
      then parse_swapout2 l.topics l.log_data
      else if same_bytes t0 log_any_swap_out_and_call_topic
      then parse_swapout_and_call l.topics l.log_data
      else if same_bytes t0 log_any_swap_trade_tokens_for_tokens_topic
      then parse_swap_trade false l.topics l.log_data
      else if same_bytes t0 log_any_swap_trade_tokens_for_native_topic
      then parse_swap_trade true l.topics l.log_data
      else fail (token TokenError.swapout_log_not_found)

  abbrev pub first_topic : List Bytes → Result Bytes
  first_topic [] = err panicked
  first_topic (t0 ∷ _) = ok t0

  abbrev pub is_removed : Option Bool → Bool
  is_removed none = false
  is_removed (some r) = r

  -- The log is not removed, and is one of the router contract of its token.
  unfoldable pub check_log_source : Log → Exec Verifying (Unit {0})
  check_log_source l w =
      (let router_contract = get_router_contract b w.erc20.token in
          if is_removed l.removed
          then fail (token TokenError.tx_with_removed_log)
          else if str_eq router_contract ""
          then fail (token TokenError.miss_router_info)
          else if not (equal_fold (lower_hex l.address) router_contract)
          then fail (token TokenError.tx_with_wrong_contract)
          else pure tt)
        w

  unfoldable pub verify_erc20_swap_tx_log : Log → Exec Verifying (Unit {0})
  verify_erc20_swap_tx_log l = do
    with_info (λ i. record i { to = lower_hex l.address })
    t0 ← lift (first_topic l.topics)
    parse_by_topic l t0
    check_log_source l

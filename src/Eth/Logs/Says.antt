-- ===== src/Eth/Logs/Says.antt =====
-- What the log of a swap says: the events of the router contract, field by field.
use check_tx_server.Common.{
  ℕ, String, ◌≤◌, ◌≡◌, ◌⊎◌, true, false, Bool, Option, some, List, [], ◌∷◌, length, map,
}
use check_tx_server.Tokens.{SwapTxInfo}
use check_tx_server.Tokens.Payload.{Erc20Info, no_info}
use check_tx_server.Abi.Bytes.{Bytes, get_big_int}
use check_tx_server.Abi.Parse.{Parsed, parse_bytes_in_data, parse_address_slice_in_data}
use check_tx_server.Hex.{pos}
use check_tx_server.Eth.{Log, ChainBridge, Net, same_bytes, lower_hex}
use check_tx_server.Eth.Logs.{
  address_text, from_chain, log_any_swap_out_topic, log_any_swap_out2_topic,
  log_any_swap_out_and_call_topic, log_any_swap_trade_tokens_for_tokens_topic,
  log_any_swap_trade_tokens_for_native_topic,
}

-- The swap is one of `value` of the token, from the sender to the receiver, between the two chains.
abbrev pub Says : SwapTxInfo → Erc20Info → String → String → String → ℕ → ℕ → ℕ → Type 0
Says i e token sender receiver value source destination =
    (e.token ≡ token)
    × (i.from ≡ sender)
    × (i.bind ≡ receiver)
    × (i.value ≡ some value)
    × (i.from_chain_id ≡ source)
    × (i.to_chain_id ≡ destination)

-- The swap without what it carries, which is put together after the log is read
abbrev pub bare : SwapTxInfo → SwapTxInfo
bare i = record i { swap_info = no_info }

module _ (n : Net) (b : ChainBridge) where
  -- LogAnySwapOut(token, from, to; amount, fromChainID, toChainID)
  abbrev pub SaysOut : List Bytes → Option Bytes → SwapTxInfo → Erc20Info → Type 0
  SaysOut (t0 ∷ t1 ∷ t2 ∷ t3 ∷ []) (some bs) i e =
      (length bs ≡ 96)
      × Says i e (address_text t1) (address_text t2) (address_text t3) (get_big_int bs 0 32)
          (from_chain n b 32 bs) (get_big_int bs 64 32)
  SaysOut _ _ i e = ⊥

  -- LogAnySwapOut(token, from; to, amount, fromChainID, toChainID), with a text as the receiver
  abbrev pub SaysOut2 : List Bytes → Option Bytes → SwapTxInfo → Erc20Info → Type 0
  SaysOut2 (t0 ∷ t1 ∷ t2 ∷ []) (some bs) i e =
      (160 ≤ length bs)
      × (receiver : Bytes) × (parse_bytes_in_data bs 0 ≡ Parsed.parsed receiver)
      × Says i e (address_text t1) (address_text t2) (n.text_of receiver) (get_big_int bs 32 32)
          (from_chain n b 64 bs) (get_big_int bs 96 32)
  SaysOut2 _ _ i e = ⊥

  -- LogAnySwapOutAndCall: the same, with the proxy that is called, and with what
  abbrev pub SaysCall : List Bytes → Option Bytes → SwapTxInfo → Erc20Info → Type 0
  SaysCall (t0 ∷ t1 ∷ t2 ∷ []) (some bs) i e =
      (288 ≤ length bs)
      × (receiver proxy called : Bytes) × (parse_bytes_in_data bs 0 ≡ Parsed.parsed receiver)
      × (parse_bytes_in_data bs 128 ≡ Parsed.parsed proxy)
      × (parse_bytes_in_data bs 160 ≡ Parsed.parsed called)
      × Says i e (address_text t1) (address_text t2) (n.text_of receiver) (get_big_int bs 32 32)
          (from_chain n b 64 bs) (get_big_int bs 96 32)
      × (e.call_proxy ≡ n.text_of proxy)
      × (e.call_data ≡ some called)
  SaysCall _ _ i e = ⊥

  -- LogAnySwapTradeTokensForTokens and ForNative(from, to; path, amountIn, amountOutMin, fromChainID,
  -- toChainID): the token is the first of the path.
  abbrev pub SaysTrade : Bool → List Bytes → Option Bytes → SwapTxInfo → Erc20Info → Type 0
  SaysTrade for_native (t0 ∷ t1 ∷ t2 ∷ []) (some bs) i e =
      (192 ≤ length bs)
      × (a x y : Bytes) × (rest : List Bytes) × (parse_address_slice_in_data n.room bs 0
          ≡ Parsed.parsed (a ∷ x ∷ y ∷ rest))
      × Says i e (lower_hex a) (address_text t1) (address_text t2) (get_big_int bs 32 32)
          (from_chain n b 96 bs) (get_big_int bs 128 32)
      × (e.path ≡ map lower_hex (x ∷ y ∷ rest))
      × (e.amount_out_min ≡ some (pos (get_big_int bs 64 32)))
      × (e.for_native ≡ for_native)
  SaysTrade for_native _ _ i e = ⊥

  -- One of the five events, by the first topic
  abbrev pub SaysBy : Bytes → List Bytes → Option Bytes → SwapTxInfo → Erc20Info → Type 0
  SaysBy t0 topics bs i e =
      ((same_bytes t0 log_any_swap_out_topic ≡ true) × SaysOut topics bs i e)
      ⊎ ((same_bytes t0 log_any_swap_out2_topic ≡ true) × SaysOut2 topics bs i e)
      ⊎ ((same_bytes t0 log_any_swap_out_and_call_topic ≡ true) × SaysCall topics bs i e)
      ⊎ ((same_bytes t0 log_any_swap_trade_tokens_for_tokens_topic ≡ true)
          × SaysTrade false topics bs i e)
      ⊎ ((same_bytes t0 log_any_swap_trade_tokens_for_native_topic ≡ true)
          × SaysTrade true topics bs i e)

  abbrev pub LogSays : Log → SwapTxInfo → Erc20Info → Type 0
  LogSays l i e =
      (t0 : Bytes) × (rest : List Bytes) × (l.topics ≡ t0 ∷ rest)
      × SaysBy t0 l.topics l.log_data (bare i) e

-- ===== src/Eth/Verify/Named/Trade.antt =====
-- So do the parsers of a trade, and the choice of a parser by the first topic.
use check_tx_server.Common.{
  refl, ltb, Bool, true, false, not, Option, some, List, [], ◌∷◌, length, map,
}
use check_tx_server.Errors.{TokenError, token}
use check_tx_server.Exec.Within.{Within, Within-check, Within-lift, Within-either, Within-fail}
use check_tx_server.Abi.Bytes.{Bytes, get_big_int}
use check_tx_server.Hex.{pos}
use check_tx_server.Abi.Parse.{parse_address_slice_in_data}
use check_tx_server.Eth.{Log, ChainBridge, Net, same_bytes, lower_hex, parse_data_error, of_parsed}
use check_tx_server.Eth.Logs.{
  data_of, address_text, from_chain, with_path, parse_trade_topics, parse_swap_trade,
  parse_by_topic, log_any_swap_out_topic, log_any_swap_out2_topic, log_any_swap_out_and_call_topic,
  log_any_swap_trade_tokens_for_tokens_topic, log_any_swap_trade_tokens_for_native_topic,
}
use check_tx_server.Eth.Verify.Named.{named, Named-tick, Named-then, Named-erc20, Named-info}
use check_tx_server.Eth.Verify.Named.Path.{check_swap_trade_path-Within}
use check_tx_server.Eth.Verify.Named.Parsers.{
  set_token_id-Named, parse_swapout-Named, parse_swapout2-Named, parse_swapout_and_call-Named,
}

module _ (n : Net) (b : ChainBridge) where
  with_path-Named : (path : List Bytes) (bs : Bytes) → Within named (with_path n b path bs)
  unfolding with_path
  with_path-Named (a ∷ x ∷ y ∷ rest) bs =
      Named-then _ _
        (Named-info (λ i. record i { value = some (get_big_int bs 32 32) })
          (λ i. (refl, refl, refl)))
        (Named-then _ _
          (Named-erc20 (λ e. record e { amount_out_min = some (pos (get_big_int bs 64 32)) }))
          (Named-then _ _
            (Named-info
              (λ i. record i {
                from_chain_id = from_chain n b 96 bs;
                to_chain_id = get_big_int bs 128 32;
              })
              (λ i. (refl, refl, refl)))
            (Named-then _ _
              (Named-erc20
                (λ e. record e { token = lower_hex a; path = map lower_hex (x ∷ y ∷ rest) }))
              (Named-then _ _ (set_token_id-Named n b)
                (check_swap_trade_path-Within named Named-tick n b)))))
  with_path-Named [] bs = Within-fail named _
  with_path-Named (_ ∷ []) bs = Within-fail named _
  with_path-Named (_ ∷ _ ∷ []) bs = Within-fail named _

  parse_trade_topics-Named :
      (for_native : Bool) (topics : List Bytes) (log_data : Option Bytes)
      → Within named (parse_trade_topics n b for_native topics log_data)
  unfolding parse_trade_topics
  parse_trade_topics-Named for_native (_ ∷ t1 ∷ t2 ∷ []) log_data =
      Within-lift named (data_of log_data) _ (λ bs.
        Within-check named (ltb (length bs) 192) parse_data_error _ (
          Named-then _ _ (Named-erc20 (λ e. record e { for_native = for_native })) (
            Named-then _ _
              (Named-info (λ i. record i { from = address_text t1; bind = address_text t2 })
                (λ i. (refl, refl, refl)))
              (Within-lift named (of_parsed (parse_address_slice_in_data n.room bs 0)) _
                (λ path. with_path-Named path bs)))))
  parse_trade_topics-Named for_native [] log_data = Within-fail named _
  parse_trade_topics-Named for_native (_ ∷ []) log_data = Within-fail named _
  parse_trade_topics-Named for_native (_ ∷ _ ∷ []) log_data = Within-fail named _
  parse_trade_topics-Named for_native (_ ∷ _ ∷ _ ∷ _ ∷ _) log_data = Within-fail named _

  parse_swap_trade-Named :
      (for_native : Bool) (topics : List Bytes) (log_data : Option Bytes)
      → Within named (parse_swap_trade n b for_native topics log_data)
  unfolding parse_swap_trade
  parse_swap_trade-Named for_native topics log_data =
      Within-either named (not n.params.enable_swap_trade) _ _
        (Within-fail named (token TokenError.swap_trade_not_support))
        (parse_trade_topics-Named for_native topics log_data)

  pub parse_by_topic-Named : (l : Log) (t0 : Bytes) → Within named (parse_by_topic n b l t0)
  unfolding parse_by_topic
  parse_by_topic-Named l t0 =
      Within-either named (same_bytes t0 log_any_swap_out_topic) _ _
        (parse_swapout-Named n b l.topics l.log_data)
        (Within-either named (same_bytes t0 log_any_swap_out2_topic) _ _
          (parse_swapout2-Named n b l.topics l.log_data)
          (Within-either named (same_bytes t0 log_any_swap_out_and_call_topic) _ _
            (parse_swapout_and_call-Named n b l.topics l.log_data)
            (Within-either named (same_bytes t0 log_any_swap_trade_tokens_for_tokens_topic) _ _
              (parse_swap_trade-Named false l.topics l.log_data)
              (Within-either named (same_bytes t0 log_any_swap_trade_tokens_for_native_topic) _ _
                (parse_swap_trade-Named true l.topics l.log_data)
                (Within-fail named (token TokenError.swapout_log_not_found))))))

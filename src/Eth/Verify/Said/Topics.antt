-- ===== src/Eth/Verify/Said/Topics.antt =====
-- The parsers of a trade, and the choice of a parser by the first topic.
use check_tx_server.Common.{
  ltb, ◌≡◌, refl, ap, ◌∙◌, inl, inr, Bool, true, false, not, Option, none, some, List, [], ◌∷◌,
  length, map, arith,
}
use check_tx_server.Exec.{Exec}
use check_tx_server.Exec.Within.{Within-bind}
use check_tx_server.Exec.Ends.{Ends, Ends-fail, Ends-either, Ends-check, Ends-lift, Ends-framed}
use check_tx_server.Abi.Bytes.{Bytes, get_big_int}
use check_tx_server.Abi.Parse.{Parsed, parse_address_slice_in_data}
use check_tx_server.Hex.{pos}
use check_tx_server.Eth.{
  Log, ChainBridge, Net, Verifying, same_bytes, lower_hex, parse_data_error, of_parsed,
}
use check_tx_server.Eth.Logs.{
  address_text, from_chain, set_token_id, check_swap_trade_path, with_path, parse_trade_topics,
  parse_swap_trade, parse_by_topic, log_any_swap_out_topic, log_any_swap_out2_topic,
  log_any_swap_out_and_call_topic, log_any_swap_trade_tokens_for_tokens_topic,
  log_any_swap_trade_tokens_for_native_topic,
}
use check_tx_server.Eth.Logs.Says.{bare, SaysTrade, SaysBy}
use check_tx_server.Eth.Verify.Named.Path.{check_swap_trade_path-Within}
use check_tx_server.Eth.Verify.Said.{
  titled, Titled-tick, Says-titled, of_parsed-ok, Ends-info, Ends-erc20, set_token_id-Titled,
  parse_swapout-Says, parse_swapout2-Says, parse_swapout_and_call-Says,
}

module _ (n : Net) (b : ChainBridge) where
  path_found :
      (for_native : Bool) (t0 t1 t2 bs : Bytes) (path : List Bytes) (w : Verifying)
      → ltb (length bs) 192 ≡ false
      → parse_address_slice_in_data n.room bs 0 ≡ Parsed.parsed path
      → w.info.from ≡ address_text t1
      → w.info.bind ≡ address_text t2
      → w.erc20.for_native ≡ for_native
      → Ends
          (λ v. SaysTrade n b for_native (t0 ∷ t1 ∷ t2 ∷ []) (some bs) (bare v.info) v.erc20)
          (with_path n b path bs)
          w
  unfolding with_path
  path_found for_native t0 t1 t2 bs (a ∷ x ∷ y ∷ rest) w sized parsed sender receiver native =
      let Q = λ (v : Verifying).
        SaysTrade n b for_native (t0 ∷ t1 ∷ t2 ∷ []) (some bs) (bare v.info) v.erc20 in
      Ends-info Q (λ i. record i { value = some (get_big_int bs 32 32) }) _ w
        (Ends-erc20 Q (λ e. record e { amount_out_min = some (pos (get_big_int bs 64 32)) }) _ _
          (Ends-info Q
            (λ i. record i {
              from_chain_id = from_chain n b 96 bs;
              to_chain_id = get_big_int bs 128 32;
            })
            _ _
            (Ends-erc20 Q
              (λ e. record e { token = lower_hex a; path = map lower_hex (x ∷ y ∷ rest) }) _ _
              (Ends-framed Q titled _ _
                (Within-bind titled (λ _. check_swap_trade_path n b) (set_token_id n b)
                  (set_token_id-Titled n b)
                  (λ _. check_swap_trade_path-Within titled Titled-tick n b))
                (λ s t moved (size, a', x', y', rest', at, says, along, least, kind). (
                  size,
                  a',
                  x',
                  y',
                  rest',
                  at,
                  Says-titled s t _ _ _ _ _ _ moved says,
                  ap (λ e. e.path) moved.1 ∙ along,
                  ap (λ e. e.amount_out_min) moved.1 ∙ least,
                  ap (λ e. e.for_native) moved.1 ∙ kind,
                ))
                (
                  ground (arith, sized),
                  a,
                  x,
                  y,
                  rest,
                  parsed,
                  (refl, sender, receiver, refl, refl, refl),
                  refl,
                  refl,
                  native,
                )))))
  path_found for_native t0 t1 t2 bs [] w sized parsed sender receiver native = Ends-fail _ _ w
  path_found for_native t0 t1 t2 bs (_ ∷ []) w sized parsed sender receiver native = Ends-fail _ _ w
  path_found for_native t0 t1 t2 bs (_ ∷ _ ∷ []) w sized parsed sender receiver native =
      Ends-fail _ _ w

  parse_trade_topics-Says :
      (for_native : Bool) (topics : List Bytes) (o : Option Bytes) (w : Verifying)
      → Ends
          (λ v. SaysTrade n b for_native topics o (bare v.info) v.erc20)
          (parse_trade_topics n b for_native topics o)
          w
  unfolding parse_trade_topics
  parse_trade_topics-Says for_native (t0 ∷ t1 ∷ t2 ∷ []) none w = record {
    ends = λ h. absurd (ground (arith, h));
  }
  parse_trade_topics-Says for_native (t0 ∷ t1 ∷ t2 ∷ []) (some bs) w =
      let Q = λ (v : Verifying).
        SaysTrade n b for_native (t0 ∷ t1 ∷ t2 ∷ []) (some bs) (bare v.info) v.erc20 in
      Ends-check Q (ltb (length bs) 192) parse_data_error _ w (λ sized.
        Ends-erc20 Q (λ e. record e { for_native = for_native }) _ w
          (Ends-info Q (λ i. record i { from = address_text t1; bind = address_text t2 }) _ _
            (Ends-lift Q (of_parsed (parse_address_slice_in_data n.room bs 0)) _ _ (λ path given.
              path_found for_native t0 t1 t2 bs path _ sized (of_parsed-ok _ _ given) refl refl
                refl))))
  parse_trade_topics-Says for_native [] o w = Ends-fail _ _ w
  parse_trade_topics-Says for_native (_ ∷ []) o w = Ends-fail _ _ w
  parse_trade_topics-Says for_native (_ ∷ _ ∷ []) o w = Ends-fail _ _ w
  parse_trade_topics-Says for_native (_ ∷ _ ∷ _ ∷ _ ∷ _) o w = Ends-fail _ _ w

  parse_swap_trade-Says :
      (for_native : Bool) (topics : List Bytes) (o : Option Bytes) (w : Verifying)
      → Ends
          (λ v. SaysTrade n b for_native topics o (bare v.info) v.erc20)
          (parse_swap_trade n b for_native topics o)
          w
  unfolding parse_swap_trade
  parse_swap_trade-Says for_native topics o w =
      let Q = λ (v : Verifying). SaysTrade n b for_native topics o (bare v.info) v.erc20 in
      Ends-either Q (not n.params.enable_swap_trade) _ _ w (λ _. Ends-fail Q _ w)
        (λ _. parse_trade_topics-Says for_native topics o w)

  -- What an action ends in may be said in other words.
  weaker :
      (P Q : Verifying → Type 0) (m : Exec Verifying (Unit {0})) (w : Verifying)
      → ((v : Verifying) → P v → Q v)
      → Ends P m w
      → Ends Q m w
  weaker P Q m w so e = record { ends = λ h. so _ (e.ends h) }

  pub parse_by_topic-Says :
      (l : Log) (t0 : Bytes) (w : Verifying)
      → Ends
          (λ v. SaysBy n b t0 l.topics l.log_data (bare v.info) v.erc20)
          (parse_by_topic n b l t0)
          w
  unfolding parse_by_topic
  parse_by_topic-Says l t0 w =
      let Q = λ (v : Verifying). SaysBy n b t0 l.topics l.log_data (bare v.info) v.erc20 in
      Ends-either Q (same_bytes t0 log_any_swap_out_topic) _ _ w
        (λ is. weaker _ Q _ w (λ v s. inl (is, s)) (parse_swapout-Says n b l.topics l.log_data w))
        (λ _.
          Ends-either Q (same_bytes t0 log_any_swap_out2_topic) _ _ w
            (λ is.
              weaker _ Q _ w (λ v s. inr (inl (is, s)))
                (parse_swapout2-Says n b l.topics l.log_data w))
            (λ _.
              Ends-either Q (same_bytes t0 log_any_swap_out_and_call_topic) _ _ w
                (λ is.
                  weaker _ Q _ w (λ v s. inr (inr (inl (is, s))))
                    (parse_swapout_and_call-Says n b l.topics l.log_data w))
                (λ _.
                  Ends-either Q (same_bytes t0 log_any_swap_trade_tokens_for_tokens_topic) _ _ w
                    (λ is.
                      weaker _ Q _ w (λ v s. inr (inr (inr (inl (is, s)))))
                        (parse_swap_trade-Says false l.topics l.log_data w))
                    (λ _.
                      Ends-either Q (same_bytes t0 log_any_swap_trade_tokens_for_native_topic) _ _ w
                        (λ is.
                          weaker _ Q _ w (λ v s. inr (inr (inr (inr (is, s)))))
                            (parse_swap_trade-Says true l.topics l.log_data w))
                        (λ _. Ends-fail Q _ w)))))

-- ===== src/Eth/Verify/Said.antt =====
-- A parser that returns has read the swap as the log says it.
pub mod Topics
use check_tx_server.Common.{
  ℕ, String, ltb, ◌==◌, ==_iff, ◌≡◌, refl, ap, ◌∙◌, inl, inr, Bool, true, false, not, Option, none,
  some, List, [], ◌∷◌, length, map, arith,
}
use check_tx_server.Errors.{TokenError, token}
use check_tx_server.Exec.{ok, Exec, ◌>>◌}
use check_tx_server.Exec.Within.{Frame, Within, Within-bind, Within-fail}
use check_tx_server.Exec.Ends.{
  Ends, Ends-fail, Ends-either, Ends-check, Ends-lift, Ends-modify, Ends-framed,
}
use check_tx_server.Tokens.{SwapTxInfo}
use check_tx_server.Tokens.Payload.{Erc20Info}
use check_tx_server.Abi.Bytes.{Bytes, get_big_int}
use check_tx_server.Abi.Parse.{Parsed, parse_bytes_in_data, parse_address_slice_in_data}
use check_tx_server.Hex.{pos}
use check_tx_server.Eth.{
  Log, ChainBridge, TokenConfig, Net, Verifying, tick, same_bytes, lower_hex, get_token_config,
  parse_data_error, of_parsed,
}
use check_tx_server.Eth.Logs.{
  data_of, address_text, amounts, from_chain, with_info, with_erc20, with_token_id, set_token_id,
  parse_swapout, parse_swapout2, parse_swapout_and_call, check_swap_trade_path, with_path,
  parse_trade_topics, parse_swap_trade, parse_by_topic, log_any_swap_out_topic,
  log_any_swap_out2_topic, log_any_swap_out_and_call_topic,
  log_any_swap_trade_tokens_for_tokens_topic, log_any_swap_trade_tokens_for_native_topic,
}
use check_tx_server.Eth.Logs.Says.{bare, Says, SaysOut, SaysOut2, SaysCall, SaysTrade, SaysBy}
use check_tx_server.Eth.Verify.Named.Path.{check_swap_trade_path-Within}

abbrev untitled : Erc20Info → Erc20Info
untitled e = record e { token_id = "" }

-- What changes no more of the swap than its token id
abbrev titled : Frame Verifying
titled = record {
  Moves = λ s t. (t.info ≡ s.info) × (untitled t.erc20 ≡ untitled s.erc20);
  still = λ s. (refl, refl);
  and_then = λ s t v a b. (b.0 ∙ a.0, b.1 ∙ a.1);
}

Titled-tick : Within titled tick
unfolding tick
Titled-tick = record { moves = λ s. (refl, refl) }

Says-titled :
    (s t : Verifying) (coin sender receiver : String) (value source destination : ℕ)
    → titled.Moves s t
    → Says s.info s.erc20 coin sender receiver value source destination
    → Says t.info t.erc20 coin sender receiver value source destination
Says-titled s t coin sender receiver value source destination (i, e) (k, f, r, v, c, d) = (
  ap (λ x. x.token) e ∙ k,
  ap (λ x. x.from) i ∙ f,
  ap (λ x. x.bind) i ∙ r,
  ap (λ x. x.value) i ∙ v,
  ap (λ x. x.from_chain_id) i ∙ c,
  ap (λ x. x.to_chain_id) i ∙ d,
)

of_parsed-ok : {A : Type 0} (p : Parsed A) (a : A) → of_parsed p ≡ ok a → p ≡ Parsed.parsed a
of_parsed-ok (Parsed.parsed x) a h = ap (λ y. Parsed.parsed y) (ground (arith, h))
of_parsed-ok Parsed.parse_error a h = absurd (ground (arith, h))
of_parsed-ok Parsed.panicked a h = absurd (ground (arith, h))

data_of-ok : (o : Option Bytes) (bs : Bytes) → data_of o ≡ ok bs → o ≡ some bs
data_of-ok none bs h = absurd (ground (arith, h))
data_of-ok (some x) bs h = ap (λ y. some y) (ground (arith, h))

module _ (Q : Verifying → Type 0) where
  Ends-info :
      (f : SwapTxInfo → SwapTxInfo) (m : Exec Verifying (Unit {0})) (w : Verifying)
      → Ends Q m (record w { info = f w.info })
      → Ends Q (with_info f >> m) w
  Ends-info f m w next = Ends-modify Q (λ v. record v { info = f v.info }) m w next

  Ends-erc20 :
      (f : Erc20Info → Erc20Info) (m : Exec Verifying (Unit {0})) (w : Verifying)
      → Ends Q m (record w { erc20 = f w.erc20 })
      → Ends Q (with_erc20 f >> m) w
  Ends-erc20 f m w next = Ends-modify Q (λ v. record v { erc20 = f v.erc20 }) m w next

module _ (n : Net) (b : ChainBridge) where
  with_token_id-Titled : (o : Option TokenConfig) → Within titled (with_token_id n b o)
  unfolding with_token_id
  with_token_id-Titled none = Within-fail titled (token TokenError.miss_token_config)
  with_token_id-Titled (some c) = record { moves = λ s. (refl, refl) }

  set_token_id-Titled : Within titled (set_token_id n b)
  unfolding set_token_id
  set_token_id-Titled = record {
    moves = λ w. (with_token_id-Titled (get_token_config b w.erc20.token)).moves w;
  }

  parse_swapout-Says :
      (topics : List Bytes) (o : Option Bytes) (w : Verifying)
      → Ends (λ v. SaysOut n b topics o (bare v.info) v.erc20) (parse_swapout n b topics o) w
  unfolding parse_swapout
  parse_swapout-Says (t0 ∷ t1 ∷ t2 ∷ t3 ∷ []) none w = record {
    ends = λ h. absurd (ground (arith, h));
  }
  parse_swapout-Says (t0 ∷ t1 ∷ t2 ∷ t3 ∷ []) (some bs) w =
      let Q =
        λ (v : Verifying). SaysOut n b (t0 ∷ t1 ∷ t2 ∷ t3 ∷ []) (some bs) (bare v.info) v.erc20 in
      Ends-check Q (not (length bs == 96)) parse_data_error _ w (λ sized.
        Ends-erc20 Q (λ e. record e { token = address_text t1 }) _ w
          (Ends-info Q
            (λ i.
              amounts n b 0 32 64 bs (record i { from = address_text t2; bind = address_text t3 }))
            _ _
            (Ends-framed Q titled _ _ set_token_id-Titled
              (λ s t moved (size, says). (size, Says-titled s t _ _ _ _ _ _ moved says))
              ((==_iff _ _).0 (ground (arith, sized)), (refl, refl, refl, refl, refl, refl)))))
  parse_swapout-Says [] o w = Ends-fail _ _ w
  parse_swapout-Says (_ ∷ []) o w = Ends-fail _ _ w
  parse_swapout-Says (_ ∷ _ ∷ []) o w = Ends-fail _ _ w
  parse_swapout-Says (_ ∷ _ ∷ _ ∷ []) o w = Ends-fail _ _ w
  parse_swapout-Says (_ ∷ _ ∷ _ ∷ _ ∷ _ ∷ _) o w = Ends-fail _ _ w

  parse_swapout2-Says :
      (topics : List Bytes) (o : Option Bytes) (w : Verifying)
      → Ends (λ v. SaysOut2 n b topics o (bare v.info) v.erc20) (parse_swapout2 n b topics o) w
  unfolding parse_swapout2
  parse_swapout2-Says (t0 ∷ t1 ∷ t2 ∷ []) none w = record { ends = λ h. absurd (ground (arith, h)) }
  parse_swapout2-Says (t0 ∷ t1 ∷ t2 ∷ []) (some bs) w =
      let Q = λ (v : Verifying). SaysOut2 n b (t0 ∷ t1 ∷ t2 ∷ []) (some bs) (bare v.info) v.erc20 in
      Ends-check Q (ltb (length bs) 160) parse_data_error _ w (λ sized.
        Ends-erc20 Q (λ e. record e { token = address_text t1 }) _ w
          (Ends-info Q (λ i. record i { from = address_text t2 }) _ _
            (Ends-lift Q (of_parsed (parse_bytes_in_data bs 0)) _ _ (λ receiver given.
              Ends-info Q (λ i. amounts n b 32 64 96 bs (record i { bind = n.text_of receiver })) _
                _
                (Ends-framed Q titled _ _ set_token_id-Titled
                  (λ s t moved (size, r, parsed, says).
                    (size, r, parsed, Says-titled s t _ _ _ _ _ _ moved says))
                  (
                    ground (arith, sized),
                    receiver,
                    of_parsed-ok _ _ given,
                    (refl, refl, refl, refl, refl, refl),
                  ))))))
  parse_swapout2-Says [] o w = Ends-fail _ _ w
  parse_swapout2-Says (_ ∷ []) o w = Ends-fail _ _ w
  parse_swapout2-Says (_ ∷ _ ∷ []) o w = Ends-fail _ _ w
  parse_swapout2-Says (_ ∷ _ ∷ _ ∷ _ ∷ _) o w = Ends-fail _ _ w

  parse_swapout_and_call-Says :
      (topics : List Bytes) (o : Option Bytes) (w : Verifying)
      → Ends
          (λ v. SaysCall n b topics o (bare v.info) v.erc20)
          (parse_swapout_and_call n b topics o)
          w
  unfolding parse_swapout_and_call
  parse_swapout_and_call-Says (t0 ∷ t1 ∷ t2 ∷ []) none w = record {
    ends = λ h. absurd (ground (arith, h));
  }
  parse_swapout_and_call-Says (t0 ∷ t1 ∷ t2 ∷ []) (some bs) w =
      let Q = λ (v : Verifying). SaysCall n b (t0 ∷ t1 ∷ t2 ∷ []) (some bs) (bare v.info) v.erc20 in
      Ends-check Q (ltb (length bs) 288) parse_data_error _ w (λ sized.
        Ends-erc20 Q (λ e. record e { token = address_text t1 }) _ w
          (Ends-info Q (λ i. record i { from = address_text t2 }) _ _
            (Ends-lift Q (of_parsed (parse_bytes_in_data bs 0)) _ _ (λ receiver given.
              Ends-info Q (λ i. amounts n b 32 64 96 bs (record i { bind = n.text_of receiver })) _
                _
                (Ends-lift Q (of_parsed (parse_bytes_in_data bs 128)) _ _ (λ proxy given'.
                  Ends-erc20 Q (λ e. record e { call_proxy = n.text_of proxy }) _ _
                    (Ends-lift Q (of_parsed (parse_bytes_in_data bs 160)) _ _ (λ called given''.
                      Ends-erc20 Q (λ e. record e { call_data = some called }) _ _
                        (Ends-framed Q titled _ _ set_token_id-Titled
                          (λ s t moved (size, r, p, c, at, at', at'', says, to, with_data). (
                            size,
                            r,
                            p,
                            c,
                            at,
                            at',
                            at'',
                            Says-titled s t _ _ _ _ _ _ moved says,
                            ap (λ x. x.call_proxy) moved.1 ∙ to,
                            ap (λ x. x.call_data) moved.1 ∙ with_data,
                          ))
                          (
                            ground (arith, sized),
                            receiver,
                            proxy,
                            called,
                            of_parsed-ok _ _ given,
                            of_parsed-ok _ _ given',
                            of_parsed-ok _ _ given'',
                            (refl, refl, refl, refl, refl, refl),
                            refl,
                            refl,
                          ))))))))))
  parse_swapout_and_call-Says [] o w = Ends-fail _ _ w
  parse_swapout_and_call-Says (_ ∷ []) o w = Ends-fail _ _ w
  parse_swapout_and_call-Says (_ ∷ _ ∷ []) o w = Ends-fail _ _ w
  parse_swapout_and_call-Says (_ ∷ _ ∷ _ ∷ _ ∷ _) o w = Ends-fail _ _ w

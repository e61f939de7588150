-- ===== src/Eth/Verify/Named/Parsers.antt =====
-- So do the parsers of the logs of a plain swap, and of one with a call.
use check_tx_server.Common.{refl, ltb, ◌==◌, not, Option, none, some, List, [], ◌∷◌, length}
use check_tx_server.Errors.{TokenError, token}
use check_tx_server.Exec.Within.{Within, Within-check, Within-lift, Within-fail}
use check_tx_server.Abi.Bytes.{Bytes}
use check_tx_server.Abi.Parse.{parse_bytes_in_data}
use check_tx_server.Eth.{
  ChainBridge, TokenConfig, Net, get_token_config, parse_data_error, of_parsed,
}
use check_tx_server.Eth.Logs.{
  data_of, address_text, amounts, with_token_id, set_token_id, parse_swapout, parse_swapout2,
  parse_swapout_and_call,
}
use check_tx_server.Eth.Verify.Named.{named, Named-then, Named-erc20, Named-info}

module _ (n : Net) (b : ChainBridge) where
  with_token_id-Named : (o : Option TokenConfig) → Within named (with_token_id n b o)
  unfolding with_token_id
  with_token_id-Named none = Within-fail named (token TokenError.miss_token_config)
  with_token_id-Named (some c) = Named-erc20 (λ e. record e { token_id = c.token_id })

  pub set_token_id-Named : Within named (set_token_id n b)
  unfolding set_token_id
  set_token_id-Named = record {
    moves = λ w. (with_token_id-Named (get_token_config b w.erc20.token)).moves w;
  }

  pub parse_swapout-Named :
      (topics : List Bytes) (log_data : Option Bytes)
      → Within named (parse_swapout n b topics log_data)
  unfolding parse_swapout
  parse_swapout-Named (_ ∷ t1 ∷ t2 ∷ t3 ∷ []) log_data =
      Within-lift named (data_of log_data) _ (λ bs.
        Within-check named (not (length bs == 96)) parse_data_error _ (
          Named-then _ _ (Named-erc20 (λ e. record e { token = address_text t1 })) (
            Named-then _ _
              (Named-info
                (λ i.
                  amounts n b 0 32 64 bs
                    (record i { from = address_text t2; bind = address_text t3 }))
                (λ i. (refl, refl, refl)))
              set_token_id-Named)))
  parse_swapout-Named [] log_data = Within-fail named _
  parse_swapout-Named (_ ∷ []) log_data = Within-fail named _
  parse_swapout-Named (_ ∷ _ ∷ []) log_data = Within-fail named _
  parse_swapout-Named (_ ∷ _ ∷ _ ∷ []) log_data = Within-fail named _
  parse_swapout-Named (_ ∷ _ ∷ _ ∷ _ ∷ _ ∷ _) log_data = Within-fail named _

  pub parse_swapout2-Named :
      (topics : List Bytes) (log_data : Option Bytes)
      → Within named (parse_swapout2 n b topics log_data)
  unfolding parse_swapout2
  parse_swapout2-Named (_ ∷ t1 ∷ t2 ∷ []) log_data = Within-lift named (data_of log_data) _ (λ bs.
      Within-check named (ltb (length bs) 160) parse_data_error _ (
        Named-then _ _ (Named-erc20 (λ e. record e { token = address_text t1 })) (
          Named-then _ _
            (Named-info (λ i. record i { from = address_text t2 }) (λ i. (refl, refl, refl)))
            (Within-lift named (of_parsed (parse_bytes_in_data bs 0)) _ (λ bind.
              Named-then _ _
                (Named-info (λ i. amounts n b 32 64 96 bs (record i { bind = n.text_of bind }))
                  (λ i. (refl, refl, refl)))
                set_token_id-Named)))))
  parse_swapout2-Named [] log_data = Within-fail named _
  parse_swapout2-Named (_ ∷ []) log_data = Within-fail named _
  parse_swapout2-Named (_ ∷ _ ∷ []) log_data = Within-fail named _
  parse_swapout2-Named (_ ∷ _ ∷ _ ∷ _ ∷ _) log_data = Within-fail named _

  pub parse_swapout_and_call-Named :
      (topics : List Bytes) (log_data : Option Bytes)
      → Within named (parse_swapout_and_call n b topics log_data)
  unfolding parse_swapout_and_call
  parse_swapout_and_call-Named (_ ∷ t1 ∷ t2 ∷ []) log_data =
      Within-lift named (data_of log_data) _ (λ bs.
        Within-check named (ltb (length bs) 288) parse_data_error _ (
          Named-then _ _ (Named-erc20 (λ e. record e { token = address_text t1 })) (
            Named-then _ _
              (Named-info (λ i. record i { from = address_text t2 }) (λ i. (refl, refl, refl)))
              (Within-lift named (of_parsed (parse_bytes_in_data bs 0)) _ (λ bind.
                Named-then _ _
                  (Named-info (λ i. amounts n b 32 64 96 bs (record i { bind = n.text_of bind }))
                    (λ i. (refl, refl, refl)))
                  (Within-lift named (of_parsed (parse_bytes_in_data bs 128)) _ (λ call_proxy.
                    Named-then _ _
                      (Named-erc20 (λ e. record e { call_proxy = n.text_of call_proxy }))
                      (Within-lift named (of_parsed (parse_bytes_in_data bs 160)) _ (λ call_data.
                        Named-then _ _ (Named-erc20 (λ e. record e { call_data = some call_data }))
                          set_token_id-Named)))))))))
  parse_swapout_and_call-Named [] log_data = Within-fail named _
  parse_swapout_and_call-Named (_ ∷ []) log_data = Within-fail named _
  parse_swapout_and_call-Named (_ ∷ _ ∷ []) log_data = Within-fail named _
  parse_swapout_and_call-Named (_ ∷ _ ∷ _ ∷ _ ∷ _) log_data = Within-fail named _

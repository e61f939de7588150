-- ===== src/Eth/Verify/Fixed.antt =====
-- The checks that leave the swap as it is.
use check_tx_server.Common.{
  String, ◌≡◌, refl, ◌∙◌, false, not, ◌&&◌, Option, none, some, decimal, [], str_eq, equal_fold,
}
use check_tx_server.Errors.{TokenError, token}
use check_tx_server.Exec.{ok, lift}
use check_tx_server.Exec.Within.{
  Frame, Within, Within-pure, Within-bind, Within-check, Within-lift, Within-either, Within-fail,
}
use check_tx_server.Tokens.Value.{check_token_swap_value}
use check_tx_server.Eth.{
  Log, TxReceipt, ChainBridge, TokenConfig, Net, Verifying, tick, hex_to_address, lower_hex,
  is_zero, get_token_config, get_router_contract, get_cached_multichain_token,
  get_bridge_by_chain_id, has_call_by_contract_code_hash_whitelist, dont_check_token_received,
}
use check_tx_server.Eth.Logs.{check_log_source, is_removed}
use check_tx_server.Eth.Received.{
  check_token_received, by_config, received_by, search, enough, backwards,
}
use check_tx_server.Eth.Checks.{
  check_erc20_swap_info, check_call_by_contract, check_swap_with_permit, swap_checked, by_master,
  by_code_hash, payload_error, or_token_error, assembled,
}

-- What leaves the swap as it is
abbrev pub fixed : Frame Verifying
fixed = record {
  Moves = λ s t. (t.info ≡ s.info) × (t.erc20 ≡ s.erc20);
  still = λ s. (refl, refl);
  and_then = λ s t v a b. (b.0 ∙ a.0, b.1 ∙ a.1);
}

Fixed-tick : Within fixed tick
unfolding tick
Fixed-tick = record { moves = λ s. (refl, refl) }

module _ (n : Net) (b : ChainBridge) where
  -- What is left as it is
  by_master-Fixed : (tx_to : String) → Within fixed (by_master n b tx_to)
  unfolding by_master
  by_master-Fixed tx_to =
      Within-either fixed n.params.check_eip1167_master _ _
        (Within-bind fixed _ tick Fixed-tick (λ t. Within-pure fixed (ok _)))
        (Within-pure fixed (ok false))

  by_code_hash-Fixed : (tx_to : String) → Within fixed (by_code_hash n b tx_to)
  unfolding by_code_hash
  by_code_hash-Fixed tx_to =
      Within-either fixed
        (has_call_by_contract_code_hash_whitelist n.params b.chain_config.chain_id) _ _
        (Within-bind fixed _ tick Fixed-tick (λ t. Within-pure fixed (ok _)))
        (Within-pure fixed (ok false))

  pub check_call_by_contract-Fixed : Within fixed (check_call_by_contract n b)
  unfolding check_call_by_contract
  check_call_by_contract-Fixed = record {
    moves = λ w.
        (Within-either fixed _ _ _ (Within-fail fixed _) (
            Within-either fixed _ _ _
              (Within-bind fixed _ (by_master n b w.info.tx_to) (by_master-Fixed w.info.tx_to)
                (λ proxy. Within-either fixed proxy _ _ (Within-pure fixed (ok tt)) (
                  Within-bind fixed _ (by_code_hash n b w.info.tx_to)
                    (by_code_hash-Fixed w.info.tx_to)
                    (λ known.
                      Within-either fixed known _ _ (Within-pure fixed (ok tt))
                        (Within-fail fixed _)))))
              (Within-pure fixed (ok tt)))).moves
          w;
  }

  pub check_swap_with_permit-Fixed : Within fixed (check_swap_with_permit n b)
  unfolding check_swap_with_permit
  check_swap_with_permit-Fixed = record {
    moves = λ w.
        (Within-either fixed n.params.enable_swap_with_permit _ _ (Within-pure fixed (ok tt)) (
            Within-either fixed (not (str_eq w.erc20.call_proxy "")) _ _ (Within-pure fixed (ok tt))
              (Within-either fixed (str_eq (get_router_contract b w.erc20.token) "") _ _
                (Within-fail fixed _)
                (Within-either fixed (equal_fold w.info.tx_to (get_router_contract b w.erc20.token))
                  _ _
                  (Within-bind fixed _ tick Fixed-tick (λ t.
                    Within-bind fixed _ (lift (n.get_payload t w.info.hash)) (Within-pure fixed _)
                      (λ p. Within-pure fixed (payload_error n b p))))
                  (Within-pure fixed (ok tt)))))).moves
          w;
  }

  swap_checked-Fixed : Within fixed (swap_checked n b)
  unfolding swap_checked
  swap_checked-Fixed = record {
    moves = λ w.
        let chain = decimal w.info.to_chain_id in
        let other = get_cached_multichain_token n w.erc20.token_id chain in
        let miss = token TokenError.miss_token_config in
        (Within-check fixed (not (str_eq (decimal w.info.from_chain_id) b.chain_config.chain_id))
            (token TokenError.from_chain_id_mismatch) _
            (Within-lift fixed
              (or_token_error TokenError.miss_token_config (get_token_config b w.erc20.token)) _
              (λ from_cfg. Within-check fixed (str_eq w.erc20.token_id "") miss _ (
                Within-check fixed (str_eq other "") miss _ (
                  Within-lift fixed
                    (or_token_error TokenError.no_bridge_for_chain_id
                      (get_bridge_by_chain_id n chain))
                    _
                    (λ dst.
                      Within-lift fixed
                        (or_token_error TokenError.miss_token_config (get_token_config dst other)) _
                        (λ to_cfg.
                          Within-check fixed
                            (w.erc20.for_underlying && is_zero (hex_to_address to_cfg.underlying))
                            (token TokenError.no_underlying_token) _
                            (Within-check fixed
                              (not (
                                check_token_swap_value n.settings (assembled w) from_cfg.decimals
                                  to_cfg.decimals))
                              (token TokenError.tx_with_wrong_value) _
                              (Within-either fixed (not (dst.is_valid_address w.info.bind)) _ _
                                (Within-fail fixed (token TokenError.wrong_bind_address))
                                (Within-pure fixed (ok tt))))))))))).moves
          w;
  }

  pub check_erc20_swap_info-Fixed : Within fixed (check_erc20_swap_info n b)
  unfolding check_erc20_swap_info
  check_erc20_swap_info-Fixed =
      Within-bind fixed _ (check_call_by_contract n b) check_call_by_contract-Fixed (λ _.
        Within-bind fixed _ (check_swap_with_permit n b) check_swap_with_permit-Fixed
          (λ _. swap_checked-Fixed))

  pub check_log_source-Fixed : (l : Log) → Within fixed (check_log_source n b l)
  unfolding check_log_source
  check_log_source-Fixed l = record {
    moves = λ w.
        (Within-either fixed (is_removed n b l.removed) _ _ (Within-fail fixed _) (
            Within-either fixed (str_eq (get_router_contract b w.erc20.token) "") _ _
              (Within-fail fixed _)
              (Within-either fixed
                (not (equal_fold (lower_hex l.address) (get_router_contract b w.erc20.token))) _ _
                (Within-fail fixed _) (Within-pure fixed (ok tt))))).moves
          w;
  }

  received_by-Fixed :
      (receipt : TxReceipt) (cfg : TokenConfig) → Within fixed (received_by n b receipt cfg)
  unfolding received_by
  received_by-Fixed receipt cfg = record {
    moves = λ w.
        (Within-either fixed (dont_check_token_received n.params w.erc20.token_id) _ _
            (Within-pure fixed (ok tt))
            (Within-either fixed (is_zero (hex_to_address cfg.underlying)) _ _
              (Within-pure fixed (ok tt))
              (Within-either fixed (str_eq (get_router_contract b w.erc20.token) "") _ _
                (Within-fail fixed _)
                (Within-lift fixed
                  (search (get_router_contract b w.erc20.token) cfg.underlying w.info.from
                    (hex_to_address w.erc20.token) (backwards w.info.log_index receipt.logs []))
                  _ (λ amount. Within-pure fixed (enough amount w.info.value)))))).moves
          w;
  }

  by_config-Fixed :
      (receipt : TxReceipt) (o : Option TokenConfig) → Within fixed (by_config n b receipt o)
  unfolding by_config
  by_config-Fixed receipt none = Within-fail fixed (token TokenError.miss_token_config)
  by_config-Fixed receipt (some cfg) = record {
    moves = λ w.
        (Within-either fixed (str_eq w.erc20.token_id "") _ (received_by n b receipt cfg)
            (Within-fail fixed (token TokenError.miss_token_config))
            (received_by-Fixed receipt cfg)).moves
          w;
  }

  pub check_token_received-Fixed :
      (receipt : TxReceipt) → Within fixed (check_token_received n b receipt)
  unfolding check_token_received
  check_token_received-Fixed receipt = record {
    moves = λ w. (by_config-Fixed receipt (get_token_config b w.erc20.token)).moves w;
  }

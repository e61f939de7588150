-- ===== src/Eth/Verify/Named/Path.antt =====
-- checkSwapTradePath only asks the chain: it moves the state no further than such calls do.
use check_tx_server.Common.{
  ℕ, String, Bool, not, ◌||◌, Option, none, some, List, [], ◌∷◌, str_eq, decimal,
}
use check_tx_server.Errors.{GoError, TokenError, token}
use check_tx_server.Exec.{Result, ok, Exec, fail}
use check_tx_server.Exec.Within.{
  Frame, Within, Within-pure, Within-bind, Within-check, Within-lift, Within-either, Within-fail,
}
use check_tx_server.Eth.{
  ChainBridge, TokenConfig, SwapRouterInfo, Net, Verifying, tick, same_bytes, hex_to_address,
  is_zero, get_token_config, get_router_contract, get_cached_multichain_token,
  get_bridge_by_chain_id, get_router_info,
}
use check_tx_server.Eth.Logs.{
  or_fail, last_of, native_checked, pair_error, pairs_checked, path_checked, check_swap_trade_path,
}

module _ (F : Frame Verifying) (quiet : Within F tick) (n : Net) (b : ChainBridge) where
  native_checked-Within :
      (for_native : Bool) (r : SwapRouterInfo) (last : String)
      → Within F (native_checked n b for_native r last)
  unfolding native_checked
  native_checked-Within for_native r last =
      Within-either F (not for_native) _ _ (Within-pure F (ok tt)) (
        Within-either F (is_zero (hex_to_address r.router_w_native)) _ _
          (Within-fail F (token TokenError.swap_trade_not_support))
          (Within-either F
            (not (same_bytes (hex_to_address r.router_w_native) (hex_to_address last))) _ _
            (Within-fail F (token TokenError.tx_with_wrong_path)) (Within-pure F (ok tt))))

  failing :
      (o : Option GoError) (m : Exec Verifying (Unit {0}))
      → Within F m
      → Within F (elim o as (λ _. Exec Verifying (Unit {0})) [ some e ↦ fail e | none ↦ m ])
  failing none m next = next
  failing (some e) m next = Within-fail F e

  pairs_checked-Within :
      (get_pair_for : ℕ → String → String → String → Result String) (factory p : String)
      (path : List String)
      → Within F (pairs_checked n b get_pair_for factory p path)
  unfolding pairs_checked
  pairs_checked-Within get_pair_for factory p [] = Within-pure F (ok tt)
  pairs_checked-Within get_pair_for factory p (q ∷ ps) = Within-bind F _ tick quiet (λ t.
      failing (pair_error n b (get_pair_for t factory p q))
        (pairs_checked n b get_pair_for factory q ps)
        (pairs_checked-Within get_pair_for factory q ps))

  path_checked-Within :
      (dst : ChainBridge) (multichain_token : String) (cfg : TokenConfig) (for_native : Bool)
      (path : List String)
      → Within F (path_checked n b dst multichain_token cfg for_native path)
  unfolding path_checked
  path_checked-Within dst multichain_token cfg for_native (p ∷ q ∷ ps) =
      Within-check F
        (not (
          same_bytes (hex_to_address p) (hex_to_address cfg.underlying)
          || same_bytes (hex_to_address p) (hex_to_address multichain_token)))
        (token TokenError.tx_with_wrong_path) _
        (Within-check F (str_eq (get_router_contract dst multichain_token) "")
          (token TokenError.miss_router_info) _
          (Within-lift F
            (or_fail n b (token TokenError.miss_router_info)
              (get_router_info n (get_router_contract dst multichain_token)))
            _
            (λ r.
              Within-bind F _ (native_checked n b for_native r (last_of n b q ps))
                (native_checked-Within for_native r (last_of n b q ps))
                (λ _.
                  Within-check F (is_zero (hex_to_address r.router_factory))
                    (token TokenError.swap_trade_not_support) _
                    (Within-lift F
                      (or_fail n b (token TokenError.swap_trade_not_support) dst.get_pair_for) _
                      (λ get_pair_for.
                        pairs_checked-Within get_pair_for r.router_factory p (q ∷ ps)))))))
  path_checked-Within dst multichain_token cfg for_native [] = Within-fail F _
  path_checked-Within dst multichain_token cfg for_native (_ ∷ []) = Within-fail F _

  pub check_swap_trade_path-Within : Within F (check_swap_trade_path n b)
  unfolding check_swap_trade_path
  check_swap_trade_path-Within = record {
    moves = λ w.
        let chain = decimal w.info.to_chain_id in
        let other = get_cached_multichain_token n w.erc20.token_id chain in
        (Within-lift F
            (or_fail n b (token TokenError.no_bridge_for_chain_id) (get_bridge_by_chain_id n chain))
            _
            (λ dst. Within-check F (str_eq other "") (token TokenError.miss_token_config) _ (
              Within-lift F
                (or_fail n b (token TokenError.miss_token_config) (get_token_config dst other)) _
                (λ cfg. path_checked-Within dst other cfg w.erc20.for_native w.erc20.path)))).moves
          w;
  }

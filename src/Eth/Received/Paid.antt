-- ===== src/Eth/Received/Paid.antt =====
-- What checkTokenReceived has found where it returns no error.
use check_tx_server.Common.{
  ℕ, ◌*◌, ◌/◌, ◌≤◌, ◌≡◌, refl, ap, ◌∙◌, ◌⊎◌, inl, inr, Bool-cases, true, false, Option, none, some,
  [], arith, str_eq, equal_fold,
}
use check_tx_server.Exec.{ok, lift}
use check_tx_server.Exec.Inversion.{bind-ok, unless-ok}
use check_tx_server.Eth.{
  TxReceipt, ChainBridge, TokenConfig, Net, Verifying, hex_to_address, lower_hex, is_zero,
  get_token_config, get_router_contract, dont_check_token_received,
}
use check_tx_server.Eth.Received.{
  search, enough, backwards, received_by, by_config, check_token_received,
}
use check_tx_server.Tokens.{SwapTxInfo}
use check_tx_server.Tokens.Payload.{Erc20Info}
use check_tx_server.Eth.Received.Found.{Found, search-Found}

module _ (n : Net) (b : ChainBridge) (receipt : TxReceipt) (info : SwapTxInfo)
    (erc20 : Erc20Info) where
  -- At least four fifths of the value have been received: a log in front of the swap's pays them, and no
  -- log of the router stands between the two.
  abbrev pub PaidIn : TokenConfig → Type 0
  PaidIn cfg =
      (amount : ℕ) × (value : ℕ) × (info.value ≡ some value)
      × (value * 4 / 5 ≤ amount)
      × Found (get_router_contract b erc20.token) cfg.underlying info.from
          (hex_to_address erc20.token) (backwards info.log_index receipt.logs []) amount

  -- The token id is excepted from the check, or the token has no underlying one, or the value has come in.
  abbrev pub Received : Type 0
  Received =
      (cfg : TokenConfig) × (get_token_config b erc20.token ≡ some cfg)
      × ((dont_check_token_received n.params erc20.token_id ≡ true)
          ⊎ ((is_zero (hex_to_address cfg.underlying) ≡ true) ⊎ PaidIn cfg))

module _ (n : Net) (b : ChainBridge) (receipt : TxReceipt) (w : Verifying) where
  enough-ok :
      (amount value : Option ℕ)
      → enough amount value ≡ ok tt
      → (a : ℕ) × (v : ℕ) × (amount ≡ some a) × (value ≡ some v) × (v * 4 / 5 ≤ a)
  enough-ok none value h = absurd (ground (arith, h))
  enough-ok (some a) none h = absurd (ground (arith, h))
  enough-ok (some a) (some v) h = (a, v, refl, refl, ground (arith, h))

  received_by-Received :
      (cfg : TokenConfig)
      → equal_fold (lower_hex (hex_to_address w.erc20.token)) (get_router_contract b w.erc20.token)
        ≡ false
      → (received_by n b receipt cfg w).0 ≡ ok tt
      → (dont_check_token_received n.params w.erc20.token_id ≡ true)
        ⊎ ((is_zero (hex_to_address cfg.underlying) ≡ true) ⊎ PaidIn n b receipt w.info w.erc20 cfg)
  unfolding received_by
  received_by-Received cfg apart h =
      elim (Bool-cases (dont_check_token_received n.params w.erc20.token_id)) [
        | inl excepted ↦ inl excepted
        | inr checked ↦ elim (Bool-cases (is_zero (hex_to_address cfg.underlying))) [
          | inl bare ↦ inr (inl bare)
          | inr under ↦
              let h1 = rw under at (rw checked at h) in
              let (_, h2) =
                unless-ok _ _ w tt (str_eq (get_router_contract b w.erc20.token) "") h1 in
              let (found, e, h3) =
                bind-ok (λ amount. lift (enough amount w.info.value))
                  (lift (
                    search (get_router_contract b w.erc20.token) cfg.underlying w.info.from
                      (hex_to_address w.erc20.token) (backwards w.info.log_index receipt.logs [])))
                  w tt h2 in
              let (a, v, is, at, more) = enough-ok found w.info.value h3 in
              inr (inr (a, v, at, more, search-Found _ _ _ _ apart _ a (e ∙ ap ok is)))
        ]
      ]

  by_config-Received :
      (o : Option TokenConfig)
      → get_token_config b w.erc20.token ≡ o
      → equal_fold (lower_hex (hex_to_address w.erc20.token)) (get_router_contract b w.erc20.token)
        ≡ false
      → (by_config n b receipt o w).0 ≡ ok tt
      → Received n b receipt w.info w.erc20
  unfolding by_config
  by_config-Received none at apart h = absurd (ground (arith, h))
  by_config-Received (some cfg) at apart h =
      let (_, h1) = unless-ok _ (received_by n b receipt cfg) w tt (str_eq w.erc20.token_id "") h in
      (cfg, at, received_by-Received cfg apart h1)

  pub check_token_received-Received :
      equal_fold (lower_hex (hex_to_address w.erc20.token)) (get_router_contract b w.erc20.token)
        ≡ false
      → (check_token_received n b receipt w).0 ≡ ok tt
      → Received n b receipt w.info w.erc20
  unfolding check_token_received
  check_token_received-Received = by_config-Received (get_token_config b w.erc20.token) refl

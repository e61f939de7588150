-- ===== src/Eth/Verify/Parts.antt =====
-- What each part of the verification has checked where it returns no error.
use check_tx_server.Common.{
  ℕ, String, ◌≡◌, refl, ◌⊎◌, inl, inr, Bool, Bool-cases, true, false, not, ◌&&◌, Option, none, some,
  decimal, arith, str_eq, eq_iff, equal_fold, if◌then◌else◌,
}
use check_tx_server.Errors.{TokenError, token}
use check_tx_server.Exec.{ok, Exec, pure, fail, lift, ◌>>=◌}
use check_tx_server.Exec.Inversion.{bind-ok, unless-ok, guard-ok, unless_then-ok, guard_then-ok}
use check_tx_server.Tokens.{SwapTxInfo}
use check_tx_server.Tokens.Payload.{Erc20Info, no_info}
use check_tx_server.Tokens.Value.{check_token_swap_value}
use check_tx_server.Eth.{
  Log, ChainBridge, TokenConfig, Net, Verifying, tick, hex_to_address, lower_hex, is_zero,
  get_token_config, get_router_contract, get_cached_multichain_token, get_bridge_by_chain_id,
  is_in_call_by_contract_whitelist, has_call_by_contract_code_hash_whitelist,
  is_in_call_by_contract_code_hash_whitelist,
}
use check_tx_server.Eth.Logs.{check_log_source, is_removed}
use check_tx_server.Eth.Checks.{
  check_call_by_contract, swap_checked, by_master, by_code_hash, or_token_error, assembled,
}
use check_tx_server.Hex.{encode}

module _ (n : Net) (b : ChainBridge) where
  -- The log
  pub check_log_source-ok :
      (l : Log) (w : Verifying)
      → (check_log_source n b l w).0 ≡ ok tt
      → (is_removed n b l.removed ≡ false)
        × (equal_fold (lower_hex l.address) (get_router_contract b w.erc20.token) ≡ true)
  unfolding check_log_source
  check_log_source-ok l w h =
      let (kept, h1) = unless-ok _ _ w tt (is_removed n b l.removed) h in
      let (_, h2) = unless-ok _ _ w tt (str_eq (get_router_contract b w.erc20.token) "") h1 in
      let (own, _) =
        guard-ok _ _ w tt (equal_fold (lower_hex l.address) (get_router_contract b w.erc20.token))
          h2 in
      (kept, own)

  or_token_error-ok :
      {A : Type 0} (e : TokenError) (o : Option A) (a : A) → or_token_error e o ≡ ok a → o ≡ some a
  or_token_error-ok e none a h = absurd (ground (arith, h))
  or_token_error-ok e (some x) a h = ground (arith, h)

  -- Of a swap: it starts on the bridge's chain, its token and the token's counterpart on the destination
  -- are configured, it is worth paying out, and the receiver is an address of the destination.
  pub record Payable (info : SwapTxInfo) (erc20 : Erc20Info) : Type 0 where
    pub from_cfg : TokenConfig
    pub to_cfg : TokenConfig
    pub dst : ChainBridge
    pub from_here : decimal info.from_chain_id ≡ b.chain_config.chain_id
    pub configured : get_token_config b erc20.token ≡ some from_cfg
    pub reached : get_bridge_by_chain_id n (decimal info.to_chain_id) ≡ some dst
    pub counterpart :
        get_token_config dst
          (get_cached_multichain_token n erc20.token_id (decimal info.to_chain_id))
        ≡ some to_cfg
    pub worth :
        check_token_swap_value n.settings
          (record info { swap_info = record no_info { erc20 = some erc20 } })
          from_cfg.decimals
          to_cfg.decimals
        ≡ true
    pub receivable : dst.is_valid_address info.bind ≡ true

  pub swap_checked-Payable :
      (w : Verifying) → (swap_checked n b w).0 ≡ ok tt → Payable w.info w.erc20
  unfolding swap_checked
  swap_checked-Payable w h =
      let (here, h1) =
        guard_then-ok _ _ w tt (str_eq (decimal w.info.from_chain_id) b.chain_config.chain_id) h in
      let (from_cfg, configured, h2) =
        bind-ok _
          (lift (or_token_error TokenError.miss_token_config (get_token_config b w.erc20.token))) w
          tt h1 in
      let (_, h3) = unless_then-ok _ _ w tt (str_eq w.erc20.token_id "") h2 in
      let chain = decimal w.info.to_chain_id in
      let other = get_cached_multichain_token n w.erc20.token_id chain in
      let (_, h4) = unless_then-ok _ _ w tt (str_eq other "") h3 in
      let (dst, reached, h5) =
        bind-ok _
          (lift (or_token_error TokenError.no_bridge_for_chain_id (get_bridge_by_chain_id n chain)))
          w tt h4 in
      let (to_cfg, counterpart, h6) =
        bind-ok _ (lift (or_token_error TokenError.miss_token_config (get_token_config dst other)))
          w tt h5 in
      let (_, h7) =
        unless_then-ok _ _ w tt
          (w.erc20.for_underlying && is_zero (hex_to_address to_cfg.underlying)) h6 in
      let (worth, h8) =
        guard_then-ok _ _ w tt
          (check_token_swap_value n.settings (assembled w) from_cfg.decimals to_cfg.decimals) h7 in
      let (receivable, _) = guard-ok _ (pure tt) w tt (dst.is_valid_address w.info.bind) h8 in
      record {
        from_cfg = from_cfg;
        to_cfg = to_cfg;
        dst = dst;
        from_here = (eq_iff _ _).0 here;
        configured = or_token_error-ok _ _ from_cfg configured;
        reached = or_token_error-ok _ _ dst reached;
        counterpart = or_token_error-ok _ _ to_cfg counterpart;
        worth = worth;
        receivable = receivable;
      }

  -- The router was called itself, or a contract that may call it: one on the whitelist, a proxy of one, or
  -- one whose code is on the whitelist.
  pub data Caller (tx_to of_token : String) : Type 0 where
    anyone : n.params.allow_call_by_contract ≡ true → Caller tx_to of_token
    itself : equal_fold tx_to (get_router_contract b of_token) ≡ true → Caller tx_to of_token
    listed :
        is_in_call_by_contract_whitelist n.params b.chain_config.chain_id tx_to ≡ true
        → Caller tx_to of_token
    proxy :
        (t : ℕ)
        → is_in_call_by_contract_whitelist n.params b.chain_config.chain_id
            (lower_hex (n.get_eip1167_master t (hex_to_address tx_to)))
          ≡ true
        → Caller tx_to of_token
    code :
        (t : ℕ)
        → is_in_call_by_contract_code_hash_whitelist n.params b.chain_config.chain_id
            (encode (n.get_contract_code_hash t (hex_to_address tx_to)))
          ≡ true
        → Caller tx_to of_token

  by_master-proxy :
      (tx_to of_token : String) (w : Verifying)
      → (by_master n b tx_to w).0 ≡ ok true
      → Caller tx_to of_token
  unfolding by_master tick
  by_master-proxy tx_to of_token w h = elim (Bool-cases n.params.check_eip1167_master) [
    | inl on ↦ proxy w.ticks (ground (arith, rw on at h))
    | inr off ↦ absurd (ground (arith, rw off at h))
  ]

  by_code_hash-code :
      (tx_to of_token : String) (w : Verifying)
      → (by_code_hash n b tx_to w).0 ≡ ok true
      → Caller tx_to of_token
  unfolding by_code_hash tick
  by_code_hash-code tx_to of_token w h =
      elim (Bool-cases
        (has_call_by_contract_code_hash_whitelist n.params b.chain_config.chain_id)) [
          | inl on ↦ code w.ticks (ground (arith, rw on at h))
          | inr off ↦ absurd (ground (arith, rw off at h))
        ]

  known-code :
      (tx_to of_token : String) (known : Bool) (w : Verifying) (v : Verifying)
      → (by_code_hash n b tx_to w).0 ≡ ok known
      → ((if known then pure tt else fail (token TokenError.tx_with_wrong_contract)) v).0
        ≡ ok (tt {0})
      → Caller tx_to of_token
  known-code tx_to of_token true w v e h = by_code_hash-code tx_to of_token w e
  known-code tx_to of_token false w v e h = absurd (ground (arith, h))

  proxied-Caller :
      (tx_to of_token : String) (proxied : Bool) (w v : Verifying)
      → (by_master n b tx_to w).0 ≡ ok proxied
      → ((if proxied then pure tt else (do
        known ← by_code_hash n b tx_to
        if known then pure tt else fail (token TokenError.tx_with_wrong_contract)))
          v).0
        ≡ ok (tt {0})
      → Caller tx_to of_token
  proxied-Caller tx_to of_token true w v e h = by_master-proxy tx_to of_token w e
  proxied-Caller tx_to of_token false w v e h =
      let (known, e', h') =
        bind-ok (λ known. if known then pure tt else fail (token TokenError.tx_with_wrong_contract))
          (by_code_hash n b tx_to) v tt h in
      known-code tx_to of_token known v _ e' h'

  called-choice :
      (w : Verifying) (m : Exec Verifying (Unit {0})) (all own known : Bool)
      → ((if not all && not own && not known then m else pure tt) w).0 ≡ ok tt
      → (all ≡ true) ⊎ ((own ≡ true) ⊎ ((known ≡ true) ⊎ ((m w).0 ≡ ok tt)))
  called-choice w m true own known h = inl refl
  called-choice w m false true known h = inr (inl refl)
  called-choice w m false false true h = inr (inr (inl refl))
  called-choice w m false false false h = inr (inr (inr h))

  pub check_call_by_contract-Caller :
      (w : Verifying) → (check_call_by_contract n b w).0 ≡ ok tt → Caller w.info.tx_to w.erc20.token
  unfolding check_call_by_contract
  check_call_by_contract-Caller w h =
      let router = get_router_contract b w.erc20.token in
      let tx_to = w.info.tx_to in
      let (_, h1) = unless-ok _ _ w tt (str_eq router "") h in
      elim (called-choice w _ n.params.allow_call_by_contract (equal_fold tx_to router)
        (is_in_call_by_contract_whitelist n.params b.chain_config.chain_id tx_to) h1) [
          | inl all ↦ anyone all
          | inr (inl own) ↦ itself own
          | inr (inr (inl known)) ↦ listed known
          | inr (inr (inr h2)) ↦
              let (proxied, e, h3) = bind-ok _ (by_master n b tx_to) w tt h2 in
              proxied-Caller tx_to w.erc20.token proxied w _ e h3
        ]

-- ===== src/Eth/Receipt.antt =====
-- The receipt of the transaction: GetTransactionStatus of tokens/eth/verifytx.go, and getSwapTxReceipt.
use check_tx_server.Common.{
  ℕ, zero, suc, ◌-◌, ◌≤◌, ◌≡◌, ◌≢◌, ◌⊎◌, inl, inr, refl, arith, String, ltb, ◌==◌, Bool, true,
  false, not, ◌&&◌, Option, none, some, List, [], ◌∷◌, if◌then◌else◌,
}
use check_tx_server.Errors.{TokenError, token}
use check_tx_server.Exec.{ok, err, Exec, pure, fail, modify, lift, ◌>>=◌, ◌>>◌}
use check_tx_server.Exec.Inversion.{bind-ok, unless_then-ok, guard_then-ok}
use check_tx_server.Eth.{Log, TxReceipt, ChainBridge, Net, Verifying, tick, lower_hex, is_zero}

-- At most three calls; a failure leaves 0 confirmations. A transaction without a block has none.
unfoldable pub confirmations_of : Net → ℕ → ℕ → Exec Verifying ℕ
unfolding tick
confirmations_of n zero height = pure 0
confirmations_of n (suc tries) height = do
  t ← tick
  elim (n.get_latest_block_number t) [
    | err e ↦ confirmations_of n tries height
    | ok latest ↦ pure (if ltb height latest then latest - height else 0)
  ]

-- The receipt and the confirmations. A block time is never set.
unfoldable pub get_transaction_status : Net → String → Exec Verifying (TxReceipt × ℕ)
unfolding confirmations_of tick
get_transaction_status n tx_hash = do
  t ← tick
  receipt ← lift (n.get_transaction_receipt t tx_hash)
  confirmations ←
      if receipt.block_number == 0 then pure 0 else confirmations_of n 3 receipt.block_number
  pure (receipt, confirmations)

has_logs : List Log → Bool
has_logs [] = false
has_logs (l ∷ ls) = true

succeeded : Option ℕ → Bool
succeeded none = false
succeeded (some s) = s == 1

unfoldable pub is_status_ok : TxReceipt → Bool
unfolding has_logs succeeded
is_status_ok r = succeeded r.status && has_logs r.logs

module _ (n : Net) (b : ChainBridge) where
  unfoldable pub recipient_checked : TxReceipt → Exec Verifying (Unit {0})
  recipient_checked r = elim r.recipient [
    | none ↦
        if not n.params.allow_call_by_constructor
        then fail (token TokenError.tx_with_wrong_contract)
        else pure tt
    | some a ↦ modify (λ w. record w { info = record (w.info) { tx_to = lower_hex a } })
  ]

  -- What is checked of a receipt with its confirmations
  unfoldable pub receipt_checked : Bool → TxReceipt → ℕ → Exec Verifying TxReceipt
  unfolding is_status_ok recipient_checked lower_hex is_zero
  receipt_checked allow_unstable receipt confirmations = do
    if receipt.block_number == 0 then fail (token TokenError.tx_not_found) else pure tt
    if ltb receipt.block_number b.chain_config.initial_height
        then fail (token TokenError.tx_before_initial_height)
        else pure tt
    modify
        (λ v. record v { info = record (v.info) { height = receipt.block_number; timestamp = 0 } })
    if not allow_unstable && ltb confirmations b.chain_config.confirmations
        then fail (token TokenError.tx_not_stable)
        else pure tt
    if not (is_status_ok receipt) then fail (token TokenError.tx_with_wrong_receipt) else pure tt
    recipient_checked receipt
    modify (λ v. record v { info = record (v.info) { from = lower_hex receipt.from } })
    if is_zero receipt.from then fail (token TokenError.tx_with_wrong_sender) else pure tt
    pure receipt

  unfoldable pub get_swap_tx_receipt : Bool → Exec Verifying TxReceipt
  unfolding get_transaction_status receipt_checked
  get_swap_tx_receipt allow_unstable w =
      (do
        (receipt, confirmations) ← get_transaction_status n w.info.hash
        receipt_checked allow_unstable receipt confirmations)
        w

  -- Of a receipt that passes
  pub record Passes (allow_unstable : Bool) (receipt : TxReceipt) (confirmations : ℕ) : Type 0 where
    pub in_block : receipt.block_number ≢ 0
    pub not_before : b.chain_config.initial_height ≤ receipt.block_number
    pub stable : (allow_unstable ≡ true) ⊎ (b.chain_config.confirmations ≤ confirmations)
    pub status_ok : is_status_ok receipt ≡ true
    pub sender : is_zero receipt.from ≡ false

  stable_or :
      (allow_unstable : Bool) (c : ℕ)
      → not allow_unstable && ltb c b.chain_config.confirmations ≡ false
      → (allow_unstable ≡ true) ⊎ (b.chain_config.confirmations ≤ c)
  stable_or true c h = inl refl
  stable_or false c h = inr (ground (arith, h))

  pub receipt_checked-Passes :
      (allow_unstable : Bool) (r : TxReceipt) (c : ℕ) (w : Verifying) (receipt : TxReceipt)
      → (receipt_checked allow_unstable r c w).0 ≡ ok receipt
      → (receipt ≡ r) × Passes allow_unstable r c
  unfolding receipt_checked
  receipt_checked-Passes allow_unstable r c w receipt h =
      let (in_block, h2) = unless_then-ok _ _ _ receipt (r.block_number == 0) h in
      let (late, h3) =
        unless_then-ok _ _ _ receipt (ltb r.block_number b.chain_config.initial_height) h2 in
      let (stable, h4) =
        unless_then-ok _ _ _ receipt (not allow_unstable && ltb c b.chain_config.confirmations)
          h3 in
      let (status, h5) = guard_then-ok _ _ _ receipt (is_status_ok r) h4 in
      let (_, _, h6) = bind-ok _ (recipient_checked r) _ receipt h5 in
      let (sender, h7) = unless_then-ok _ _ _ receipt (is_zero r.from) h6 in
      (
        ground (arith, h7),
        record {
          in_block = ground (arith, in_block);
          not_before = ground (arith, late);
          stable = stable_or allow_unstable c stable;
          status_ok = status;
          sender = sender;
        },
      )

  -- The chain has a receipt of the transaction, which passes.
  pub get_swap_tx_receipt-Passes :
      (allow_unstable : Bool) (w : Verifying) (receipt : TxReceipt)
      → (get_swap_tx_receipt allow_unstable w).0 ≡ ok receipt
      → (c : ℕ) × ((get_transaction_status n w.info.hash w).0 ≡ ok (receipt, c))
        × Passes allow_unstable receipt c
  unfolding get_swap_tx_receipt
  get_swap_tx_receipt-Passes allow_unstable w receipt h =
      let ((r, c), e, h1) =
        bind-ok (λ p. receipt_checked allow_unstable p.0 p.1) (get_transaction_status n w.info.hash)
          w receipt h in
      let (same, passes) = receipt_checked-Passes allow_unstable r c _ receipt h1 in
      (c, rw same e, rw same passes)

-- ===== src/Eth/Verify/Panics.antt =====
-- A log without topics.
use check_tx_server.Common.{ℕ, String, ◌≡◌, refl, ap, ◌∙◌, Bool, some, []}
use check_tx_server.Errors.{panicked}
use check_tx_server.Exec.{ok, err, lift, ◌>>=◌, ◌>>◌}
use check_tx_server.Exec.Inversion.{bind-is}
use check_tx_server.Eth.{Log, TxReceipt, ChainBridge, Net, Verifying}
use check_tx_server.Eth.Receipt.{get_swap_tx_receipt}
use check_tx_server.Eth.Logs.{verify_erc20_swap_tx_log}
use check_tx_server.Eth.Received.{check_token_received}
use check_tx_server.Eth.Checks.{check_erc20_swap_info}
use check_tx_server.Eth.Verify.{get_elem?, log_at, unverified, verified_log, verify_erc20_swap_tx}

module _ (n : Net) (b : ChainBridge) where
  verify_erc20_swap_tx_log-panics :
      (l : Log) (w : Verifying)
      → l.topics ≡ []
      → (verify_erc20_swap_tx_log n b l w).0 ≡ err panicked
  unfolding verify_erc20_swap_tx_log
  verify_erc20_swap_tx_log-panics l w bare = rw bare refl

  stopped :
      (l : Log) (receipt : TxReceipt) (w : Verifying)
      → (verify_erc20_swap_tx_log n b l w).0 ≡ err panicked
      → ((verify_erc20_swap_tx_log n b l
            >> (check_token_received n b receipt >> check_erc20_swap_info n b))
          w).0
        ≡ err panicked
  stopped l receipt w h = rw h refl

  -- Whoever sent it, a log without topics at the index asked for makes verifyERC20SwapTx panic, where the
  -- transaction's receipt passes: the first topic is read before the contract is compared with the router.
  pub verify_erc20_swap_tx-panics :
      (ticks : ℕ) (tx_hash : String) (log_index : ℕ) (allow_unstable : Bool) (receipt : TxReceipt)
      (l : Log)
      → (get_swap_tx_receipt n b allow_unstable (unverified ticks tx_hash log_index)).0 ≡ ok receipt
      → get_elem? receipt.logs log_index ≡ some l
      → l.topics ≡ []
      → (verify_erc20_swap_tx n b ticks tx_hash log_index allow_unstable).0 ≡ err panicked
  unfolding verify_erc20_swap_tx verified_log
  verify_erc20_swap_tx-panics ticks tx_hash log_index allow_unstable receipt l found at bare =
      let w = unverified ticks tx_hash log_index in
      let after = λ (r : TxReceipt) (k : Log).
        verify_erc20_swap_tx_log n b k
        >> (check_token_received n b r >> check_erc20_swap_info n b) in
      let from = λ (r : TxReceipt). lift (log_at (get_elem? r.logs log_index)) >>= after r in
      let get = get_swap_tx_receipt n b allow_unstable in
      ap (λ p. p.0)
        (bind-is from get w receipt found
          ∙ bind-is (after receipt) (lift (log_at (get_elem? receipt.logs log_index))) (get w).1 l
              (ap log_at at))
      ∙ stopped l receipt (get w).1 (verify_erc20_swap_tx_log-panics l (get w).1 bare)

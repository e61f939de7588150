-- ===== src/Eth/Verify/Named.antt =====
-- The transaction, the log's index and the type of a swap stay those that were asked about.
pub mod Parsers
pub mod Path
pub mod Trade
use check_tx_server.Common.{
  ℕ, zero, suc, String, ◌≡◌, refl, ◌∙◌, ◌-◌, ltb, ◌==◌, Bool, true, false, not, ◌&&◌, ◌||◌, Option,
  none, some, List, [], ◌∷◌, length, map, str_eq, decimal, if◌then◌else◌,
}
use check_tx_server.Errors.{GoError, TokenError, token}
use check_tx_server.Exec.{Result, ok, err, Exec, pure, fail, lift, modify, ◌>>◌}
use check_tx_server.Exec.Within.{
  Frame, Within, Within-pure, Within-bind, Within-check, Within-lift, Within-either, Within-fail,
}
use check_tx_server.Tokens.{SwapTxInfo}
use check_tx_server.Tokens.Payload.{Erc20Info}
use check_tx_server.Abi.Bytes.{Bytes, get_big_int}
use check_tx_server.Hex.{pos}
use check_tx_server.Abi.Parse.{parse_bytes_in_data, parse_address_slice_in_data}
use check_tx_server.Eth.{
  Log, TxReceipt, ChainBridge, TokenConfig, SwapRouterInfo, Net, Verifying, tick, same_bytes,
  hex_to_address, lower_hex, is_zero, get_token_config, get_router_contract,
  get_cached_multichain_token, get_bridge_by_chain_id, get_router_info, parse_data_error, of_parsed,
}
use check_tx_server.Eth.Receipt.{
  confirmations_of, get_transaction_status, get_swap_tx_receipt, is_status_ok, recipient_checked,
  receipt_checked,
}
use check_tx_server.Eth.Logs.{
  with_info, with_erc20, data_of, address_text, amounts, from_chain, with_token_id, set_token_id,
  parse_swapout, parse_swapout2, parse_swapout_and_call, or_fail, last_of, native_checked,
  pair_error, pairs_checked, path_checked, check_swap_trade_path, with_path, parse_trade_topics,
  parse_swap_trade, parse_by_topic, log_any_swap_out_topic, log_any_swap_out2_topic,
  log_any_swap_out_and_call_topic, log_any_swap_trade_tokens_for_tokens_topic,
  log_any_swap_trade_tokens_for_native_topic,
}

abbrev pub named : Frame Verifying
named = record {
  Moves = λ s t.
      (t.info.hash ≡ s.info.hash)
      × (t.info.log_index ≡ s.info.log_index)
      × (t.info.swap_type ≡ s.info.swap_type);
  still = λ s. (refl, refl, refl);
  and_then = λ s t v a b. (b.0 ∙ a.0, b.1 ∙ a.1, b.2 ∙ a.2);
}

pub Named-tick : Within named tick
unfolding tick
Named-tick = record { moves = λ s. (refl, refl, refl) }

-- `m` leaves the name as it is, which the proof of `first` shows, and so does the rest.
pub Named-then :
    (m k : Exec Verifying (Unit {0})) → Within named m → Within named k → Within named (m >> k)
Named-then m k first next = Within-bind named (λ _. k) m first (λ _. next)

pub Named-erc20 : (f : Erc20Info → Erc20Info) → Within named (with_erc20 f)
Named-erc20 f = record { moves = λ s. (refl, refl, refl) }

-- Whatever becomes of the fields that are read from the log
pub Named-info :
    (f : SwapTxInfo → SwapTxInfo)
    → ((i : SwapTxInfo)
        → ((f i).hash ≡ i.hash) × ((f i).log_index ≡ i.log_index) × ((f i).swap_type ≡ i.swap_type))
    → Within named (with_info f)
Named-info f keeps = record { moves = λ s. keeps s.info }

module _ (n : Net) where
  retried :
      (r : Result ℕ) (again : Exec Verifying ℕ) (f : ℕ → ℕ)
      → Within named again
      → Within named
          (elim r as (λ _. Exec Verifying ℕ) [ err e ↦ again | ok latest ↦ pure (f latest) ])
  retried (err e) again f next = next
  retried (ok latest) again f next = Within-pure named (ok (f latest))

  confirmations_of-Named : (tries height : ℕ) → Within named (confirmations_of n tries height)
  unfolding confirmations_of
  confirmations_of-Named zero height = Within-pure named (ok 0)
  confirmations_of-Named (suc tries) height = Within-bind named _ tick Named-tick (λ t.
      retried (n.get_latest_block_number t) (confirmations_of n tries height)
        (λ latest. if ltb height latest then latest - height else 0)
        (confirmations_of-Named tries height))

  get_transaction_status-Named : (hash : String) → Within named (get_transaction_status n hash)
  unfolding get_transaction_status
  get_transaction_status-Named hash = Within-bind named _ tick Named-tick (λ t.
      Within-bind named _ (lift (n.get_transaction_receipt t hash)) (Within-pure named _)
        (λ receipt.
          Within-bind named _
            (if receipt.block_number == 0
              then pure 0
              else confirmations_of n 3 receipt.block_number)
            (Within-either named (receipt.block_number == 0) _ _ (Within-pure named (ok 0))
              (confirmations_of-Named 3 receipt.block_number))
            (λ confirmations. Within-pure named (ok (receipt, confirmations)))))

module _ (n : Net) (b : ChainBridge) where
  recipient_of-Named :
      (o : Option Bytes)
      → Within named (elim o as (λ _. Exec Verifying (Unit {0})) [
        | none ↦
            if not n.params.allow_call_by_constructor
            then fail (token TokenError.tx_with_wrong_contract)
            else pure tt
        | some a ↦ modify (λ w. record w { info = record (w.info) { tx_to = lower_hex a } })
      ])
  recipient_of-Named none =
      Within-either named (not n.params.allow_call_by_constructor) _ _
        (Within-fail named (token TokenError.tx_with_wrong_contract)) (Within-pure named (ok tt))
  recipient_of-Named (some a) =
      Named-info (λ i. record i { tx_to = lower_hex a }) (λ i. (refl, refl, refl))

  Named-first :
      {A : Type 0} (m : Exec Verifying (Unit {0})) (k : Exec Verifying A)
      → Within named m
      → Within named k
      → Within named (m >> k)
  Named-first m k first next = Within-bind named (λ _. k) m first (λ _. next)

  receipt_checked-Named :
      (allow_unstable : Bool) (receipt : TxReceipt) (confirmations : ℕ)
      → Within named (receipt_checked n b allow_unstable receipt confirmations)
  unfolding receipt_checked recipient_checked
  receipt_checked-Named allow_unstable receipt confirmations =
      Within-check named (receipt.block_number == 0) (token TokenError.tx_not_found) _ (
        Within-check named (ltb receipt.block_number b.chain_config.initial_height)
          (token TokenError.tx_before_initial_height) _
          (Named-first _ _
            (Named-info (λ i. record i { height = receipt.block_number; timestamp = 0 })
              (λ i. (refl, refl, refl)))
            (Within-check named
              (not allow_unstable && ltb confirmations b.chain_config.confirmations)
              (token TokenError.tx_not_stable) _
              (Within-check named (not (is_status_ok receipt))
                (token TokenError.tx_with_wrong_receipt) _
                (Named-first _ _ (recipient_of-Named receipt.recipient) (
                  Named-first _ _
                    (Named-info (λ i. record i { from = lower_hex receipt.from })
                      (λ i. (refl, refl, refl)))
                    (Within-check named (is_zero receipt.from)
                      (token TokenError.tx_with_wrong_sender) _
                      (Within-pure named (ok receipt)))))))))

  pub get_swap_tx_receipt-Named :
      (allow_unstable : Bool) → Within named (get_swap_tx_receipt n b allow_unstable)
  unfolding get_swap_tx_receipt
  get_swap_tx_receipt-Named allow_unstable = record {
    moves = λ w.
        (Within-bind named _ (get_transaction_status n w.info.hash)
            (get_transaction_status-Named n w.info.hash)
            (λ p. receipt_checked-Named allow_unstable p.0 p.1)).moves
          w;
  }

-- ===== src/Eth/Received.antt =====
-- checkTokenReceived: whether the router has received, or burnt, what the log says was sent.
pub mod Found
pub mod Paid
use check_tx_server.Common.{
  ℕ, zero, suc, ◌-◌, ◌*◌, ◌/◌, String, ltb, ◌==◌, Bool, true, false, not, ◌&&◌, ◌||◌, Option, none,
  some, List, [], ◌∷◌, str_eq, equal_fold, if◌then◌else◌,
}
use check_tx_server.Errors.{GoError, TokenError, token, panicked, plain}
use check_tx_server.Exec.{Result, ok, err, Exec, pure, fail, gets, lift, ◌>>=◌, ◌>>◌}
use check_tx_server.Abi.Bytes.{Bytes, get_big_int}
use check_tx_server.Hex.{from_hex}
use check_tx_server.Eth.{
  Log, TxReceipt, ChainBridge, TokenConfig, Net, Verifying, same_bytes, bytes_to_address,
  hex_to_address, lower_hex, is_zero, get_token_config, get_router_contract,
  dont_check_token_received,
}

unfoldable pub transfer_topic : Bytes
unfolding from_hex
transfer_topic = from_hex "0xddf252ad1be2c89b69c2b068fc378daa952ba7f163c4a11628f55a4df523b3ef"

-- What a log makes of the search, which goes backwards: an end with the amount, if any, the log before,
-- the one before that, or a panic
pub data Verdict : Type 0 where
  stop : Option ℕ → Verdict
  go_on : Verdict
  skip : Verdict
  crash : Verdict

-- A Transfer log: from, to, and the data
pub record Transfer : Type 0 where
  pub from : Bytes
  pub to : Bytes
  pub content : Bytes

abbrev pub transfer_of : List Bytes → Option Bytes → Option Transfer
transfer_of (t0 ∷ t1 ∷ t2 ∷ []) (some bs) =
    if same_bytes t0 transfer_topic
    then some (record { from = bytes_to_address t1; to = bytes_to_address t2; content = bs })
    else none
transfer_of _ _ = none

abbrev pub received : Bytes → ℕ
received bs = get_big_int bs 0 32

abbrev pub is_removed : Option Bool → Bool
is_removed none = false
is_removed (some r) = r

module _ (router underlying swap_from : String) (token_addr : Bytes) where
  -- Whether the log before is a mint to the sender; `none` is a panic, at a missing topic.
  abbrev pub mint_of_topics : List Bytes → Option Bool
  mint_of_topics [] = none
  mint_of_topics (t0 ∷ []) = if same_bytes t0 transfer_topic then none else some false
  mint_of_topics (t0 ∷ t1 ∷ []) =
      if same_bytes t0 transfer_topic && is_zero (bytes_to_address t1) then none else some false
  mint_of_topics (t0 ∷ t1 ∷ t2 ∷ ts) = some (
      same_bytes t0 transfer_topic
      && is_zero (bytes_to_address t1)
      && same_bytes (bytes_to_address t2) (hex_to_address swap_from))

  abbrev pub mint_before : Option Log → Option Bool
  mint_before none = some false
  mint_before (some p) =
      if same_bytes p.address token_addr then mint_of_topics p.topics else some false

  abbrev pub after_burn : Option Bool → ℕ → Verdict
  after_burn none amount = crash
  after_burn (some true) amount = skip
  after_burn (some false) amount = stop (some amount)

  unfoldable pub judge_transfer : Bytes → Option Log → Transfer → Verdict
  judge_transfer address before t =
      let by_sender = equal_fold (lower_hex t.from) swap_from in
      if same_bytes address (hex_to_address underlying)
      then (if is_zero t.to
          then stop (if by_sender then some (received t.content) else none)
          else if same_bytes t.to token_addr
          then stop (
              if by_sender || equal_fold (lower_hex t.from) router
              then some (received t.content)
              else none)
          else go_on)
      else if same_bytes address token_addr
      then (if not (is_zero t.to)
          then go_on
          else if not by_sender
          then go_on
          else after_burn (mint_before before) (received t.content))
      else go_on

  abbrev pub judge_found : Bytes → Option Log → Option Transfer → Verdict
  judge_found address before none = go_on
  judge_found address before (some t) = judge_transfer address before t

  -- A log of the router ends the search; its first topic is read for the log's text.
  abbrev pub at_router : List Bytes → Verdict
  at_router [] = crash
  at_router (t0 ∷ ts) = stop none

  unfoldable pub judge : Log → Option Log → Verdict
  judge l before =
      if equal_fold (lower_hex l.address) router
      then at_router l.topics
      else if is_removed l.removed
      then go_on
      else judge_found l.address before (transfer_of l.topics l.log_data)

  abbrev pub by_verdict : Verdict → Result (Option ℕ) → Result (Option ℕ) → Result (Option ℕ)
  by_verdict (stop amount) next next_but_one = ok amount
  by_verdict go_on next next_but_one = next
  by_verdict skip next next_but_one = next_but_one
  by_verdict crash next next_but_one = err panicked

  -- The log before counts only where there is another one before it.
  abbrev pub seen_before : Log → List Log → Option Log
  seen_before p [] = none
  seen_before p (q ∷ rest) = some p

  -- The loop, over the logs before the swap's, the last one first
  unfoldable pub search : List Log → Result (Option ℕ)
  search [] = ok none
  search (l ∷ []) = by_verdict (judge l none) (ok none) (ok none)
  search (l ∷ p ∷ rest) =
      let next = search (p ∷ rest) in
      let next_but_one = search rest in by_verdict (judge l (seen_before p rest)) next next_but_one

-- logs[k], …, logs[0], behind `acc`
abbrev pub backwards : ℕ → List Log → List Log → List Log
backwards zero logs acc = acc
backwards (suc k) [] acc = acc
backwards (suc k) (l ∷ logs) acc = backwards k logs (l ∷ acc)

-- At least four fifths of the value
abbrev pub enough : Option ℕ → Option ℕ → Result (Unit {0})
enough none value = err (plain "no underlying token received")
enough (some amount) none = err panicked
enough (some amount) (some value) =
    if ltb amount (value * 4 / 5)
    then err (plain "check underlying token received failed")
    else ok tt

module _ (n : Net) (b : ChainBridge) where
  unfoldable pub received_by : TxReceipt → TokenConfig → Exec Verifying (Unit {0})
  received_by receipt cfg w =
      (let router_contract = get_router_contract b w.erc20.token in
          if dont_check_token_received n.params w.erc20.token_id
          then pure tt
          else if is_zero (hex_to_address cfg.underlying)
          then pure tt
          else if str_eq router_contract ""
          then fail (token TokenError.miss_router_info)
          else do
            amount ← lift (
                search router_contract cfg.underlying w.info.from (hex_to_address w.erc20.token)
                  (backwards w.info.log_index receipt.logs []))
            lift (enough amount w.info.value))
        w

  unfoldable pub by_config : TxReceipt → Option TokenConfig → Exec Verifying (Unit {0})
  unfolding received_by
  by_config receipt none w = fail (token TokenError.miss_token_config) w
  by_config receipt (some cfg) w =
      (if str_eq w.erc20.token_id ""
          then fail (token TokenError.miss_token_config)
          else received_by receipt cfg)
        w

  unfoldable pub check_token_received : TxReceipt → Exec Verifying (Unit {0})
  unfolding by_config
  check_token_received receipt w = by_config receipt (get_token_config b w.erc20.token) w

-- ===== src/Worker/Send.antt =====
-- worker/common.go: handing a signed transaction to its chain. The waits between the calls are left out,
-- and so is sendTxLoopUntilSuccess, which goes on beside this and only sends the same transaction again.
pub mod Bounds
use Prim.Native.Char.{code}
use check_tx_server.Common.{
  ℕ, zero, suc, ◌+◌, ◌-◌, String, ltb, ◌==◌, Bool, true, false, not, ◌&&◌, ◌||◌, Option, none, some,
  List, [], ◌∷◌, str_eq, equal_fold, decimal, lookup, if◌then◌else◌,
}
use check_tx_server.Errors.{GoError, error_text}
use check_tx_server.Exec.{
  Result, ok, err, Exec, pure, fail, gets, modify, attempt, lift, ◌>>=◌, ◌>>◌,
}
use check_tx_server.Hex.{BigInt, pos, negsuc}
use check_tx_server.Tokens.{BuildTxArgs}
use check_tx_server.Worker.{World, Setup, Bridge, Sending, tick}

-- strings.HasPrefix and strings.Contains
has_prefix : String → String → Bool
has_prefix s String.[] = true
has_prefix String.[] (String.◌∷◌ d t) = false
has_prefix (String.◌∷◌ c s) (String.◌∷◌ d t) = code c == code d && has_prefix s t

contains : String → String → Bool
unfolding has_prefix
contains String.[] t = has_prefix "" t
contains (String.◌∷◌ c s) t = has_prefix (String.◌∷◌ c s) t || contains s t

unfoldable pub need_retry_send_tx : GoError → Bool
unfolding contains equal_fold error_text
need_retry_send_tx e =
    contains (error_text e) "Client.Timeout exceeded while awaiting headers"
    || contains (error_text e) "json-rpc error -32000, internal"
    || equal_fold (error_text e) "json-rpc error -32000, "

-- One call of bridge.SendTransaction, which is recorded
unfoldable pub send_transaction : Bridge → String → String → Exec World String
send_transaction bridge chain_id signed_tx = do
  n ← tick
  modify (λ w. record w {
    sendings = record { chain_id = chain_id; signed_tx = signed_tx } ∷ w.sendings;
  })
  lift (bridge.send_transaction n signed_tx)

module _ (bridge : Bridge) (chain_id signed_tx : String) where
  or_else : Exec World String → Result String → Exec World String
  or_else again (ok hash) = pure hash
  or_else again (err e) = again

  -- The inner loop: at most `suc more` calls, until one succeeds
  try_send : ℕ → Exec World String
  unfolding or_else
  try_send zero = send_transaction bridge chain_id signed_tx
  try_send (suc more) = do
    let again = try_send more
    sent ← attempt (send_transaction bridge chain_id signed_tx)
    or_else again sent

  if_retried : Exec World String → Result String → Exec World String
  if_retried again (ok hash) = pure hash
  if_retried again (err e) = if need_retry_send_tx e then again else fail e

  -- The outer loop: at most `suc more` rounds of three calls
  send_rounds : ℕ → Exec World String
  unfolding if_retried try_send
  send_rounds zero = try_send 2
  send_rounds (suc more) = do
    let again = send_rounds more
    sent ← attempt (try_send 2)
    if_retried again sent

rounds_of : Option BigInt → ℕ
rounds_of none = 2
rounds_of (some (pos n)) = if n == 0 then 2 else n
rounds_of (some (negsuc n)) = 0

-- The configured RetrySendTxLoopCount of the chain; 0 and nothing mean 2, and a negative one no round.
unfoldable pub retry_rounds : Setup → String → ℕ
unfolding rounds_of lookup
retry_rounds u chain_id = rounds_of (lookup chain_id u.retry_send_loops)

-- Without a round nothing is sent, and the hash is empty.
sent_in : Bridge → String → String → ℕ → Exec World String
unfolding send_rounds
sent_in bridge chain_id signed_tx zero = pure ""
sent_in bridge chain_id signed_tx (suc more) = send_rounds bridge chain_id signed_tx more

-- sendSignedTransaction
unfoldable pub send_signed_transaction : Setup → Bridge → String → BuildTxArgs → Exec World String
unfolding retry_rounds sent_in
send_signed_transaction u bridge signed_tx args =
    let chain_id = decimal args.to_chain_id in
    sent_in bridge chain_id signed_tx (retry_rounds u chain_id)

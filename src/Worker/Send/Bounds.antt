-- ===== src/Worker/Send/Bounds.antt =====
-- How often a signed transaction is handed to its chain.
use check_tx_server.Common.{
  ℕ, zero, suc, ◌+◌, ◌*◌, ◌≤◌, ◌<◌, String, ◌≡◌, refl, ap, sym, ◌∙◌, ◌⊎◌, Bool-cases, List, ◌∷◌,
  arith, decimal, inl, inr,
}
use check_tx_server.Exec.{Result, ok, err, Exec}
use check_tx_server.Exec.Inversion.{Result-cases}
use check_tx_server.Tokens.{BuildTxArgs}
use check_tx_server.Worker.{World, Setup, Bridge, Sending, tick}
use check_tx_server.Worker.Send.{
  send_transaction, try_send, or_else, if_retried, need_retry_send_tx, send_rounds, sent_in,
  send_signed_transaction, retry_rounds,
}

-- `n` sendings, before the earlier ones
abbrev pub repeat : ℕ → Sending → List Sending → List Sending
repeat zero s rest = rest
repeat (suc n) s rest = s ∷ repeat n s rest

repeat_shift :
    (n : ℕ) (s : Sending) (rest : List Sending) → repeat n s (s ∷ rest) ≡ s ∷ repeat n s rest
repeat_shift zero s rest = refl
repeat_shift (suc n) s rest = rw (repeat_shift n s rest) refl

module _ (bridge : Bridge) (chain_id signed_tx : String) where
  abbrev pub sending : Sending
  sending = record { chain_id = chain_id; signed_tx = signed_tx }

  abbrev one : World → World
  one w = record w {
    sendings = sending ∷ w.sendings;
    db = record (w.db) { ticks = suc w.db.ticks };
  }

  -- The world after `n` calls
  unfoldable pub sent_times : ℕ → World → World
  sent_times zero w = w
  sent_times (suc n) w = sent_times n (one w)

  sent_times-sent_times :
      (m n : ℕ) (w : World) → sent_times m (sent_times n w) ≡ sent_times (n + m) w
  unfolding sent_times
  sent_times-sent_times m zero w = ap (λ k. sent_times k w) {x = m} {y = 0 + m} (omega arith)
  sent_times-sent_times m (suc n) w =
      let shift : suc n + m ≡ suc (n + m) = omega arith in
      rw shift (sent_times-sent_times m n (one w))

  sent_times-ticks : (n : ℕ) (w : World) → (sent_times n w).db.ticks ≡ w.db.ticks + n
  unfolding sent_times
  sent_times-ticks zero w = omega arith
  sent_times-ticks (suc n) w = omega (arith, sent_times-ticks n (one w))

  -- `more + 1` calls at most, of which the last one gives the outcome
  abbrev Sent : ℕ → World → Result String × World → Type 0
  Sent more w p =
      (n : ℕ) × (n ≤ more)
      × (p ≡ (bridge.send_transaction (w.db.ticks + n) signed_tx, sent_times (suc n) w))

  Sent-weaken :
      (few more : ℕ) (w : World) (p : Result String × World)
      → few ≤ more
      → Sent few w p
      → Sent more w p
  Sent-weaken few more w p h (n, k, e) = (n, omega arith, e)

  Sent-more :
      (more n : ℕ) (w : World) (p : Result String × World)
      → Sent more (sent_times (suc n) w) p
      → Sent (suc (n + more)) w p
  Sent-more more n w p (m, h, e) =
      let calls : suc n + suc m ≡ suc (suc (n + m)) = omega arith in
      let ticks : (sent_times (suc n) w).db.ticks + m ≡ w.db.ticks + suc (n + m) =
        omega (arith, sent_times-ticks (suc n) w) in
      let joined = rw calls at (sent_times-sent_times (suc m) (suc n) w) in
      let merged = rw joined at e in (suc (n + m), omega arith, rw ticks at merged)

  once : (more : ℕ) (w : World) → Sent more w (bridge.send_transaction w.db.ticks signed_tx, one w)
  unfolding sent_times
  once more w =
      let same : w.db.ticks + 0 ≡ w.db.ticks = omega arith in (0, omega arith, rw same refl)

  try_send-Sent : (more : ℕ) (w : World) → Sent more w (try_send bridge chain_id signed_tx more w)
  unfolding try_send send_transaction tick or_else sent_times
  try_send-Sent zero w = once 0 w
  try_send-Sent (suc more) w = elim (Result-cases (bridge.send_transaction w.db.ticks signed_tx)) [
    | inl (hash, e) ↦ rw e (rw e at (once (suc more) w))
    | inr (x, e) ↦
        let rest =
          Sent-more more 0 w (try_send bridge chain_id signed_tx more (one w))
            (try_send-Sent more (one w)) in
        rw e (Sent-weaken (suc (0 + more)) (suc more) w _ (omega arith) rest)
  ]

  -- The rounds that are left after a first one
  abbrev calls_of : ℕ → ℕ
  calls_of more = 2 + 3 * more

  after_round :
      (more : ℕ) (w : World) (again : Exec World String)
      → ((v : World) → Sent (calls_of more) v (again v))
      → (p : Result String × World) → Sent 2 w p
      → Sent (calls_of (suc more)) w (if_retried bridge chain_id signed_tx again p.0 p.1)
  unfolding if_retried
  after_round more w again h (ok hash, v) sent = Sent-weaken 2 _ w _ (omega arith) sent
  after_round more w again h (err e, v) (n, le, same) = elim (Bool-cases (need_retry_send_tx e)) [
    | inl retried ↦
        let place : v ≡ sent_times (suc n) w = ap (λ q. q.1) same in
        let rest = Sent-more (calls_of more) n w (again v) (rw (sym place) (h v)) in
        rw retried (Sent-weaken _ _ w _ (omega arith) rest)
    | inr given_up ↦ rw given_up (Sent-weaken 2 _ w _ (omega arith) (n, le, same))
  ]

  send_rounds-Sent :
      (more : ℕ) (w : World) → Sent (calls_of more) w (send_rounds bridge chain_id signed_tx more w)
  unfolding send_rounds
  send_rounds-Sent zero w = try_send-Sent 2 w
  send_rounds-Sent (suc more) w =
      after_round more w (send_rounds bridge chain_id signed_tx more) (send_rounds-Sent more) _
        (try_send-Sent 2 w)

  sent_times-sendings :
      (n : ℕ) (w : World) → (sent_times n w).sendings ≡ repeat n sending w.sendings
  unfolding sent_times
  sent_times-sendings zero w = refl
  sent_times-sendings (suc n) w = sent_times-sendings n (one w) ∙ repeat_shift n sending w.sendings

  sent_times-swaps : (n : ℕ) (w : World) → (sent_times n w).db.swaps ≡ w.db.swaps
  unfolding sent_times
  sent_times-swaps zero w = refl
  sent_times-swaps (suc n) w = sent_times-swaps n (one w)

  sent_times-results : (n : ℕ) (w : World) → (sent_times n w).db.results ≡ w.db.results
  unfolding sent_times
  sent_times-results zero w = refl
  sent_times-results (suc n) w = sent_times-results n (one w)

  -- With some round, the transaction is handed over at least once and at most three times for each round;
  -- the outcome is that of the last of these calls. Without one, nothing is sent, and there is no error.
  abbrev pub Handed : ℕ → World → Result String × World → Type 0
  Handed zero w p = (p.0 ≡ ok "") × (p.1.sendings ≡ w.sendings)
  Handed (suc more) w p =
      (n : ℕ) × (n < 3 * suc more)
      × (p.0 ≡ bridge.send_transaction (w.db.ticks + n) signed_tx)
      × (p.1.sendings ≡ repeat (suc n) sending w.sendings)

  sent_in-Handed :
      (rounds : ℕ) (w : World)
      → let p = sent_in bridge chain_id signed_tx rounds w in
        Handed rounds w p × (p.1.db.swaps ≡ w.db.swaps) × (p.1.db.results ≡ w.db.results)
  unfolding sent_in
  sent_in-Handed zero w = ((refl, refl), refl, refl)
  sent_in-Handed (suc more) w =
      let (n, le, e) = send_rounds-Sent more w in
      (
        (n, omega arith, ap (λ p. p.0) e, ap (λ p. p.1.sendings) e ∙ sent_times-sendings (suc n) w),
        ap (λ p. p.1.db.swaps) e ∙ sent_times-swaps (suc n) w,
        ap (λ p. p.1.db.results) e ∙ sent_times-results (suc n) w,
      )

-- Nothing was sent, or one transaction, one or more times.
pub Handed-sendings :
    (bridge : Bridge) (chain_id signed_tx : String) (rounds : ℕ) (w : World)
    (p : Result String × World)
    → Handed bridge chain_id signed_tx rounds w p
    → (p.1.sendings ≡ w.sendings)
      ⊎ ((n : ℕ) × (p.1.sendings ≡ repeat (suc n) (sending bridge chain_id signed_tx) w.sendings))
Handed-sendings bridge chain_id signed_tx zero w p (_, none_sent) = inl none_sent
Handed-sendings bridge chain_id signed_tx (suc more) w p (n, _, _, sent) = inr (n, sent)

pub send_signed_transaction_lem :
    (u : Setup) (bridge : Bridge) (signed_tx : String) (args : BuildTxArgs) (w : World)
    → let chain_id = decimal args.to_chain_id in
      let p = send_signed_transaction u bridge signed_tx args w in
      Handed bridge chain_id signed_tx (retry_rounds u chain_id) w p
      × (p.1.db.swaps ≡ w.db.swaps)
      × (p.1.db.results ≡ w.db.results)
unfolding send_signed_transaction
send_signed_transaction_lem u bridge signed_tx args w =
    let c = decimal args.to_chain_id in sent_in-Handed bridge c signed_tx (retry_rounds u c) w

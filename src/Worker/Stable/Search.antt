-- ===== src/Worker/Stable/Search.antt =====
-- What getSwapTxStatus answers: a transaction of the swap, with the chain's answer for it.
use check_tx_server.Common.{
  ℕ, String, Bool-cases, true, List, [], ◌∷◌, any, str_eq, ◌≡◌, refl, inl, inr, arith, eq_iff,
}
use check_tx_server.Exec.{Result, ok}
use check_tx_server.Tables.{MgoSwapResult}
use check_tx_server.Worker.{World, Bridge, tick}
use check_tx_server.Worker.Stable.{get_swap_tx_status, search_old, answers, Located}

module _ (bridge : Bridge) (swap : MgoSwapResult) where
  -- The chain's answer `status` for the transaction of `found`, one of `txs`
  abbrev pub AnswerFor : List String → Located bridge → Type 0
  AnswerFor txs (status, found) =
      (n : ℕ) × ((bridge.get_transaction_status n found.swap_tx).0 ≡ status)
      × (any (str_eq found.swap_tx) txs ≡ true)
      × (found ≡ record swap { swap_tx = found.swap_tx })

  more :
      (tx old : String) (olds : List String)
      → any (str_eq tx) (swap.swap_tx ∷ olds) ≡ true
      → any (str_eq tx) (swap.swap_tx ∷ old ∷ olds) ≡ true
  more tx old olds e = ground (arith, e)

  abbrev Finds : List String → World → Result (Located bridge) × World → Type 0
  Finds txs w (r, v) = (out : Located bridge) × (r ≡ ok out) × AnswerFor txs out

  search_old_lem :
      (n : ℕ) (olds : List String) (w : World)
      → Finds
          (swap.swap_tx ∷ olds)
          w
          (search_old bridge swap (bridge.get_transaction_status n swap.swap_tx).0 olds w)
  unfolding search_old tick
  search_old_lem n [] w =
      (_, refl, (n, refl, ground (arith, eq_iff swap.swap_tx swap.swap_tx), refl))
  search_old_lem n (old ∷ olds) w = elim (Bool-cases (str_eq swap.swap_tx old)) [
    | inl same ↦
        let (out, e, (m, answer, among, changed)) = search_old_lem n olds w in
        (out, ground (arith, e), (m, answer, more out.1.swap_tx old olds among, changed))
    | inr other ↦ elim (Bool-cases (answers (bridge.get_transaction_status w.db.ticks old))) [
      | inl found ↦ (
        ((bridge.get_transaction_status w.db.ticks old).0, record swap { swap_tx = old }),
        ground (arith, other, found),
        (w.db.ticks, refl, ground (arith, eq_iff old old), refl),
      )
      | inr none ↦
          let (out, e, (m, answer, among, changed)) = search_old_lem n olds (tick w).1 in
          (
            out,
            ground (arith, other, none, e),
            (m, answer, more out.1.swap_tx old olds among, changed),
          )
    ]
  ]

  -- getSwapTxStatus always answers: with a result that differs from the one it was given in its
  -- transaction at most, which is the latest one or one of the old ones, and with what the chain
  -- answered for this transaction.
  pub get_swap_tx_status-finds :
      (w : World)
      → (out : Located bridge) × ((get_swap_tx_status bridge swap w).0 ≡ ok out)
        × AnswerFor (swap.swap_tx ∷ swap.old_swap_txs) out
  unfolding get_swap_tx_status tick
  get_swap_tx_status-finds w =
      elim (Bool-cases (answers (bridge.get_transaction_status w.db.ticks swap.swap_tx))) [
        | inl found ↦ (
          ((bridge.get_transaction_status w.db.ticks swap.swap_tx).0, swap),
          ground (arith, found),
          (w.db.ticks, refl, ground (arith, eq_iff swap.swap_tx swap.swap_tx), refl),
        )
        | inr none ↦
            let (out, e, answer) = search_old_lem w.db.ticks swap.old_swap_txs (tick w).1 in
            (out, ground (arith, none, e), answer)
      ]

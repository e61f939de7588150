-- ===== src/Worker/Stable/Open.antt =====
-- When checkIfSwapNonceHasPassed lets a transaction be sent again.
use check_tx_server.Common.{
  ℕ, Bool-cases, Option-cases, true, false, Option, none, some, ◌∷◌, ◌≡◌, ◌≢◌, ltb, ap, ◌&&◌, ◌⊎◌,
  inl, inr, arith,
}
use check_tx_server.Errors.{GoError}
use check_tx_server.Exec.{ok, err, ◌>>=◌}
use check_tx_server.Exec.Inversion.{Result-cases}
use check_tx_server.Tables.{MgoSwapResult}
use check_tx_server.Tokens.{TxStatus}
use check_tx_server.Worker.{World, Setup, Bridge, NonceSetter, tick, now}
use check_tx_server.Worker.Stable.{
  get_swap_tx_status, check_if_swap_nonce_has_passed, has_height, mark_passed, passed_by_setter,
  passed_by, passed_interval, nonce_error, sent_error, Located,
}
use check_tx_server.Worker.Stable.Search.{AnswerFor, get_swap_tx_status-finds}
use check_tx_server.Worker.Stable.Passed.{asked, located}

-- The chain knows no mined transaction of the swap, and its nonce has not gone past the swap's.
abbrev pub Open : Bridge → MgoSwapResult → NonceSetter → Type 0
Open bridge res setter =
    (n nonce : ℕ) × (out : Located bridge) × (setter.get_pool_nonce n res.mpc "latest" ≡ ok nonce)
    × AnswerFor bridge res (res.swap_tx ∷ res.old_swap_txs) out
    × (has_height out.0 ≡ false)
    × ((ltb res.swap_nonce nonce && ltb 0 res.swap_nonce) ≡ false)

module _ (u : Setup) (bridge : Bridge) where
  marked-fails :
      (res : MgoSwapResult) (n m : ℕ) (w : World)
      → ((mark_passed u res >>= (λ _. nonce_error u true n m)) w).0 ≢ ok tt
  unfolding nonce_error
  marked-fails res n m w h = elim (Result-cases (mark_passed u res w).0) [
    | inl (t, e) ↦ ground arith
    | inr (x, e) ↦ ground arith
  ]

  interval-fails :
      (res : MgoSwapResult) (nonce : ℕ) (status : Option TxStatus) (w : World)
      → (passed_interval u bridge res true nonce status w).0 ≢ ok tt
  unfolding passed_interval sent_error
  interval-fails res nonce (some s) w h = marked-fails res res.swap_nonce nonce w h
  interval-fails res nonce none w h =
      let (out, e, _) = get_swap_tx_status-finds bridge res w in
      elim (Bool-cases (has_height out.0)) [
        | inl mined ↦ ground (arith, e, h)
        | inr new ↦
            marked-fails out.1 out.1.swap_nonce nonce (get_swap_tx_status bridge res w).1
              (ground (arith, e, new, h))
      ]

module _ (u : Setup) (bridge : Bridge) (res : MgoSwapResult) where
  module _ (setter : NonceSetter) (w : World) where
    mined-fails :
        (nonce : ℕ) (out : Located bridge)
        → asked u bridge res true setter w ≡ ok nonce
        → (located u bridge res true setter w).0 ≡ ok out
        → has_height out.0 ≡ true
        → (passed_by u bridge res true setter w).0 ≢ ok tt
    unfolding passed_by tick sent_error
    mined-fails nonce out h e mined done = ground (arith, h, e, mined)

    late-fails :
        (nonce : ℕ) (out : Located bridge)
        → asked u bridge res true setter w ≡ ok nonce
        → (located u bridge res true setter w).0 ≡ ok out
        → has_height out.0 ≡ false
        → (ltb out.1.swap_nonce nonce && ltb 0 out.1.swap_nonce) ≡ true
        → (passed_by u bridge res true setter w).0 ≢ ok tt
    unfolding passed_by tick nonce_error
    late-fails nonce out h e new late done = ground (
      arith,
      h,
      e,
      new,
      late,
      interval-fails u bridge out.1 nonce out.0 (now u (located u bridge res true setter w).1).1,
    )

    failed :
        (x : GoError)
        → asked u bridge res true setter w ≡ err x
        → (passed_by u bridge res true setter w).0 ≢ ok tt
    unfolding passed_by tick
    failed x h done = ground (arith, h)

    passed_by-Open : (passed_by u bridge res true setter w).0 ≡ ok tt → Open bridge res setter
    passed_by-Open done = elim (Result-cases (asked u bridge res true setter w)) [
      | inr (x, h) ↦ absurd (failed x h done)
      | inl (nonce, h) ↦
          let (out, e, answer) = get_swap_tx_status-finds bridge res (tick w).1 in
          let same = ap (λ r. r.swap_nonce) answer.3 in
          elim (Bool-cases (has_height out.0)) [
            | inl mined ↦ absurd (mined-fails nonce out h e mined done)
            | inr new ↦ elim (Bool-cases (ltb out.1.swap_nonce nonce && ltb 0 out.1.swap_nonce)) [
              | inl late ↦ absurd (late-fails nonce out h e new late done)
              | inr early ↦ (w.db.ticks, nonce, out, h, answer, new, ground (arith, same))
            ]
          ]
    ]

  -- Asked for a replacement, checkIfSwapNonceHasPassed returns no error only if the bridge keeps no
  -- nonces, or the chain answers that the transaction of the swap is in no block yet, and that the
  -- sender's nonce is not above the swap's, where this is not 0.
  pub check_if_swap_nonce_has_passed-Open :
      (w : World)
      → (check_if_swap_nonce_has_passed u bridge res true w).0 ≡ ok tt
      → (bridge.nonce_setter ≡ none)
        ⊎ ((setter : NonceSetter) × (bridge.nonce_setter ≡ some setter) × Open bridge res setter)
  unfolding check_if_swap_nonce_has_passed passed_by_setter
  check_if_swap_nonce_has_passed-Open w done = elim (Option-cases bridge.nonce_setter) [
    | inl e ↦ inl e
    | inr (setter, at) ↦ inr (setter, at, passed_by-Open setter w (ground (arith, at, done)))
  ]

-- ===== src/NonceSetter/Start.antt =====
-- InitSwapNonce catches up with the chain.
use check_tx_server.Common.{
  ℕ, zero, suc, ◌+◌, ◌<◌, String, ◌≡◌, refl, ltb, if◌then◌else◌, eq_iff, lookup-set_entry, to_lower,
  arith,
}
use check_tx_server.Errors.{GoError}
use check_tx_server.Exec.{Result, ok, err}
use check_tx_server.NonceSetter.{
  Nonces, init_swap_nonce, pending_or, get_swap_nonce, retry_rpc_count,
}

module _ (get_pool_nonce : ℕ → String → String → Result ℕ) where
  -- The call number `i` is the first that is answered, by `pending`.
  abbrev pub FirstAnswer : String → Nonces → ℕ → ℕ → Type 0
  FirstAnswer account s i pending =
      ((j : ℕ)
        → j < i
        → (e : GoError) × (get_pool_nonce (s.db.ticks + j) account "pending" ≡ err e))
      × (get_pool_nonce (s.db.ticks + i) account "pending" ≡ ok pending)

  abbrev pub the_larger : ℕ → ℕ → ℕ
  the_larger nonce pending = if ltb nonce pending then pending else nonce

  abbrev next : Nonces → Nonces
  next s = record s { db = record (s.db) { ticks = suc s.db.ticks } }

  shift : (s : Nonces) (j : ℕ) → s.db.ticks + suc j ≡ suc s.db.ticks + j
  shift s j = omega arith

  unshifted : (s : Nonces) → s.db.ticks + 0 ≡ s.db.ticks
  unshifted s = omega arith

  later :
      (account : String) (s : Nonces) (i pending : ℕ)
      → FirstAnswer account s (suc i) pending
      → FirstAnswer account (next s) i pending
  later account s i pending (fails, answers) = (
    λ j lt. let (e, at) = fails (suc j) (omega (arith, lt)) in (e, rw (shift s j) at at),
    rw (shift s i) at answers,
  )

  pending_or-first :
      (account : String) (nonce rounds i pending : ℕ) (s : Nonces)
      → i < rounds
      → FirstAnswer account s i pending
      → (pending_or get_pool_nonce account nonce rounds s).0 ≡ ok (the_larger nonce pending)
  unfolding pending_or
  pending_or-first account nonce zero i pending s lt first = absurd (omega (arith, lt))
  pending_or-first account nonce (suc rounds) zero pending s lt (_, answers) =
      ground (arith, rw (unshifted s) at answers)
  pending_or-first account nonce (suc rounds) (suc i) pending s lt first =
      let (e, at) = first.0 0 (omega arith) in
      let rest =
        pending_or-first account nonce rounds i pending (next s) (omega (arith, lt))
          (later account s i pending first) in
      ground (arith, rw (unshifted s) at at, rest)

  pending_or-nonces :
      (account : String) (nonce rounds : ℕ) (s : Nonces)
      → (pending_or get_pool_nonce account nonce rounds s).1.swap_nonce ≡ s.swap_nonce
  unfolding pending_or
  pending_or-nonces account nonce zero s = refl
  pending_or-nonces account nonce (suc rounds) s =
      ground (arith, pending_or-nonces account nonce rounds (next s))

  -- Where the chain answers one of the first three calls, InitSwapNonce sets the sender's counter to
  -- the larger one of the nonce that it is given and of the first answer.
  pub init_swap_nonce-first :
      (address : String) (nonce i pending : ℕ) (s : Nonces)
      → i < retry_rpc_count
      → FirstAnswer (to_lower address) s i pending
      → get_swap_nonce address (init_swap_nonce get_pool_nonce address nonce s).1
        ≡ the_larger nonce pending
  unfolding init_swap_nonce get_swap_nonce
  init_swap_nonce-first address nonce i pending s lt first =
      let account = to_lower address in
      let e = pending_or-first account nonce retry_rpc_count i pending s lt first in
      let same = pending_or-nonces account nonce retry_rpc_count s in
      rw e (
        rw (lookup-set_entry account account (the_larger nonce pending) _)
          (ground (arith, eq_iff account account)))

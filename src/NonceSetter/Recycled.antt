-- ===== src/NonceSetter/Recycled.antt =====
-- A nonce that was given back is given once more at most.
use check_tx_server.Common.{
  ℕ, ◌+◌, ◌/◌, ◌≤◌, ◌≡◌, ◌≢◌, inl, inr, Bool-cases, none, some, true, ltb, eq_iff, lookup,
  set_entry, lookup-set_entry, arith, Option-cases,
}
use check_tx_server.Exec.{Result, ok}
use check_tx_server.Exec.Inversion.{Result-cases}
use check_tx_server.Tokens.{BuildTxArgs}
use check_tx_server.Db
use check_tx_server.Db.{Db, Env}
use check_tx_server.Results.{allocate_router_swap_nonce}
use check_tx_server.Results.Nonce.{allocate-out}
use check_tx_server.NonceSetter.{
  Nonces, RecycleNonceRecord, try_allocate_recycle_nonce, from_record,
}
use check_tx_server.NonceSetter.Counter.{account}

module _ (env : Env) (args : BuildTxArgs) (lifetime : ℕ) (s : Nonces) where
  abbrev after_now : Db
  after_now = (Db.now env s.db).1

  abbrev recycled : RecycleNonceRecord → Result (ℕ × ℕ)
  recycled rec = (allocate_router_swap_nonce env args rec.nonce true after_now).0

  from_record-ok :
      (rec : RecycleNonceRecord) (n : ℕ)
      → (from_record env args lifetime (some rec) s).0 ≡ ok n
      → (rec.timestamp + lifetime ≤ env.milli s.db.ticks / 1000)
        × ((next : ℕ) × (recycled rec ≡ ok (n, next))
            × ((from_record env args lifetime (some rec) s).1.recycle_nonce
                ≡ set_entry (account env args) (record rec { nonce = next }) s.recycle_nonce)
            × ((from_record env args lifetime (some rec) s).1.swap_nonce ≡ s.swap_nonce))
  unfolding from_record Db.now
  from_record-ok rec n h =
      elim (Bool-cases (ltb (env.milli s.db.ticks / 1000) (rec.timestamp + lifetime))) [
        | inl soon ↦ absurd (ground (arith, soon, h))
        | inr acked ↦ elim (Result-cases (recycled rec)) [
          | inr (x, e) ↦ absurd (ground (arith, acked, e, h))
          | inl (out, e) ↦ (
            ground (arith, acked),
            (
              out.1,
              ground (arith, acked, e, h),
              ground (arith, acked, e),
              ground (arith, acked, e),
            ),
          )
        ]
      ]

  no_record : (n : ℕ) → (from_record env args lifetime none s).0 ≢ ok n
  unfolding from_record
  no_record n h = ground (arith, h)

  not_zero : (rec : RecycleNonceRecord) (out : ℕ × ℕ) → recycled rec ≡ ok out → rec.nonce ≢ 0
  unfolding allocate_router_swap_nonce
  not_zero rec out e zero = ground (arith, e, zero)

  -- A TryAllocateRecycleNonce that returns gives the recycled nonce of the sender, which is not 0 and
  -- was given back at least the interval ago, and leaves the sender with the recycled nonce 0; the
  -- counters stay.
  pub try_allocate_recycle_nonce-once :
      (n : ℕ)
      → (try_allocate_recycle_nonce env args lifetime s).0 ≡ ok n
      → (rec : RecycleNonceRecord) × (lookup (account env args) s.recycle_nonce ≡ some rec)
        × (n ≡ rec.nonce)
        × (n ≢ 0)
        × (rec.timestamp + lifetime ≤ env.milli s.db.ticks / 1000)
        × (lookup
              (account env args)
              (try_allocate_recycle_nonce env args lifetime s).1.recycle_nonce
            ≡ some (record rec { nonce = 0 }))
        × ((try_allocate_recycle_nonce env args lifetime s).1.swap_nonce ≡ s.swap_nonce)
  unfolding try_allocate_recycle_nonce
  try_allocate_recycle_nonce-once n h =
      elim (Option-cases (lookup (account env args) s.recycle_nonce)) [
        | inl free ↦ absurd (no_record n (rw free at h))
        | inr (rec, at) ↦
            let (acked, (next, e, records, counters)) = from_record-ok rec n (rw at at h) in
            let is = allocate-out env args rec.nonce true after_now (n, next) e in
            let given : n ≡ rec.nonce = ground (arith, is) in
            let cleared : next ≡ 0 = ground (arith, is) in
            (
              rec,
              at,
              given,
              λ z. not_zero rec (n, next) e (omega (arith, given, z)),
              acked,
              rw at (
                  rw records (
                    rw
                      (lookup-set_entry (account env args) (account env args)
                        (record rec { nonce = next }) s.recycle_nonce)
                      (ground (arith, eq_iff (account env args) (account env args), cleared)))),
              rw at counters,
            )
      ]

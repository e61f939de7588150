-- ===== src/NonceSetter/Counter.antt =====
-- What one AllocateNonce does to the counters and to the recycled nonces.
use check_tx_server.Common.{
  ℕ, ◌+◌, ◌^◌, ◌%◌, String, ◌≡◌, refl, ap, ◌∙◌, inl, inr, ◌⊎◌, str_eq, false, eq_iff, lookup,
  set_entry, lookup-set_entry, to_lower, arith, List, [],
}
use check_tx_server.Errors.{GoError}
use check_tx_server.Exec.{Result, ok, err}
use check_tx_server.Exec.Inversion.{Result-cases}
use check_tx_server.Tokens.{BuildTxArgs}
use check_tx_server.Db.{Env}
use check_tx_server.Results.{allocate_router_swap_nonce}
use check_tx_server.Results.Nonce.{allocate-out}
use check_tx_server.NonceSetter.{
  Nonces, get_swap_nonce, allocate_nonce, try_allocate_recycle_nonce, from_counter, nonce_or_zero,
}

abbrev pub counter : String → Nonces → ℕ
counter account s = nonce_or_zero (lookup account s.swap_nonce)

module _ (env : Env) (args : BuildTxArgs) where
  abbrev pub account : String
  account = to_lower args.from

  module _ (s : Nonces) where
    abbrev allocated : Result (ℕ × ℕ)
    allocated = (allocate_router_swap_nonce env args (counter account s) false s.db).0

    abbrev entered : List (String × ℕ)
    entered = set_entry account (counter account s) s.swap_nonce

    -- The counters afterwards, when a nonce is given, and when none is
    from_counter-ok :
        (n next : ℕ)
        → allocated ≡ ok (n, next)
        → ((from_counter env args s).0 ≡ ok n)
          × ((from_counter env args s).1.swap_nonce ≡ set_entry account next entered)
    unfolding from_counter get_swap_nonce
    from_counter-ok n next e = (ground (arith, e), ground (arith, e))

    from_counter-err :
        (x : GoError)
        → allocated ≡ err x
        → ((from_counter env args s).0 ≡ err x) × ((from_counter env args s).1.swap_nonce ≡ entered)
    unfolding from_counter get_swap_nonce
    from_counter-err x e = (ground (arith, e), ground (arith, e))

    from_counter-recycle : (from_counter env args s).1.recycle_nonce ≡ s.recycle_nonce
    unfolding from_counter
    from_counter-recycle =
        elim (Result-cases
          (allocate_router_swap_nonce env args (get_swap_nonce args.from s) false s.db).0) [
            | inl (out, e) ↦ ground (arith, e)
            | inr (x, e) ↦ ground (arith, e)
          ]

    -- Every account but the sender's keeps its counter.
    entered-other :
        (j : String) → str_eq account j ≡ false → lookup j entered ≡ lookup j s.swap_nonce
    entered-other j other =
        rw (lookup-set_entry account j (counter account s) s.swap_nonce) (ground (arith, other))

  -- The counter of one account, next to what is given
  abbrev pub Given : Nonces → Result ℕ → Nonces → Type 0
  Given s r t =
      ((n : ℕ) × (r ≡ ok n) × (n ≡ counter account s) × (counter account t ≡ (n + 1) % 2 ^ 64))
      ⊎ ((x : GoError) × (r ≡ err x) × (counter account t ≡ counter account s))

  from_counter-Given :
      (s : Nonces) → Given s (from_counter env args s).0 (from_counter env args s).1
  from_counter-Given s = elim (Result-cases (allocated s)) [
    | inl (out, e) ↦
        let is = allocate-out env args (counter account s) false s.db out e in
        let (gives, nonces) = from_counter-ok s out.0 out.1 e in
        inl (
          out.0,
          gives,
          ground (arith, is),
          rw nonces (
              rw (lookup-set_entry account account out.1 (entered s))
                (ground (arith, eq_iff account account, is))),
        )
    | inr (x, e) ↦
        let (fails, nonces) = from_counter-err s x e in
        inr (
          x,
          fails,
          rw nonces (
              rw (lookup-set_entry account account (counter account s) s.swap_nonce)
                (ground (arith, eq_iff account account))),
        )
  ]

  from_counter-other :
      (s : Nonces) (j : String)
      → str_eq account j ≡ false
      → lookup j (from_counter env args s).1.swap_nonce ≡ lookup j s.swap_nonce
  from_counter-other s j other = elim (Result-cases (allocated s)) [
    | inl (out, e) ↦ rw (from_counter-ok s out.0 out.1 e).1 (
        rw (lookup-set_entry account j out.1 (entered s))
          (ground (arith, other, entered-other s j other)))
    | inr (x, e) ↦ rw (from_counter-err s x e).1 (entered-other s j other)
  ]

  -- Without recycled nonces an allocation is one of the counter.
  module _ (s : Nonces) (none_recycled : s.recycle_nonce ≡ []) where
    allocate_nonce-from_counter : allocate_nonce env args s ≡ from_counter env args s
    unfolding allocate_nonce try_allocate_recycle_nonce lookup
    allocate_nonce-from_counter = rw none_recycled refl

    pub allocate_nonce-Given : Given s (allocate_nonce env args s).0 (allocate_nonce env args s).1
    allocate_nonce-Given = rw allocate_nonce-from_counter (from_counter-Given s)

    pub allocate_nonce-other :
        (j : String)
        → str_eq account j ≡ false
        → counter j (allocate_nonce env args s).1 ≡ counter j s
    allocate_nonce-other j other =
        rw allocate_nonce-from_counter (ap nonce_or_zero (from_counter-other s j other))

    pub allocate_nonce-recycle : (allocate_nonce env args s).1.recycle_nonce ≡ []
    allocate_nonce-recycle = rw allocate_nonce-from_counter (from_counter-recycle s ∙ none_recycled)

-- ===== src/NonceSetter/Issue.antt =====
-- The nonces that a sender is given over a run of the calls.
use check_tx_server.Common.{
  ℕ, ◌+◌, ◌^◌, ◌%◌, ◌≤◌, ◌<◌, String, ◌≡◌, refl, ◌∙◌, inl, inr, ◌⊎◌, Bool, Bool-cases, none, some,
  str_eq, true, false, leb, eq_iff, lookup, lookup-set_entry, to_lower, arith, Option, List, [],
  ◌∷◌,
}
use check_tx_server.Exec.{Result, ok, err}
use check_tx_server.Tokens.{BuildTxArgs}
use check_tx_server.Db.{Env}
use check_tx_server.NonceSetter.{Nonces, set_nonce, allocate_nonce, nonce_or_zero, raised}
use check_tx_server.NonceSetter.Counter.{
  counter, account, Given, allocate_nonce-Given, allocate_nonce-other, allocate_nonce-recycle,
}

-- AllocateNonce, and SetNonce, which follows what the chain tells
pub data Call : Type 0 where
  allocate : BuildTxArgs → Call
  set : String → ℕ → Call

module _ (env : Env) (sender : String) where
  abbrev pub and_given : Bool → Result ℕ → List ℕ → List ℕ
  and_given true (ok n) ns = n ∷ ns
  and_given true (err e) ns = ns
  and_given false r ns = ns

  -- The nonces that the account `sender`, in lower case, is given, in order
  unfoldable pub issued : List Call → Nonces → List ℕ
  issued [] s = []
  issued (allocate args ∷ calls) s =
      let (r, t) = allocate_nonce env args s in
      and_given (str_eq (account env args) sender) r (issued calls t)
  issued (set address value ∷ calls) s = issued calls (set_nonce address value s)

  -- Each nonce is at least `from`, and above the one before it, while the counter of 64 bits lasts.
  abbrev pub Increasing : ℕ → List ℕ → Type 0
  Increasing from [] = Unit {0}
  Increasing from (n ∷ ns) = (from ≤ n) × ((2 ^ 64 ≤ n + 1) ⊎ Increasing (n + 1) ns)

  Increasing-le :
      (from from' : ℕ) (ns : List ℕ) → from ≤ from' → Increasing from' ns → Increasing from ns
  Increasing-le from from' [] le up = tt
  Increasing-le from from' (n ∷ ns) le (above, rest) = (omega (arith, le, above), rest)

  raised-le : (o : Option ℕ) (value : ℕ) → nonce_or_zero o ≤ raised o value
  raised-le none value = omega arith
  raised-le (some n) value = ground arith

  set_nonce-raises :
      (address : String) (value : ℕ) (s : Nonces)
      → counter sender s ≤ counter sender (set_nonce address value s)
  unfolding set_nonce
  set_nonce-raises address value s = elim (Bool-cases (str_eq (to_lower address) sender)) [
    | inl same ↦
        rw
          (lookup-set_entry (to_lower address) sender
            (raised (lookup (to_lower address) s.swap_nonce) value) s.swap_nonce)
          (ground (
            arith,
            same,
            eq_iff (to_lower address) sender,
            raised-le (lookup (to_lower address) s.swap_nonce) value,
          ))
    | inr other ↦
        rw
          (lookup-set_entry (to_lower address) sender
            (raised (lookup (to_lower address) s.swap_nonce) value) s.swap_nonce)
          (ground (arith, other))
  ]

  set_nonce-recycle :
      (address : String) (value : ℕ) (s : Nonces)
      → (set_nonce address value s).recycle_nonce ≡ s.recycle_nonce
  unfolding set_nonce
  set_nonce-recycle address value s = refl

  -- One allocation for the sender, and what follows it
  Given-Increasing :
      (args : BuildTxArgs) (r : Result ℕ) (s t : Nonces) (ns : List ℕ)
      → account env args ≡ sender
      → Given env args s r t
      → Increasing (counter sender t) ns
      → Increasing (counter sender s) (and_given true r ns)
  Given-Increasing args (err e) s t ns is (inl (n, gives, _, _)) up = absurd (ground (arith, gives))
  Given-Increasing args (ok n) s t ns is (inr (x, fails, _)) up = absurd (ground (arith, fails))
  Given-Increasing args (err e) s t ns is (inr (x, fails, same)) up =
      let same' : counter sender t ≡ counter sender s = rw is at same in
      Increasing-le _ _ ns (omega (arith, same')) up
  Given-Increasing args (ok n) s t ns is (inl (m, gives, at, next)) up =
      let nm : n ≡ m = ground (arith, gives) in
      let at' : m ≡ counter sender s = rw is at at in
      let next' : counter sender t ≡ (m + 1) % 2 ^ 64 = rw is at next in
      elim (Bool-cases (leb (2 ^ 64) (n + 1))) [
        | inl ends ↦ (omega (arith, nm, at'), inl (ground (arith, ends)))
        | inr goes ↦
            let goes' : n + 1 < 2 ^ 64 = ground (arith, goes) in
            (
              omega (arith, nm, at'),
              inr (Increasing-le _ _ ns (omega (arith, nm, next', goes')) up),
            )
      ]

  -- As long as no nonce has been given back, AllocateNonce gives a sender each nonce once, in rising
  -- order from its counter, whatever swaps of this and other senders it is called for, whichever of the
  -- calls fail, and whatever SetNonce is told in between, until the counter of 64 bits ends.
  pub issued-Increasing :
      (calls : List Call) (s : Nonces)
      → s.recycle_nonce ≡ []
      → Increasing (counter sender s) (issued calls s)
  unfolding issued
  issued-Increasing [] s clean = tt
  issued-Increasing (set address value ∷ calls) s clean =
      Increasing-le _ _ _ (set_nonce-raises address value s) (
        issued-Increasing calls (set_nonce address value s)
          (set_nonce-recycle address value s ∙ clean))
  issued-Increasing (allocate args ∷ calls) s clean =
      let t = (allocate_nonce env args s).1 in
      let up = issued-Increasing calls t (allocate_nonce-recycle env args s clean) in
      elim (Bool-cases (str_eq (account env args) sender)) [
        | inr other ↦ rw other (rw⁻¹ (allocate_nonce-other env args s clean sender other) up)
        | inl same ↦ rw same (
            Given-Increasing args (allocate_nonce env args s).0 s t (issued calls t)
              ((eq_iff (account env args) sender).0 same) (allocate_nonce-Given env args s clean)
              up)
      ]

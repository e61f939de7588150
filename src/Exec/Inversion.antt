-- ===== src/Exec/Inversion.antt =====
-- The outcome of a call, with the equation.
use check_tx_server.Common.{◌≡◌, refl, ◌⊎◌, inl, inr, Bool, true, false, not, arith, if◌then◌else◌}
use check_tx_server.Errors.{GoError}
use check_tx_server.Exec
use check_tx_server.Exec.{Result, ok, err, Exec, pure, fail, ◌>>=◌, ◌>>◌}

pub Result-cases {ℓ} :
    {A : Type ℓ} (r : Result A) → ((a : A) × (r ≡ ok a)) ⊎ ((e : GoError) × (r ≡ err e))
Result-cases (ok a) = inl (a, refl)
Result-cases (err e) = inr (e, refl)

module _ {S A B : Type 0} (f : A → Exec S B) where
  proceed-ok :
      (p : Result A × S) (b : B)
      → (Exec.proceed f p).0 ≡ ok b
      → (a : A) × (p.0 ≡ ok a) × ((f a p.1).0 ≡ ok b)
  proceed-ok (ok a, s) b h = (a, refl, h)
  proceed-ok (err e, s) b h = absurd (ground (arith, h))

  -- A sequence that returns a value: its first part returned one.
  pub bind-ok :
      (m : Exec S A) (s : S) (b : B)
      → ((m >>= f) s).0 ≡ ok b
      → (a : A) × ((m s).0 ≡ ok a) × ((f a (m s).1).0 ≡ ok b)
  bind-ok m s b h = proceed-ok (m s) b h

  proceed-is : (p : Result A × S) (a : A) → p.0 ≡ ok a → Exec.proceed f p ≡ f a p.1
  proceed-is (ok x, s) a e = ground (arith, e)
  proceed-is (err x, s) a e = absurd (ground (arith, e))

  -- What such a sequence does
  pub bind-is : (m : Exec S A) (s : S) (a : A) → (m s).0 ≡ ok a → (m >>= f) s ≡ f a (m s).1
  bind-is m s a e = proceed-is (m s) a e

module _ {S A : Type 0} (e : GoError) (m : Exec S A) (s : S) (a : A) where
  -- `if b { return e }`, passed
  pub unless-ok :
      (b : Bool) → ((if b then fail e else m) s).0 ≡ ok a → (b ≡ false) × ((m s).0 ≡ ok a)
  unless-ok true h = absurd (ground (arith, h))
  unless-ok false h = (refl, h)

  -- `if !b { return e }`, passed
  pub guard-ok :
      (b : Bool) → ((if not b then fail e else m) s).0 ≡ ok a → (b ≡ true) × ((m s).0 ≡ ok a)
  guard-ok true h = (refl, h)
  guard-ok false h = absurd (ground (arith, h))

  -- `if b { return e }` and what follows, passed
  pub unless_then-ok :
      (b : Bool)
      → (((if b then fail e else pure tt) >> m) s).0 ≡ ok a
      → (b ≡ false) × ((m s).0 ≡ ok a)
  unless_then-ok true h = absurd (ground (arith, h))
  unless_then-ok false h = (refl, h)

  pub guard_then-ok :
      (b : Bool)
      → (((if not b then fail e else pure tt) >> m) s).0 ≡ ok a
      → (b ≡ true) × ((m s).0 ≡ ok a)
  guard_then-ok true h = (refl, h)
  guard_then-ok false h = absurd (ground (arith, h))

-- ===== src/Exec.antt =====
-- Go code that changes state and returns an error last. The state comes back beside an error too,
-- since what was written before the error stays written.
pub mod Inversion
pub mod Within
pub mod Ends
use check_tx_server.Errors.{GoError}
use check_tx_server.Common.{Option, none, some}

-- (value, nil) or (_, err)
pub data Result {ℓ} (A : Type ℓ) : Type ℓ where
  ok : A → Result A
  err : GoError → Result A

abbrev pub Exec {ℓ} : Type 0 → Type ℓ → Type ℓ
Exec S A = S → Result A × S

abbrev pub error_of {ℓ} : {A : Type ℓ} → Result A → Option GoError
error_of (ok a) = none
error_of (err e) = some e

module _ {S : Type 0} where
  abbrev pub pure {ℓ} : {A : Type ℓ} → A → Exec S A
  pure a s = (ok a, s)

  abbrev pub fail {ℓ} : {A : Type ℓ} → GoError → Exec S A
  fail e s = (err e, s)

  abbrev pub gets {ℓ} : {A : Type ℓ} → (S → A) → Exec S A
  gets f s = (ok (f s), s)

  abbrev pub modify : (S → S) → Exec S (Unit {0})
  modify f s = (ok tt, f s)

  -- What follows a call: `if err != nil { return err }`.
  abbrev pub proceed {ℓ κ} :
      {A : Type ℓ} {B : Type κ} → (A → Exec S B) → Result A × S → Result B × S
  proceed f (ok a, s) = f a s
  proceed f (err e, s) = (err e, s)

  infixl 10 ◌>>=◌ ◌>>◌
  abbrev pub ◌>>=◌ {ℓ κ} : {A : Type ℓ} {B : Type κ} → Exec S A → (A → Exec S B) → Exec S B
  ◌>>=◌ m f s = proceed f (m s)

  abbrev pub ◌>>◌ {κ} : {A : Type 0} {B : Type κ} → Exec S A → Exec S B → Exec S B
  ◌>>◌ m n s = proceed (λ _. n) (m s)

  -- `_ = m`, and `res, err := m` where the error is looked at later
  abbrev pub attempt {ℓ} : {A : Type ℓ} → Exec S A → Exec S (Result A)
  attempt m s = let (r, s') = m s in (ok r, s')

  abbrev pub lift {ℓ} : {A : Type ℓ} → Result A → Exec S A
  lift r s = (r, s)

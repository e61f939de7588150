-- ===== src/Exec/Ends.antt =====
-- What holds of the state after an action that returned, put together along the action.
use check_tx_server.Common.{◌≡◌, refl, Bool, true, false, arith, if◌then◌else◌}
use check_tx_server.Errors.{GoError}
use check_tx_server.Exec.{Result, ok, err, Exec, pure, fail, modify, lift, ◌>>=◌, ◌>>◌}
use check_tx_server.Exec.Within.{Frame, Within}

pub record Ends {S : Type 0} (Q : S → Type 0) (m : Exec S (Unit {0})) (s : S) : Type 0 where
  pub ends : (m s).0 ≡ ok tt → Q (m s).1

module _ {S : Type 0} (Q : S → Type 0) where
  pub Ends-fail : (e : GoError) (s : S) → Ends Q (fail e) s
  Ends-fail e s = record { ends = λ h. absurd (ground (arith, h)) }

  pub Ends-either :
      (c : Bool) (m n : Exec S (Unit {0})) (s : S)
      → (c ≡ true → Ends Q m s)
      → (c ≡ false → Ends Q n s)
      → Ends Q (if c then m else n) s
  Ends-either true m n s first second = first refl
  Ends-either false m n s first second = second refl

  -- `if c { return e }`, and what follows
  pub Ends-check :
      (c : Bool) (e : GoError) (m : Exec S (Unit {0})) (s : S)
      → (c ≡ false → Ends Q m s)
      → Ends Q ((if c then fail e else pure tt) >> m) s
  Ends-check true e m s next = record { ends = λ h. absurd (ground (arith, h)) }
  Ends-check false e m s next = record { ends = (next refl).ends }

  pub Ends-lift :
      {A : Type 0} (r : Result A) (k : A → Exec S (Unit {0})) (s : S)
      → ((a : A) → r ≡ ok a → Ends Q (k a) s)
      → Ends Q (lift r >>= k) s
  Ends-lift (ok a) k s next = record { ends = (next a refl).ends }
  Ends-lift (err e) k s next = record { ends = λ h. absurd (ground (arith, h)) }

  pub Ends-modify :
      (f : S → S) (m : Exec S (Unit {0})) (s : S) → Ends Q m (f s) → Ends Q (modify f >> m) s
  Ends-modify f m s next = record { ends = next.ends }

  -- An action that moves the state no further than `F` says, and `Q` bears that.
  pub Ends-framed :
      (F : Frame S) (m : Exec S (Unit {0})) (s : S)
      → Within F m
      → ((t u : S) → F.Moves t u → Q t → Q u)
      → Q s
      → Ends Q m s
  Ends-framed F m s near bears here = record { ends = λ h. bears s _ (near.moves s) here }

-- ===== src/Exec/Within.antt =====
-- How far an action moves the state, put together from how far its parts do.
use check_tx_server.Common.{◌≡◌, refl, Bool, true, false, if◌then◌else◌}
use check_tx_server.Exec
use check_tx_server.Errors.{GoError}
use check_tx_server.Exec.{Result, ok, err, Exec, attempt, pure, fail, lift, ◌>>=◌, ◌>>◌}

-- A reflexive, transitive relation between the state before and the state after
pub record Frame (S : Type 0) : Type 1 where
  pub Moves : S → S → Type 0
  pub still : (s : S) → Moves s s
  pub and_then : (s t v : S) → Moves s t → Moves t v → Moves s v

pub record Within {S : Type 0} (F : Frame S) {A : Type 0} (m : Exec S A) : Type 0 where
  pub moves : (s : S) → F.Moves s (m s).1

module _ {S : Type 0} (F : Frame S) {A : Type 0} where
  pub Within-pure : (r : Result A) → Within F (λ s. (r, s))
  Within-pure r = record { moves = λ s. F.still s }

  pub Within-if :
      (b : Bool) (m n : Exec S A)
      → (b ≡ true → Within F m)
      → (b ≡ false → Within F n)
      → Within F (if b then m else n)
  Within-if true m n first second = first refl
  Within-if false m n first second = second refl

  pub Within-attempt : (m : Exec S A) → Within F m → Within F (attempt m)
  Within-attempt m w = record { moves = λ s. w.moves s }

  module _ {B : Type 0} (f : A → Exec S B) where
    on_result :
        (s : S) (p : Result A × S)
        → F.Moves s p.1
        → ((a : A) → p.0 ≡ ok a → F.Moves p.1 (f a p.1).1)
        → F.Moves s (Exec.proceed f p).1
    on_result s (ok a, t) moved next = F.and_then s t _ moved (next a refl)
    on_result s (err e, t) moved next = moved

    pub Within-bind : (m : Exec S A) → Within F m → ((a : A) → Within F (f a)) → Within F (m >>= f)
    Within-bind m first next = record {
      moves = λ s. on_result s (m s) (first.moves s) (λ a e. (next a).moves _);
    }

    -- What follows may use what the first action answered.
    pub moves-bind :
        (m : Exec S A) (s : S)
        → Within F m
        → ((a : A) → (m s).0 ≡ ok a → F.Moves (m s).1 (f a (m s).1).1)
        → F.Moves s ((m >>= f) s).1
    moves-bind m s first next = on_result s (m s) (first.moves s) next

module _ {S : Type 0} (F : Frame S) {A : Type 0} where
  -- `_ = m`
  pub Within-drop : (m : Exec S A) → Within F m → Within F (attempt m >> pure tt)
  Within-drop m w = record { moves = λ s. w.moves s }

  pub Within-either :
      (c : Bool) (m n : Exec S A) → Within F m → Within F n → Within F (if c then m else n)
  Within-either c m n first second = Within-if F c m n (λ _. first) (λ _. second)

  pub Within-fail : (e : GoError) → Within F (fail {S = S} {A = A} e)
  Within-fail e = Within-pure F (err e)

  -- `if c { return e }`, and what follows
  pub Within-check :
      (c : Bool) (e : GoError) (m : Exec S A)
      → Within F m
      → Within F ((if c then fail e else pure tt) >> m)
  Within-check c e m next =
      Within-bind F (λ _. m) (if c then fail e else pure tt)
        (Within-if F c (fail e) (pure tt) (λ _. Within-pure F (err e)) (λ _. Within-pure F (ok tt)))
        (λ _. next)

  module _ {B : Type 0} where
    pub Within-lift :
        (r : Result B) (f : B → Exec S A) → ((b : B) → Within F (f b)) → Within F (lift r >>= f)
    Within-lift r f next = Within-bind F f (lift r) (Within-pure F r) next

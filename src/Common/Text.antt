-- ===== src/Common/Text.antt =====
-- Go strings as native texts: ASCII lower case, decimal digits, and association lists with text keys.
use Prim.Native.Nat.{ℕ, zero, suc, ◌-◌, ◌/◌, ◌%◌}
use Prim.Native.Char.{Char, code}
use Prim.Native.String.{String, char_at, ◌++◌ as append}
use mathlib.Core.Path.{◌≡◌, refl}
use mathlib.Core.Bool.{Bool, ◌&&◌}
use mathlib.Core.Option.{Option, none, some}
use mathlib.Core.List.{List, [], ◌∷◌}
use native.Mathlib.Omega.{arith}
use text.Mathlib.Text.{◌==◌ as str_eq}
use text.Mathlib.TextEquality.{eq_iff}
use check_tx_server.Common.Tests.{leb, ◌==◌, if◌then◌else◌}

lower_char : Char → Char
lower_char c =
    if leb 65 (code c) && leb (code c) 90
    then char_at "abcdefghijklmnopqrstuvwxyz" (code c - 65)
    else c

-- strings.ToLower on ASCII text
unfoldable pub to_lower : String → String
unfolding lower_char
to_lower String.[] = ""
to_lower (String.◌∷◌ c s) = String.◌∷◌ (lower_char c) (to_lower s)

-- strings.EqualFold on ASCII text
unfoldable pub equal_fold : String → String → Bool
unfolding to_lower
equal_fold s t = str_eq (to_lower s) (to_lower t)

-- `fuel` digits of n at most, the last one first
unfoldable pub decimal_digits : ℕ → ℕ → String → String
decimal_digits zero n acc = acc
decimal_digits (suc fuel) n acc =
    let acc' = String.◌∷◌ (char_at "0123456789" (n % 10)) acc in
    let rest = decimal_digits fuel (n / 10) acc' in if n / 10 == 0 then acc' else rest

-- The verb %v at a number that is not negative; n + 1 rounds are enough, as n has at most n + 1 digits.
unfoldable pub decimal : ℕ → String
unfolding decimal_digits
decimal n = decimal_digits (suc n) n ""

-- Texts joined, as Sprintf does.
abbrev pub concat : List String → String
concat [] = ""
concat (s ∷ ss) = append s (concat ss)

module _ {ℓ} {V : Type ℓ} where
  unfoldable pub lookup : String → List (String × V) → Option V
  lookup k [] = none
  lookup k ((j, v) ∷ m) = if str_eq j k then some v else lookup k m

  -- m[k] = v
  unfoldable pub set_entry : String → V → List (String × V) → List (String × V)
  set_entry k v [] = (k, v) ∷ []
  set_entry k v ((j, w) ∷ m) = if str_eq j k then (k, v) ∷ m else (j, w) ∷ set_entry k v m

  pub lookup-set_entry :
      (k j : String) (v : V) (m : List (String × V))
      → lookup j (set_entry k v m) ≡ (if str_eq k j then some v else lookup j m)
  unfolding lookup set_entry
  lookup-set_entry k j v [] = refl
  lookup-set_entry k j v ((i, w) ∷ m) =
      ground (arith, eq_iff k j, eq_iff i k, eq_iff i j, lookup-set_entry k j v m)

-- A set of texts, as the list of its members
unfoldable pub without : String → List String → List String
without k [] = []
without k (j ∷ js) = let rest = without k js in if str_eq j k then rest else j ∷ rest

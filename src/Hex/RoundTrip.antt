-- ===== src/Hex/RoundTrip.antt =====
-- What is written as text is read back.
use Prim.Native.Char.{Char, code}
use Prim.Native.String.{char_at}
use check_tx_server.Common.{
  inl, inr, ℕ, zero, suc, ◌+◌, ◌*◌, ◌/◌, ◌%◌, ◌^◌, ◌<◌, String, ◌≡◌, refl, ap, ◌∙◌, decimal,
  decimal_digits, Bool-cases, ◌==◌, none, some, [], ◌∷◌, All, length, arith,
}
use check_tx_server.Abi.Bytes.{Bytes}
use check_tx_server.Hex.{
  BigInt, pos, negsuc, magnitude, to_text, parse_big_256, by_prefix, within_256, set_string, digits,
  signed, negative, digit_value, hex_char, hex_digits, hex_2_bytes, from_hex, encode, text_length,
  padded, digits_from, step_digit, after_prefix, without_prefix,
}

AllBelow : ℕ → (ℕ → Type 0) → Type 0
AllBelow zero P = Unit {0}
AllBelow (suc k) P = P zero × AllBelow k (λ n. P (suc n))

below : (k : ℕ) (P : ℕ → Type 0) → AllBelow k P → (n : ℕ) → n < k → P n
unfolding AllBelow
below zero P each n small = absurd (omega arith)
below (suc k) P each zero small = each.0
below (suc k) P each (suc n) small = below k (λ m. P (suc m)) each.1 n (omega arith)

digit_value-hex_char : (n : ℕ) → n < 16 → digit_value (hex_char n) ≡ some n
unfolding AllBelow
digit_value-hex_char =
    below 16 (λ n. digit_value (hex_char n) ≡ some n)
      (
        refl,
        (
          refl,
          (
            refl,
            (
              refl,
              (
                refl,
                (
                  refl,
                  (
                    refl,
                    (refl, (refl, (refl, (refl, (refl, (refl, (refl, (refl, (refl, tt))))))))),
                  ),
                ),
              ),
            ),
          ),
        ),
      )

abbrev pub IsByte : ℕ → Type 0
IsByte b = b < 256

pub hex_2_bytes-hex_digits : (bs : Bytes) → All IsByte bs → hex_2_bytes (hex_digits bs) ≡ bs
unfolding hex_2_bytes hex_digits
hex_2_bytes-hex_digits [] small = refl
hex_2_bytes-hex_digits (b ∷ bs) (one, others) = rw (digit_value-hex_char (b / 16) (omega arith)) (
    rw (digit_value-hex_char (b % 16) (omega arith))
      (rw (hex_2_bytes-hex_digits bs others) (ap (λ x. x ∷ bs) (omega arith))))

text_length-hex_digits : (bs : Bytes) → text_length (hex_digits bs) ≡ length bs * 2
unfolding text_length hex_digits
text_length-hex_digits [] = refl
text_length-hex_digits (b ∷ bs) = omega (arith, text_length-hex_digits bs)

padded-even : (s : String) (n : ℕ) → text_length s ≡ n * 2 → padded s ≡ s
unfolding padded
padded-even s n even = ground arith

pub from_hex-encode : (bs : Bytes) → All IsByte bs → from_hex (encode bs) ≡ bs
unfolding from_hex encode after_prefix without_prefix
from_hex-encode bs small =
    ap hex_2_bytes (padded-even (hex_digits bs) (length bs) (text_length-hex_digits bs))
    ∙ hex_2_bytes-hex_digits bs small

pub from_hex-empty : from_hex "" ≡ []
unfolding from_hex after_prefix without_prefix padded text_length hex_2_bytes
from_hex-empty = refl

-- Decimal digits
abbrev decimal_char : ℕ → Char
decimal_char d = char_at "0123456789" d

step-decimal_char :
    (acc d : ℕ) → d < 10 → step_digit 10 acc (digit_value (decimal_char d)) ≡ some (acc * 10 + d)
unfolding AllBelow
step-decimal_char acc =
    below 10 (λ d. step_digit 10 acc (digit_value (decimal_char d)) ≡ some (acc * 10 + d))
      (refl, (refl, (refl, (refl, (refl, (refl, (refl, (refl, (refl, (refl, tt))))))))))

digits_from-digits :
    (fuel n : ℕ) (s : String)
    → n < fuel
    → digits_from 10 (some 0) (decimal_digits fuel n s) ≡ digits_from 10 (some n) s
unfolding decimal_digits digits_from
digits_from-digits zero n s small = absurd (omega arith)
digits_from-digits (suc fuel) n s small = elim (Bool-cases (n / 10 == 0)) [
  | inl last ↦ rw last (
      ap (λ o. digits_from 10 o s)
        (step-decimal_char 0 (n % 10) (omega arith) ∙ ap some (ground (arith, last))))
  | inr more ↦ rw more (
      digits_from-digits fuel (n / 10) (String.◌∷◌ (decimal_char (n % 10)) s) (ground (arith, more))
      ∙ ap (λ o. digits_from 10 o s)
          (step-decimal_char (n / 10) (n % 10) (omega arith) ∙ ap some (omega arith)))
]

abbrev IsDigit : Char → Type 0
IsDigit c = (code c < 58) × (47 < code c)

decimal_char-IsDigit : (d : ℕ) → d < 10 → IsDigit (decimal_char d)
unfolding AllBelow
decimal_char-IsDigit = below 10 (λ d. IsDigit (decimal_char d)) (omega arith)

AllDigits : String → Type 0
AllDigits String.[] = Unit {0}
AllDigits (String.◌∷◌ c s) = IsDigit c × AllDigits s

IsNumber : String → Type 0
unfolding AllDigits
IsNumber String.[] = ⊥
IsNumber (String.◌∷◌ c s) = IsDigit c × AllDigits s

decimal_digits-IsNumber :
    (fuel n : ℕ) (s : String) → n < fuel → AllDigits s → IsNumber (decimal_digits fuel n s)
unfolding decimal_digits AllDigits IsNumber
decimal_digits-IsNumber zero n s small rest = absurd (omega arith)
decimal_digits-IsNumber (suc fuel) n s small rest = elim (Bool-cases (n / 10 == 0)) [
  | inl last ↦ rw last (decimal_char-IsDigit (n % 10) (omega arith), rest)
  | inr more ↦ rw more (
      decimal_digits-IsNumber fuel (n / 10) (String.◌∷◌ (decimal_char (n % 10)) s)
        (ground (arith, more)) (decimal_char-IsDigit (n % 10) (omega arith), rest))
]

decimal-IsNumber : (n : ℕ) → IsNumber (decimal n)
unfolding decimal AllDigits
decimal-IsNumber n = decimal_digits-IsNumber (suc n) n "" (omega arith) tt

digits_from-decimal : (n : ℕ) → digits_from 10 (some 0) (decimal n) ≡ some n
unfolding decimal digits_from
digits_from-decimal n = digits_from-digits (suc n) n "" (omega arith)

after_prefix-number : (s : String) → IsNumber s → after_prefix s ≡ none
unfolding after_prefix IsNumber AllDigits
after_prefix-number String.[] number = absurd number
after_prefix-number (String.◌∷◌ a String.[]) number = refl
after_prefix-number (String.◌∷◌ a (String.◌∷◌ b s)) (digit, (next, rest)) =
    ground (arith, digit, next)

digits-number : (s : String) → IsNumber s → digits 10 s ≡ digits_from 10 (some 0) s
unfolding digits IsNumber
digits-number String.[] number = absurd number
digits-number (String.◌∷◌ a s) number = refl

set_string-number :
    (s : String) → IsNumber s → set_string 10 s ≡ signed pos (digits_from 10 (some 0) s)
unfolding set_string IsNumber digits
set_string-number String.[] number = absurd number
set_string-number (String.◌∷◌ a s) (digit, rest) = ground (arith, digit)

within_256-small : (x : BigInt) → magnitude x < 2 ^ 256 → within_256 (some x) ≡ some x
unfolding within_256
within_256-small x small = ground (arith, small)

parse-number :
    (s : String)
    → IsNumber s
    → parse_big_256 s ≡ within_256 (signed pos (digits_from 10 (some 0) s))
unfolding parse_big_256 by_prefix IsNumber
parse-number String.[] number = absurd number
parse-number (String.◌∷◌ a s) number =
    rw (after_prefix-number (String.◌∷◌ a s) number)
      (ap within_256 (set_string-number (String.◌∷◌ a s) number))

parse-negative :
    (s : String)
    → IsNumber s
    → parse_big_256 (String.◌∷◌ "-" s) ≡ within_256 (signed negative (digits_from 10 (some 0) s))
unfolding parse_big_256 by_prefix after_prefix set_string IsNumber
parse-negative String.[] number = absurd number
parse-negative (String.◌∷◌ a s) number =
    ap (λ o. within_256 (signed negative o)) (digits-number (String.◌∷◌ a s) number)

pub parse_big_256-to_text :
    (x : BigInt) → magnitude x < 2 ^ 256 → parse_big_256 (to_text x) ≡ some x
unfolding to_text signed negative
parse_big_256-to_text (pos n) small =
    parse-number (decimal n) (decimal-IsNumber n)
    ∙ ap (λ o. within_256 (signed pos o)) (digits_from-decimal n)
    ∙ within_256-small (pos n) small
parse_big_256-to_text (negsuc n) small =
    parse-negative (decimal (suc n)) (decimal-IsNumber (suc n))
    ∙ ap (λ o. within_256 (signed negative o)) (digits_from-decimal (suc n))
    ∙ within_256-small (negsuc n) small

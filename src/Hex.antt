-- ===== src/Hex.antt =====
-- Texts of bytes and numbers: common/bytes.go, common/hexutil/hexutil.go, common/math/big.go. A text is
-- ASCII here, so that its characters are its bytes.
pub mod RoundTrip
use Prim.Native.Char.{Char, code}
use Prim.Native.String.{char_at, ◌++◌ as append}
use check_tx_server.Common.{
  ℕ, zero, suc, ◌+◌, ◌-◌, ◌*◌, ◌/◌, ◌%◌, ◌^◌, String, ltb, leb, ◌==◌, ◌&&◌, ◌||◌, Bool, Option,
  none, some, List, [], ◌∷◌, str_eq, equal_fold, decimal, if◌then◌else◌,
}
use check_tx_server.Abi.Bytes.{Bytes}

-- A big.Int: a number, or -1 minus a number
pub data BigInt : Type 0 where
  pos : ℕ → BigInt
  negsuc : ℕ → BigInt

abbrev pub magnitude : BigInt → ℕ
magnitude (pos n) = n
magnitude (negsuc n) = suc n

negative : ℕ → BigInt
negative zero = pos 0
negative (suc n) = negsuc n

-- big.Int's String
unfoldable pub to_text : BigInt → String
to_text (pos n) = decimal n
to_text (negsuc n) = String.◌∷◌ "-" (decimal (suc n))

-- The value of a digit, up to f
abbrev pub digit_value : Char → Option ℕ
digit_value c =
    if leb 48 (code c) && leb (code c) 57
    then some (code c - 48)
    else if leb 97 (code c) && leb (code c) 102
    then some (code c - 87)
    else if leb 65 (code c) && leb (code c) 70
    then some (code c - 55)
    else none

abbrev pub step_digit : ℕ → ℕ → Option ℕ → Option ℕ
step_digit base acc none = none
step_digit base acc (some d) = if ltb d base then some (acc * base + d) else none

-- The digits of a text, behind those that `acc` stands for
unfoldable pub digits_from : ℕ → Option ℕ → String → Option ℕ
digits_from base none s = none
digits_from base (some acc) String.[] = some acc
digits_from base (some acc) (String.◌∷◌ c s) =
    digits_from base (step_digit base acc (digit_value c)) s

unfoldable pub digits : ℕ → String → Option ℕ
unfolding digits_from
digits base String.[] = none
digits base (String.◌∷◌ c s) = digits_from base (some 0) (String.◌∷◌ c s)

signed : (ℕ → BigInt) → Option ℕ → Option BigInt
signed f none = none
signed f (some n) = some (f n)

-- big.Int's SetString at the bases 10 and 16: a sign, and at least one digit
unfoldable pub set_string : ℕ → String → Option BigInt
unfolding signed negative digits
set_string base String.[] = none
set_string base (String.◌∷◌ c s) =
    if code c == 45
    then signed negative (digits base s)
    else if code c == 43
    then signed pos (digits base s)
    else signed pos (digits base (String.◌∷◌ c s))

-- s[2:], and whether s starts with 0x, in one of two spellings
unfoldable pub after_prefix : String → Option String
after_prefix String.[] = none
after_prefix (String.◌∷◌ a String.[]) = none
after_prefix (String.◌∷◌ a (String.◌∷◌ b s)) =
    if code a == 48 && (code b == 120 || code b == 88) then some s else none

within_256 : Option BigInt → Option BigInt
within_256 none = none
within_256 (some x) = if ltb (magnitude x) (2 ^ 256) then some x else none

by_prefix : String → Option String → Option BigInt
unfolding set_string
by_prefix s none = set_string 10 s
by_prefix s (some rest) = set_string 16 rest

unfoldable pub parse_big_256 : String → Option BigInt
unfolding within_256 by_prefix after_prefix
parse_big_256 String.[] = some (pos 0)
parse_big_256 (String.◌∷◌ c s) =
    within_256 (by_prefix (String.◌∷◌ c s) (after_prefix (String.◌∷◌ c s)))

abbrev pub hex_char : ℕ → Char
hex_char n = char_at "0123456789abcdef" n

-- hex.Encode
unfoldable pub hex_digits : Bytes → String
hex_digits [] = ""
hex_digits (b ∷ bs) =
    String.◌∷◌ (hex_char (b / 16)) (String.◌∷◌ (hex_char (b % 16)) (hex_digits bs))

unfoldable pub encode : Bytes → String
unfolding hex_digits
encode bs = String.◌∷◌ "0" (String.◌∷◌ "x" (hex_digits bs))

abbrev pub pair_before : Option ℕ → Option ℕ → Bytes → Bytes
pair_before (some a) (some b) rest = (a * 16 + b) ∷ rest
pair_before none b rest = []
pair_before (some a) none rest = []

-- hex.DecodeString, of which Hex2Bytes drops the error: the bytes before the first wrong digit
unfoldable pub hex_2_bytes : String → Bytes
hex_2_bytes String.[] = []
hex_2_bytes (String.◌∷◌ a String.[]) = []
hex_2_bytes (String.◌∷◌ a (String.◌∷◌ b s)) =
    pair_before (digit_value a) (digit_value b) (hex_2_bytes s)

unfoldable pub text_length : String → ℕ
text_length String.[] = 0
text_length (String.◌∷◌ c s) = suc (text_length s)

padded : String → String
unfolding text_length
padded s = if text_length s % 2 == 1 then String.◌∷◌ "0" s else s

unfoldable pub without_prefix : String → Option String → String
without_prefix s none = s
without_prefix s (some rest) = rest

unfoldable pub from_hex : String → Bytes
unfolding padded without_prefix after_prefix hex_2_bytes
from_hex s = hex_2_bytes (padded (without_prefix s (after_prefix s)))

-- []byte(s)
unfoldable pub text_bytes : String → Bytes
text_bytes String.[] = []
text_bytes (String.◌∷◌ c s) = code c ∷ text_bytes s

-- ===== src/Abi/Parse.antt =====
-- tokens/eth/abicoder/decode.go. Numbers are uint64 where the source's are, and wrap as they do.
pub mod Reads
pub mod Ends
use check_tx_server.Common.{
  ℕ, zero, suc, ◌+◌, ◌-◌, ◌*◌, ◌^◌, ◌%◌, ltb, Option, none, some, List, [], ◌∷◌, length,
  if◌then◌else◌,
}
use check_tx_server.Abi.Bytes.{Bytes, drop, get_data, get_big_int, get_uint64}

-- How a call ends: with a value, with ErrParseDataError, or in a panic
pub data Parsed (A : Type 0) : Type 0 where
  parsed : A → Parsed A
  parse_error : Parsed A
  panicked : Parsed A

abbrev pub and_then : {A B : Type 0} → Parsed A → (A → Parsed B) → Parsed B
and_then (parsed a) f = f a
and_then parse_error f = parse_error
and_then panicked f = panicked

abbrev pub or_overflow : Option ℕ → Parsed ℕ
or_overflow none = parse_error
or_overflow (some n) = parsed n

abbrev pub or_panic : Option Bytes → Parsed Bytes
or_panic none = panicked
or_panic (some bs) = parsed bs

-- ParseBytesInData, and ParseStringInData at the bytes of the string
unfoldable pub parse_bytes_in_data : Bytes → ℕ → Parsed Bytes
parse_bytes_in_data input pos = and_then (or_overflow (get_uint64 input pos 32)) (λ offset.
    and_then (or_overflow (get_uint64 input offset 32)) (λ len.
      if ltb (length input) ((offset + 32 + len) % 2 ^ 64)
      then parse_error
      else or_panic (get_data input ((offset + 32) % 2 ^ 64) len)))

-- The offset of the first element, and the number of elements
unfoldable pub parse_slice_in_data : Bytes → ℕ → Parsed (ℕ × ℕ)
parse_slice_in_data input pos = and_then (or_overflow (get_uint64 input pos 32)) (λ offset.
    and_then (or_overflow (get_uint64 input offset 32)) (λ len.
      if ltb (length input) ((offset + 32 + len * 32) % 2 ^ 64)
      then parse_error
      else parsed ((offset + 32) % 2 ^ 64, len)))

-- make of a slice panics where it has more elements than the memory has room for.
abbrev pub with_room : {A : Type 0} → ℕ → ℕ → Parsed A → Parsed A
with_room room len rest = if ltb room len then panicked else rest

module _ {A : Type 0} (element : ℕ → Parsed A) where
  -- The loops over the elements, from `offset` on
  unfoldable pub elements : ℕ → ℕ → Parsed (List A)
  elements offset zero = parsed []
  elements offset (suc n) =
      let rest = elements ((offset + 32) % 2 ^ 64) n in
      and_then (element offset) (λ a. and_then rest (λ others. parsed (a ∷ others)))

module _ (room : ℕ) where
  unfoldable pub parse_number_slice_in_data : Bytes → ℕ → Parsed (List ℕ)
  parse_number_slice_in_data input pos = and_then (parse_slice_in_data input pos) (λ at.
      with_room room at.1 (elements (λ offset. parsed (get_big_int input offset 32)) at.0 at.1))

  -- The last 20 bytes of what BytesToAddress is given
  unfoldable pub parse_address_slice_in_data : Bytes → ℕ → Parsed (List Bytes)
  parse_address_slice_in_data input pos = and_then (parse_slice_in_data input pos) (λ at.
      with_room room at.1 (
        elements
          (λ offset. and_then (or_panic (get_data input offset 32)) (λ w. parsed (drop 12 w))) at.0
          at.1))

  -- ParseBytesSliceInData, and ParseStringSliceInData at the bytes of the strings
  unfoldable pub parse_bytes_slice_in_data : Bytes → ℕ → Parsed (List Bytes)
  parse_bytes_slice_in_data input pos = and_then (parse_slice_in_data input pos) (λ at.
      if ltb (length input) at.0
      then panicked
      else with_room room at.1 (elements (parse_bytes_in_data (drop at.0 input)) 0 at.1))

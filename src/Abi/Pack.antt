-- ===== src/Abi/Pack.antt =====
-- tokens/eth/abicoder/encode.go.
pub mod Layout
pub mod Words
use check_tx_server.Common.{
  ℕ, zero, suc, ◌+◌, ◌*◌, ◌/◌, Option, none, some, List, [], ◌∷◌, ◌++◌, length,
}
use check_tx_server.Abi.Bytes.{Bytes, take, zeros, copy_at, big_bytes, left_pad_bytes}

-- An argument of PackData. A hash has 32 bytes and an address 20; of an integer of any type only the
-- absolute value is packed, and a *big.Int may be nil. A string is the list of its bytes, and so are
-- []byte and hexutil.Bytes.
pub data Arg : Type 0 where
  hash : Bytes → Arg
  address : Bytes → Arg
  big_int : Option ℕ → Arg
  integer : ℕ → Arg
  text : Bytes → Arg
  bytes : Bytes → Arg
  address_slice : List Bytes → Arg
  big_int_slice : List (Option ℕ) → Arg
  string_slice : List Bytes → Arg
  bytes_slice : List Bytes → Arg

abbrev bytes_of : Option ℕ → Bytes
bytes_of none = []
bytes_of (some n) = big_bytes n

unfoldable pub pack_big_int : Option ℕ → Bytes
pack_big_int n = left_pad_bytes (bytes_of n) 32

abbrev pub pack_number : ℕ → Bytes
pack_number n = pack_big_int (some n)

-- address.Hash().Bytes(), of the 20 bytes
abbrev pub pack_address : Bytes → Bytes
pack_address a = left_pad_bytes a 32

-- packString and packBytes, which are the same code at the bytes of a string
unfoldable pub pack_bytes : Bytes → Bytes
pack_bytes content =
    let bs = zeros (32 + (length content + 31) / 32 * 32) in
    copy_at 32 content (copy_at 0 (take 32 (pack_number (length content))) bs)

-- The loops of packAddressSlice and packBigIntSlice, from the index `i` on
copy_words : ℕ → List Bytes → Bytes → Bytes
copy_words i [] bs = bs
copy_words i (w ∷ ws) bs = copy_words (suc i) ws (copy_at ((i + 1) * 32) w bs)

words_of : List (Option ℕ) → List Bytes
words_of [] = []
words_of (n ∷ ns) = pack_big_int n ∷ words_of ns

addresses_of : List Bytes → List Bytes
addresses_of [] = []
addresses_of (a ∷ addrs) = pack_address a ∷ addresses_of addrs

-- packAddressSlice and packBigIntSlice, at the packed elements
pack_words : List Bytes → Bytes
unfolding copy_words
pack_words ws =
    copy_words 0 ws (copy_at 0 (take 32 (pack_number (length ws))) (zeros ((1 + length ws) * 32)))

-- The loop of packStringSlice, packHexBytesSlice and packBytesSlice, from the index `i` on
append_each : ℕ → List Bytes → Bytes → Bytes
append_each i [] inner = inner
append_each i (s ∷ ss) inner =
    append_each (suc i) ss (copy_at (i * 32) (pack_number (length inner)) inner ++ pack_bytes s)

unfoldable pub pack_bytes_slice : List Bytes → Bytes
unfolding append_each
pack_bytes_slice ss = pack_number (length ss) ++ append_each 0 ss (zeros (length ss * 32))

-- What is copied to the place of an argument that is packed there
unfoldable pub in_place : Arg → Option Bytes
in_place (hash h) = some h
in_place (address a) = some (pack_address a)
in_place (big_int n) = some (take 32 (pack_big_int n))
in_place (integer n) = some (pack_number n)
in_place _ = none

-- What is appended for an argument that is packed at the end
unfoldable pub at_end : Arg → Bytes
unfolding pack_words words_of addresses_of
at_end (text s) = pack_bytes s
at_end (bytes bs) = pack_bytes bs
at_end (address_slice addrs) = pack_words (addresses_of addrs)
at_end (big_int_slice ns) = pack_words (words_of ns)
at_end (string_slice ss) = pack_bytes_slice ss
at_end (bytes_slice ss) = pack_bytes_slice ss
at_end _ = []

-- One round of PackData
unfoldable pub pack_at : ℕ → Option Bytes → Bytes → Bytes → Bytes
pack_at i (some word) tail bs = copy_at (i * 32) word bs
pack_at i none tail bs = copy_at (i * 32) (pack_number (length bs)) bs ++ tail

unfoldable pub pack_from : ℕ → List Arg → Bytes → Bytes
pack_from i [] bs = bs
pack_from i (arg ∷ args) bs = pack_from (suc i) args (pack_at i (in_place arg) (at_end arg) bs)

unfoldable pub pack_data : List Arg → Bytes
pack_data args = pack_from 0 args (zeros (length args * 32))

unfoldable pub pack_data_with_func_hash : Bytes → List Arg → Bytes
pack_data_with_func_hash func_hash args =
    let packed = pack_data args in
    copy_at 4 packed (copy_at 0 (take 4 func_hash) (zeros (4 + length packed)))

-- ===== src/Tests/Packed.antt =====
-- The theorems on packed data, and what the packing gives.
use check_tx_server.Common.{◌-◌, ◌^◌, ◌≡◌, refl, inl, some, [], ◌∷◌, ◌++◌, List, arith}
use check_tx_server.Abi.Bytes.{Bytes, zeros, get_uint64, get_big_int, big_bytes, bytes_before}
use check_tx_server.Abi.Pack.{Arg, pack_data, pack_big_int, pack_bytes, at_end}
use check_tx_server.Abi.Pack.Layout.{layout, pack_data-layout}
use check_tx_server.Abi.Parse.{parsed, panicked, parse_bytes_in_data}
use check_tx_server.Abi.Parse.Ends.{Points, parse_bytes_in_data-wraps, parse_bytes_in_data-exact}
use check_tx_server.Abi.RoundTrip.{parse_bytes_in_data-pack_data}

-- "swap", 7 and the address 0x00…05
abbrev word : Bytes
word = 115 ∷ 119 ∷ 97 ∷ 112 ∷ []

abbrev address : Bytes
address = zeros 19 ++ (5 ∷ [])

abbrev arguments : List Arg
arguments = Arg.address address ∷ Arg.text word ∷ Arg.big_int (some 7) ∷ []

layout_example : pack_data arguments ≡ layout arguments
unfolding at_end pack_bytes pack_big_int big_bytes bytes_before
layout_example = pack_data-layout arguments (refl, (tt, (tt, tt))) (omega arith)

text_back_example : parse_bytes_in_data (pack_data arguments) 32 ≡ parsed word
unfolding at_end pack_bytes pack_big_int big_bytes bytes_before
text_back_example =
    parse_bytes_in_data-pack_data (Arg.address address ∷ []) (Arg.big_int (some 7) ∷ [])
      (Arg.text word) word (inl refl) (refl, (tt, (tt, tt))) (omega arith)

-- The offset 32, and there a length of 2^64 - 64
abbrev wrapping : Bytes
wrapping = zeros 31 ++ (32 ∷ (zeros 24 ++ (255 ∷ 255 ∷ 255 ∷ 255 ∷ 255 ∷ 255 ∷ 255 ∷ 192 ∷ [])))

wrapping-Points : Points wrapping 0 32 (2 ^ 64 - 64)
unfolding get_uint64 get_big_int
wrapping-Points = (refl, refl)

wraps_example : parse_bytes_in_data wrapping 0 ≡ panicked
wraps_example =
    parse_bytes_in_data-wraps wrapping 0 32 (2 ^ 64 - 64) wrapping-Points (omega arith)
      (omega arith) (omega arith) (omega arith)

-- The offset 32, and there the length 2 with three bytes behind it
abbrev two_bytes : Bytes
two_bytes = zeros 31 ++ (32 ∷ (zeros 31 ++ (2 ∷ 10 ∷ 11 ∷ 12 ∷ [])))

two_bytes-Points : Points two_bytes 0 32 2
unfolding get_uint64 get_big_int
two_bytes-Points = (refl, refl)

exact_example : parse_bytes_in_data two_bytes 0 ≡ parsed (10 ∷ 11 ∷ [])
exact_example =
    parse_bytes_in_data-exact two_bytes 0 32 2 two_bytes-Points (omega arith) (omega arith)

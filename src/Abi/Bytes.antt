-- ===== src/Abi/Bytes.antt =====
-- common/bytes.go and common/utils.go: reading and padding bytes; big.Int's Bytes and SetBytes.
use check_tx_server.Common.{
  ℕ, zero, suc, ◌+◌, ◌-◌, ◌*◌, ◌/◌, ◌%◌, ◌^◌, ltb, leb, ◌==◌, ◌||◌, Option, none, some, List, [],
  ◌∷◌, ◌++◌, length, if◌then◌else◌,
}

abbrev pub Bytes : Type 0
Bytes = List ℕ

abbrev pub take : ℕ → Bytes → Bytes
take zero bs = []
take (suc n) [] = []
take (suc n) (b ∷ bs) = b ∷ take n bs

abbrev pub drop : ℕ → Bytes → Bytes
drop zero bs = bs
drop (suc n) [] = []
drop (suc n) (b ∷ bs) = drop n bs

-- make([]byte, n)
abbrev pub zeros : ℕ → Bytes
zeros zero = []
zeros (suc n) = 0 ∷ zeros n

-- copy(dst[start:], src), where start is at most the length of dst
abbrev pub copy_over : Bytes → Bytes → Bytes
copy_over src [] = []
copy_over [] (b ∷ dst) = b ∷ dst
copy_over (a ∷ src) (b ∷ dst) = a ∷ copy_over src dst

abbrev pub copy_at : ℕ → Bytes → Bytes → Bytes
copy_at zero src dst = copy_over src dst
copy_at (suc n) src [] = []
copy_at (suc n) src (b ∷ dst) = b ∷ copy_at n src dst

-- SetBytes: big-endian, after the digits that `acc` stands for
abbrev pub value_after : ℕ → Bytes → ℕ
value_after acc [] = acc
value_after acc (b ∷ bs) = value_after (acc * 256 + b) bs

-- Bytes of a big.Int: big-endian, without leading zeros; n rounds are enough for n.
unfoldable pub bytes_before : ℕ → ℕ → Bytes → Bytes
bytes_before zero n acc = acc
bytes_before (suc fuel) n acc =
    let rest = bytes_before fuel (n / 256) (n % 256 ∷ acc) in if n == 0 then acc else rest

unfoldable pub big_bytes : ℕ → Bytes
big_bytes n = bytes_before n n []

-- RightPadBytes and LeftPadBytes, at a length of type int that is not negative
abbrev pub right_pad_bytes : Bytes → ℕ → Bytes
right_pad_bytes slice l = if leb l (length slice) then slice else slice ++ zeros (l - length slice)

abbrev pub left_pad_bytes : Bytes → ℕ → Bytes
left_pad_bytes slice l = if leb l (length slice) then slice else zeros (l - length slice) ++ slice

-- A call that may panic
abbrev pub min : ℕ → ℕ → ℕ
min a b = if leb a b then a else b

-- int(size) is negative for a size of 2^63 and more, and a slice is never shorter than that.
abbrev pub right_pad_int : Bytes → ℕ → Bytes
right_pad_int slice size = if leb (2 ^ 63) size then slice else right_pad_bytes slice size

-- GetData; `none` where the slice expression panics
unfoldable pub get_data : Bytes → ℕ → ℕ → Option Bytes
get_data input start size =
    let from = min start (length input) in
    let end = min ((from + size) % 2 ^ 64) (length input) in
    if ltb end from then none else some (right_pad_int (take (end - from) (drop from input)) size)

-- GetBigInt; start lies in the input where it is sliced, and every call has the size 32, so that start + 32 does not wrap
unfoldable pub get_big_int : Bytes → ℕ → ℕ → ℕ
get_big_int input start size =
    if leb (length input) start || size == 0
    then 0
    else value_after 0 (take (min (start + size) (length input) - start) (drop start input))

-- GetUint64: the number, and whether it is too big, as an option
unfoldable pub get_uint64 : Bytes → ℕ → ℕ → Option ℕ
get_uint64 input start size =
    let n = get_big_int input start size in if leb (2 ^ 64) n then none else some n

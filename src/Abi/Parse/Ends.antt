-- ===== src/Abi/Parse/Ends.antt =====
-- Where the end of the bytes that ParseBytesInData reads lies, and what happens where it wraps.
use check_tx_server.Common.{
  ℕ, zero, suc, ◌∷◌, if◌then◌else◌, ◌+◌, ◌-◌, ◌^◌, ◌%◌, ◌≤◌, ◌<◌, ◌≡◌, refl, ap, inl, inr, leb, ltb,
  true, false, Bool-cases, some, [], length, arith,
}
use check_tx_server.Abi.Bytes.{Bytes, take, drop, get_data, get_big_int, get_uint64, min}
use check_tx_server.Abi.Parse.{parsed, parse_error, panicked, or_panic, parse_bytes_in_data}
use check_tx_server.Abi.Pack.Layout.{length-take}
use check_tx_server.Abi.Parse.Reads.{min-le, right_pad-whole}

-- The word at `pos` is `offset`, and the word there is `size`.
abbrev pub Points : Bytes → ℕ → ℕ → ℕ → Type 0
Points input pos offset size =
    (get_uint64 input pos 32 ≡ some offset) × (get_uint64 input offset 32 ≡ some size)

get_uint64-small : (input : Bytes) (pos n : ℕ) → get_uint64 input pos 32 ≡ some n → n < 2 ^ 64
unfolding get_uint64
get_uint64-small input pos n e = elim (Bool-cases (leb (2 ^ 64) (get_big_int input pos 32))) [
  | inl big ↦ absurd (ground (arith, big, e))
  | inr small ↦ ground (arith, small, e)
]

length-drop : (n : ℕ) (bs : Bytes) → length (drop n bs) ≡ length bs - n
length-drop zero bs = omega arith
length-drop (suc n) [] = omega arith
length-drop (suc n) (b ∷ bs) = omega (arith, length-drop n bs)

module _ (input : Bytes) (pos offset size : ℕ) (points : Points input pos offset size)
    (short : length input < 2 ^ 63) where
  -- Where the end of the bytes wraps past 2^64 to a place inside the data, ParseBytesInData and
  -- ParseStringInData panic: the check of the end lets the data pass, and GetData slices backwards.
  pub parse_bytes_in_data-wraps :
      offset + 32 ≤ length input
      → 2 ^ 64 ≤ offset + 32 + size
      → (offset + 32 + size) % 2 ^ 64 ≤ length input
      → parse_bytes_in_data input pos ≡ panicked
  unfolding parse_bytes_in_data get_data
  parse_bytes_in_data-wraps inside wraps passes =
      let small = get_uint64-small input offset size points.1 in
      let pass : ltb (length input) ((offset + 32 + size) % 2 ^ 64) ≡ false =
        ground (arith, passes) in
      let place : (offset + 32) % 2 ^ 64 ≡ offset + 32 = omega (arith, inside, short) in
      let from : min (offset + 32) (length input) ≡ offset + 32 = min-le _ _ inside in
      let until : min ((offset + 32 + size) % 2 ^ 64) (length input)
          ≡ (offset + 32 + size) % 2 ^ 64 =
        min-le _ _ passes in
      let back : ltb ((offset + 32 + size) % 2 ^ 64) (offset + 32) ≡ true =
        ground (arith, small, wraps) in
      rw points.0 (rw points.1 (rw pass (rw place (rw from (rw until (rw back refl))))))

  length-slice :
      offset + 32 + size ≤ length input → length (take size (drop (offset + 32) input)) ≡ size
  length-slice fits =
      length-take size (drop (offset + 32) input)
        (omega (arith, length-drop (offset + 32) input, fits))

  -- Where the end does not wrap, the two functions read just the bytes that the length names, behind
  -- it, if the data holds them all, and answer ErrParseDataError otherwise.
  pub parse_bytes_in_data-exact :
      offset + 32 + size < 2 ^ 64
      → parse_bytes_in_data input pos ≡ (
          if leb (offset + 32 + size) (length input)
          then parsed (take size (drop (offset + 32) input))
          else parse_error)
  unfolding parse_bytes_in_data get_data
  parse_bytes_in_data-exact straight = elim (Bool-cases (leb (offset + 32 + size) (length input))) [
    | inr beyond ↦
        let sum : (offset + 32 + size) % 2 ^ 64 ≡ offset + 32 + size = omega (arith, straight) in
        let stop : ltb (length input) (offset + 32 + size) ≡ true = ground (arith, beyond) in
        rw points.0 (rw points.1 (rw sum (rw stop (rw beyond refl))))
    | inl fits ↦
        let le : offset + 32 + size ≤ length input = ground (arith, fits) in
        let sum : (offset + 32 + size) % 2 ^ 64 ≡ offset + 32 + size = omega (arith, straight) in
        let pass : ltb (length input) (offset + 32 + size) ≡ false = ground (arith, fits) in
        let place : (offset + 32) % 2 ^ 64 ≡ offset + 32 = omega (arith, straight) in
        let from : min (offset + 32) (length input) ≡ offset + 32 =
          min-le _ _ (omega (arith, le)) in
        let until : min (offset + 32 + size) (length input) ≡ offset + 32 + size = min-le _ _ le in
        let forth : ltb (offset + 32 + size) (offset + 32) ≡ false = ground arith in
        let many : (offset + 32 + size) - (offset + 32) ≡ size = omega arith in
        rw points.0 (
          rw points.1 (
            rw sum (
              rw pass (
                rw place (
                  rw from (
                    rw sum (
                      rw until (
                        rw forth (
                          rw many (
                            rw fits (
                              ap or_panic
                                (ap some (right_pad-whole _ size (length-slice le))))))))))))))
  ]

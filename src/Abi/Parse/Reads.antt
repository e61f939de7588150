-- ===== src/Abi/Parse/Reads.antt =====
-- Reading inside bytes that are laid out in parts.
use check_tx_server.Common.{
  ℕ, zero, suc, ◌+◌, ◌-◌, ◌^◌, ◌%◌, ◌≤◌, ◌<◌, ◌≡◌, refl, ap, ◌∙◌, sym, leb, ltb, false, some, [],
  ◌∷◌, ◌++◌, length, length-append, arith,
}
use mathlib.Core.List.{append_assoc}
use check_tx_server.Abi.Parse.{parsed, parse_bytes_in_data}
use check_tx_server.Abi.Bytes.{
  Bytes, take, drop, get_data, get_big_int, get_uint64, value_after, min, right_pad_int,
}

drop-append : (a b : Bytes) (n : ℕ) → n ≡ length a → drop n (a ++ b) ≡ b
drop-append [] b zero at = refl
drop-append [] b (suc n) at = absurd (omega (arith, at))
drop-append (x ∷ a) b zero at = absurd (omega (arith, at))
drop-append (x ∷ a) b (suc n) at = drop-append a b n (omega (arith, at))

take-append : (a b : Bytes) (n : ℕ) → n ≡ length a → take n (a ++ b) ≡ a
take-append [] b zero at = refl
take-append [] b (suc n) at = absurd (omega (arith, at))
take-append (x ∷ a) b zero at = absurd (omega (arith, at))
take-append (x ∷ a) b (suc n) at = ap (λ z. x ∷ z) (take-append a b n (omega (arith, at)))

pub min-le : (m n : ℕ) → m ≤ n → min m n ≡ m
min-le m n le = ground (arith, le)

pub right_pad-whole : (w : Bytes) (n : ℕ) → length w ≡ n → right_pad_int w n ≡ w
right_pad-whole w n is = ground (arith, is)

module _ (a w b : Bytes) (pos : ℕ) (at : pos ≡ length a) where
  length-parts : length (a ++ (w ++ b)) ≡ length a + (length w + length b)
  length-parts = rw (length-append a (w ++ b)) (rw (length-append w b) refl)

  middle : take (length w) (drop pos (a ++ (w ++ b))) ≡ w
  middle = rw (drop-append a (w ++ b) pos at) (take-append w b (length w) refl)

  -- The word of 32 bytes at `pos`
  pub get_big_int-middle : length w ≡ 32 → get_big_int (a ++ (w ++ b)) pos 32 ≡ value_after 0 w
  unfolding get_big_int
  get_big_int-middle word =
      let inside : leb (length (a ++ (w ++ b))) pos ≡ false =
        ground (arith, length-parts, at, word) in
      let until : min (pos + 32) (length (a ++ (w ++ b))) ≡ pos + 32 =
        min-le _ _ (omega (arith, length-parts, at, word)) in
      let many : (pos + 32) - pos ≡ length w = omega (arith, word) in
      rw inside (rw until (rw many (rw middle refl)))

  pub get_data-middle :
      length (a ++ (w ++ b)) < 2 ^ 63 → get_data (a ++ (w ++ b)) pos (length w) ≡ some w
  unfolding get_data
  get_data-middle small =
      let from : min pos (length (a ++ (w ++ b))) ≡ pos =
        min-le _ _ (omega (arith, length-parts, at)) in
      let sum : (pos + length w) % 2 ^ 64 ≡ pos + length w =
        omega (arith, length-parts, at, small) in
      let until : min (pos + length w) (length (a ++ (w ++ b))) ≡ pos + length w =
        min-le _ _ (omega (arith, length-parts, at)) in
      let many : (pos + length w) - pos ≡ length w = omega arith in
      let fine : ltb (pos + length w) pos ≡ false = ground arith in
      rw from (
        rw sum
          (rw until (rw fine (rw many (rw middle (ap some (right_pad-whole w (length w) refl)))))))

get_uint64-of :
    (input : Bytes) (pos n : ℕ)
    → get_big_int input pos 32 ≡ n
    → n < 2 ^ 64
    → get_uint64 input pos 32 ≡ some n
unfolding get_uint64
get_uint64-of input pos n is small = rw is (ground (arith, small))

-- The word at `pos` holds the place of a length with as many bytes behind it.
module _ (input a₁ w b₁ a₂ v s b₂ : Bytes) (pos : ℕ) (first : input ≡ a₁ ++ (w ++ b₁))
    (second : input ≡ a₂ ++ (v ++ (s ++ b₂))) (at : pos ≡ length a₁) (word : length w ≡ 32)
    (place : value_after 0 w ≡ length a₂) (word' : length v ≡ 32)
    (size : value_after 0 v ≡ length s) (small : length input < 2 ^ 63) where
  length-input : length input ≡ length a₂ + (32 + (length s + length b₂))
  length-input = rw second (
      length-append a₂ (v ++ (s ++ b₂))
      ∙ omega (arith, length-append v (s ++ b₂), length-append s b₂, word'))

  fits : length a₂ + (32 + (length s + length b₂)) < 2 ^ 63
  fits = omega (arith, length-input, small)

  place-read : get_uint64 input pos 32 ≡ some (length a₂)
  place-read =
      get_uint64-of input pos (length a₂)
        (rw first (get_big_int-middle a₁ w b₁ pos at word ∙ place)) (omega (arith, fits))

  size-read : get_uint64 input (length a₂) 32 ≡ some (length s)
  size-read =
      get_uint64-of input (length a₂) (length s)
        (rw second (get_big_int-middle a₂ v (s ++ b₂) (length a₂) refl word' ∙ size))
        (omega (arith, fits))

  bytes-read : get_data input (length a₂ + 32) (length s) ≡ some s
  bytes-read =
      let before : length a₂ + 32 ≡ length (a₂ ++ v) =
        rw (length-append a₂ v) (omega (arith, word')) in
      let input' : input ≡ (a₂ ++ v) ++ (s ++ b₂) = second ∙ sym (append_assoc a₂ v (s ++ b₂)) in
      rw input' (get_data-middle (a₂ ++ v) s b₂ (length a₂ + 32) before (rw input' at small))

  pub parse_bytes_in_data-laid : parse_bytes_in_data input pos ≡ parsed s
  unfolding parse_bytes_in_data
  parse_bytes_in_data-laid =
      let after : (length a₂ + 32 + length s) % 2 ^ 64 ≡ length a₂ + 32 + length s =
        omega (arith, fits) in
      let start : (length a₂ + 32) % 2 ^ 64 ≡ length a₂ + 32 = omega (arith, fits) in
      let inside : ltb (length input) (length a₂ + 32 + length s) ≡ false =
        ground (arith, length-input) in
      rw place-read (rw size-read (rw after (rw inside (rw start (rw bytes-read refl)))))

-- ===== src/Abi/RoundTrip.antt =====
-- What is packed as a string, as bytes or as a number is read back.
use mathlib.Core.List.{append_assoc}
use check_tx_server.Common.{
  ◌⊎◌, inl, inr, Option-cases, ℕ, zero, suc, ◌+◌, ◌-◌, ◌*◌, ◌/◌, ◌^◌, ◌<◌, ◌≡◌, refl, ap, ◌∙◌, sym,
  none, some, List, [], ◌∷◌, ◌++◌, length, length-append, All, arith,
}
use check_tx_server.Abi.Bytes.{Bytes, take, zeros, copy_at, copy_over, get_big_int, value_after}
use check_tx_server.Abi.Pack.{Arg, pack_number, pack_bytes, in_place, at_end, pack_data}
use check_tx_server.Abi.Pack.Words.{pack_number-length, pack_number-value, length-zeros}
use check_tx_server.Abi.Pack.Layout.{
  Sized, word_at, word_or, in_place-length, heads, tails, layout, pack_data-layout, copy_at-between,
  zeros-add,
}
use check_tx_server.Abi.Parse.{parsed, parse_bytes_in_data}
use check_tx_server.Abi.Parse.Reads.{parse_bytes_in_data-laid, get_big_int-middle}

abbrev padding : Bytes → ℕ
padding s = (length s + 31) / 32 * 32 - length s

pub take-whole : (bs : Bytes) (n : ℕ) → length bs ≡ n → take n bs ≡ bs
take-whole [] zero e = refl
take-whole [] (suc n) e = refl
take-whole (b ∷ bs) zero e = absurd (omega (arith, e))
take-whole (b ∷ bs) (suc n) e = ap (λ z. b ∷ z) (take-whole bs n (omega (arith, e)))

pack_bytes-parts :
    (s : Bytes)
    → length s < 2 ^ 256
    → pack_bytes s ≡ pack_number (length s) ++ (s ++ zeros (padding s))
unfolding pack_bytes
pack_bytes-parts s small =
    let w = pack_number (length s) in
    let wide = pack_number-length (length s) small in
    let room : 32 + (length s + 31) / 32 * 32 ≡ 32 + (length s + padding s) = omega arith in
    let z : zeros (32 + (length s + padding s))
        ≡ zeros 32 ++ (zeros (length s) ++ zeros (padding s)) =
      zeros-add 32 (length s + padding s)
      ∙ ap (λ t. zeros 32 ++ t) (zeros-add (length s) (padding s)) in
    rw room (
      rw z (
        rw (take-whole w 32 wide) (
          rw (copy_at-between [] w (zeros 32) (zeros (length s) ++ zeros (padding s)) 0 refl wide) (
            copy_at-between w s (zeros (length s)) (zeros (padding s)) 32 (sym wide)
              (sym (length-zeros (length s)))))))

tails-append : (pre post : List Arg) → tails (pre ++ post) ≡ tails pre ++ tails post
tails-append [] post = refl
tails-append (arg ∷ pre) post =
    rw (tails-append pre post) (sym (append_assoc (at_end arg) (tails pre) (tails post)))

heads-append :
    (offset : ℕ) (pre post : List Arg)
    → heads offset (pre ++ post) ≡ heads offset pre ++ heads (offset + length (tails pre)) post
heads-append offset [] post = let is : offset + 0 ≡ offset = omega arith in rw is refl
heads-append offset (arg ∷ pre) post =
    let next : offset + length (at_end arg ++ tails pre)
        ≡ offset + length (at_end arg) + length (tails pre) =
      rw (length-append (at_end arg) (tails pre)) (omega arith) in
    rw next (
      rw (heads-append (offset + length (at_end arg)) pre post) (
        sym (
          append_assoc (word_at offset arg) (heads (offset + length (at_end arg)) pre)
            (heads (offset + length (at_end arg) + length (tails pre)) post))))

length-word_at :
    (offset : ℕ) (arg : Arg) → Sized arg → offset < 2 ^ 256 → length (word_at offset arg) ≡ 32
length-word_at offset arg fits small = elim (Option-cases (in_place arg)) [
  | inl behind ↦ rw (ap (word_or offset) behind) (pack_number-length offset small)
  | inr (w, e) ↦ rw (ap (word_or offset) e) (in_place-length arg w fits e)
]

length-heads :
    (offset : ℕ) (args : List Arg)
    → All Sized args
    → offset + length (tails args) < 2 ^ 256
    → length (heads offset args) ≡ length args * 32
length-heads offset [] sized small = refl
length-heads offset (arg ∷ args) (fits, sized) small =
    let sum = length-append (at_end arg) (tails args) in
    rw (length-append (word_at offset arg) (heads (offset + length (at_end arg)) args)) (
      omega (
        arith,
        length-word_at offset arg fits (omega (arith, small)),
        length-heads (offset + length (at_end arg)) args sized (omega (arith, small, sum)),
      ))

All-append-left : (pre post : List Arg) → All Sized (pre ++ post) → All Sized pre
All-append-left [] post sized = tt
All-append-left (arg ∷ pre) post (fits, sized) = (fits, All-append-left pre post sized)

All-append-middle : (pre post : List Arg) (arg : Arg) → All Sized (pre ++ arg ∷ post) → Sized arg
All-append-middle [] post arg (fits, sized) = fits
All-append-middle (other ∷ pre) post arg (fits, sized) = All-append-middle pre post arg sized

length-copy_over : (src dst : Bytes) → length (copy_over src dst) ≡ length dst
length-copy_over src [] = refl
length-copy_over [] (b ∷ dst) = refl
length-copy_over (a ∷ src) (b ∷ dst) = omega (arith, length-copy_over src dst)

length-copy_at : (n : ℕ) (src dst : Bytes) → length (copy_at n src dst) ≡ length dst
length-copy_at zero src dst = length-copy_over src dst
length-copy_at (suc n) src [] = refl
length-copy_at (suc n) src (b ∷ dst) = omega (arith, length-copy_at n src dst)

pub length-pack_bytes : (s : Bytes) → length (pack_bytes s) ≡ 32 + (length s + 31) / 32 * 32
unfolding pack_bytes
length-pack_bytes s =
    length-copy_at 32 s _ ∙ (length-copy_at 0 (take 32 (pack_number (length s))) _ ∙ length-zeros _)

module _ (pre post : List Arg) (arg : Arg) (sized : All Sized (pre ++ arg ∷ post)) where
  abbrev args : List Arg
  args = pre ++ (arg ∷ post)

  abbrev start : ℕ
  start = length args * 32

  -- Where the part of `arg` starts
  abbrev part : ℕ
  part = start + length (tails pre)

  module _ (small : start + length (tails args) < 2 ^ 63) where
    packed : pack_data args ≡ layout args
    packed = pack_data-layout args sized (omega (arith, small))

    -- The packed bytes around the word of `arg`
    around_word :
        pack_data args
        ≡ heads start pre
          ++ (word_at part arg ++ (heads (part + length (at_end arg)) post ++ tails args))
    around_word =
        packed
        ∙ (ap (λ z. z ++ tails args) (heads-append start pre (arg ∷ post))
            ∙ (append_assoc (heads start pre)
                  (word_at part arg ++ heads (part + length (at_end arg)) post) (tails args)
                ∙ ap (λ z. heads start pre ++ z)
                    (append_assoc (word_at part arg) (heads (part + length (at_end arg)) post)
                      (tails args))))

    -- The packed bytes around what it points to
    around_part : pack_data args ≡ (heads start args ++ tails pre) ++ (at_end arg ++ tails post)
    around_part =
        packed
        ∙ (ap (λ z. heads start args ++ z) (tails-append pre (arg ∷ post))
            ∙ sym (append_assoc (heads start args) (tails pre) (at_end arg ++ tails post)))

    pub length-packed : length (pack_data args) ≡ start + length (tails args)
    length-packed = rw packed (
        length-append (heads start args) (tails args)
        ∙ omega (arith, length-heads start args sized (omega (arith, small))))

    parts : start + length (tails pre) + length (at_end arg) + length (tails post) < 2 ^ 63
    parts = omega (
      arith,
      small,
      ap length (tails-append pre (arg ∷ post)),
      length-append (tails pre) (at_end arg ++ tails post),
      length-append (at_end arg) (tails post),
    )

    length-before : length pre * 32 ≡ length (heads start pre)
    length-before =
        sym (length-heads start pre (All-append-left pre (arg ∷ post) sized) (omega (arith, parts)))

    length-head : length (heads start args ++ tails pre) ≡ part
    length-head =
        rw (length-append (heads start args) (tails pre))
          (omega (arith, length-heads start args sized (omega (arith, small))))

    fits-arg : Sized arg
    fits-arg = All-append-middle pre post arg sized

    bytes-back :
        (s : Bytes)
        → in_place arg ≡ none
        → at_end arg ≡ pack_bytes s
        → parse_bytes_in_data (pack_data args) (length pre * 32) ≡ parsed s
    bytes-back s behind points =
        let v = pack_number (length s) in
        let room : length s < 2 ^ 63 =
          omega (arith, ap length points, length-pack_bytes s, parts) in
        let is : word_at part arg ≡ pack_number part = ap (word_or part) behind in
        let laid : at_end arg ++ tails post ≡ v ++ (s ++ (zeros (padding s) ++ tails post)) =
          rw points (
            rw (pack_bytes-parts s (omega (arith, room))) (
              append_assoc v (s ++ zeros (padding s)) (tails post)
              ∙ ap (λ z. v ++ z) (append_assoc s (zeros (padding s)) (tails post)))) in
        parse_bytes_in_data-laid (pack_data args) (heads start pre) (word_at part arg)
          (heads (part + length (at_end arg)) post ++ tails args) (heads start args ++ tails pre) v
          s (zeros (padding s) ++ tails post) (length pre * 32) around_word
          (around_part ∙ ap (λ z. (heads start args ++ tails pre) ++ z) laid) length-before
          (length-word_at part arg fits-arg (omega (arith, parts)))
          (rw is (rw length-head (pack_number-value part)))
          (pack_number-length (length s) (omega (arith, room))) (pack_number-value (length s))
          (omega (arith, length-packed, small))

-- The word of an argument of fixed size stands at the argument's place.
pub get_big_int-word :
    (pre post : List Arg) (arg : Arg) (w : Bytes) (sized : All Sized (pre ++ arg ∷ post))
    → in_place arg ≡ some w
    → length (pre ++ arg ∷ post) * 32 + length (tails (pre ++ arg ∷ post)) < 2 ^ 63
    → get_big_int (pack_data (pre ++ arg ∷ post)) (length pre * 32) 32 ≡ value_after 0 w
get_big_int-word pre post arg w sized e small =
    let from = part pre post arg sized in
    let is : word_at from arg ≡ w = ap (word_or from) e in
    let wide = in_place-length arg w (fits-arg pre post arg sized small) e in
    rw (around_word pre post arg sized small) (
      get_big_int-middle (heads (start pre post arg sized) pre) (word_at from arg)
        (heads (from + length (at_end arg)) post ++ tails (args pre post arg sized))
        (length pre * 32) (length-before pre post arg sized small) (rw is wide)
      ∙ ap (value_after 0) is)

-- A string, or bytes, that PackData packs among other arguments, ParseStringInData and ParseBytesInData
-- read back at the argument's place, where the packed data is shorter than 2^63 bytes.
pub parse_bytes_in_data-pack_data :
    (pre post : List Arg) (arg : Arg) (s : Bytes)
    → (arg ≡ Arg.text s) ⊎ (arg ≡ Arg.bytes s)
    → All Sized (pre ++ arg ∷ post)
    → length (pre ++ arg ∷ post) * 32 + length (tails (pre ++ arg ∷ post)) < 2 ^ 63
    → parse_bytes_in_data (pack_data (pre ++ arg ∷ post)) (length pre * 32) ≡ parsed s
unfolding in_place at_end
parse_bytes_in_data-pack_data pre post arg s (inl is) sized small =
    bytes-back pre post arg sized small s (rw is refl) (rw is refl)
parse_bytes_in_data-pack_data pre post arg s (inr is) sized small =
    bytes-back pre post arg sized small s (rw is refl) (rw is refl)

-- A number that PackData packs among other arguments is read back at its place, where it has at most
-- 256 bits.
pub get_big_int-pack_data :
    (pre post : List Arg) (n : ℕ)
    → n < 2 ^ 256
    → All Sized (pre ++ Arg.big_int (some n) ∷ post)
    → length (pre ++ Arg.big_int (some n) ∷ post) * 32
        + length (tails (pre ++ Arg.big_int (some n) ∷ post))
      < 2 ^ 63
    → get_big_int (pack_data (pre ++ Arg.big_int (some n) ∷ post)) (length pre * 32) 32 ≡ n
unfolding in_place
get_big_int-pack_data pre post n word sized small =
    let arg = Arg.big_int (some n) in
    let wide = pack_number-length n word in
    let is : word_at (part pre post arg sized) arg ≡ pack_number n =
      take-whole (pack_number n) 32 wide in
    let start' = part pre post arg sized in
    rw (around_word pre post arg sized small) (
      get_big_int-middle (heads (start pre post arg sized) pre) (word_at start' arg)
        (heads (start' + length (at_end arg)) post ++ tails (args pre post arg sized))
        (length pre * 32) (length-before pre post arg sized small) (rw is wide)
      ∙ rw is (pack_number-value n))

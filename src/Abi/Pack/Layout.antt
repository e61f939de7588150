-- ===== src/Abi/Pack/Layout.antt =====
-- PackData lays the words of its arguments out in order, and what they point to behind them.
use check_tx_server.Common.{
  ℕ, zero, suc, ◌+◌, ◌-◌, leb, Bool-cases, ◌*◌, ◌^◌, ◌≤◌, ◌<◌, ◌≡◌, refl, sym, ap, ◌∙◌, Option,
  Option-cases, inl, inr, none, some, List, [], ◌∷◌, ◌++◌, length, length-append, arith, All,
}
use mathlib.Core.List.{append_assoc, append-nil}
use check_tx_server.Abi.Bytes.{Bytes, take, zeros, copy_at, copy_over, left_pad_bytes}
use check_tx_server.Abi.Pack.Words.{pack_number-length, length-zeros}
use check_tx_server.Abi.Pack.{
  Arg, pack_number, pack_big_int, bytes_of, in_place, at_end, pack_at, pack_from, pack_data,
}

-- The word of an argument in the head part, where what it points to stands at `offset`
abbrev pub word_or : ℕ → Option Bytes → Bytes
word_or offset none = pack_number offset
word_or offset (some word) = word

abbrev pub word_at : ℕ → Arg → Bytes
word_at offset arg = word_or offset (in_place arg)

-- The reference layout: a word for each argument, then what the words point to
abbrev pub heads : ℕ → List Arg → Bytes
heads offset [] = []
heads offset (arg ∷ args) = word_at offset arg ++ heads (offset + length (at_end arg)) args

abbrev pub tails : List Arg → Bytes
tails [] = []
tails (arg ∷ args) = at_end arg ++ tails args

abbrev pub layout : List Arg → Bytes
layout args = heads (length args * 32) args ++ tails args

copy_over-whole : (x z t : Bytes) → length x ≡ length z → copy_over x (z ++ t) ≡ x ++ t
copy_over-whole [] [] [] e = refl
copy_over-whole [] [] (b ∷ t) e = refl
copy_over-whole [] (b ∷ z) t e = absurd (omega (arith, e))
copy_over-whole (a ∷ x) [] t e = absurd (omega (arith, e))
copy_over-whole (a ∷ x) (b ∷ z) t e = ap (λ w. a ∷ w) (copy_over-whole x z t (omega (arith, e)))

pub copy_at-between :
    (a x z t : Bytes) (n : ℕ)
    → n ≡ length a
    → length x ≡ length z
    → copy_at n x (a ++ (z ++ t)) ≡ a ++ (x ++ t)
copy_at-between [] x z t zero at e = copy_over-whole x z t e
copy_at-between [] x z t (suc n) at e = absurd (omega (arith, at))
copy_at-between (b ∷ a) x z t zero at e = absurd (omega (arith, at))
copy_at-between (b ∷ a) x z t (suc n) at e =
    ap (λ w. b ∷ w) (copy_at-between a x z t n (omega (arith, at)) e)

-- The sizes that Go's types fix
abbrev pub Sized : Arg → Type 0
Sized (Arg.hash h) = length h ≡ 32
Sized (Arg.address a) = length a ≡ 20
Sized (Arg.integer n) = n < 2 ^ 64
Sized _ = Unit {0}

pub length-take : (n : ℕ) (bs : Bytes) → n ≤ length bs → length (take n bs) ≡ n
length-take zero bs le = refl
length-take (suc n) [] le = absurd (omega (arith, le))
length-take (suc n) (b ∷ bs) le = omega (arith, length-take n bs (omega (arith, le)))

length-padded : (bs : Bytes) → 32 ≤ length (left_pad_bytes bs 32)
length-padded bs = elim (Bool-cases (leb 32 (length bs))) [
  | inl full ↦ rw full (ground (arith, full))
  | inr short ↦ rw short (
      rw (length-append (zeros (32 - length bs)) bs)
        (ground (arith, length-zeros (32 - length bs))))
]

left_pad_bytes-length : (bs : Bytes) → length bs ≤ 32 → length (left_pad_bytes bs 32) ≡ 32
left_pad_bytes-length bs le = elim (Bool-cases (leb 32 (length bs))) [
  | inl full ↦ rw full (ground (arith, full, le))
  | inr short ↦ rw short (
      rw (length-append (zeros (32 - length bs)) bs)
        (ground (arith, length-zeros (32 - length bs), le)))
]

some-is : {x w : Bytes} → ◌≡◌ {A = Option Bytes} (some x) (some w) → x ≡ w
some-is e = ground (arith, e)

pub in_place-length : (arg : Arg) (w : Bytes) → Sized arg → in_place arg ≡ some w → length w ≡ 32
unfolding in_place pack_big_int
in_place-length (Arg.hash h) w sized e = ground (arith, sized, e)
in_place-length (Arg.address a) w sized e =
    rw⁻¹ (some-is e) (left_pad_bytes-length a (omega (arith, sized)))
in_place-length (Arg.integer n) w sized e =
    rw⁻¹ (some-is e) (pack_number-length n (omega (arith, sized)))
in_place-length (Arg.big_int n) w sized e =
    rw⁻¹ (some-is e) (length-take 32 _ (length-padded (bytes_of n)))
in_place-length (Arg.text s) w sized e = absurd (ground (arith, e))
in_place-length (Arg.bytes s) w sized e = absurd (ground (arith, e))
in_place-length (Arg.address_slice s) w sized e = absurd (ground (arith, e))
in_place-length (Arg.big_int_slice s) w sized e = absurd (ground (arith, e))
in_place-length (Arg.string_slice s) w sized e = absurd (ground (arith, e))
in_place-length (Arg.bytes_slice s) w sized e = absurd (ground (arith, e))

pub zeros-add : (m n : ℕ) → zeros (m + n) ≡ zeros m ++ zeros n
zeros-add zero n = let is : 0 + n ≡ n = omega arith in rw is refl
zeros-add (suc m) n =
    let is : suc m + n ≡ suc (m + n) = omega arith in rw is (ap (λ z. 0 ∷ z) (zeros-add m n))

-- The bytes while PackData runs: `a` is done, a word of zeros is next, and `t` stands at the end.
abbrev running : Bytes → ℕ → Bytes → Bytes
running a n t = a ++ (zeros (n * 32) ++ t)

running-suc : (a t : Bytes) (n : ℕ) → running a (suc n) t ≡ a ++ (zeros 32 ++ (zeros (n * 32) ++ t))
running-suc a t n =
    let is : suc n * 32 ≡ 32 + n * 32 = omega arith in
    rw is
      (rw (zeros-add 32 (n * 32)) (ap (λ z. a ++ z) (append_assoc (zeros 32) (zeros (n * 32)) t)))

length-running : (a t : Bytes) (n : ℕ) → length (running a n t) ≡ length a + (n * 32 + length t)
length-running a t n =
    rw (length-append a (zeros (n * 32) ++ t))
      (rw (length-append (zeros (n * 32)) t) (rw (length-zeros (n * 32)) refl))

-- A round that copies a word in
word-runs :
    (i n : ℕ) (w a t : Bytes)
    → length a ≡ i * 32
    → length w ≡ 32
    → copy_at (i * 32) w (running a (suc n) t) ≡ running (a ++ w) n t
word-runs i n w a t at sized = rw (running-suc a t n) (
    rw
      (copy_at-between a w (zeros 32) (zeros (n * 32) ++ t) (i * 32) (sym at)
        (omega (arith, sized)))
      (sym (append_assoc a w (zeros (n * 32) ++ t))))

-- A round that appends
tail-runs :
    (i n : ℕ) (tail a t : Bytes)
    → length a ≡ i * 32
    → length (running a (suc n) t) < 2 ^ 256
    → copy_at (i * 32) (pack_number (length (running a (suc n) t))) (running a (suc n) t) ++ tail
      ≡ running (a ++ pack_number (length (running a (suc n) t))) n (t ++ tail)
tail-runs i n tail a t at small =
    let w = pack_number (length (running a (suc n) t)) in
    rw (word-runs i n w a t at (pack_number-length _ small)) (
      append_assoc (a ++ w) (zeros (n * 32) ++ t) tail
      ∙ ap (λ z. (a ++ w) ++ z) (append_assoc (zeros (n * 32)) t tail))

at_end-nil : (arg : Arg) (w : Bytes) → in_place arg ≡ some w → at_end arg ≡ []
unfolding in_place at_end
at_end-nil (Arg.hash h) w e = refl
at_end-nil (Arg.address a) w e = refl
at_end-nil (Arg.integer n) w e = refl
at_end-nil (Arg.big_int n) w e = refl
at_end-nil (Arg.text s) w e = absurd (ground (arith, e))
at_end-nil (Arg.bytes s) w e = absurd (ground (arith, e))
at_end-nil (Arg.address_slice s) w e = absurd (ground (arith, e))
at_end-nil (Arg.big_int_slice s) w e = absurd (ground (arith, e))
at_end-nil (Arg.string_slice s) w e = absurd (ground (arith, e))
at_end-nil (Arg.bytes_slice s) w e = absurd (ground (arith, e))

append_around : (a w w' h t : Bytes) → w ≡ w' → (a ++ w) ++ (h ++ t) ≡ a ++ ((w' ++ h) ++ t)
append_around a w w' h t same =
    append_assoc a w (h ++ t)
    ∙ (ap (λ z. a ++ z) (sym (append_assoc w h t)) ∙ ap (λ z. a ++ ((z ++ h) ++ t)) same)

-- What a round leaves is as long as the bytes before it and what it appends.
length-round :
    (a w t tail : Bytes) (n : ℕ)
    → length w ≡ 32
    → length (running (a ++ w) n (t ++ tail)) ≡ length (running a (suc n) t) + length tail
length-round a w t tail n sized = rw (length-running (a ++ w) (t ++ tail) n) (
    rw (length-running a t (suc n))
      (rw (length-append a w) (rw (length-append t tail) (omega (arith, sized)))))

length-round_word :
    (a w t : Bytes) (n : ℕ)
    → length w ≡ 32
    → length (running (a ++ w) n t) ≡ length (running a (suc n) t) + 0
length-round_word a w t n sized =
    rw (length-running (a ++ w) t n)
      (rw (length-running a t (suc n)) (rw (length-append a w) (omega (arith, sized))))

length-next :
    (a w : Bytes) (i : ℕ) → length a ≡ i * 32 → length w ≡ 32 → length (a ++ w) ≡ suc i * 32
length-next a w i at sized = rw (length-append a w) (omega (arith, at, sized))

pack_from-layout :
    (args : List Arg) (i : ℕ) (a t : Bytes)
    → length a ≡ i * 32
    → All Sized args
    → length (running a (length args) t) + length (tails args) < 2 ^ 256
    → pack_from i args (running a (length args) t)
      ≡ a ++ (heads (length (running a (length args) t)) args ++ (t ++ tails args))
unfolding pack_from pack_at
pack_from-layout [] i a t at sized small = ap (λ z. a ++ z) (sym (append-nil t))
pack_from-layout (arg ∷ args) i a t at (fits, sized) small = elim (Option-cases (in_place arg)) [
  | inr (w, e) ↦
      let n = length args in
      let nil = at_end-nil arg w e in
      let wide = in_place-length arg w fits e in
      let here = length-round_word a w t n wide in
      let ih =
        pack_from-layout args (suc i) (a ++ w) t (length-next a w i at wide) sized
          (omega (arith, here, small, length-append (at_end arg) (tails args))) in
      rw e (rw nil (rw (word-runs i n w a t at wide) (ih ∙ rw here (append_around a w _ _ _ refl))))
  | inl behind ↦
      let n = length args in
      let w = pack_number (length (running a (suc n) t)) in
      let wide = pack_number-length (length (running a (suc n) t)) (omega (arith, small)) in
      let here = length-round a w t (at_end arg) n wide in
      let ih =
        pack_from-layout args (suc i) (a ++ w) (t ++ at_end arg) (length-next a w i at wide) sized
          (omega (arith, here, small, length-append (at_end arg) (tails args))) in
      rw behind (
        rw (tail-runs i n (at_end arg) a t at (omega (arith, small))) (
          ih
          ∙ rw here (rw (append_assoc t (at_end arg) (tails args)) (append_around a w _ _ _ refl))))
]

-- PackData, which writes into its bytes by index and appends to them as it goes, gives the words of
-- its arguments in order, each of 32 bytes, followed by what the words point to, in the same order:
-- the word of an argument of variable size is the offset at which its part starts.
pub pack_data-layout :
    (args : List Arg)
    → All Sized args
    → length args * 32 + length (tails args) < 2 ^ 256
    → pack_data args ≡ layout args
unfolding pack_data
pack_data-layout args sized small =
    let whole : zeros (length args * 32) ++ [] ≡ zeros (length args * 32) = append-nil _ in
    let long : length (running [] (length args) []) ≡ length args * 32 =
      rw whole (length-zeros _) in
    let runs = pack_from-layout args 0 [] [] refl sized (omega (arith, long, small)) in
    rw whole at (rw long at runs)

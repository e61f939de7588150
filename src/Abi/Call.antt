-- ===== src/Abi/Call.antt =====
-- A call of a contract: the four bytes of its function, and the packed arguments.
use check_tx_server.Common.{
  ℕ, zero, suc, ◌+◌, ◌-◌, ◌*◌, ◌^◌, ◌<◌, ◌≤◌, ◌≡◌, refl, ap, sym, ◌∙◌, leb, inl, inr, Bool-cases,
  List, [], ◌∷◌, ◌++◌, length, length-append, All, arith,
}
use mathlib.Core.List.{append-nil}
use check_tx_server.Abi.Bytes.{
  Bytes, drop, zeros, copy_at, left_pad_bytes, value_after, get_big_int,
}
use check_tx_server.Abi.Pack.{Arg, in_place, pack_data, pack_data_with_func_hash}
use check_tx_server.Abi.Pack.Words.{length-zeros, value_after-zeros}
use check_tx_server.Abi.Pack.Layout.{Sized, tails, copy_at-between, zeros-add}
use check_tx_server.Abi.RoundTrip.{take-whole, get_big_int-word}

pub length-left_pad_bytes : (bs : Bytes) (k : ℕ) → length bs ≤ k → length (left_pad_bytes bs k) ≡ k
length-left_pad_bytes bs k le = elim (Bool-cases (leb k (length bs))) [
  | inl full ↦ rw full (ground (arith, full, le))
  | inr short ↦ rw short (
      rw (length-append (zeros (k - length bs)) bs)
        (ground (arith, length-zeros (k - length bs), le, short)))
]

pub length-drop : (k : ℕ) (bs : Bytes) → length (drop k bs) ≡ length bs - k
length-drop zero bs = omega arith
length-drop (suc k) [] = omega arith
length-drop (suc k) (b ∷ bs) = omega (arith, length-drop k bs)

-- An address, as a number
value-left_pad_bytes : (bs : Bytes) (k : ℕ) → value_after 0 (left_pad_bytes bs k) ≡ value_after 0 bs
value-left_pad_bytes bs k = elim (Bool-cases (leb k (length bs))) [
  | inl full ↦ rw full refl
  | inr short ↦ rw short (value_after-zeros (k - length bs) bs)
]

pub get_big_int-address :
    (pre post : List Arg) (a : Bytes)
    → All Sized (pre ++ Arg.address a ∷ post)
    → length (pre ++ Arg.address a ∷ post) * 32 + length (tails (pre ++ Arg.address a ∷ post))
      < 2 ^ 63
    → get_big_int (pack_data (pre ++ Arg.address a ∷ post)) (length pre * 32) 32 ≡ value_after 0 a
unfolding in_place
get_big_int-address pre post a sized small =
    get_big_int-word pre post (Arg.address a) (left_pad_bytes a 32) sized refl small
    ∙ value-left_pad_bytes a 32

-- The four bytes stand in front of what PackData packs.
pub pack_data_with_func_hash-is :
    (hash : Bytes) (args : List Arg)
    → length hash ≡ 4
    → pack_data_with_func_hash hash args ≡ hash ++ pack_data args
unfolding pack_data_with_func_hash
pack_data_with_func_hash-is hash args four =
    let p = pack_data args in
    let m = length p in
    rw (take-whole hash 4 four) (
      rw (zeros-add 4 m) (
        rw (copy_at-between [] hash (zeros 4) (zeros m) 0 refl four) (
          ap (λ z. copy_at 4 p (hash ++ z)) (sym (append-nil (zeros m)))
          ∙ (copy_at-between hash p (zeros m) [] 4 (sym four) (sym (length-zeros m))
              ∙ ap (λ z. hash ++ z) (append-nil p)))))

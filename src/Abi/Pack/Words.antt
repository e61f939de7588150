-- ===== src/Abi/Pack/Words.antt =====
-- A packed number has 32 bytes and is read back.
use check_tx_server.Common.{
  ℕ, zero, suc, ◌+◌, ◌-◌, ◌*◌, ◌/◌, ◌%◌, ◌^◌, ◌≤◌, ◌<◌, ◌≡◌, refl, ◌∙◌, inl, inr, leb, ◌==◌,
  Bool-cases, [], ◌∷◌, ◌++◌, length, length-append, arith,
}
use check_tx_server.Abi.Bytes.{Bytes, zeros, big_bytes, bytes_before, value_after}
use check_tx_server.Abi.Pack.{pack_number, pack_big_int}

bytes_before-value :
    (fuel n : ℕ) (acc : Bytes)
    → n ≤ fuel
    → value_after 0 (bytes_before fuel n acc) ≡ value_after n acc
unfolding bytes_before
bytes_before-value zero n acc le = let is : n ≡ 0 = omega (arith, le) in rw is refl
bytes_before-value (suc fuel) n acc le = elim (Bool-cases (n == 0)) [
  | inl nil ↦ let is : n ≡ 0 = ground (arith, nil) in rw is refl
  | inr some_left ↦
      let rest = bytes_before-value fuel (n / 256) (n % 256 ∷ acc) (ground (arith, some_left)) in
      let same : n / 256 * 256 + n % 256 ≡ n = omega arith in rw some_left (rest ∙ rw same refl)
]

-- 256 ^ k
abbrev pub bound : ℕ → ℕ
bound zero = 1
bound (suc k) = 256 * bound k

bytes_before-length :
    (fuel n k : ℕ) (acc : Bytes) → n < bound k → length (bytes_before fuel n acc) ≤ k + length acc
unfolding bytes_before
bytes_before-length zero n k acc lt = omega arith
bytes_before-length (suc fuel) n zero acc lt =
    let is : n ≡ 0 = omega (arith, lt) in rw is (omega arith)
bytes_before-length (suc fuel) n (suc k) acc lt =
    let rest = bytes_before-length fuel (n / 256) k (n % 256 ∷ acc) (omega (arith, lt)) in
    ground (arith, rest)

pub length-zeros : (n : ℕ) → length (zeros n) ≡ n
length-zeros zero = refl
length-zeros (suc n) = omega (arith, length-zeros n)

pub value_after-zeros : (n : ℕ) (bs : Bytes) → value_after 0 (zeros n ++ bs) ≡ value_after 0 bs
value_after-zeros zero bs = refl
value_after-zeros (suc n) bs = value_after-zeros n bs

pub pack_number-value : (n : ℕ) → value_after 0 (pack_number n) ≡ n
unfolding pack_big_int big_bytes
pack_number-value n =
    let bs = bytes_before n n [] in
    let whole = bytes_before-value n n [] (omega arith) in
    elim (Bool-cases (leb 32 (length bs))) [
      | inl full ↦ rw full whole
      | inr short ↦ rw short (value_after-zeros (32 - length bs) bs ∙ whole)
    ]

pub pack_number-length : (n : ℕ) → n < 2 ^ 256 → length (pack_number n) ≡ 32
unfolding pack_big_int big_bytes
pack_number-length n lt =
    let bs = bytes_before n n [] in
    let fits = bytes_before-length n n 32 [] lt in
    elim (Bool-cases (leb 32 (length bs))) [
      | inl full ↦ rw full (ground (arith, full, fits))
      | inr short ↦ rw short (
          length-append (zeros (32 - length bs)) bs
          ∙ ground (arith, length-zeros (32 - length bs), fits, short))
    ]

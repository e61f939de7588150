-- ===== src/Eth/Build/Words.antt =====
-- The words of the call that pays, and what stands at their places.
use check_tx_server.Common.{
  ℕ, ◌+◌, ◌-◌, ◌*◌, ◌^◌, ◌<◌, ◌≤◌, ◌≡◌, refl, ◌∙◌, ◌⊎◌, ltb, ◌==◌, inl, inr, Bool, Bool-cases, true,
  false, not, ◌&&◌, some, String, List, [], ◌∷◌, length, All, arith, if◌then◌else◌,
}
use check_tx_server.Hex.{from_hex}
use check_tx_server.Abi.Bytes.{Bytes, drop, left_pad_bytes, value_after, get_big_int}
use check_tx_server.Abi.Pack.{Arg, at_end, pack_data}
use check_tx_server.Abi.Pack.Layout.{Sized, tails}
use check_tx_server.Abi.RoundTrip.{get_big_int-pack_data}
use check_tx_server.Abi.Call.{length-left_pad_bytes, length-drop, get_big_int-address}
use check_tx_server.Eth.{TokenConfig, bytes_to_address, hex_to_address, is_zero}
use check_tx_server.Eth.Build.Functions.{
  any_swap_in_func_hash, any_swap_in_underlying_func_hash, any_swap_in_native_func_hash,
  any_swap_in_auto_func_hash, get_swap_in_func_hash, hex_to_hash,
}
use check_tx_server.Eth.{Params}

length-cropped :
    (bs : Bytes) (k : ℕ)
    → length (if ltb k (length bs) then drop (length bs - k) bs else left_pad_bytes bs k) ≡ k
length-cropped bs k = elim (Bool-cases (ltb k (length bs))) [
  | inl long ↦ rw long (length-drop (length bs - k) bs ∙ ground (arith, long))
  | inr short ↦ rw short (length-left_pad_bytes bs k (ground (arith, short)))
]

pub length-hex_to_hash : (s : String) → length (hex_to_hash s) ≡ 32
unfolding hex_to_hash
length-hex_to_hash s = length-cropped (from_hex s) 32

pub length-hex_to_address : (s : String) → length (hex_to_address s) ≡ 20
unfolding hex_to_address bytes_to_address
length-hex_to_address s = length-cropped (from_hex s) 20

-- The words of a call that pays: its arguments are the swap's transaction, the token, the receiver, the
-- amount and the source's chain id.
abbrev pub payment : Bytes → Bytes → Bytes → ℕ → ℕ → List Arg
payment hash address receiver amount from_chain =
    Arg.hash hash
    ∷ Arg.address address
    ∷ Arg.address receiver
    ∷ Arg.big_int (some amount)
    ∷ Arg.big_int (some from_chain)
    ∷ []

either : (c : Bool) (x y : Bytes) → length x ≡ 4 → length y ≡ 4 → length (if c then x else y) ≡ 4
either true x y left right = left
either false x y left right = right

pub length-get_swap_in_func_hash :
    (p : Params) (c : TokenConfig) (u : Bool) → length (get_swap_in_func_hash p c u) ≡ 4
unfolding get_swap_in_func_hash any_swap_in_func_hash any_swap_in_underlying_func_hash
    any_swap_in_native_func_hash any_swap_in_auto_func_hash from_hex
length-get_swap_in_func_hash p c u = either u _ _ refl (
    either (c.contract_version == 10001) _ _ refl (
      either (c.contract_version == 10002) _ _ refl (
        either (c.contract_version == 10003) _ _ refl (
          either (c.contract_version == 10004) _ _ refl (
            either (c.contract_version == 0) _ _
              (either (is_zero (hex_to_address c.underlying)) _ _ refl refl)
              (either (is_zero (hex_to_address c.underlying) && not p.force_any_swap_in_auto) _ _
                refl refl))))))

module _ (hash address receiver : Bytes) (amount from_chain : ℕ) (h : length hash ≡ 32)
    (a : length address ≡ 20) (r : length receiver ≡ 20) where
  sizes : All Sized (payment hash address receiver amount from_chain)
  sizes = (h, (a, (r, (tt, (tt, tt)))))

  small : 5 * 32 + length (tails (payment hash address receiver amount from_chain)) < 2 ^ 63
  unfolding at_end
  small = omega arith

  pub third_of :
      get_big_int (pack_data (payment hash address receiver amount from_chain)) 64 32
      ≡ value_after 0 receiver
  third_of =
      get_big_int-address (Arg.hash hash ∷ Arg.address address ∷ [])
        (Arg.big_int (some amount) ∷ Arg.big_int (some from_chain) ∷ []) receiver sizes small

  pub fourth_of :
      (2 ^ 256 ≤ amount)
      ⊎ (get_big_int (pack_data (payment hash address receiver amount from_chain)) 96 32 ≡ amount)
  fourth_of = elim (Bool-cases (ltb amount (2 ^ 256))) [
    | inl fits ↦ inr (
        get_big_int-pack_data (Arg.hash hash ∷ Arg.address address ∷ Arg.address receiver ∷ [])
          (Arg.big_int (some from_chain) ∷ []) amount (ground (arith, fits)) sizes small)
    | inr wide ↦ inl (ground (arith, wide))
  ]

  pub fifth_of :
      from_chain < 2 ^ 256
      → get_big_int (pack_data (payment hash address receiver amount from_chain)) 128 32
        ≡ from_chain
  fifth_of fits =
      get_big_int-pack_data
        (Arg.hash hash
          ∷ Arg.address address
          ∷ Arg.address receiver
          ∷ Arg.big_int (some amount)
          ∷ [])
        [] from_chain fits sizes small

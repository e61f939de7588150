-- ===== src/Converts/Back.antt =====
-- What ConvertFromSwapInfo makes of what ConvertToSwapInfo stored.
use check_tx_server.Common.{
  ℕ, suc, Bool-cases, inl, inr, str_eq, eq_iff, if◌then◌else◌, ◌+◌, ◌*◌, ◌^◌, ◌<◌, String, ◌≡◌, ◌≢◌,
  refl, ap, sym, ◌∙◌, false, Option, none, some, List, [], ◌∷◌, map, All, length, arith,
}
use check_tx_server.Exec.{Result, ok, err}
use check_tx_server.Abi.Bytes.{Bytes}
use check_tx_server.Hex.{
  BigInt, pos, magnitude, to_text, encode, hex_digits, text_bytes, from_hex, parse_big_256,
}
use check_tx_server.Hex.RoundTrip.{IsByte, from_hex-encode, parse_big_256-to_text, from_hex-empty}
use check_tx_server.Tokens.Payload.{
  Erc20Info, NftInfo, AnyCallInfo, CurveAnyCallInfo, Info, no_info,
}
use check_tx_server.Converts.{
  amount_text, data_text, convert_to_swap_info, convert_from_swap_info, to_big_int_slice,
  from_first, from_erc20, from_nft, from_any_call, from_curve, by_first, to_nft, to_any_call,
  to_curve, to_erc20, plain_erc20, plain_info,
}

abbrev pub Fits : BigInt → Type 0
Fits x = magnitude x < 2 ^ 256

to_big_int_slice-map :
    (xs : List BigInt) → All Fits xs → to_big_int_slice (map to_text xs) ≡ some xs
unfolding to_big_int_slice
to_big_int_slice-map [] fit = refl
to_big_int_slice-map (x ∷ xs) (one, others) =
    rw (parse_big_256-to_text x one, to_big_int_slice) (rw (to_big_int_slice-map xs others) refl)

map-from_hex : (bss : List Bytes) → All (All IsByte) bss → map from_hex (map encode bss) ≡ bss
map-from_hex [] small = refl
map-from_hex (bs ∷ bss) (one, others) =
    rw (from_hex-encode bs one) (ap (λ x. bs ∷ x) (map-from_hex bss others))

abbrev pub or_zero : Option BigInt → BigInt
or_zero none = pos 0
or_zero (some x) = x

abbrev pub or_empty : Option Bytes → Bytes
or_empty none = []
or_empty (some bs) = bs

abbrev OptionFits : Option BigInt → Type 0
OptionFits none = Unit {0}
OptionFits (some x) = Fits x

abbrev OptionBytes : Option Bytes → Type 0
OptionBytes none = Unit {0}
OptionBytes (some bs) = All IsByte bs

amount-back : (o : Option BigInt) → OptionFits o → parse_big_256 (amount_text o) ≡ some (or_zero o)
unfolding parse_big_256
amount-back none fit = refl
amount-back (some x) fit = parse_big_256-to_text x fit

data-back : (o : Option Bytes) → OptionBytes o → from_hex (data_text o) ≡ or_empty o
data-back none small = from_hex-empty
data-back (some bs) small = from_hex-encode bs small

-- What is kept of a swap of an ERC20: a trade is told by its path, a call by its proxy.
abbrev pub kept_erc20 : Erc20Info → List String → Erc20Info
kept_erc20 e (p ∷ ps) = record e {
  path = p ∷ ps;
  amount_out_min = some (or_zero e.amount_out_min);
  call_proxy = "";
  call_data = none;
}
kept_erc20 e [] = record e {
  for_native = false;
  for_underlying = false;
  path = [];
  amount_out_min = none;
  call_data = if str_eq e.call_proxy "" then none else some (or_empty e.call_data);
}

erc20-back :
    (e : Erc20Info) (ps : List String)
    → OptionFits e.amount_out_min
    → OptionBytes e.call_data
    → from_erc20 (to_erc20 e ps) (to_erc20 e ps).path
      ≡ ok (record no_info { erc20 = some (kept_erc20 e ps) })
unfolding from_erc20 to_erc20 plain_erc20 plain_info
erc20-back e (p ∷ ps) fit small = rw (amount-back e.amount_out_min fit, from_erc20) refl
erc20-back e [] fit small = elim (Bool-cases (str_eq e.call_proxy "")) [
  | inl bare ↦ rw ((eq_iff e.call_proxy "").0 bare) refl
  | inr called ↦ rw called (rw (data-back e.call_data small) (rw called refl))
]

-- What is kept: the first part, and of the data of an NFT the bytes of its text.
kept_curve : Option CurveAnyCallInfo → Info
kept_curve c = record no_info { curve_any_call = c }

kept_any_call : Option AnyCallInfo → Option CurveAnyCallInfo → Info
unfolding kept_curve
kept_any_call none c = kept_curve c
kept_any_call (some a) c = record no_info { any_call = some a }

kept_nft : Option NftInfo → Option AnyCallInfo → Option CurveAnyCallInfo → Info
unfolding kept_any_call
kept_nft none a c = kept_any_call a c
kept_nft (some n) a c = record no_info {
  nft = some (record n { nft_data = text_bytes (encode n.nft_data) });
}

kept_first : Option Erc20Info → Option NftInfo → Option AnyCallInfo → Option CurveAnyCallInfo → Info
unfolding kept_nft
kept_first none n a c = kept_nft n a c
kept_first (some e) n a c = record no_info { erc20 = some (kept_erc20 e e.path) }

unfoldable pub kept : Info → Info
unfolding kept_first
kept info = kept_first info.erc20 info.nft info.any_call info.curve_any_call

-- The bytes are bytes, and the numbers have at most 256 bits.
abbrev Erc20Fits : Option Erc20Info → Type 0
Erc20Fits none = Unit {0}
Erc20Fits (some e) = OptionFits e.amount_out_min × OptionBytes e.call_data

abbrev NftFits : Option NftInfo → Type 0
NftFits none = Unit {0}
NftFits (some n) = All Fits n.ids × All Fits n.amounts

abbrev AnyCallFits : Option AnyCallInfo → Type 0
AnyCallFits none = Unit {0}
AnyCallFits (some a) = All (All IsByte) a.call_data × All Fits a.call_nonces

abbrev CurveFits : Option CurveAnyCallInfo → Type 0
CurveFits none = Unit {0}
CurveFits (some c) = All IsByte c.call_data

abbrev pub InfoFits : Info → Type 0
InfoFits info =
    Erc20Fits info.erc20
    × NftFits info.nft
    × AnyCallFits info.any_call
    × CurveFits info.curve_any_call

curve-back :
    (c : Option CurveAnyCallInfo)
    → CurveFits c
    → convert_from_swap_info (to_curve c) ≡ ok (kept_curve c)
unfolding convert_from_swap_info from_first from_nft from_any_call from_curve to_curve kept_curve
curve-back none fit = refl
curve-back (some c) fit = rw (from_hex-encode c.call_data fit) refl

any_call-back :
    (a : Option AnyCallInfo) (c : Option CurveAnyCallInfo)
    → AnyCallFits a
    → CurveFits c
    → convert_from_swap_info (to_any_call a c) ≡ ok (kept_any_call a c)
unfolding convert_from_swap_info from_first from_nft from_any_call to_any_call kept_any_call
any_call-back none c fit fit' = curve-back c fit'
any_call-back (some a) c (small, fit) fit' =
    rw
      (
        to_big_int_slice-map a.call_nonces fit,
        convert_from_swap_info,
        from_first,
        from_nft,
        from_any_call,
      )
      (rw (map-from_hex a.call_data small) refl)

nft-back :
    (n : Option NftInfo) (a : Option AnyCallInfo) (c : Option CurveAnyCallInfo)
    → NftFits n
    → AnyCallFits a
    → CurveFits c
    → convert_from_swap_info (to_nft n a c) ≡ ok (kept_nft n a c)
unfolding convert_from_swap_info from_first from_nft to_nft kept_nft
nft-back none a c fit fit' fit'' = any_call-back a c fit' fit''
nft-back (some n) a c (fit, fits) fit' fit'' =
    rw (to_big_int_slice-map n.ids fit, convert_from_swap_info, from_first, from_nft)
      (rw (to_big_int_slice-map n.amounts fits, convert_from_swap_info, from_first, from_nft) refl)

first-back :
    (e : Option Erc20Info) (n : Option NftInfo) (a : Option AnyCallInfo)
    (c : Option CurveAnyCallInfo)
    → Erc20Fits e
    → NftFits n
    → AnyCallFits a
    → CurveFits c
    → convert_from_swap_info (by_first e n a c) ≡ ok (kept_first e n a c)
unfolding convert_from_swap_info from_first by_first kept_first
first-back none n a c fit fit' fit'' fit''' = nft-back n a c fit' fit'' fit'''
first-back (some e) n a c (fit, small) fit' fit'' fit''' = erc20-back e e.path fit small

-- What ConvertToSwapInfo stored, ConvertFromSwapInfo reads back without an error: the first part that is
-- not nil. A trade of an ERC20 comes back with its path and amount, a call with its proxy and data, any
-- other with token and token id, each with a nil amount as 0 and nil data as empty; an NFT comes back
-- with the bytes of its data's text, and everything else of the part as it was. The bytes are bytes, and
-- the numbers have at most 256 bits.
pub convert_from_swap_info-convert_to_swap_info :
    (info : Info)
    → InfoFits info
    → convert_from_swap_info (convert_to_swap_info info) ≡ ok (kept info)
unfolding convert_to_swap_info kept
convert_from_swap_info-convert_to_swap_info info (fit, fit', fit'', fit''') =
    first-back info.erc20 info.nft info.any_call info.curve_any_call fit fit' fit'' fit'''

text_bytes-length : (bs : Bytes) → length (text_bytes (hex_digits bs)) ≡ length bs * 2
unfolding text_bytes hex_digits
text_bytes-length [] = refl
text_bytes-length (b ∷ bs) = omega (arith, text_bytes-length bs)

encoded-longer : (bs : Bytes) → length (text_bytes (encode bs)) ≡ 2 + length bs * 2
unfolding text_bytes encode
encoded-longer bs = omega (arith, text_bytes-length bs)

nft_of : Result Info → Option NftInfo
nft_of (ok info) = info.nft
nft_of (err e) = none

data_length : Option NftInfo → ℕ
data_length none = 0
data_length (some n) = suc (length n.nft_data)

kept_nft-differs :
    (e : Option Erc20Info) (n : NftInfo) (a : Option AnyCallInfo) (c : Option CurveAnyCallInfo)
    → (kept_first e (some n) a c).nft ≢ some n
unfolding kept_first kept_nft data_length
kept_nft-differs none n a c same = omega (arith, ap data_length same, encoded-longer n.nft_data)
kept_nft-differs (some e) n a c same = omega (arith, ap data_length same)

-- No information with a swap of an NFT comes back as it was, whatever the data of the swap are, where
-- the numbers have at most 256 bits.
pub nft-not_back :
    (info : Info) (n : NftInfo)
    → InfoFits info
    → info.nft ≡ some n
    → convert_from_swap_info (convert_to_swap_info info) ≢ ok info
unfolding kept nft_of
nft-not_back info n fits at same =
    kept_nft-differs info.erc20 n info.any_call info.curve_any_call
      (rw⁻¹ at (ap nft_of (sym (convert_from_swap_info-convert_to_swap_info info fits) ∙ same)))

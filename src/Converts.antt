-- ===== src/Converts.antt =====
-- mongodb/converts.go: what a verified swap carries, as the database keeps it and as the bridges take it.
pub mod Back
use check_tx_server.Common.{
  ℕ, String, Bool, false, not, Option, none, some, List, [], ◌∷◌, map, str_eq, concat,
  if◌then◌else◌,
}
use check_tx_server.Errors.{plain}
use check_tx_server.Exec.{Result, ok, err}
use check_tx_server.Tables.{
  Erc20SwapInfo, NftSwapInfo, AnyCallSwapInfo, CurveAnyCallSwapInfo, SwapInfo,
}
use check_tx_server.Abi.Bytes.{Bytes}
use check_tx_server.Tokens.Payload.{
  Erc20Info, NftInfo, AnyCallInfo, CurveAnyCallInfo, Info, no_info,
}
use check_tx_server.Hex.{BigInt, to_text, parse_big_256, encode, from_hex, text_bytes}

abbrev pub amount_text : Option BigInt → String
amount_text none = ""
amount_text (some x) = to_text x

abbrev pub data_text : Option Bytes → String
data_text none = ""
data_text (some bs) = encode bs

plain_erc20 : String → String → Erc20SwapInfo
plain_erc20 token token_id = record {
  token = token;
  token_id = token_id;
  for_native = false;
  for_underlying = false;
  path = [];
  amount_out_min = "";
  call_proxy = "";
  call_data = "";
}

to_erc20 : Erc20Info → List String → Erc20SwapInfo
unfolding plain_erc20
to_erc20 e (p ∷ ps) = record (plain_erc20 e.token e.token_id) {
  for_native = e.for_native;
  for_underlying = e.for_underlying;
  path = p ∷ ps;
  amount_out_min = amount_text e.amount_out_min;
}
to_erc20 e [] =
    if not (str_eq e.call_proxy "")
    then record (plain_erc20 e.token e.token_id) {
      call_proxy = e.call_proxy;
      call_data = data_text e.call_data;
    }
    else plain_erc20 e.token e.token_id

abbrev pub no_swap_info : SwapInfo
no_swap_info = record {
  erc20_swap_info = none;
  nft_swap_info = none;
  any_call_swap_info = none;
  curve_any_call_swap_info = none;
}

to_curve : Option CurveAnyCallInfo → SwapInfo
to_curve none = no_swap_info
to_curve (some a) = record no_swap_info {
  curve_any_call_swap_info = some (record {
    call_from = a.call_from;
    call_to = a.call_to;
    call_data = encode a.call_data;
    fallback = a.fallback;
  });
}

to_any_call : Option AnyCallInfo → Option CurveAnyCallInfo → SwapInfo
unfolding to_curve
to_any_call none c = to_curve c
to_any_call (some a) c = record no_swap_info {
  any_call_swap_info = some (record {
    call_from = a.call_from;
    call_to = a.call_to;
    call_data = map encode a.call_data;
    callbacks = a.callbacks;
    call_nonces = map to_text a.call_nonces;
  });
}

to_nft : Option NftInfo → Option AnyCallInfo → Option CurveAnyCallInfo → SwapInfo
unfolding to_any_call
to_nft none a c = to_any_call a c
to_nft (some n) a c = record no_swap_info {
  nft_swap_info = some (record {
    token = n.token;
    token_id = n.token_id;
    ids = map to_text n.ids;
    amounts = map to_text n.amounts;
    batch = n.batch;
    nft_data = encode n.nft_data;
  });
}

by_first :
    Option Erc20Info → Option NftInfo → Option AnyCallInfo → Option CurveAnyCallInfo → SwapInfo
unfolding to_nft to_erc20
by_first none n a c = to_nft n a c
by_first (some e) n a c = record no_swap_info { erc20_swap_info = some (to_erc20 e e.path) }

-- ConvertToSwapInfo: the first part that is not nil
unfoldable pub convert_to_swap_info : Info → SwapInfo
unfolding by_first
convert_to_swap_info info = by_first info.erc20 info.nft info.any_call info.curve_any_call

unfoldable pub to_big_int_slice : List String → Option (List BigInt)
to_big_int_slice [] = some []
to_big_int_slice (s ∷ ss) =
    let rest = to_big_int_slice ss in
    elim (parse_big_256 s) [
      | none ↦ none
      | some x ↦ elim rest [ none ↦ none | some xs ↦ some (x ∷ xs) ]
    ]

spaced : List String → List String
spaced [] = []
spaced (s ∷ ss) = " " ∷ s ∷ spaced ss

-- The verb %v at a []string
abbrev pub listed : List String → String
unfolding spaced
listed [] = "[]"
listed (s ∷ ss) = concat ("[" ∷ s ∷ concat (spaced ss) ∷ "]" ∷ [])

plain_info : String → String → Erc20Info
plain_info token token_id = record {
  token = token;
  token_id = token_id;
  for_native = false;
  for_underlying = false;
  path = [];
  amount_out_min = none;
  call_proxy = "";
  call_data = none;
}

from_erc20 : Erc20SwapInfo → List String → Result Info
unfolding plain_info
from_erc20 e (p ∷ ps) = elim (parse_big_256 e.amount_out_min) [
  | none ↦ err (plain (concat ("wrong amountOutMin " ∷ e.amount_out_min ∷ [])))
  | some x ↦ ok (record no_info {
    erc20 = some (record (plain_info e.token e.token_id) {
      for_native = e.for_native;
      for_underlying = e.for_underlying;
      path = p ∷ ps;
      amount_out_min = some x;
    });
  })
]
from_erc20 e [] = ok (record no_info {
  erc20 = some (
      if not (str_eq e.call_proxy "")
      then record (plain_info e.token e.token_id) {
        call_proxy = e.call_proxy;
        call_data = some (from_hex e.call_data);
      }
      else plain_info e.token e.token_id);
})

from_curve : Option CurveAnyCallSwapInfo → Result Info
from_curve none = ok no_info
from_curve (some a) = ok (record no_info {
  curve_any_call = some (record {
    call_from = a.call_from;
    call_to = a.call_to;
    call_data = from_hex a.call_data;
    fallback = a.fallback;
  });
})

from_any_call : Option AnyCallSwapInfo → Option CurveAnyCallSwapInfo → Result Info
unfolding from_curve
from_any_call none c = from_curve c
from_any_call (some a) c = elim (to_big_int_slice a.call_nonces) [
  | none ↦ err (plain (concat ("wrong nonces " ∷ listed a.call_nonces ∷ [])))
  | some nonces ↦ ok (record no_info {
    any_call = some (record {
      call_from = a.call_from;
      call_to = a.call_to;
      call_data = map from_hex a.call_data;
      callbacks = a.callbacks;
      call_nonces = nonces;
    });
  })
]

from_nft : Option NftSwapInfo → Option AnyCallSwapInfo → Option CurveAnyCallSwapInfo → Result Info
unfolding from_any_call
from_nft none a c = from_any_call a c
from_nft (some n) a c = elim (to_big_int_slice n.ids) [
  | none ↦ err (plain (concat ("wrong ids " ∷ listed n.ids ∷ [])))
  | some ids ↦ elim (to_big_int_slice n.amounts) [
    | none ↦ err (plain (concat ("wrong amounts " ∷ listed n.amounts ∷ [])))
    | some amounts ↦ ok (record no_info {
      nft = some (record {
        token = n.token;
        token_id = n.token_id;
        ids = ids;
        amounts = amounts;
        batch = n.batch;
        nft_data = text_bytes n.nft_data;
      });
    })
  ]
]

from_first :
    Option Erc20SwapInfo
    → Option NftSwapInfo
    → Option AnyCallSwapInfo
    → Option CurveAnyCallSwapInfo
    → Result Info
unfolding from_nft from_erc20
from_first none n a c = from_nft n a c
from_first (some e) n a c = from_erc20 e e.path

-- ConvertFromSwapInfo
unfoldable pub convert_from_swap_info : SwapInfo → Result Info
unfolding from_first
convert_from_swap_info s =
    from_first s.erc20_swap_info s.nft_swap_info s.any_call_swap_info s.curve_any_call_swap_info

-- ===== src/Tests/Converted.antt =====
-- Information of swaps stored and read back.
use check_tx_server.Common.{◌≡◌, ◌≢◌, refl, none, some, [], ◌∷◌, false, arith}
use check_tx_server.Exec.{ok}
use check_tx_server.Hex.{pos, negsuc}
use check_tx_server.Tokens.Payload.{Erc20Info, NftInfo, Info, no_info}
use check_tx_server.Converts.{convert_to_swap_info, convert_from_swap_info}
use check_tx_server.Converts.Back.{
  InfoFits, kept, convert_from_swap_info-convert_to_swap_info, nft-not_back,
}

abbrev trade : Erc20Info
trade = record {
  token = "0xtoken";
  token_id = "USDC";
  for_native = false;
  for_underlying = false;
  path = "0xa" ∷ "0xb" ∷ [];
  amount_out_min = some (pos 2050);
  call_proxy = "";
  call_data = none;
}

abbrev trade_info : Info
trade_info = record no_info { erc20 = some trade }

trade_info-Fits : InfoFits trade_info
trade_info-Fits = ((omega arith, tt), tt, tt, tt)

trade_back_example : convert_from_swap_info (convert_to_swap_info trade_info) ≡ ok (kept trade_info)
trade_back_example = convert_from_swap_info-convert_to_swap_info trade_info trade_info-Fits

kept_trade : kept trade_info ≡ trade_info
unfolding kept
kept_trade = refl

abbrev nft : NftInfo
nft = record {
  token = "0xnft";
  token_id = "";
  ids = pos 7 ∷ negsuc 2 ∷ [];
  amounts = pos 1 ∷ [];
  batch = false;
  nft_data = 1 ∷ 255 ∷ [];
}

abbrev nft_info : Info
nft_info = record no_info { nft = some nft }

nft_info-Fits : InfoFits nft_info
nft_info-Fits = (tt, ((omega arith, (omega arith, tt)), (omega arith, tt)), tt, tt)

nft-not_back_example : convert_from_swap_info (convert_to_swap_info nft_info) ≢ ok nft_info
nft-not_back_example = nft-not_back nft_info nft nft_info-Fits refl

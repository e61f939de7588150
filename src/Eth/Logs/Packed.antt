-- ===== src/Eth/Logs/Packed.antt =====
-- Reading the log of a swap whose data is packed the way PackData packs.
use check_tx_server.Common.{
  inl, ℕ, ◌+◌, ◌*◌, ◌/◌, ◌^◌, ◌<◌, ◌≡◌, refl, ◌∙◌, ltb, false, some, List, [], ◌∷◌, length,
  length-append, All, arith, if◌then◌else◌,
}
use check_tx_server.Abi.Bytes.{Bytes}
use check_tx_server.Abi.Pack.{Arg, at_end, pack_data, pack_bytes}
use check_tx_server.Abi.Pack.Layout.{tails, Sized}
use check_tx_server.Abi.RoundTrip.{
  length-pack_bytes, length-packed, parse_bytes_in_data-pack_data, get_big_int-pack_data,
}
use check_tx_server.Eth.{ChainBridge, Net, Verifying, is_use_from_chain_id_in_receipt_disabled}
use check_tx_server.Eth.Logs.{address_text, set_token_id, parse_swapout2}

-- What the event holds: the receiver's text, the amount, and the two chain ids
abbrev pub event : Bytes → ℕ → ℕ → ℕ → List Arg
event receiver value from_chain to_chain =
    Arg.text receiver
    ∷ Arg.big_int (some value)
    ∷ Arg.big_int (some from_chain)
    ∷ Arg.big_int (some to_chain)
    ∷ []

-- The swap with what the event says
abbrev pub read_from : Net → ChainBridge → Bytes → Bytes → Bytes → ℕ → ℕ → ℕ → Verifying → Verifying
read_from n b token sender receiver value from_chain to_chain w = record w {
  info = record (w.info) {
    from = address_text sender;
    bind = n.text_of receiver;
    value = some value;
    from_chain_id =
        if is_use_from_chain_id_in_receipt_disabled n.params b.chain_config.chain_id
        then b.chain_config.chain_number
        else from_chain;
    to_chain_id = to_chain;
  };
  erc20 = record (w.erc20) { token = address_text token };
}

module _ (receiver : Bytes) (value from_chain to_chain : ℕ) (short : length receiver < 2 ^ 62) where
  abbrev sizes : All Sized (event receiver value from_chain to_chain)
  sizes = (tt, (tt, (tt, (tt, tt))))

  length-tails :
      length (tails (event receiver value from_chain to_chain))
      ≡ 32 + (length receiver + 31) / 32 * 32
  unfolding at_end
  length-tails = length-append (pack_bytes receiver) [] ∙ omega (arith, length-pack_bytes receiver)

  small : 4 * 32 + length (tails (event receiver value from_chain to_chain)) < 2 ^ 63
  small = omega (arith, length-tails, short)

  long : ltb (length (pack_data (event receiver value from_chain to_chain))) 160 ≡ false
  long =
      let packed =
        length-packed []
          (Arg.big_int (some value)
            ∷ Arg.big_int (some from_chain)
            ∷ Arg.big_int (some to_chain)
            ∷ [])
          (Arg.text receiver) sizes small in
      ground (arith, packed, length-tails)

  -- From a log with the topics of a LogAnySwapOut2, and the data that PackData makes of the receiver, the
  -- amount and the chain ids, parseERC20Swapout2TxLog reads just these, where the receiver is shorter than
  -- 2^62 bytes and the numbers have at most 256 bits, and goes on to the token's configuration; the chain
  -- id of the source is that of the chain where the configuration says so.
  pub parse_swapout2-pack_data :
      (n : Net) (b : ChainBridge) (w : Verifying) (topic token sender : Bytes)
      → value < 2 ^ 256
      → from_chain < 2 ^ 256
      → to_chain < 2 ^ 256
      → parse_swapout2 n b
          (topic ∷ token ∷ sender ∷ [])
          (some (pack_data (event receiver value from_chain to_chain)))
          w
        ≡ set_token_id n b (read_from n b token sender receiver value from_chain to_chain w)
  unfolding parse_swapout2
  parse_swapout2-pack_data n b w topic token sender fits_value fits_from fits_to =
      let text = Arg.text receiver in
      let amount = Arg.big_int (some value) in
      let from = Arg.big_int (some from_chain) in
      let to = Arg.big_int (some to_chain) in
      let e0 =
        parse_bytes_in_data-pack_data [] (amount ∷ from ∷ to ∷ []) text receiver (inl refl) sizes
          small in
      let e1 = get_big_int-pack_data (text ∷ []) (from ∷ to ∷ []) value fits_value sizes small in
      let e2 =
        get_big_int-pack_data (text ∷ amount ∷ []) (to ∷ []) from_chain fits_from sizes small in
      let e3 = get_big_int-pack_data (text ∷ amount ∷ from ∷ []) [] to_chain fits_to sizes small in
      rw (long, e0, e1, e2, e3) refl

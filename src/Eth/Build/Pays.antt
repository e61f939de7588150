-- ===== src/Eth/Build/Pays.antt =====
-- Whom the transaction pays, and how much.
use check_tx_server.Common.{
  ℕ, ◌^◌, ◌<◌, ◌≤◌, ◌≡◌, refl, ap, subst, ◌⊎◌, Bool, true, false, not, ◌||◌, Option, none, some,
  String, [], ◌++◌, length, arith, str_eq, decimal, if◌then◌else◌,
}
use check_tx_server.Errors.{GoError}
use check_tx_server.Exec.{Result, ok, err}
use check_tx_server.Tokens.{BuildTxArgs}
use check_tx_server.Tokens.Payload.{Erc20Info}
use check_tx_server.Tokens.Value.{calc_swap_value}
use check_tx_server.Abi.Bytes.{Bytes, value_after, get_big_int}
use check_tx_server.Abi.Pack.{pack_data, pack_data_with_func_hash}
use check_tx_server.Abi.Call.{pack_data_with_func_hash-is}
use check_tx_server.Eth.{
  ChainBridge, TokenConfig, Net, hex_to_address, is_zero, get_token_config, get_router_contract,
  get_cached_multichain_token, get_bridge_by_chain_id,
}
use check_tx_server.Eth.Build.{
  amount_of, or_err, and_then, no_receiver, get_receiver_and_amount, with_input,
  build_erc20_swapout_tx_input, build_erc20_swap_tx_input, of_info, is_empty,
}
use check_tx_server.Eth.Build.Functions.{get_swap_in_func_hash, hex_to_hash, is_hex_address}
use check_tx_server.Eth.Build.Words.{
  payment, length-hex_to_hash, length-hex_to_address, length-get_swap_in_func_hash, third_of,
  fourth_of, fifth_of,
}

module _ (n : Net) (b : ChainBridge) where
  -- The transaction calls the router's contract of the token, with a function and words of which the
  -- third is the receiver, the fourth the amount and the fifth the chain id of the source.
  pub record Pays (args : BuildTxArgs) (e : Erc20Info) (receiver amount : ℕ) (built : BuildTxArgs)
      : Type 0 where
    pub function : Bytes
    pub call : Bytes
    pub four : length function ≡ 4
    pub input_is : built.input ≡ some (function ++ call)
    pub to_router :
        built.to
        ≡ get_router_contract b
            (get_cached_multichain_token n e.token_id (decimal args.to_chain_id))
    pub value_is : built.swap_value ≡ some amount
    pub kept_value : built.value ≡ args.value
    pub third : get_big_int call 64 32 ≡ receiver
    pub fourth : (2 ^ 256 ≤ amount) ⊎ (get_big_int call 96 32 ≡ amount)
    pub fifth : get_big_int call 128 32 ≡ args.from_chain_id

  and_then-ok :
      {A : Type 0} {B : Type 0} (r : Result A) (k : A → Result B) (x : B)
      → and_then n b r k ≡ ok x
      → (a : A) × (r ≡ ok a) × (k a ≡ ok x)
  and_then-ok (ok a) k x h = (a, refl, h)
  and_then-ok (err e) k x h = absurd (ground (arith, h))

  or_err-ok :
      {A : Type 0} {B : Type 0} (o : Option A) (e : GoError) (k : A → Result B) (x : B)
      → or_err n b o e k ≡ ok x
      → (a : A) × (o ≡ some a) × (k a ≡ ok x)
  or_err-ok none e k x h = absurd (ground (arith, h))
  or_err-ok (some a) e k x h = (a, refl, h)

  refused :
      {A : Type 0} (c : Bool) (e : GoError) (r : Result A) (x : A)
      → (if c then err e else r) ≡ ok x
      → (c ≡ false) × (r ≡ ok x)
  refused true e r x h = absurd (ground (arith, h))
  refused false e r x h = (refl, h)

  -- The receiver and the amount
  pub record Due (args : BuildTxArgs) (e : Erc20Info) (multichain_token : String) (value amount : ℕ)
      : Type 0 where
    pub from_bridge : ChainBridge
    pub from_cfg : TokenConfig
    pub to_cfg : TokenConfig
    pub some_receiver : is_zero (hex_to_address args.bind) || not (is_hex_address args.bind) ≡ false
    pub from_chain : get_bridge_by_chain_id n (decimal args.from_chain_id) ≡ some from_bridge
    pub from_token : get_token_config from_bridge e.token ≡ some from_cfg
    pub to_token : get_token_config b multichain_token ≡ some to_cfg
    pub amount_is :
        amount
        ≡ calc_swap_value n.settings e.token_id b.chain_config.chain_id value from_cfg.decimals
            to_cfg.decimals args.origin_from args.origin_tx_to

  get_receiver_and_amount-Due :
      (args : BuildTxArgs) (e : Erc20Info) (t : String) (value : ℕ) (p : Bytes × Option ℕ)
      → args.origin_value ≡ some value
      → get_receiver_and_amount n b args e t ≡ ok p
      → (amount : ℕ) × (p ≡ (hex_to_address args.bind, some amount)) × Due args e t value amount
  unfolding get_receiver_and_amount
  get_receiver_and_amount-Due args e t value p given h =
      let (receiver_ok, h1) =
        refused (is_zero (hex_to_address args.bind) || not (is_hex_address args.bind)) no_receiver _
          p h in
      let (from_bridge, e1, h2) =
        or_err-ok (get_bridge_by_chain_id n (decimal args.from_chain_id)) _ _ p h1 in
      let (from_cfg, e2, h3) = or_err-ok (get_token_config from_bridge e.token) _ _ p h2 in
      let (to_cfg, e3, h4) = or_err-ok (get_token_config b t) _ _ p h3 in
      let (amount, e4, h5) =
        and_then-ok (amount_of n b args e from_cfg to_cfg args.origin_value) _ p h4 in
      let value_of =
        calc_swap_value n.settings e.token_id b.chain_config.chain_id value from_cfg.decimals
          to_cfg.decimals args.origin_from args.origin_tx_to in
      let is : amount ≡ some value_of = ground (arith, rw given at e4) in
      (
        value_of,
        ground (arith, h5, is),
        record {
          from_bridge = from_bridge;
          from_cfg = from_cfg;
          to_cfg = to_cfg;
          some_receiver = receiver_ok;
          from_chain = e1;
          from_token = e2;
          to_token = e3;
          amount_is = refl;
        },
      )

  build_erc20_swapout_tx_input-Pays :
      (args : BuildTxArgs) (e : Erc20Info) (value : ℕ) (built : BuildTxArgs)
      → args.origin_value ≡ some value
      → args.from_chain_id < 2 ^ 256
      → build_erc20_swapout_tx_input n b args e
          (get_cached_multichain_token n e.token_id (decimal args.to_chain_id))
        ≡ ok built
      → (amount : ℕ) × Due args e
          (get_cached_multichain_token n e.token_id (decimal args.to_chain_id))
          value
          amount
        × Pays args e (value_after 0 (hex_to_address args.bind)) amount built
  unfolding build_erc20_swapout_tx_input
  build_erc20_swapout_tx_input-Pays args e value built given fits h =
      let t = get_cached_multichain_token n e.token_id (decimal args.to_chain_id) in
      let (p, e1, h1) = and_then-ok (get_receiver_and_amount n b args e t) _ built h in
      let (to_cfg, e2, h2) = or_err-ok (get_token_config b t) _ _ built h1 in
      let (amount, is, due) = get_receiver_and_amount-Due args e t value p given e1 in
      let function = get_swap_in_func_hash n.params to_cfg e.for_underlying in
      let four = length-get_swap_in_func_hash n.params to_cfg e.for_underlying in
      let hash = hex_to_hash args.swap_id in
      let hash_32 = length-hex_to_hash args.swap_id in
      let to_20 = length-hex_to_address t in
      let receiver = hex_to_address args.bind in
      let receiver_20 = length-hex_to_address args.bind in
      let words = payment hash (hex_to_address t) receiver amount args.from_chain_id in
      let same : with_input n b args t (some amount) (pack_data_with_func_hash function words)
          ≡ built =
        ground (arith, rw is at h2) in
      (
        amount,
        due,
        subst (λ x. Pays args e (value_after 0 receiver) amount x) same
            (record {
              function = function;
              call = pack_data words;
              four = four;
              input_is = ap some (pack_data_with_func_hash-is function words four);
              to_router = refl;
              value_is = refl;
              kept_value = refl;
              third =
                  third_of hash (hex_to_address t) receiver amount args.from_chain_id hash_32 to_20
                    receiver_20;
              fourth =
                  fourth_of hash (hex_to_address t) receiver amount args.from_chain_id hash_32 to_20
                    receiver_20;
              fifth =
                  fifth_of hash (hex_to_address t) receiver amount args.from_chain_id hash_32 to_20
                    receiver_20 fits;
            }),
      )

  skipped :
      {A : Type 0} (c : Bool) (r r' : Result A) (x : A)
      → c ≡ false
      → (if c then r else r') ≡ ok x
      → r' ≡ ok x
  skipped true r r' x off h = absurd (ground (arith, off))
  skipped false r r' x off h = h

  plain_swap :
      (unix : ℕ) (args : BuildTxArgs) (e : Erc20Info) (built : BuildTxArgs)
      → e.call_proxy ≡ ""
      → e.path ≡ []
      → of_info n b unix args (some e) ≡ ok built
      → build_erc20_swapout_tx_input n b args e
          (get_cached_multichain_token n e.token_id (decimal args.to_chain_id))
        ≡ ok built
  plain_swap unix args e built no_proxy no_path h =
      let (_, h1) = refused (str_eq e.token_id "") _ _ built h in
      let (_, h2) =
        refused (str_eq (get_cached_multichain_token n e.token_id (decimal args.to_chain_id)) "") _
          _ built h1 in
      skipped (not (is_empty n b e.path)) _ _ built (ap (λ l. not (is_empty n b l)) no_path)
        (skipped (not (str_eq e.call_proxy "")) _ _ built (ap (λ s. not (str_eq s "")) no_proxy) h2)

  -- Where buildERC20SwapTxInput returns for a swap without a call and without a path, the
  -- receiver's text is an address in hex other than 0, and the transaction calls the router of the
  -- token's counterpart with that address, the amount that CalcSwapValue gives for the value and
  -- the decimals of the two tokens, which is the swap value then, and the source's chain id, in the
  -- places that the contract's functions read, the amount where it has at most 256 bits. The chain
  -- id is supposed to have at most 256 bits.
  pub build_erc20_swap_tx_input-Pays :
      (unix : ℕ) (args : BuildTxArgs) (e : Erc20Info) (value : ℕ) (built : BuildTxArgs)
      → args.swap_info.erc20 ≡ some e
      → e.call_proxy ≡ ""
      → e.path ≡ []
      → args.origin_value ≡ some value
      → args.from_chain_id < 2 ^ 256
      → build_erc20_swap_tx_input n b unix args ≡ ok built
      → (amount : ℕ) × Due args e
          (get_cached_multichain_token n e.token_id (decimal args.to_chain_id))
          value
          amount
        × Pays args e (value_after 0 (hex_to_address args.bind)) amount built
  unfolding build_erc20_swap_tx_input
  build_erc20_swap_tx_input-Pays unix args e value built carried no_proxy no_path given fits h =
      build_erc20_swapout_tx_input-Pays args e value built given fits (
        plain_swap unix args e built no_proxy no_path
          (subst (λ (x : Option Erc20Info). of_info n b unix args x ≡ ok built) carried h))

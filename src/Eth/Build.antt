-- ===== src/Eth/Build.antt =====
-- The input of the transaction that pays out a swap of an ERC20 token (tokens/eth/builderc20swaptx.go).
pub mod Functions
pub mod Words
pub mod Pays
use Prim.Native.String.{String}
use check_tx_server.Common.{
  ℕ, zero, suc, ◌+◌, ◌-◌, ◌%◌, ltb, ◌==◌, Bool, true, false, not, ◌&&◌, ◌||◌, Option, none, some,
  List, [], ◌∷◌, length, map, str_eq, decimal, is_some, if◌then◌else◌,
}
use check_tx_server.Errors.{GoError, TokenError, token, panicked, plain}
use check_tx_server.Exec.{Result, ok, err}
use check_tx_server.Tokens.{BuildTxArgs, AllExtras, EthExtraArgs}
use check_tx_server.Tokens.Config.{SwapConfig}
use check_tx_server.Tokens.Payload.{Erc20Info}
use check_tx_server.Tokens.Value.{Settings, calc_swap_value, get_swap_config, is_erc20_router}
use check_tx_server.Abi.Bytes.{Bytes, drop, left_pad_bytes}
use check_tx_server.Abi.Pack.{Arg, pack_data_with_func_hash}
use check_tx_server.Hex.{
  BigInt, magnitude, from_hex, text_length, without_prefix, after_prefix, digit_value,
}
use check_tx_server.Eth.{
  ChainBridge, TokenConfig, Params, Net, hex_to_address, is_zero, get_token_config,
  get_router_contract, get_cached_multichain_token, get_bridge_by_chain_id,
}
use check_tx_server.Eth.Build.Functions.{
  any_swap_in_func_hash, any_swap_in_underlying_func_hash, any_swap_in_native_func_hash,
  any_swap_in_auto_func_hash, any_swap_in_exact_tokens_for_tokens_func_hash,
  any_swap_in_exact_tokens_for_native_func_hash, any_swap_in_and_exec_func_hash,
  any_swap_in_underlying_and_exec_func_hash, get_swap_in_func_hash, get_swap_in_and_exec_func_hash,
  hex_to_hash, is_hex, is_hex_address,
}

abbrev def_swap_deadline_offset : ℕ
def_swap_deadline_offset = 36000

-- CalcSwapValue at a nil value: it comes back, or panics.
abbrev pub unvalued : Option SwapConfig → Result (Option ℕ)
unvalued none = ok (some 0)
unvalued (some c) = if ltb 0 c.swap_fee_rate_per_million then err panicked else ok none

abbrev pub no_receiver : GoError
no_receiver = plain "can not swapout to empty or invalid receiver"

module _ (n : Net) (b : ChainBridge) where
  abbrev pub amount_of :
      BuildTxArgs → Erc20Info → TokenConfig → TokenConfig → Option ℕ → Result (Option ℕ)
  amount_of args e from_cfg to_cfg (some value) = ok (
      some (
        calc_swap_value n.settings e.token_id b.chain_config.chain_id value from_cfg.decimals
          to_cfg.decimals args.origin_from args.origin_tx_to))
  amount_of args e from_cfg to_cfg none =
      if not (is_erc20_router n.settings)
      then ok none
      else unvalued (get_swap_config n.settings e.token_id b.chain_config.chain_id)

  abbrev pub or_err : {A : Type 0} {B : Type 0} → Option A → GoError → (A → Result B) → Result B
  or_err none e k = err e
  or_err (some a) e k = k a

  abbrev pub and_then : {A : Type 0} {B : Type 0} → Result A → (A → Result B) → Result B
  and_then (err e) k = err e
  and_then (ok a) k = k a

  unfoldable pub get_receiver_and_amount :
      BuildTxArgs → Erc20Info → String → Result (Bytes × Option ℕ)
  get_receiver_and_amount args e multichain_token =
      let receiver = hex_to_address args.bind in
      if is_zero receiver || not (is_hex_address args.bind)
      then err no_receiver
      else or_err (get_bridge_by_chain_id n (decimal args.from_chain_id))
          (token TokenError.no_bridge_for_chain_id)
          (λ from_bridge.
            or_err (get_token_config from_bridge e.token) (token TokenError.miss_token_config)
              (λ from_cfg.
                or_err (get_token_config b multichain_token) (token TokenError.miss_token_config)
                  (λ to_cfg.
                    and_then (amount_of args e from_cfg to_cfg args.origin_value)
                      (λ amount. ok (receiver, amount)))))

  -- The input, the contract and the amount
  abbrev pub with_input : BuildTxArgs → String → Option ℕ → Bytes → BuildTxArgs
  with_input args multichain_token amount input = record args {
    input = some input;
    to = get_router_contract b multichain_token;
    swap_value = amount;
  }

  abbrev pub data_or_empty : Option Bytes → Bytes
  data_or_empty none = []
  data_or_empty (some bs) = bs

  unfoldable pub build_swap_and_exec_tx_input :
      BuildTxArgs → Erc20Info → String → Result BuildTxArgs
  build_swap_and_exec_tx_input args e multichain_token =
      and_then (get_receiver_and_amount args e multichain_token) (λ p.
        or_err (get_token_config b multichain_token) (token TokenError.miss_token_config) (λ to_cfg.
          ok (
            with_input args multichain_token p.1 (
              pack_data_with_func_hash (get_swap_in_and_exec_func_hash to_cfg) (
                Arg.hash (hex_to_hash args.swap_id)
                ∷ Arg.address (hex_to_address multichain_token)
                ∷ Arg.address p.0
                ∷ Arg.big_int p.1
                ∷ Arg.big_int (some args.from_chain_id)
                ∷ Arg.address (hex_to_address e.call_proxy)
                ∷ Arg.bytes (data_or_empty e.call_data)
                ∷ [])))))

  unfoldable pub build_erc20_swapout_tx_input :
      BuildTxArgs → Erc20Info → String → Result BuildTxArgs
  build_erc20_swapout_tx_input args e multichain_token =
      and_then (get_receiver_and_amount args e multichain_token) (λ p.
        or_err (get_token_config b multichain_token) (token TokenError.miss_token_config) (λ to_cfg.
          ok (
            with_input args multichain_token p.1 (
              pack_data_with_func_hash (get_swap_in_func_hash n.params to_cfg e.for_underlying) (
                Arg.hash (hex_to_hash args.swap_id)
                ∷ Arg.address (hex_to_address multichain_token)
                ∷ Arg.address p.0
                ∷ Arg.big_int p.1
                ∷ Arg.big_int (some args.from_chain_id)
                ∷ [])))))

  abbrev pub magnitude_of : Option BigInt → Option ℕ
  magnitude_of none = none
  magnitude_of (some x) = some (magnitude x)

  -- The deadline that the arguments hold, or a new one, which they hold from then on
  abbrev pub fresh_extra : Option AllExtras → ℕ → AllExtras
  fresh_extra none deadline = record {
    eth_extra = some (record {
      gas = none;
      gas_price = none;
      gas_tip_cap = none;
      gas_fee_cap = none;
      nonce = none;
      deadline = deadline;
    });
    replace_num = 0;
    sequence = none;
    fee = none;
  }
  fresh_extra (some x) deadline = record x {
    eth_extra = some (record {
      gas = none;
      gas_price = none;
      gas_tip_cap = none;
      gas_fee_cap = none;
      nonce = none;
      deadline = deadline;
    });
  }

  abbrev pub eth_extra_of : Option AllExtras → Option EthExtraArgs
  eth_extra_of none = none
  eth_extra_of (some x) = x.eth_extra

  abbrev pub with_deadline : ℕ → BuildTxArgs → Option EthExtraArgs → Option ℕ → ℕ × BuildTxArgs
  with_deadline unix args (some x) offset = (x.deadline, args)
  with_deadline unix args none none = (0, args)
  with_deadline unix args none (some offset) =
      let deadline = unix + (if offset == 0 then def_swap_deadline_offset else offset) in
      (deadline, record args { extra = some (fresh_extra args.extra deadline) })

  unfoldable pub calc_swap_deadline : ℕ → BuildTxArgs → ℕ × BuildTxArgs
  calc_swap_deadline unix args =
      with_deadline unix args (eth_extra_of args.extra) n.params.server_swap_deadline_offset

  unfoldable pub build_erc20_swap_trade_tx_input :
      ℕ → BuildTxArgs → Erc20Info → String → Result BuildTxArgs
  build_erc20_swap_trade_tx_input unix args e multichain_token =
      and_then (get_receiver_and_amount args e multichain_token) (λ p.
        let (deadline, args') = calc_swap_deadline unix args in
        ok (
          with_input args' multichain_token p.1 (
            pack_data_with_func_hash
              (if e.for_native
                then any_swap_in_exact_tokens_for_native_func_hash
                else any_swap_in_exact_tokens_for_tokens_func_hash)
              (Arg.hash (hex_to_hash args.swap_id)
                ∷ Arg.big_int p.1
                ∷ Arg.big_int (magnitude_of e.amount_out_min)
                ∷ Arg.address_slice (map hex_to_address e.path)
                ∷ Arg.address p.0
                ∷ Arg.integer deadline
                ∷ Arg.big_int (some args.from_chain_id)
                ∷ []))))

  abbrev pub is_empty : List String → Bool
  is_empty [] = true
  is_empty (p ∷ ps) = false

  abbrev pub of_info : ℕ → BuildTxArgs → Option Erc20Info → Result BuildTxArgs
  of_info unix args none = err (plain "build router swaptx without tokenID")
  of_info unix args (some e) =
      let multichain_token = get_cached_multichain_token n e.token_id (decimal args.to_chain_id) in
      if str_eq e.token_id ""
      then err (plain "build router swaptx without tokenID")
      else if str_eq multichain_token ""
      then err (token TokenError.miss_token_config)
      else if not (str_eq e.call_proxy "")
      then build_swap_and_exec_tx_input args e multichain_token
      else if not (is_empty e.path)
      then build_erc20_swap_trade_tx_input unix args e multichain_token
      else build_erc20_swapout_tx_input args e multichain_token

  unfoldable pub build_erc20_swap_tx_input : ℕ → BuildTxArgs → Result BuildTxArgs
  build_erc20_swap_tx_input unix args = of_info unix args args.swap_info.erc20

-- ===== src/Eth/Raw.antt =====
-- Building a transaction: BuildRawTransaction and buildTx of tokens/eth/buildtx.go, with GetRouterMPC of
-- router/types.go. What is written to the arguments before an error is left out.
pub mod Pays
use check_tx_server.Common.{
  ℕ, zero, suc, ◌+◌, ◌*◌, String, ltb, ◌==◌, Bool, true, false, not, ◌&&◌, Option, none, some, List,
  [], ◌∷◌, str_eq, equal_fold, decimal, concat, if◌then◌else◌,
}
use check_tx_server.Errors.{GoError, TokenError, token, panicked, plain}
use check_tx_server.Exec.{Result, ok, err, Exec, pure, fail, gets, attempt, lift, ◌>>=◌, ◌>>◌}
use check_tx_server.Tokens.{
  BuildTxArgs, AllExtras, EthExtraArgs, erc20_swap_type, nft_swap_type, any_call_swap_type,
}
use check_tx_server.Tokens.Payload.{get_token_id}
use check_tx_server.Abi.Bytes.{Bytes}
use check_tx_server.Db
use check_tx_server.Db.{Env}
use check_tx_server.NonceSetter.{Nonces, get_swap_nonce, adjust_nonce, allocate_nonce}
use check_tx_server.Eth.{
  ChainBridge, Net, SwapRouterInfo, hex_to_address, get_router_contract,
  get_cached_multichain_token, get_bridge_by_chain_id, get_router_info,
}
use check_tx_server.Eth.Build.{build_erc20_swap_tx_input, fresh_extra, eth_extra_of}
use check_tx_server.Eth.Defaults.{with_eth_extra, wei_or_zero, set_defaults}
use check_tx_server.Eth.Fees.{
  FeeParams, Calls, Building, call_tick, retrying, retries, get_gas_price, get_gas_tip_cap,
  get_gas_fee_cap, gas_limit_of, get_min_reserve_fee,
}

-- What a transaction pays for gas
pub data Fee : Type 0 where
  legacy : Option ℕ → Fee
  dynamic : Option ℕ → Option ℕ → Fee

-- types.NewTransaction and types.NewDynamicFeeTx, before the signature; the latter holds the signer's
-- chain id.
pub record RawTx : Type 0 where
  pub nonce : ℕ
  pub to : Bytes
  pub value : Option ℕ
  pub gas_limit : ℕ
  pub fee : Fee
  pub input : Bytes

unfoldable pub on_nonces : {A : Type 0} → Exec Nonces A → Exec Building A
on_nonces m s = let (r, t) = m s.nonces in (r, record s { nonces = t })

module _ (env : Env) (n : Net) (b : ChainBridge) (p : FeeParams) (calls : Calls) where
  -- GetRouterMPC, with GetTokenRouterInfo and GetTokenRouterContract
  abbrev mpc_of : Option SwapRouterInfo → Result String
  mpc_of none = err (token TokenError.miss_router_info)
  mpc_of (some r) = ok r.router_mpc

  abbrev token_router_contract : String → String → Option ChainBridge → Result String
  token_router_contract token_id chain_id none = err (token TokenError.no_bridge_for_chain_id)
  token_router_contract token_id chain_id (some dst) =
      let any_call = n.settings.router_swap_type == any_call_swap_type in
      let multichain_token = get_cached_multichain_token n token_id chain_id in
      let contract = get_router_contract dst (if any_call then "" else multichain_token) in
      if not any_call && str_eq multichain_token ""
      then err (token TokenError.miss_token_config)
      else if str_eq contract ""
      then err (token TokenError.miss_router_info)
      else ok contract

  unfoldable pub get_router_mpc : String → String → Result String
  get_router_mpc token_id chain_id =
      elim (token_router_contract token_id chain_id (get_bridge_by_chain_id n chain_id)) [
        | err e ↦ err e
        | ok contract ↦ mpc_of (get_router_info n contract)
      ]

  -- value + reserve + five times the fee for the gas; a nil price panics.
  abbrev gas_fee : EthExtraArgs → ℕ → Result ℕ
  gas_fee x gas = elim (if p.is_dynamic_fee_tx_enabled then x.gas_fee_cap else x.gas_price) [
    | none ↦ err panicked
    | some price ↦ ok (price * gas)
  ]

  abbrev balance_checked : String → ℕ → Exec Building (Unit {0})
  balance_checked sender need_value = do
    balance ← retrying (λ t. calls.get_balance t sender) retries
    if ltb balance need_value
        then fail (
            plain (
              concat
                ("not enough coin balance. " ∷ decimal balance ∷ " < " ∷ decimal need_value ∷ [])))
        else pure tt

  abbrev pub reserve_checked : BuildTxArgs → EthExtraArgs → ℕ → Exec Building (Unit {0})
  reserve_checked args x gas =
      if ltb 0 (get_min_reserve_fee p calls)
      then (do
        fee ← lift (gas_fee x gas)
        balance_checked args.from (wei_or_zero args.value + get_min_reserve_fee p calls + 5 * fee))
      else pure tt

  unfoldable pub get_account_nonce : BuildTxArgs → Exec Building ℕ
  unfolding on_nonces retrying allocate_nonce get_swap_nonce adjust_nonce
  get_account_nonce args =
      if p.is_parallel_swap_enabled
      then on_nonces (allocate_nonce env args)
      else if p.is_auto_swap_nonce_enabled
      then gets (λ s. get_swap_nonce args.from s.nonces)
      else do
        nonce ← retrying (λ t. calls.get_pool_nonce t args.from "pending") retries
        gets (λ s. adjust_nonce args.from nonce s.nonces)

  abbrev pub nonce_for : BuildTxArgs → Option ℕ → Exec Building ℕ
  nonce_for args none = get_account_nonce args
  nonce_for args (some nonce) = pure nonce

  -- The transaction, and the arguments with its nonce
  abbrev pub raw_tx : BuildTxArgs → EthExtraArgs → ℕ → Bytes → ℕ → RawTx
  raw_tx args x gas input nonce = record {
    nonce = nonce;
    to = hex_to_address args.to;
    value = args.value;
    gas_limit = gas;
    fee =
        if p.is_dynamic_fee_tx_enabled
        then dynamic x.gas_tip_cap x.gas_fee_cap
        else legacy x.gas_price;
    input = input;
  }

  abbrev pub with_extra_nonce : BuildTxArgs → EthExtraArgs → ℕ → BuildTxArgs
  with_extra_nonce args x nonce = record args {
    extra = some (with_eth_extra args.extra (record x { nonce = some nonce }));
  }

  -- A nil gas limit, input or nil extra arguments panic.
  abbrev pub gassed :
      BuildTxArgs → Bytes → EthExtraArgs → Option ℕ → Exec Building (RawTx × BuildTxArgs)
  gassed args input x none = fail panicked
  gassed args input x (some gas) = do
    reserve_checked args x gas
    nonce ← nonce_for args x.nonce
    pure (raw_tx args x gas input nonce, with_extra_nonce args x nonce)

  abbrev pub built_with :
      BuildTxArgs → Option Bytes → Option EthExtraArgs → Exec Building (RawTx × BuildTxArgs)
  built_with args none x = fail panicked
  built_with args (some input) none = fail panicked
  built_with args (some input) (some x) = gassed args input x x.gas

  unfoldable pub build_tx : BuildTxArgs → Exec Building (RawTx × BuildTxArgs)
  unfolding get_account_nonce get_min_reserve_fee retrying hex_to_address decimal
  build_tx args = built_with args args.input (eth_extra_of n b args.extra)

  module _
      (build_nft_swap_tx_input build_any_call_swap_tx_input : BuildTxArgs
        → Result BuildTxArgs) where
    -- The input, by the type of the swap
    abbrev pub input_built : ℕ → BuildTxArgs → Result BuildTxArgs
    input_built unix args =
        if args.swap_type == erc20_swap_type
        then build_erc20_swap_tx_input n b unix args
        else if args.swap_type == nft_swap_type
        then build_nft_swap_tx_input args
        else if args.swap_type == any_call_swap_type
        then build_any_call_swap_tx_input args
        else err (token TokenError.swap_type_not_supported)

    abbrev pub has_input : Option Bytes → Bool
    has_input none = false
    has_input (some bs) = true

    -- Once the arguments have passed the first checks
    unfoldable pub built_from : BuildTxArgs → Exec Building (RawTx × BuildTxArgs)
    unfolding on_nonces set_defaults build_tx
    built_from args = do
      unix ← on_nonces (λ s. let (r, d) = Db.now env s.db in (r, record s { db = d }))
      with_input ← lift (input_built unix args)
      filled ← set_defaults n b p calls with_input
      build_tx filled

    unfoldable pub build_raw_transaction : BuildTxArgs → Exec Building (RawTx × BuildTxArgs)
    unfolding built_from get_router_mpc get_token_id decimal equal_fold
    build_raw_transaction args =
        if not p.is_test_mode && not (str_eq (decimal args.to_chain_id) b.chain_config.chain_id)
        then fail (token TokenError.to_chain_id_mismatch)
        else if has_input args.input
        then fail (plain "forbid build raw swap tx with input data")
        else if str_eq args.from ""
        then fail (plain "forbid empty sender")
        else do
          mpc ← lift (get_router_mpc (get_token_id args.swap_info) b.chain_config.chain_id)
          if not (equal_fold args.from mpc)
              then fail (token TokenError.sender_mismatch)
              else built_from args

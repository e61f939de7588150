-- ===== src/Eth/Raw/Pays.antt =====
-- What a transaction that was built does.
use check_tx_server.Common.{
  ℕ, ◌^◌, ◌<◌, ◌≤◌, ◌≡◌, refl, ap, sym, ◌∙◌, ◌⊎◌, inl, inr, Bool, Bool-cases, true, false, not,
  ◌&&◌, Option, none, some, String, [], ◌++◌, length, arith, str_eq, eq_iff, equal_fold, decimal,
  ◌==◌, if◌then◌else◌,
}
use check_tx_server.Exec.{Result, ok, lift}
use check_tx_server.Exec.Inversion.{bind-ok, guard-ok, unless-ok}
use check_tx_server.Tokens.{BuildTxArgs, AllExtras, EthExtraArgs, erc20_swap_type}
use check_tx_server.Tokens.Payload.{Erc20Info, get_token_id}
use check_tx_server.Abi.Bytes.{Bytes, value_after, get_big_int}
use check_tx_server.Db
use check_tx_server.Db.{Env}
use check_tx_server.Eth.{
  ChainBridge, Net, hex_to_address, get_router_contract, get_cached_multichain_token,
}
use check_tx_server.Eth.Build.{build_erc20_swap_tx_input, eth_extra_of}
use check_tx_server.Eth.Build.Pays.{Due, build_erc20_swap_tx_input-Pays}
use check_tx_server.Eth.Fees.{FeeParams, Calls, Building}
use check_tx_server.Eth.Defaults.{
  extra_or_init, with_eth_extra, wei_or_zero, with_fees, with_gas, set_defaults,
}
use check_tx_server.Eth.Raw.{
  RawTx, on_nonces, get_router_mpc, reserve_checked, nonce_for, raw_tx, with_extra_nonce, gassed,
  built_with, build_tx, input_built, has_input, built_from, build_raw_transaction,
}

module _ (env : Env) (n : Net) (b : ChainBridge) (p : FeeParams) (calls : Calls) where
  taken :
      {A : Type 0} (c : Bool) (r r' : Result A) (x : A)
      → c ≡ true
      → (if c then r else r') ≡ ok x
      → r ≡ ok x
  taken true r r' x on h = h
  taken false r r' x on h = absurd (ground (arith, on))

  here_or :
      (test : Bool) (s : String)
      → not test && not (str_eq s b.chain_config.chain_id) ≡ false
      → (test ≡ true) ⊎ (s ≡ b.chain_config.chain_id)
  here_or true s h = inl refl
  here_or false s h = elim (Bool-cases (str_eq s b.chain_config.chain_id)) [
    | inl same ↦ inr ((eq_iff _ _).0 same)
    | inr other ↦ absurd (ground (arith, rw other at h))
  ]

  -- Only the value and the extra arguments are filled in.
  set_defaults-ok :
      (args r : BuildTxArgs) (s : Building)
      → (set_defaults n b p calls args s).0 ≡ ok r
      → (x : AllExtras) × (record args { value = some (wei_or_zero args.value); extra = some x }
          ≡ r)
  unfolding set_defaults
  set_defaults-ok args r s h =
      let valued = record args { value = some (wei_or_zero args.value) } in
      let (x, _, h1) =
        bind-ok _ (with_fees n b p calls valued (extra_or_init (eth_extra_of n b args.extra))) s r
          h in
      let (y, _, h2) = bind-ok _ (with_gas n b p calls valued x x.gas) _ r h1 in
      (with_eth_extra args.extra y, ground (arith, h2))

  -- The transaction is the one of the arguments.
  abbrev Made : BuildTxArgs → Bytes → RawTx → BuildTxArgs → Type 0
  Made args input tx built =
      (tx.input ≡ input)
      × (tx.to ≡ hex_to_address args.to)
      × (tx.value ≡ args.value)
      × (built.swap_value ≡ args.swap_value)

  gassed-ok :
      (args : BuildTxArgs) (input : Bytes) (x : EthExtraArgs) (o : Option ℕ) (s : Building)
      (tx : RawTx) (built : BuildTxArgs)
      → (gassed env n b p calls args input x o s).0 ≡ ok (tx, built)
      → Made args input tx built
  gassed-ok args input x none s tx built h = absurd (ground (arith, h))
  gassed-ok args input x (some gas) s tx built h =
      let (_, _, h1) = bind-ok _ (reserve_checked env n b p calls args x gas) s (tx, built) h in
      let (nonce, _, h2) = bind-ok _ (nonce_for env n b p calls args x.nonce) _ (tx, built) h1 in
      let made : raw_tx env n b p calls args x gas input nonce ≡ tx = ground (arith, h2) in
      let noted : with_extra_nonce env n b p calls args x nonce ≡ built = ground (arith, h2) in
      (
        ap (λ q. q.input) (sym made),
        ap (λ q. q.to) (sym made),
        ap (λ q. q.value) (sym made),
        ap (λ q. q.swap_value) (sym noted),
      )

  built_with-ok :
      (args : BuildTxArgs) (o : Option Bytes) (x : Option EthExtraArgs) (s : Building) (tx : RawTx)
      (built : BuildTxArgs)
      → (built_with env n b p calls args o x s).0 ≡ ok (tx, built)
      → (input : Bytes) × (o ≡ some input) × Made args input tx built
  built_with-ok args none x s tx built h = absurd (ground (arith, h))
  built_with-ok args (some input) none s tx built h = absurd (ground (arith, h))
  built_with-ok args (some input) (some x) s tx built h =
      (input, refl, gassed-ok args input x x.gas s tx built h)

  build_tx-ok :
      (args : BuildTxArgs) (s : Building) (tx : RawTx) (built : BuildTxArgs)
      → (build_tx env n b p calls args s).0 ≡ ok (tx, built)
      → (input : Bytes) × (args.input ≡ some input) × Made args input tx built
  unfolding build_tx
  build_tx-ok args s tx built h =
      built_with-ok args args.input (eth_extra_of n b args.extra) s tx built h

  module _ (nft any_call : BuildTxArgs → Result BuildTxArgs) where
    -- Of a transaction that pays out the amount for `value`, and is made from the arguments: it calls the
    -- router's contract on the bridge's chain, with a function and words of which the third is the
    -- receiver, the fourth the amount, and the fifth the chain id of the source.
    pub record Payout (args : BuildTxArgs) (e : Erc20Info) (value : ℕ) (tx : RawTx)
        (built : BuildTxArgs) : Type 0 where
      pub amount : ℕ
      pub mpc : String
      pub function : Bytes
      pub call : Bytes
      pub here : (p.is_test_mode ≡ true) ⊎ (decimal args.to_chain_id ≡ b.chain_config.chain_id)
      pub mpc_is :
          get_router_mpc env n b p calls (get_token_id args.swap_info) b.chain_config.chain_id
          ≡ ok mpc
      pub by_mpc : equal_fold args.from mpc ≡ true
      pub due :
          Due n b args e
            (get_cached_multichain_token n e.token_id (decimal args.to_chain_id))
            value
            amount
      pub noted : built.swap_value ≡ some amount
      pub to_router :
          tx.to
          ≡ hex_to_address (
              get_router_contract b
                (get_cached_multichain_token n e.token_id (decimal args.to_chain_id)))
      pub sent : tx.value ≡ some (wei_or_zero args.value)
      pub four : length function ≡ 4
      pub calls_with : tx.input ≡ function ++ call
      pub third : get_big_int call 64 32 ≡ value_after 0 (hex_to_address args.bind)
      pub fourth : (2 ^ 256 ≤ amount) ⊎ (get_big_int call 96 32 ≡ amount)
      pub fifth : get_big_int call 128 32 ≡ args.from_chain_id

    -- The input of the swap's type, and the defaults, and the transaction
    built_from-parts :
        (args : BuildTxArgs) (s : Building) (tx : RawTx) (built : BuildTxArgs)
        → args.swap_type ≡ erc20_swap_type
        → (built_from env n b p calls nft any_call args s).0 ≡ ok (tx, built)
        → (unix : ℕ) × (with_input : BuildTxArgs) × (input : Bytes) × (build_erc20_swap_tx_input n b
              unix args
            ≡ ok with_input)
          × (with_input.input ≡ some input)
          × (tx.input ≡ input)
          × (tx.to ≡ hex_to_address with_input.to)
          × (tx.value ≡ some (wei_or_zero with_input.value))
          × (built.swap_value ≡ with_input.swap_value)
    unfolding built_from
    built_from-parts args s tx built is h =
        let (unix, _, h1) =
          bind-ok _ (on_nonces (λ t. let (r, d) = Db.now env t.db in (r, record t { db = d }))) s
            (tx, built) h in
        let (w, e1, h2) =
          bind-ok _ (lift (input_built env n b p calls nft any_call unix args)) _ (tx, built) h1 in
        let (filled, e2, h3) = bind-ok _ (set_defaults n b p calls w) _ (tx, built) h2 in
        let (x, same) = set_defaults-ok w filled _ e2 in
        let (input, at, (i, t, v, sv)) = build_tx-ok filled _ tx built h3 in
        (
          unix,
          w,
          input,
          taken (args.swap_type == erc20_swap_type) _ _ w (ground (arith, is)) e1,
          ap (λ a. a.input) same ∙ at,
          i,
          t ∙ ap (λ a. hex_to_address a.to) (sym same),
          v ∙ ap (λ a. a.value) (sym same),
          sv ∙ ap (λ a. a.swap_value) (sym same),
        )

    -- The sender, the destination, and what is built from the arguments
    first_checks :
        (args : BuildTxArgs) (s : Building) (tx : RawTx) (built : BuildTxArgs)
        → (build_raw_transaction env n b p calls nft any_call args s).0 ≡ ok (tx, built)
        → ((p.is_test_mode ≡ true) ⊎ (decimal args.to_chain_id ≡ b.chain_config.chain_id))
          × (mpc : String) × (get_router_mpc env n b p calls
                (get_token_id args.swap_info)
                b.chain_config.chain_id
              ≡ ok mpc)
          × (equal_fold args.from mpc ≡ true)
          × ((built_from env n b p calls nft any_call args s).0 ≡ ok (tx, built))
    unfolding build_raw_transaction
    first_checks args s tx built h =
        let (here, h1) =
          unless-ok _ _ s (tx, built)
            (not p.is_test_mode && not (str_eq (decimal args.to_chain_id) b.chain_config.chain_id))
            h in
        let (_, h2) =
          unless-ok _ _ s (tx, built) (has_input env n b p calls nft any_call args.input) h1 in
        let (_, h3) = unless-ok _ _ s (tx, built) (str_eq args.from "") h2 in
        let (mpc, e, h4) =
          bind-ok _
            (lift (
              get_router_mpc env n b p calls (get_token_id args.swap_info) b.chain_config.chain_id))
            s (tx, built) h3 in
        let (by_mpc, h5) = guard-ok _ _ s (tx, built) (equal_fold args.from mpc) h4 in
        (here_or p.is_test_mode _ here, mpc, e, by_mpc, h5)

    -- A transaction of BuildRawTransaction for a swap of an ERC20 token without a call and without a path,
    -- whose value is not nil and whose source has a chain id of at most 256 bits, is for the bridge's chain,
    -- where it is no test, and the sender in its arguments is the MPC of the token's router there. It calls
    -- the router of the token's counterpart with the receiver, which is an address other than 0, the amount
    -- that CalcSwapValue gives for the value, where it has at most 256 bits, and the source's chain id.
    pub build_raw_transaction-Payout :
        (args : BuildTxArgs) (e : Erc20Info) (value : ℕ) (s : Building) (tx : RawTx)
        (built : BuildTxArgs)
        → args.swap_type ≡ erc20_swap_type
        → args.swap_info.erc20 ≡ some e
        → e.call_proxy ≡ ""
        → e.path ≡ []
        → args.origin_value ≡ some value
        → args.from_chain_id < 2 ^ 256
        → (build_raw_transaction env n b p calls nft any_call args s).0 ≡ ok (tx, built)
        → Payout args e value tx built
    build_raw_transaction-Payout args e value s tx built is carried no_proxy no_path given fits h =
        let (here, mpc, mpc_is, by_mpc, h1) = first_checks args s tx built h in
        let (unix, w, input, e1, at, i, t, v, sv) = built_from-parts args s tx built is h1 in
        let (amount, due, pays) =
          build_erc20_swap_tx_input-Pays n b unix args e value w carried no_proxy no_path given fits
            e1 in
        record {
          amount = amount;
          mpc = mpc;
          function = pays.function;
          call = pays.call;
          here = here;
          mpc_is = mpc_is;
          by_mpc = by_mpc;
          due = due;
          noted = sv ∙ pays.value_is;
          to_router = t ∙ ap hex_to_address pays.to_router;
          sent = v ∙ ap (λ x. some (wei_or_zero x)) pays.kept_value;
          four = pays.four;
          calls_with = i ∙ ground (arith, sym at ∙ pays.input_is);
          third = pays.third;
          fourth = pays.fourth;
          fifth = pays.fifth;
        }

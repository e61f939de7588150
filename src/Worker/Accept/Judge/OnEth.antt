-- ===== src/Worker/Accept/Judge/OnEth.antt =====
-- When the node agrees to pay out a swap of an ERC20 token that a chain of tokens/eth has announced.
use check_tx_server.Common.{
  ℕ, String, ◌≡◌, refl, ap, sym, subst, ◌∙◌, inl, inr, Bool, true, false, Option, none, some, List,
  [], ◌∷◌, length, equal_fold, decimal, arith,
}
use check_tx_server.Exec.{Result, ok, err}
use check_tx_server.Tokens.{SwapTxInfo, VerifyArgs, BuildTxArgs, erc20_swap_type}
use check_tx_server.Tokens.Payload.{Erc20Info, no_info}
use check_tx_server.Worker.{Bridge, get_bridge_by_chain_id}
use check_tx_server.Worker.Accept.{SignInfoData, Answer, Node, Acceptor}
use check_tx_server.Worker.Accept.Judge.{verify_args, process_accept_info}
use check_tx_server.Worker.Accept.Judge.Agrees.{Verified, Answered, process_accept_info-Answered}
use check_tx_server.Worker.Accept.Judge.Rebuilt.{Rebuilt}
use check_tx_server.Eth.{ChainBridge, Net}
use check_tx_server.Eth.Verify.{seen, verify_transaction}
use check_tx_server.Eth.Verify.Sound.{Sound, verify_erc20_swap_tx-Sound}

-- A bridge of tokens/eth, for swaps of ERC20 tokens
abbrev pub on_eth :
    Net → ChainBridge → (ℕ → String → ℕ → Bool → Result SwapTxInfo) → Bridge → Bridge
on_eth n b others bridge = record bridge {
  verify_transaction = verify_transaction n b others others;
}

module _ (n : Net) (b : ChainBridge) (others : ℕ → String → ℕ → Bool → Result SwapTxInfo) where
  seen-ok :
      (p : Result (Unit {0}) × SwapTxInfo) (swap : SwapTxInfo)
      → seen n b p ≡ ok swap
      → (p.0 ≡ ok tt) × (p.1 ≡ swap)
  seen-ok (ok tt, i) swap h = (refl, ground (arith, h))
  seen-ok (err e, i) swap h = absurd (ground (arith, h))

  pub verify_transaction-Sound :
      (ticks : ℕ) (tx_hash : String) (args : VerifyArgs) (swap : SwapTxInfo)
      → args.swap_type ≡ erc20_swap_type
      → verify_transaction n b others others ticks tx_hash args ≡ ok swap
      → (erc20 : Erc20Info) × (swap.swap_info ≡ record no_info { erc20 = some erc20 })
        × Sound n b ticks tx_hash args.log_index args.allow_unstable swap erc20
  unfolding verify_transaction
  verify_transaction-Sound ticks tx_hash args swap is h =
      let (passed, same) = seen-ok _ swap (rw is at h) in
      let (erc20, carried, sound) =
        verify_erc20_swap_tx-Sound n b ticks tx_hash args.log_index args.allow_unstable passed in
      (erc20, ap (λ (i : SwapTxInfo). i.swap_info) (sym same) ∙ carried, rw same at sound)

module _ (node : Node) where
  agreed-Verified :
      (info : SignInfoData) (rs : Option (List (String × ℕ))) (v w : Acceptor) (a : Answer)
      → Answered node info rs v w
      → w.answers ≡ a ∷ v.answers
      → a.agrees ≡ true
      → Verified node info rs
  agreed-Verified info rs v w a (inl none_given) given agrees =
      absurd (omega (arith, ap length (sym none_given ∙ given)))
  agreed-Verified info rs v w a (inr (a', given', key, hash, inl refuses)) given agrees =
      absurd (ground (arith, sym given' ∙ given, refuses, agrees))
  agreed-Verified info rs v w a (inr (a', given', key, hash, inr verified)) given agrees = verified

  -- The arguments that a request comes with
  abbrev pub first_context : List String → Option BuildTxArgs
  first_context [] = none
  first_context (text ∷ others) = node.unmarshal text

  -- Of the request that the node agrees to
  pub agreed-Rebuilt :
      (info : SignInfoData) (w : Acceptor) (a : Answer) (args : BuildTxArgs)
      → (process_accept_info node info w).1.answers ≡ a ∷ w.answers
      → a.agrees ≡ true
      → first_context info.msg_context ≡ some args
      → Rebuilt node info.key info.msg_hash args
  agreed-Rebuilt info w a args given agrees request =
      let v =
        agreed-Verified info w.records w (process_accept_info node info w).1 a
          (process_accept_info-Answered node info w) given agrees in
      let same : v.args ≡ args =
        ground (arith, sym v.decoded ∙ (sym (ap first_context v.context) ∙ request)) in
      subst (λ x. Rebuilt node info.key info.msg_hash x) same v.rebuilt

  module _ (n : Net) (b : ChainBridge) (others : ℕ → String → ℕ → Bool → Result SwapTxInfo)
      (bridge : Bridge) where
    pub Rebuilt-verified :
        (key : String) (hashes : List String) (args : BuildTxArgs)
        → get_bridge_by_chain_id node.setup (decimal args.from_chain_id)
          ≡ some (on_eth n b others bridge)
        → (r : Rebuilt node key hashes args)
        → verify_transaction n b others others r.time args.swap_id (verify_args node args)
          ≡ ok r.swap
    Rebuilt-verified key hashes args at r =
        let same : r.src ≡ on_eth n b others bridge = ground (arith, sym r.from_src ∙ at) in
        subst
          (λ (x : Bridge).
            x.verify_transaction r.time args.swap_id (verify_args node args) ≡ ok r.swap)
          same r.verified

    -- Where a processAcceptInfo agrees to a request for a swap of an ERC20 token, whose source chain has a
    -- bridge of tokens/eth, that chain's log at the index of the request is an event of a swap, and the
    -- receiver and the destination that it names, in the places of that event, are those of the request, the
    -- receiver up to letter case; the log and the swap pass the checks of verifyERC20SwapTx, and the swap is
    -- stable.
    pub process_accept_info-Sound :
        (info : SignInfoData) (w : Acceptor) (a : Answer) (args : BuildTxArgs)
        → (process_accept_info node info w).1.answers ≡ a ∷ w.answers
        → a.agrees ≡ true
        → first_context info.msg_context ≡ some args
        → args.swap_type ≡ erc20_swap_type
        → get_bridge_by_chain_id node.setup (decimal args.from_chain_id)
          ≡ some (on_eth n b others bridge)
        → (time : ℕ) × (swap : SwapTxInfo) × (erc20 : Erc20Info) × Sound n b time args.swap_id
            args.log_index false swap erc20
          × (equal_fold args.bind swap.bind ≡ true)
          × (args.to_chain_id ≡ swap.to_chain_id)
    process_accept_info-Sound info w a args given agrees request is at =
        let r = agreed-Rebuilt info w a args given agrees request in
        let (erc20, _, sound) =
          verify_transaction-Sound n b others r.time args.swap_id (verify_args node args) r.swap is
            (Rebuilt-verified info.key info.msg_hash args at r) in
        (r.time, r.swap, erc20, sound, r.same_bind, r.same_chain)

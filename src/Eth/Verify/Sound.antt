-- ===== src/Eth/Verify/Sound.antt =====
-- What is so of a swap that verifyERC20SwapTx lets pass.
use check_tx_server.Common.{
  ℕ, String, ◌≡◌, refl, sym, subst, ◌∙◌, Bool, Option, none, some, arith, to_lower,
}
use check_tx_server.Exec.{ok, lift, ◌>>=◌, ◌>>◌}
use check_tx_server.Exec.Inversion.{bind-ok, bind-is}
use check_tx_server.Tokens.{SwapTxInfo, erc20_swap_type}
use check_tx_server.Tokens.Payload.{Erc20Info, no_info}
use check_tx_server.Eth.{Log, TxReceipt, ChainBridge, Net, Verifying}
use check_tx_server.Eth.Receipt.{
  get_transaction_status, get_swap_tx_receipt, Passes, get_swap_tx_receipt-Passes,
}
use check_tx_server.Eth.Logs.{verify_erc20_swap_tx_log}
use check_tx_server.Eth.Received.{check_token_received}
use check_tx_server.Eth.Checks.{check_erc20_swap_info, assembled}
use check_tx_server.Eth.Verify.{get_elem?, log_at, unverified, verified_log, verify_erc20_swap_tx}
use check_tx_server.Eth.Verify.Named.{get_swap_tx_receipt-Named}
use check_tx_server.Eth.Verify.Parts.{Payable}
use check_tx_server.Eth.Verify.Entry.{Announced, checked_entry}

module _ (n : Net) (b : ChainBridge) where
  -- The swap is the one that was asked about: the transaction is on the chain, and the log is its log.
  pub record Sound (ticks : ℕ) (tx_hash : String) (log_index : ℕ) (allow_unstable : Bool)
      (info : SwapTxInfo) (erc20 : Erc20Info) : Type 0 where
    pub receipt : TxReceipt
    pub confirmations : ℕ
    pub entry : Log
    pub mined :
        (get_transaction_status n (to_lower tx_hash) (unverified ticks tx_hash log_index)).0
        ≡ ok (receipt, confirmations)
    pub passes : Passes n b allow_unstable receipt confirmations
    pub entry_at : get_elem? receipt.logs log_index ≡ some entry
    pub same_hash : info.hash ≡ to_lower tx_hash
    pub same_index : info.log_index ≡ log_index
    pub same_type : info.swap_type ≡ erc20_swap_type
    pub announced : Announced n b receipt entry info erc20

  log_at-ok : (o : Option Log) (l : Log) → log_at o ≡ ok l → o ≡ some l
  log_at-ok none l h = absurd (ground (arith, h))
  log_at-ok (some x) l h = ground (arith, h)

  Payable-assembled :
      (w : Verifying) → Payable n b w.info w.erc20 → Payable n b (assembled w) w.erc20
  Payable-assembled w p = record {
    from_cfg = p.from_cfg;
    to_cfg = p.to_cfg;
    dst = p.dst;
    from_here = p.from_here;
    configured = p.configured;
    reached = p.reached;
    counterpart = p.counterpart;
    worth = p.worth;
    receivable = p.receivable;
  }

  Announced-assembled :
      (receipt : TxReceipt) (l : Log) (w : Verifying)
      → Announced n b receipt l w.info w.erc20
      → Announced n b receipt l (assembled w) w.erc20
  Announced-assembled receipt l w a = record {
    said = a.said;
    kept = a.kept;
    own = a.own;
    received = a.received;
    called = a.called;
    payable = Payable-assembled w a.payable;
  }

  verified_log-Sound :
      (ticks : ℕ) (tx_hash : String) (log_index : ℕ) (allow_unstable : Bool)
      → (verified_log n b log_index allow_unstable (unverified ticks tx_hash log_index)).0 ≡ ok tt
      → let w =
          (verified_log n b log_index allow_unstable (unverified ticks tx_hash log_index)).1 in
        Sound ticks tx_hash log_index allow_unstable (assembled w) w.erc20
  unfolding verified_log
  verified_log-Sound ticks tx_hash log_index allow_unstable h =
      let w = unverified ticks tx_hash log_index in
      let get = get_swap_tx_receipt n b allow_unstable in
      let after = λ (r : TxReceipt) (l : Log).
        verify_erc20_swap_tx_log n b l
        >> (check_token_received n b r >> check_erc20_swap_info n b) in
      let from = λ (r : TxReceipt). lift (log_at (get_elem? r.logs log_index)) >>= after r in
      let (receipt, e1, h1) = bind-ok from get w tt h in
      let w1 = (get w).1 in
      let (l, e2, h2) =
        bind-ok (after receipt) (lift (log_at (get_elem? receipt.logs log_index))) w1 tt h1 in
      let v = (after receipt l w1).1 in
      let (c, mined, passes) = get_swap_tx_receipt-Passes n b allow_unstable w receipt e1 in
      let (announced, (hash, index, type)) = checked_entry n b receipt l w1 h2 in
      let (hash', index', type') = (get_swap_tx_receipt-Named n b allow_unstable).moves w in
      let facts : Sound ticks tx_hash log_index allow_unstable (assembled v) v.erc20 = record {
        receipt = receipt;
        confirmations = c;
        entry = l;
        mined = mined;
        passes = passes;
        entry_at = log_at-ok _ l e2;
        same_hash = hash ∙ hash';
        same_index = index ∙ index';
        same_type = type ∙ type';
        announced = Announced-assembled receipt l v announced;
      } in
      subst (λ p. Sound ticks tx_hash log_index allow_unstable (assembled p.1) p.1.erc20)
        (sym (
          bind-is from get w receipt e1
          ∙ bind-is (after receipt) (lift (log_at (get_elem? receipt.logs log_index))) w1 l e2))
        facts

  -- Where verifyERC20SwapTx returns no error, the transaction is on the chain with a receipt of status 1
  -- from a sender that is not the zero address, in a block from the initial height on, as old as the
  -- chain's confirmations where the swap has to be stable. The log at the index asked for is a log of the
  -- token's router and is not removed, and is one of the five events of a swap: token, sender, receiver,
  -- value and chain ids of the swap, and what it calls or trades where the event says so, are those that
  -- stand in the event's places, but the source's chain id is the bridge's own where its use in the receipt
  -- is disabled. Where the token is not the router itself, the receipt shows that the value, or four fifths
  -- of it, has come in, as far as this is checked for the token. The router was called by itself, or by a
  -- contract that may call it. The swap starts on this chain, the token and its counterpart on the
  -- destination are configured, the value is worth paying out, and the receiver is an address of the
  -- destination.
  pub verify_erc20_swap_tx-Sound :
      (ticks : ℕ) (tx_hash : String) (log_index : ℕ) (allow_unstable : Bool)
      → (verify_erc20_swap_tx n b ticks tx_hash log_index allow_unstable).0 ≡ ok tt
      → (erc20 : Erc20Info) × ((verify_erc20_swap_tx n b ticks tx_hash log_index
            allow_unstable).1.swap_info
          ≡ record no_info { erc20 = some erc20 })
        × Sound ticks tx_hash log_index allow_unstable
            (verify_erc20_swap_tx n b ticks tx_hash log_index allow_unstable).1
            erc20
  unfolding verify_erc20_swap_tx
  verify_erc20_swap_tx-Sound ticks tx_hash log_index allow_unstable h = (
    (verified_log n b log_index allow_unstable (unverified ticks tx_hash log_index)).1.erc20,
    refl,
    verified_log-Sound ticks tx_hash log_index allow_unstable h,
  )

-- ===== src/Eth/Verify/Entry.antt =====
-- The log, and what the checks after it have found of the swap.
use check_tx_server.Common.{
  List, [], ◌∷◌, refl, ◌≡◌, ap, sym, subst, ◌∙◌, ◌⊎◌, inl, inr, Bool-cases, true, false, arith,
  equal_fold,
}
use check_tx_server.Exec
use check_tx_server.Exec.{Result, ok, err, Exec, pure, fail, lift, ◌>>=◌, ◌>>◌}
use check_tx_server.Exec.Inversion.{bind-ok, bind-is}
use check_tx_server.Tokens.{SwapTxInfo}
use check_tx_server.Tokens.Payload.{Erc20Info}
use check_tx_server.Abi.Bytes.{Bytes}
use check_tx_server.Eth.{
  Log, TxReceipt, ChainBridge, Net, Verifying, hex_to_address, lower_hex, get_router_contract,
}
use check_tx_server.Eth.Logs.{
  first_topic, parse_by_topic, check_log_source, is_removed, verify_erc20_swap_tx_log,
}
use check_tx_server.Eth.Received.{check_token_received}
use check_tx_server.Eth.Received.Paid.{Received, check_token_received-Received}
use check_tx_server.Eth.Checks.{
  check_erc20_swap_info, check_call_by_contract, check_swap_with_permit, swap_checked,
}
use check_tx_server.Eth.Verify.Fixed.{
  check_log_source-Fixed, check_token_received-Fixed, check_call_by_contract-Fixed,
  check_swap_with_permit-Fixed, check_erc20_swap_info-Fixed,
}
use check_tx_server.Eth.Verify.Named.{named}
use check_tx_server.Eth.Logs.Says.{LogSays}
use check_tx_server.Eth.Verify.Said.Topics.{parse_by_topic-Says}
use check_tx_server.Eth.Verify.Named.Trade.{parse_by_topic-Named}
use check_tx_server.Eth.Verify.Parts.{
  check_log_source-ok, Payable, swap_checked-Payable, Caller, check_call_by_contract-Caller,
}

module _ (n : Net) (b : ChainBridge) where
  -- Of a log of the receipt, and of the swap that it announces
  pub record Announced (receipt : TxReceipt) (l : Log) (info : SwapTxInfo) (erc20 : Erc20Info)
      : Type 0 where
    pub said : LogSays n b l info erc20
    pub kept : is_removed n b l.removed ≡ false
    pub own : equal_fold (lower_hex l.address) (get_router_contract b erc20.token) ≡ true
    pub received :
        (equal_fold (lower_hex (hex_to_address erc20.token)) (get_router_contract b erc20.token)
          ≡ true)
        ⊎ Received n b receipt info erc20
    pub called : Caller n b info.tx_to erc20.token
    pub payable : Payable n b info erc20

  -- What is known of one state is known of another that holds the same swap.
  Announced-fixed :
      (receipt : TxReceipt) (l : Log) (v w : Verifying)
      → (w.info ≡ v.info) × (w.erc20 ≡ v.erc20)
      → Announced receipt l v.info v.erc20
      → Announced receipt l w.info w.erc20
  Announced-fixed receipt l v w (i, e) a =
      subst (λ x. Announced receipt l x w.erc20) (sym i)
        (subst (λ x. Announced receipt l v.info x) (sym e) a)

  -- The last two checks
  checked_swap :
      (w : Verifying)
      → (check_erc20_swap_info n b w).0 ≡ ok tt
      → Caller n b w.info.tx_to w.erc20.token × Payable n b w.info w.erc20
  unfolding check_erc20_swap_info
  checked_swap w h =
      let (_, e1, h1) =
        bind-ok (λ _. check_swap_with_permit n b >> swap_checked n b) (check_call_by_contract n b) w
          tt h in
      let w1 = (check_call_by_contract n b w).1 in
      let (_, e2, h2) = bind-ok (λ _. swap_checked n b) (check_swap_with_permit n b) w1 tt h1 in
      let w2 = (check_swap_with_permit n b w1).1 in
      let (i1, x1) = (check_call_by_contract-Fixed n b).moves w in
      let (i2, x2) = (check_swap_with_permit-Fixed n b).moves w1 in
      (
        check_call_by_contract-Caller n b w e1,
        subst (λ x. Payable n b x w.erc20) (i2 ∙ i1)
            (subst (λ x. Payable n b w2.info x) (x2 ∙ x1) (swap_checked-Payable n b w2 h2)),
      )

  -- Of the log itself, and of the swap `v` that was read from it
  abbrev Announcing : Log → Verifying → Verifying → Type 0
  Announcing l w v =
      LogSays n b l v.info v.erc20
      × (is_removed n b l.removed ≡ false)
      × (equal_fold (lower_hex l.address) (get_router_contract b v.erc20.token) ≡ true)
      × named.Moves w v

  LogSays-fixed :
      (l : Log) (v w : Verifying)
      → (w.info ≡ v.info) × (w.erc20 ≡ v.erc20)
      → LogSays n b l v.info v.erc20
      → LogSays n b l w.info w.erc20
  LogSays-fixed l v w (i, e) said =
      subst (λ x. LogSays n b l x w.erc20) (sym i)
        (subst (λ x. LogSays n b l v.info x) (sym e) said)

  parsed_log :
      (l : Log) (w : Verifying) (p : Result (Unit {0}) × Verifying)
      → named.Moves w p.1
      → (p.0 ≡ ok tt → LogSays n b l p.1.info p.1.erc20)
      → (Exec.proceed (λ _. check_log_source n b l) p).0 ≡ ok tt
      → Announcing l w (Exec.proceed (λ _. check_log_source n b l) p).1
  parsed_log l w (err e, v) moved said h = absurd (ground (arith, h))
  parsed_log l w (ok tt, v) (hash, index, type) said h =
      let (kept, own) = check_log_source-ok n b l v h in
      let (i, x) = (check_log_source-Fixed n b l).moves v in
      (
        LogSays-fixed l v (check_log_source n b l v).1 (i, x) (said refl),
        kept,
        subst (λ e. equal_fold (lower_hex l.address) (get_router_contract b e.token) ≡ true) (sym x)
            own,
        (
          ap (λ j. j.hash) i ∙ hash,
          ap (λ j. j.log_index) i ∙ index,
          ap (λ j. j.swap_type) i ∙ type,
        ),
      )

  first_topic-ok :
      (topics : List Bytes) (t0 : Bytes)
      → first_topic n b topics ≡ ok t0
      → (rest : List Bytes) × (topics ≡ t0 ∷ rest)
  first_topic-ok [] t0 h = absurd (ground (arith, h))
  first_topic-ok (t ∷ rest) t0 h = (rest, ap (λ x. x ∷ rest) (ground (arith, h)))

  read_log :
      (l : Log) (w : Verifying) (r : Result Bytes)
      → first_topic n b l.topics ≡ r
      → ((lift r >>= (λ t0. parse_by_topic n b l t0 >> check_log_source n b l)) w).0 ≡ ok tt
      → Announcing l w ((lift r >>= (λ t0. parse_by_topic n b l t0 >> check_log_source n b l)) w).1
  read_log l w (err e) first h = absurd (ground (arith, h))
  read_log l w (ok t0) first h =
      let (rest, topics) = first_topic-ok l.topics t0 first in
      parsed_log l w (parse_by_topic n b l t0 w) ((parse_by_topic-Named n b l t0).moves w)
        (λ returned. (t0, rest, topics, (parse_by_topic-Says n b l t0 w).ends returned)) h

  checked_log :
      (l : Log) (w : Verifying)
      → (verify_erc20_swap_tx_log n b l w).0 ≡ ok tt
      → Announcing l w (verify_erc20_swap_tx_log n b l w).1
  unfolding verify_erc20_swap_tx_log
  checked_log l w h =
      read_log l (record w { info = record (w.info) { to = lower_hex l.address } })
        (first_topic n b l.topics) refl h

  received_or :
      (receipt : TxReceipt) (w : Verifying)
      → (check_token_received n b receipt w).0 ≡ ok tt
      → (equal_fold (lower_hex (hex_to_address w.erc20.token)) (get_router_contract b w.erc20.token)
          ≡ true)
        ⊎ Received n b receipt w.info w.erc20
  received_or receipt w h =
      elim (Bool-cases (
        equal_fold (lower_hex (hex_to_address w.erc20.token))
          (get_router_contract b w.erc20.token))) [
            | inl same ↦ inl same
            | inr apart ↦ inr (check_token_received-Received n b receipt w apart h)
          ]

  -- All that follows the receipt
  pub checked_entry :
      (receipt : TxReceipt) (l : Log) (w : Verifying)
      → ((verify_erc20_swap_tx_log n b l
            >> (check_token_received n b receipt >> check_erc20_swap_info n b))
          w).0
        ≡ ok tt
      → let v =
          ((verify_erc20_swap_tx_log n b l
              >> (check_token_received n b receipt >> check_erc20_swap_info n b))
            w).1 in
        Announced receipt l v.info v.erc20 × named.Moves w v
  checked_entry receipt l w h =
      let log_of = verify_erc20_swap_tx_log n b l in
      let paid = check_token_received n b receipt in
      let rest = check_erc20_swap_info n b in
      let (_, e1, h1) = bind-ok (λ _. paid >> rest) log_of w tt h in
      let w1 = (log_of w).1 in
      let (_, e2, h2) = bind-ok (λ _. rest) paid w1 tt h1 in
      let w2 = (paid w1).1 in
      let w3 = (rest w2).1 in
      let (said, kept, own, (hash, index, type)) = checked_log l w e1 in
      let (called, payable) = checked_swap w2 h2 in
      let (i1, x1) = (check_token_received-Fixed n b receipt).moves w1 in
      let (i2, x2) = (check_erc20_swap_info-Fixed n b).moves w2 in
      let at_entry : Announced receipt l w1.info w1.erc20 = record {
        said = said;
        kept = kept;
        own = own;
        received = received_or receipt w1 e2;
        called =
            subst (λ x. Caller n b x.tx_to w1.erc20.token) i1
              (subst (λ x. Caller n b w2.info.tx_to x.token) x1 called);
        payable =
            subst (λ x. Payable n b x w1.erc20) i1 (subst (λ x. Payable n b w2.info x) x1 payable);
      } in
      let i = i2 ∙ i1 in
      subst (λ p. Announced receipt l p.1.info p.1.erc20 × named.Moves w p.1)
        (sym (bind-is (λ _. paid >> rest) log_of w tt e1 ∙ bind-is (λ _. rest) paid w1 tt e2))
        (
          Announced-fixed receipt l w1 w3 (i, x2 ∙ x1) at_entry,
          (
            ap (λ j. j.hash) i ∙ hash,
            ap (λ j. j.log_index) i ∙ index,
            ap (λ j. j.swap_type) i ∙ type,
          ),
        )

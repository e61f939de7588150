-- ===== src/Worker/Accept/Judge/Rebuilt.antt =====
-- The transaction that the node builds itself.
use check_tx_server.Common.{
  ℕ, String, ◌≡◌, refl, ◌==◌, ==_iff, inl, inr, true, equal_fold, decimal, Option, Option-cases,
  none, some, List, arith,
}
use check_tx_server.Errors.{GoError}
use check_tx_server.Exec.{ok, lift}
use check_tx_server.Exec.Inversion.{bind-ok, guard-ok}
use check_tx_server.Tokens.{BuildTxArgs, SwapTxInfo, is_valid_type}
use check_tx_server.Db.{Db}
use check_tx_server.Worker.{Bridge, get_bridge_by_chain_id}
use check_tx_server.Worker.Accept.{Node, Acceptor, tick, in_db}
use check_tx_server.Worker.Accept.Judge.{
  verify_args, rebuilt_args, get_bridges, or_fail, rebuild_from, rebuild_and_verify_msg_hash,
}

module _ (n : Node) where
  module _ (key_id : String) (msg_hash : List String) (args : BuildTxArgs) where
    -- The node has verified the swap on its source chain, and the message is the hash of the transaction
    -- that it builds from what the source chain says.
    pub record Rebuilt : Type 0 where
      pub src : Bridge
      pub dst : Bridge
      pub swap : SwapTxInfo
      pub time : ℕ
      pub before : Db
      pub raw_tx : String
      pub built : BuildTxArgs
      pub valid : is_valid_type args.swap_type ≡ true
      pub from_src : get_bridge_by_chain_id n.setup (decimal args.from_chain_id) ≡ some src
      pub to_dst : get_bridge_by_chain_id n.setup (decimal args.to_chain_id) ≡ some dst
      pub verified : src.verify_transaction time args.swap_id (verify_args n args) ≡ ok swap
      pub same_bind : equal_fold args.bind swap.bind ≡ true
      pub same_chain : args.to_chain_id ≡ swap.to_chain_id
      pub builds :
          (dst.build_raw_transaction (rebuilt_args n args swap) before).0 ≡ ok (raw_tx, built)
      pub hashes : dst.verify_msg_hash raw_tx msg_hash ≡ none

    get_bridges-ok :
        (src dst : Bridge)
        → get_bridges n args ≡ ok (src, dst)
        → (get_bridge_by_chain_id n.setup (decimal args.from_chain_id) ≡ some src)
          × (get_bridge_by_chain_id n.setup (decimal args.to_chain_id) ≡ some dst)
    get_bridges-ok src dst h =
        elim (Option-cases (get_bridge_by_chain_id n.setup (decimal args.from_chain_id))) [
          | inl e ↦ absurd (ground (arith, e, h))
          | inr (a, e) ↦
              elim (Option-cases (get_bridge_by_chain_id n.setup (decimal args.to_chain_id))) [
                | inl e' ↦ absurd (ground (arith, e, e', h))
                | inr (b, e') ↦ (ground (arith, e, e', h), ground (arith, e, e', h))
              ]
        ]

    or_fail-ok : (o : Option GoError) → or_fail n o ≡ ok tt → o ≡ none
    or_fail-ok none h = refl
    or_fail-ok (some e) h = absurd (ground (arith, h))

    rebuild_from-ok :
        (dst : Bridge) (info : SwapTxInfo) (w : Acceptor)
        → (rebuild_from n key_id msg_hash args dst info w).0 ≡ ok tt
        → (equal_fold args.bind info.bind ≡ true)
          × (args.to_chain_id ≡ info.to_chain_id)
          × (raw_tx : String) × (built : BuildTxArgs) × ((dst.build_raw_transaction
                (rebuilt_args n args info)
                w.db).0
              ≡ ok (raw_tx, built))
          × (dst.verify_msg_hash raw_tx msg_hash ≡ none)
    unfolding rebuild_from in_db
    rebuild_from-ok dst info w h =
        let (bind, h1) = guard-ok _ _ w tt (equal_fold args.bind info.bind) h in
        let (chain, h2) = guard-ok _ _ w tt (args.to_chain_id == info.to_chain_id) h1 in
        let ((raw_tx, built), e, h3) =
          bind-ok _ (in_db (dst.build_raw_transaction (rebuilt_args n args info))) w tt h2 in
        let (done, e', _) =
          bind-ok _ (lift (or_fail n (dst.verify_msg_hash raw_tx msg_hash))) _ tt h3 in
        (
          bind,
          (==_iff _ _).0 chain,
          raw_tx,
          built,
          e,
          or_fail-ok (dst.verify_msg_hash raw_tx msg_hash) e',
        )

    pub rebuild_and_verify_msg_hash-Rebuilt :
        (w : Acceptor) → (rebuild_and_verify_msg_hash n key_id msg_hash args w).0 ≡ ok tt → Rebuilt
    unfolding rebuild_and_verify_msg_hash
    rebuild_and_verify_msg_hash-Rebuilt w h =
        let (valid, h1) = guard-ok _ _ w tt (is_valid_type args.swap_type) h in
        let ((src, dst), e, h2) = bind-ok _ (lift (get_bridges n args)) w tt h1 in
        let (time, _, h3) = bind-ok _ tick w tt h2 in
        let (swap, verified, h4) =
          bind-ok _ (lift (src.verify_transaction time args.swap_id (verify_args n args))) _ tt
            h3 in
        let (bind, chain, raw_tx, built, builds, hashes) = rebuild_from-ok dst swap _ h4 in
        record {
          src = src;
          dst = dst;
          swap = swap;
          time = time;
          before = _;
          raw_tx = raw_tx;
          built = built;
          valid = valid;
          from_src = (get_bridges-ok src dst e).0;
          to_dst = (get_bridges-ok src dst e).1;
          verified = verified;
          same_bind = bind;
          same_chain = chain;
          builds = builds;
          hashes = hashes;
        }

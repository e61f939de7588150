-- ===== src/Worker/Accept/Judge/Quiet.antt =====
-- The verification gives no answer, and leaves the records.
use check_tx_server.Common.{
  ℕ, String, ◌≡◌, refl, ltb, ◌==◌, inl, inr, str_eq, equal_fold, Option, Option-cases, Bool-cases,
  none, some, List, [], ◌∷◌, not, if◌then◌else◌,
}
use check_tx_server.Exec.{Exec, pure, modify, lift}
use check_tx_server.Exec.Within.{Within, Within-pure, Within-if, Within-bind}
use check_tx_server.Tokens.{BuildTxArgs, SwapTxInfo, get_tx_nonce, is_valid_type}
use check_tx_server.Db.{Db}
use check_tx_server.Worker.{Bridge}
use check_tx_server.Worker.Accept.{SignInfoData, Saving, Node, Acceptor, tick, in_db}
use check_tx_server.Worker.Accept.Records.{check_accept_record}
use check_tx_server.Worker.Accept.Records.Clear.{quiet, Quiet-tick, check_accept_record-Quiet}
use check_tx_server.Worker.Accept.Judge.{
  verify_args, rebuilt_args, with_shared, noted, get_bridges, or_fail, rebuild_from,
  rebuild_and_verify_msg_hash, is_mpc_initiator, checked_args, with_context, verify_sign_info,
}

module _ (n : Node) where
  Quiet-in_db : {A : Type 0} (m : Exec Db A) → Within quiet (in_db m)
  unfolding in_db
  Quiet-in_db m = record { moves = λ s. (refl, refl) }

  noted-quiet :
      (args : BuildTxArgs) (s : Saving) (w : Acceptor) (rs : Option (List (String × ℕ)))
      → w.records ≡ rs
      → ((noted n args s w).answers ≡ w.answers) × ((noted n args s w).records ≡ w.records)
  noted-quiet args s w none e = rw e (refl, refl)
  noted-quiet args s w (some rs) e = elim (Bool-cases (ltb 0 (get_tx_nonce args))) [
    | inl given ↦ rw (e, noted) (rw given (refl, e))
    | inr not_given ↦ rw (e, noted) (rw not_given (refl, e))
  ]

  Quiet-noted : (args : BuildTxArgs) (s : Saving) → Within quiet (modify (noted n args s))
  Quiet-noted args s = record { moves = λ w. noted-quiet args s w w.records refl }

  rebuild_from-Quiet :
      (key_id : String) (msg_hash : List String) (args : BuildTxArgs) (dst : Bridge)
      (swap : SwapTxInfo)
      → Within quiet (rebuild_from n key_id msg_hash args dst swap)
  unfolding rebuild_from
  rebuild_from-Quiet key_id msg_hash args dst swap =
      Within-if quiet (not (equal_fold args.bind swap.bind)) _ _ (λ _. Within-pure quiet _)
        (λ _.
          Within-if quiet (not (args.to_chain_id == swap.to_chain_id)) _ _
            (λ _. Within-pure quiet _)
            (λ _.
              Within-bind quiet _ (in_db (dst.build_raw_transaction (rebuilt_args n args swap)))
                (Quiet-in_db _)
                (λ (raw_tx, built).
                  Within-bind quiet _ (lift (or_fail n (dst.verify_msg_hash raw_tx msg_hash)))
                    (Within-pure quiet _)
                    (λ _.
                      Quiet-noted (with_shared n args built) (record {
                        bridge = dst;
                        key_id = key_id;
                        args = built;
                        raw_tx = raw_tx;
                      })))))

  rebuild-Quiet :
      (key_id : String) (msg_hash : List String) (args : BuildTxArgs)
      → Within quiet (rebuild_and_verify_msg_hash n key_id msg_hash args)
  unfolding rebuild_and_verify_msg_hash
  rebuild-Quiet key_id msg_hash args =
      Within-if quiet (not (is_valid_type args.swap_type)) _ _ (λ _. Within-pure quiet _)
        (λ _. Within-bind quiet _ (lift (get_bridges n args)) (Within-pure quiet _) (λ (src, dst).
          Within-bind quiet _ tick Quiet-tick (λ t.
            Within-bind quiet _ (lift (src.verify_transaction t args.swap_id (verify_args n args)))
              (Within-pure quiet _) (λ swap. rebuild_from-Quiet key_id msg_hash args dst swap))))

  checked_args-Quiet :
      (info : SignInfoData) (args : BuildTxArgs) → Within quiet (checked_args n info args)
  unfolding checked_args
  checked_args-Quiet info args =
      Within-if quiet (not (str_eq args.identifier n.setup.identifier)) _ _
        (λ _. Within-pure quiet _)
        (λ _.
          Within-if quiet (not (is_mpc_initiator n info.account)) _ _ (λ _. Within-pure quiet _)
            (λ _.
              Within-bind quiet _
                (if ltb 0 (get_tx_nonce args) then check_accept_record n args else pure tt)
                (Within-if quiet (ltb 0 (get_tx_nonce args)) _ _
                  (λ _. check_accept_record-Quiet n args) (λ _. Within-pure quiet _))
                (λ _. rebuild-Quiet info.key info.msg_hash args)))

  with_context-Quiet :
      (info : SignInfoData) (texts : List String) → Within quiet (with_context n info texts)
  unfolding with_context
  with_context-Quiet info [] = Within-pure quiet _
  with_context-Quiet info (text ∷ others) = elim (Option-cases (n.unmarshal text)) [
    | inl e ↦ rw (e, with_context) (Within-pure quiet _)
    | inr (args, e) ↦ rw (e, with_context) (checked_args-Quiet info args)
  ]

  pub verify_sign_info-Quiet : (info : SignInfoData) → Within quiet (verify_sign_info n info)
  unfolding verify_sign_info
  verify_sign_info-Quiet info = with_context-Quiet info info.msg_context

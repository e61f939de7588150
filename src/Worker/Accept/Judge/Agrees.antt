-- ===== src/Worker/Accept/Judge/Agrees.antt =====
-- When the node agrees to a signature.
use check_tx_server.Common.{
  ℕ, String, ◌≡◌, refl, ap, ◌∙◌, ◌⊎◌, ltb, inl, inr, true, false, any, str_eq, eq_iff, Option,
  Option-cases, Bool-cases, none, some, List, [], ◌∷◌, arith, if◌then◌else◌,
}
use check_tx_server.Errors.{GoError, is_panic}
use check_tx_server.Exec.{Result, ok, err, Exec, pure, modify}
use check_tx_server.Exec.Inversion.{bind-ok, guard-ok}
use check_tx_server.Tokens.{BuildTxArgs, get_tx_nonce}
use check_tx_server.Worker.Accept.{SignInfoData, Answer, Node, Acceptor, tick}
use check_tx_server.Worker.Accept.Records.{check_accept_record}
use check_tx_server.Worker.Accept.Records.Clear.{AllClear, check_accept_record-AllClear}
use check_tx_server.Worker.Accept.Judge.{
  rebuild_and_verify_msg_hash, is_mpc_initiator, checked_args, with_context, verify_sign_info,
  agreement, reply, by_fate, judged, process_accept_info, Fate, fate, discard, ignore, answer,
  disagreement, cached, uncached,
}
use check_tx_server.Worker.Accept.Judge.Quiet.{verify_sign_info-Quiet}
use check_tx_server.Worker.Accept.Judge.Rebuilt.{Rebuilt, rebuild_and_verify_msg_hash-Rebuilt}

module _ (n : Node) where
  -- The message of a request holds arguments with this node's identifier, the request comes from one of
  -- the initiators, the records of the swap are clear, where the transaction has a nonce, and the node
  -- builds the same transaction.
  pub record Verified (info : SignInfoData) (rs : Option (List (String × ℕ))) : Type 0 where
    pub text : String
    pub others : List String
    pub args : BuildTxArgs
    pub context : info.msg_context ≡ text ∷ others
    pub decoded : n.unmarshal text ≡ some args
    pub identified : args.identifier ≡ n.setup.identifier
    pub initiated : is_mpc_initiator n info.account ≡ true
    pub clear : (get_tx_nonce args ≡ 0) ⊎ AllClear n args rs
    pub rebuilt : Rebuilt n info.key info.msg_hash args

  unless_recorded-clear :
      (args : BuildTxArgs) (w : Acceptor)
      → ((if ltb 0 (get_tx_nonce args) then check_accept_record n args else pure tt) w).0 ≡ ok tt
      → (get_tx_nonce args ≡ 0) ⊎ AllClear n args w.records
  unless_recorded-clear args w h = elim (Bool-cases (ltb 0 (get_tx_nonce args))) [
    | inl given ↦ inr (check_accept_record-AllClear n args w (rw given at h))
    | inr without_nonce ↦ inl (ground (arith, without_nonce))
  ]

  checked_args-ok :
      (info : SignInfoData) (args : BuildTxArgs) (w : Acceptor)
      → (checked_args n info args w).0 ≡ ok tt
      → (args.identifier ≡ n.setup.identifier)
        × (is_mpc_initiator n info.account ≡ true)
        × ((get_tx_nonce args ≡ 0) ⊎ AllClear n args w.records)
        × Rebuilt n info.key info.msg_hash args
  unfolding checked_args
  checked_args-ok info args w h =
      let (same, h1) = guard-ok _ _ w tt (str_eq args.identifier n.setup.identifier) h in
      let (initiated, h2) = guard-ok _ _ w tt (is_mpc_initiator n info.account) h1 in
      let check = if ltb 0 (get_tx_nonce args) then check_accept_record n args else pure tt in
      let (_, e, h3) =
        bind-ok (λ _. rebuild_and_verify_msg_hash n info.key info.msg_hash args) check w tt h2 in
      (
        (eq_iff _ _).0 same,
        initiated,
        unless_recorded-clear args w e,
        rebuild_and_verify_msg_hash-Rebuilt n info.key info.msg_hash args _ h3,
      )

  with_context-ok :
      (info : SignInfoData) (texts : List String) (w : Acceptor)
      → info.msg_context ≡ texts
      → (with_context n info texts w).0 ≡ ok tt
      → Verified info w.records
  unfolding with_context
  with_context-ok info [] w at h = absurd (ground (arith, h))
  with_context-ok info (text ∷ others) w at h = elim (Option-cases (n.unmarshal text)) [
    | inl e ↦ absurd (ground (arith, e, h))
    | inr (args, e) ↦
        let (identified, initiated, clear, rebuilt) =
          checked_args-ok info args w (rw (e, with_context) at h) in
        record {
          text = text;
          others = others;
          args = args;
          context = at;
          decoded = e;
          identified = identified;
          initiated = initiated;
          clear = clear;
          rebuilt = rebuilt;
        }
  ]

  verify_sign_info-Verified :
      (info : SignInfoData) (w : Acceptor)
      → (verify_sign_info n info w).0 ≡ ok tt
      → Verified info w.records
  unfolding verify_sign_info
  verify_sign_info-Verified info w h = with_context-ok info info.msg_context w refl h

  -- What a call does to the answers
  abbrev pub Answered : SignInfoData → Option (List (String × ℕ)) → Acceptor → Acceptor → Type 0
  Answered info rs v w =
      (w.answers ≡ v.answers)
      ⊎ ((a : Answer) × (w.answers ≡ a ∷ v.answers)
          × (a.key_id ≡ info.key)
          × (a.msg_hash ≡ info.msg_hash)
          × ((a.agrees ≡ false) ⊎ Verified info rs))

  reply_end :
      (info : SignInfoData) (o : Option GoError) (w : Acceptor)
      → ((elim o as (λ _. Exec Acceptor (Unit {0})) [
        | none ↦ pure tt
        | some e ↦ modify (uncached n info.key)
      ])
          w).1.answers
        ≡ w.answers
  reply_end info none w = refl
  reply_end info (some e) w = refl

  reply-answers :
      (info : SignInfoData) (a : Answer) (w : Acceptor)
      → (reply n info a w).1.answers ≡ a ∷ w.answers
  unfolding reply tick
  reply-answers info a w = reply_end info (n.do_accept_sign w.db.ticks a) _

  by_fate-Answered :
      (info : SignInfoData) (e : GoError) (f : Fate) (rs : Option (List (String × ℕ)))
      (w : Acceptor)
      → Answered info rs w (by_fate n info e f w).1
  unfolding by_fate disagreement
  by_fate-Answered info e discard rs w = inl refl
  by_fate-Answered info e ignore rs w = inl refl
  by_fate-Answered info e answer rs w =
      inr
        (disagreement n info e, reply-answers info (disagreement n info e) w, refl, refl, inl refl)

  judged-Answered :
      (info : SignInfoData) (r : Result (Unit {0})) (rs : Option (List (String × ℕ))) (w : Acceptor)
      → (r ≡ ok tt → Verified info rs)
      → Answered info rs w (judged n info r w).1
  unfolding judged
  judged-Answered info (ok tt) rs w verified =
      inr
        (agreement n info, reply-answers info (agreement n info) w, refl, refl, inr (verified refl))
  judged-Answered info (err e) rs w verified = elim (Bool-cases (is_panic e)) [
    | inl ends ↦ rw ends (inl refl)
    | inr goes_on ↦ rw goes_on (by_fate-Answered info e (fate n e) rs w)
  ]

  Answered-from :
      (info : SignInfoData) (rs : Option (List (String × ℕ))) (v w x : Acceptor)
      → v.answers ≡ w.answers
      → Answered info rs v x
      → Answered info rs w x
  Answered-from info rs v w x same (inl none_given) = inl (none_given ∙ same)
  Answered-from info rs v w x same (inr (a, given, key, hash, judged)) =
      inr (a, given ∙ ap (λ l. a ∷ l) same, key, hash, judged)

  -- A processAcceptInfo gives one answer at most, for the key and the hashes of the request; it agrees
  -- only if the message holds arguments with this node's identifier, the request comes from one of the
  -- initiators, the source chain's bridge confirms the swap for the same receiver and destination, the
  -- destination's bridge builds from what the source chain says a transaction with these hashes, and,
  -- where the transaction has a nonce and the database is open, every transaction recorded for the swap
  -- is on the chain as one that failed, in the pool as one that may be replaced, or found nowhere.
  pub process_accept_info-Answered :
      (info : SignInfoData) (w : Acceptor)
      → Answered info w.records w (process_accept_info n info w).1
  unfolding process_accept_info
  process_accept_info-Answered info w =
      elim (Bool-cases (any (str_eq info.key) w.cached_accept_infos)) [
        | inl in_work ↦ rw in_work (inl refl)
        | inr not_in_work ↦ rw not_in_work (
            let v = cached n info.key w in
            let (same_answers, _) = (verify_sign_info-Quiet n info).moves v in
            let p = verify_sign_info n info v in
            Answered-from info w.records p.1 w (judged n info p.0 p.1).1 same_answers
              (judged-Answered info p.0 w.records p.1 (verify_sign_info-Verified info v)))
      ]

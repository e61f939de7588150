-- ===== src/Worker/Swap/Sends.antt =====
-- doSwap sends only for a swap that was not paid before.
use check_tx_server.Common.{
  ℕ, suc, ◌/◌, lookup, String, ◌≡◌, ◌≢◌, refl, sym, ap, ◌∙◌, Bool-cases, false, some, ◌⊎◌, inl, inr,
  arith, any, str_eq, eq_iff, decimal,
}
use check_tx_server.Exec.{Result, ok}
use check_tx_server.Exec.Inversion.{Result-cases}
use check_tx_server.Tables.{MgoSwap, MgoSwapResult}
use check_tx_server.Tokens.{BuildTxArgs}
use check_tx_server.Db
use check_tx_server.Db.{
  Db, get_router_swap_key, find_router_swap_result, find_result, update_result,
}
use check_tx_server.Worker.{World, Setup, Bridge, Sending, in_db, now}
use check_tx_server.Db.Laws.{update_swap-ok}
use check_tx_server.Status
use check_tx_server.Swaps.{update_router_swap_status}
use check_tx_server.Results.{update_router_old_swap_txs}
use check_tx_server.Worker.Send.{send_signed_transaction}
use check_tx_server.Worker.Send.Bounds.{repeat, Handed-sendings, send_signed_transaction_lem}
use check_tx_server.Worker.History.{check_and_update_process_swap_task_cache}
use check_tx_server.Worker.Swap.Quiet.{prepare-Quiet}
use check_tx_server.Worker.Swap.{
  is_used, prevent_reswap, prepare, Prepared, process_non_empty_swap_result, mark_processed,
  do_swap_serial, cache_key, uncached, send_and_note, built_and_signed, checked_and_noted,
}

module _ (u : Setup) where
  mark_processed-fails : (res : MgoSwapResult) (w : World) → (mark_processed u res w).0 ≢ ok tt
  unfolding mark_processed now in_db Db.now
  mark_processed-fails res w h = ground arith

  prevent_reswap-ok :
      (res : MgoSwapResult) (w : World) → (prevent_reswap u res w).0 ≡ ok tt → is_used res ≡ false
  unfolding prevent_reswap process_non_empty_swap_result
  prevent_reswap-ok res w h = elim (Bool-cases (is_used res)) [
    | inl used ↦ absurd (mark_processed-fails res w (ground arith))
    | inr unused ↦ unused
  ]

  module _ (args : BuildTxArgs) where
    abbrev pub find : Db → Result MgoSwapResult
    find db =
        (find_router_swap_result u.env (decimal args.from_chain_id) args.swap_id args.log_index
          db).0

    -- The result that answers the query in the database has not been paid.
    abbrev pub Unpaid : Db → Type 0
    Unpaid db = (res : MgoSwapResult) × (find db ≡ ok res) × (is_used res ≡ false)

    checked_and_noted-ok :
        (signed out : Prepared u args) (w : World)
        → (checked_and_noted u args signed w).0 ≡ ok out
        → Unpaid w.db
    unfolding checked_and_noted in_db
    checked_and_noted-ok (bridge, built, signed_tx, tx_hash) out w h =
        elim (Result-cases (find w.db)) [
          | inl (res, e) ↦
              elim (Result-cases
                (prevent_reswap u res
                  (in_db
                    (find_router_swap_result u.env (decimal args.from_chain_id) args.swap_id
                      args.log_index)
                    w).1).0) [
                      | inl (t, e') ↦ (res, e, prevent_reswap-ok res _ e')
                      | inr (x, e') ↦ absurd (ground arith)
                    ]
          | inr (x, e) ↦ absurd (ground arith)
        ]

    prepare-ok :
        (w : World) (out : Prepared u args)
        → (prepare u args w).0 ≡ ok out
        → Unpaid (built_and_signed u args w).1.db
    unfolding prepare
    prepare-ok w out h = elim (Result-cases (built_and_signed u args w).0) [
      | inl (signed, e) ↦
          checked_and_noted-ok signed out (built_and_signed u args w).1 (ground arith)
      | inr (x, e) ↦ absurd (ground arith)
    ]

    -- The world once the swap is among the tasks in work
    abbrev pub cached : World → World
    cached w = (check_and_update_process_swap_task_cache u (cache_key u args) w).1

    check-ok :
        (w : World)
        → (check_and_update_process_swap_task_cache u (cache_key u args) w).0 ≡ ok tt
        → (any (str_eq (cache_key u args)) w.cached_swap_tasks ≡ false)
    unfolding check_and_update_process_swap_task_cache
    check-ok w h = ground arith

    check-Quiet : (w : World) → (cached w).sendings ≡ w.sendings
    unfolding check_and_update_process_swap_task_cache
    check-Quiet w = ground arith

    send_and_note-sendings :
        (bridge : Bridge) (built : BuildTxArgs) (signed_tx tx_hash : String) (w : World)
        → (send_and_note u args bridge built signed_tx tx_hash w).1.sendings
          ≡ (send_signed_transaction u bridge signed_tx built w).1.sendings
    unfolding send_and_note in_db
    send_and_note-sendings bridge built signed_tx tx_hash w =
        elim (Result-cases (send_signed_transaction u bridge signed_tx built w).0) [
          | inl (sent, e) ↦ ground arith
          | inr (x, e) ↦ ground arith
        ]

    abbrev key : String
    key = get_router_swap_key (decimal args.from_chain_id) args.swap_id args.log_index

    -- The swap, if it is registered, counts as processed.
    abbrev pub Processed : Db → Type 0
    Processed db = (s : MgoSwap) → lookup key db.swaps ≡ some s → s.status ≡ Status.tx_processed

    abbrev mark : World → Result (Unit {0}) × World
    mark w =
        let time = u.env.milli w.db.ticks / 1000 in
        in_db
          (update_router_swap_status u.env (decimal args.from_chain_id) args.swap_id args.log_index
            Status.tx_processed time "")
          (now u w).1

    mark-Processed : (w : World) → (mark w).0 ≡ ok tt → Processed (mark w).1.db
    unfolding in_db now Db.now update_router_swap_status
    mark-Processed w h s e =
        let changed = update_swap-ok u.env key _ (now u w).1.db h in
        ground (arith, changed key, eq_iff key key)

    mark-Quiet : (w : World) → (mark w).1.sendings ≡ w.sendings
    unfolding in_db now Db.now
    mark-Quiet w = refl

    send_and_note-swaps :
        (bridge : Bridge) (built : BuildTxArgs) (signed_tx tx_hash : String) (w : World)
        → (send_and_note u args bridge built signed_tx tx_hash w).1.db.swaps ≡ w.db.swaps
    unfolding send_and_note in_db update_router_old_swap_txs update_result find_router_swap_result
        find_result Db.now
    send_and_note-swaps bridge built signed_tx tx_hash w =
        let (_, swaps, results) = send_signed_transaction_lem u bridge signed_tx built w in
        elim (Result-cases (send_signed_transaction u bridge signed_tx built w).0) [
          | inl (sent, e) ↦ ground arith
          | inr (x, e) ↦ ground arith
        ]

    send_and_note-sent :
        (bridge : Bridge) (built : BuildTxArgs) (signed_tx tx_hash : String) (w : World)
        → ((send_and_note u args bridge built signed_tx tx_hash w).1.sendings ≡ w.sendings)
          ⊎ ((n : ℕ) × (s : Sending) × ((send_and_note u args bridge built signed_tx tx_hash
                  w).1.sendings
                ≡ repeat (suc n) s w.sendings))
    send_and_note-sent bridge built signed_tx tx_hash w =
        let (handed, _, _) = send_signed_transaction_lem u bridge signed_tx built w in
        let before = send_and_note-sendings bridge built signed_tx tx_hash w in
        elim (Handed-sendings bridge _ signed_tx _ w _ handed) [
          | inl none_sent ↦ inl (before ∙ none_sent)
          | inr (n, sent) ↦ inr (n, _, before ∙ sent)
        ]

    -- If the serial doSwap hands anything to a chain, then it is one transaction, sent one or more times, the
    -- swap was not among the tasks in work, its result, read again after the signing, had no nonce, no
    -- transaction and no status of a swap under way, and the swap, if it is registered, has the status
    -- TxProcessed afterwards.
    pub do_swap_serial-sends :
        (w : World)
        → let v = (do_swap_serial u args w).1 in
          (v.sendings ≡ w.sendings)
          ⊎ ((any (str_eq (cache_key u args)) w.cached_swap_tasks ≡ false)
              × Unpaid (built_and_signed u args (cached w)).1.db
              × ((n : ℕ) × (s : Sending) × (v.sendings ≡ repeat (suc n) s w.sendings))
              × Processed v.db)
    unfolding do_swap_serial uncached now Db.now
    do_swap_serial-sends w =
        elim (Result-cases (check_and_update_process_swap_task_cache u (cache_key u args) w).0) [
          | inr (x, e) ↦ inl (ground (arith, check-Quiet w))
          | inl (t, e) ↦ elim (Result-cases (prepare u args (cached w)).0) [
            | inr (x, e') ↦ inl (ground (arith, check-Quiet w, prepare-Quiet u args (cached w)))
            | inl ((bridge, built, signed_tx, tx_hash), e') ↦
                let wp = (prepare u args (cached w)).1 in
                elim (Result-cases (mark wp).0) [
                  | inr (x, e'') ↦ inl (
                      ground (arith, check-Quiet w, prepare-Quiet u args (cached w), mark-Quiet wp))
                  | inl (t', e'') ↦
                      let run : do_swap_serial u args w
                          ≡ send_and_note u args bridge built signed_tx tx_hash (mark wp).1 =
                        ground arith in
                      let quiet : (mark wp).1.sendings ≡ w.sendings =
                        mark-Quiet wp ∙ prepare-Quiet u args (cached w) ∙ check-Quiet w in
                      let swaps : (do_swap_serial u args w).1.db.swaps ≡ (mark wp).1.db.swaps =
                        ap (λ v. v.1.db.swaps) run
                        ∙ send_and_note-swaps bridge built signed_tx tx_hash (mark wp).1 in
                      let here : (do_swap_serial u args w).1.sendings
                          ≡ (send_and_note u args bridge built signed_tx tx_hash
                              (mark wp).1).1.sendings =
                        ap (λ v. v.1.sendings) run in
                      elim (send_and_note-sent bridge built signed_tx tx_hash (mark wp).1) [
                        | inl none_sent ↦ inl (here ∙ none_sent ∙ quiet)
                        | inr (n, s, sent) ↦ inr (
                          check-ok w e,
                          prepare-ok (cached w) _ e',
                          (n, s, here ∙ sent ∙ ap (repeat (suc n) s) quiet),
                          λ x h. mark-Processed wp e'' x (ap (λ c. lookup key c) (sym swaps) ∙ h),
                        )
                      ]
                ]
          ]
        ]

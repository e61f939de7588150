-- ===== src/Worker/Swap/Quiet.antt =====
-- Preparing a transaction sends nothing.
use check_tx_server.Common.{String, ◌≡◌, refl, inl, inr, arith, decimal}
use check_tx_server.Exec.{Result}
use check_tx_server.Exec.Inversion.{Result-cases}
use check_tx_server.Tables.{MgoSwapResult}
use check_tx_server.Tokens.{BuildTxArgs}
use check_tx_server.Db
use check_tx_server.Db.{
  Db, get_router_swap_key, find_router_swap_result, find_result, update_result,
}
use check_tx_server.Worker.{
  World, Setup, Bridge, in_db, tick, now, get_bridge_by_chain_id, bridge_or_error,
}
use check_tx_server.Worker.Verify.{reverify_swap}
use check_tx_server.Worker.History.{add_swap_history}
use check_tx_server.Worker.Update.{update_router_swap_result_of}
use check_tx_server.Worker.Swap.{
  signed_or, matched, prevent_reswap, prepare, Prepared, sign, process_non_empty_swap_result,
  process_history, mark_processed, built_and_signed, checked_and_noted,
}

module _ (u : Setup) where
  module _ (args : BuildTxArgs) where
    abbrev pub find : Db → Result MgoSwapResult
    find db =
        (find_router_swap_result u.env (decimal args.from_chain_id) args.swap_id args.log_index
          db).0

    mark_processed-Quiet :
        (res : MgoSwapResult) (w : World) → (mark_processed u res w).1.sendings ≡ w.sendings
    unfolding mark_processed now in_db Db.now
    mark_processed-Quiet res w = refl

    prevent_reswap-Quiet :
        (res : MgoSwapResult) (w : World) → (prevent_reswap u res w).1.sendings ≡ w.sendings
    unfolding prevent_reswap process_non_empty_swap_result process_history
    prevent_reswap-Quiet res w = ground (arith, mark_processed-Quiet res w)

    reverify_swap-Quiet : (w : World) → (reverify_swap u args w).1.sendings ≡ w.sendings
    unfolding reverify_swap in_db now tick Db.now
    reverify_swap-Quiet w = ground arith

    sign-Quiet :
        (bridge : Bridge) (raw_tx : String) (built : BuildTxArgs) (w : World)
        → (sign u args bridge raw_tx built w).1.sendings ≡ w.sendings
    unfolding sign signed_or tick
    sign-Quiet bridge raw_tx built w = ground (arith, reverify_swap-Quiet (tick w).1)

    built_and_signed-Quiet : (w : World) → (built_and_signed u args w).1.sendings ≡ w.sendings
    unfolding built_and_signed in_db
    built_and_signed-Quiet w =
        elim (Result-cases
          (bridge_or_error (get_bridge_by_chain_id u (decimal args.to_chain_id)))) [
            | inr (x, e) ↦ ground arith
            | inl (bridge, e) ↦ elim (Result-cases (bridge.build_raw_transaction args w.db).0) [
              | inr (x, e') ↦ ground arith
              | inl ((raw_tx, built), e') ↦
                  let quiet =
                    sign-Quiet bridge raw_tx built
                      (in_db (bridge.build_raw_transaction args) w).1 in
                  elim (Result-cases
                    (sign u args bridge raw_tx built
                      (in_db (bridge.build_raw_transaction args) w).1).0) [
                        | inr (x, e'') ↦ ground arith
                        | inl (signed, e'') ↦ ground arith
                      ]
            ]
          ]

    noted-Quiet :
        (built : BuildTxArgs) (tx_hash : String) (w : World)
        → (update_router_swap_result_of u
            (decimal args.from_chain_id)
            args.swap_id
            args.log_index
            (matched u args built tx_hash)
            w).1.sendings
          ≡ w.sendings
    unfolding update_router_swap_result_of now in_db Db.now
    noted-Quiet built tx_hash w = refl

    abbrev found_at : World → World
    found_at w =
        (in_db
          (find_router_swap_result u.env (decimal args.from_chain_id) args.swap_id args.log_index)
          w).1

    checked_and_noted-Quiet :
        (signed : Prepared u args) (w : World)
        → (checked_and_noted u args signed w).1.sendings ≡ w.sendings
    unfolding checked_and_noted in_db add_swap_history
    checked_and_noted-Quiet (bridge, built, signed_tx, tx_hash) w =
        elim (Result-cases (find w.db)) [
          | inr (x, e) ↦ ground arith
          | inl (res, e) ↦
              let quiet = prevent_reswap-Quiet res (found_at w) in
              elim (Result-cases (prevent_reswap u res (found_at w)).0) [
                | inr (x, e') ↦ ground arith
                | inl (t, e') ↦
                    let noted =
                      noted-Quiet built tx_hash
                        (add_swap_history (decimal args.from_chain_id) args.swap_id args.log_index
                          tx_hash (prevent_reswap u res (found_at w)).1).1 in
                    elim (Result-cases
                      (update_router_swap_result_of u (decimal args.from_chain_id) args.swap_id
                        args.log_index (matched u args built tx_hash)
                        (add_swap_history (decimal args.from_chain_id) args.swap_id args.log_index
                          tx_hash (prevent_reswap u res (found_at w)).1).1).0) [
                            | inr (x, e'') ↦ ground arith
                            | inl (t', e'') ↦ ground arith
                          ]
              ]
        ]

    pub prepare-Quiet : (w : World) → (prepare u args w).1.sendings ≡ w.sendings
    unfolding prepare
    prepare-Quiet w = elim (Result-cases (built_and_signed u args w).0) [
      | inl (signed, e) ↦ ground (
        arith,
        checked_and_noted-Quiet signed (built_and_signed u args w).1,
        built_and_signed-Quiet w,
      )
      | inr (x, e) ↦ ground (arith, built_and_signed-Quiet w)
    ]

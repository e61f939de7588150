-- ===== src/Status/Laws.antt =====
-- What the classifications of mongodb/status.go tell apart.
use check_tx_server.Common.{◌≡◌, ◌⊎◌, ◌↔◌, true, false, Option, none, some, arith}
use check_tx_server.Errors.{GoError, should_register_router_swap_for_error}
use check_tx_server.Status

-- The status of a verify error is TxNotStable exactly where there is no error, it is
-- TxVerifyFailed for every error that should not be registered, and it is never the status of a
-- result nor one by which the swap may be passed.
pub verify_error_status :
    (e : Option GoError)
    → let s = Status.get_router_swap_status_by_verify_error e in
      ((s ≡ Status.tx_not_stable) ↔ (e ≡ none))
      × ((should_register_router_swap_for_error e ≡ true) ⊎ (s ≡ Status.tx_verify_failed))
      × (Status.is_result_status s ≡ false)
      × ((Status.is_registered_ok s ≡ false) ⊎ (e ≡ none))
unfolding Status.get_router_swap_status_by_verify_error should_register_router_swap_for_error
verify_error_status none = unfold Status.is_result_status Status.is_registered_ok in ground arith
verify_error_status (some e) =
    unfold Status.is_result_status Status.is_registered_ok in ground arith

-- ===== src/Swaps/Update.antt =====
-- Moving the status of a swap: UpdateRouterSwapStatus.
use check_tx_server.Common.{
  ℕ, String, ◌≡◌, ◌≢◌, Bool-cases, inl, inr, some, lookup, arith, if◌then◌else◌, ◌==◌, not, str_eq,
}
use check_tx_server.Status
use check_tx_server.Status.{SwapStatus}
use check_tx_server.Tables.{MgoSwap}
use check_tx_server.Db.{Db, Env, get_router_swap_key}
use check_tx_server.Db.Laws.{update_swap-status}
use check_tx_server.Swaps.{update_router_swap_status}

module _ (env : Env) (c t : String) (i : ℕ) (status : SwapStatus) (timestamp : ℕ) (memo : String)
    (db : Db) where
  abbrev after : Db
  after = (update_router_swap_status env c t i status timestamp memo db).1

  -- Every swap that has the status `bad` afterwards is as it was.
  abbrev pub NoneBecomes : SwapStatus → Type 0
  NoneBecomes bad =
      (j : String) (s : MgoSwap)
      → lookup j after.swaps ≡ some s
      → s.status ≡ bad
      → lookup j db.swaps ≡ some s

  abbrev moved : MgoSwap → MgoSwap
  moved s = record s {
    status = status;
    timestamp = timestamp;
    memo =
        if not (str_eq memo "")
        then memo
        else if status == Status.tx_not_swapped
        then ""
        else s.memo;
  }

  pub update_router_swap_status-status : (bad : SwapStatus) → status ≢ bad → NoneBecomes bad
  unfolding update_router_swap_status
  update_router_swap_status-status bad other j s e is_bad =
      elim (Bool-cases (status == Status.tx_not_stable)) [
        | inl refused ↦ ground arith
        | inr fine ↦
            update_swap-status env bad (get_router_swap_key c t i) moved db (λ x. other) j s
              (ground arith) is_bad
      ]

  -- Whatever status is asked for, and whether the update succeeds or fails, no swap becomes TxNotStable.
  update_router_swap_status-TxNotStable : NoneBecomes Status.tx_not_stable
  unfolding update_router_swap_status
  update_router_swap_status-TxNotStable j s e unstable =
      elim (Bool-cases (status == Status.tx_not_stable)) [
        | inl refused ↦ ground arith
        | inr fine ↦
            update_router_swap_status-status Status.tx_not_stable (λ same. ground arith) j s e
              unstable
      ]

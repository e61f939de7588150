-- ===== src/Worker/Turns.antt =====
-- The results that a job leaves in a state that they were not in before.
use check_tx_server.Common.{ℕ, String, ◌≡◌, ◌≢◌, refl, inl, inr, arith, not, ◌||◌, ◌==◌}
use check_tx_server.Exec.{ok, Exec}
use check_tx_server.Exec.Within.{Frame, Within, Within-pure, Within-bind, Within-if}
use check_tx_server.Status
use check_tx_server.Status.{SwapStatus}
use check_tx_server.Tables.{MgoSwapResult, SwapResultUpdateItems}
use check_tx_server.Db
use check_tx_server.Db.{
  Db, Env, find_router_swap_result, find_result, find_router_swap, find_swap, update_result,
  get_router_swap_key,
}
use check_tx_server.Db.Laws.{NoneNew, NoneNew-of_Same, NoneNew-of_Changed, update_result-effect}
use check_tx_server.Results.{
  update_router_swap_result, update_router_swap_result_status, check_router_swap_result_update,
  with_items,
}
use check_tx_server.Worker.{World, Setup, in_db, tick, now}
use check_tx_server.Worker.Update.{
  MatchTx, items_of, update_router_swap_result_of, update_swap_tx, update_swap_timestamp,
  mark_swap_result_stable, mark_swap_result_failed, mark_swap_result_unstable,
}

-- No result gets into a state of the kind `P`.
abbrev pub DbTurns : (MgoSwapResult → Type 0) → Frame Db
DbTurns P = record {
  Moves = λ c d. NoneNew P c.results d.results;
  still = λ c j r e kind. (r, e, kind);
  and_then = λ c d x first second j r e kind.
      let (r', e', kind') = second j r e kind in first j r' e' kind';
}

abbrev pub Turns : (MgoSwapResult → Type 0) → Frame World
Turns P = record {
  Moves = λ w v. NoneNew P w.db.results v.db.results;
  still = λ w j r e kind. (r, e, kind);
  and_then = λ w v x first second j r e kind.
      let (r', e', kind') = second j r e kind in first j r' e' kind';
}

module _ (u : Setup) (P : MgoSwapResult → Type 0) where
  abbrev F : Frame Db
  F = DbTurns P

  pub in_db-Turns : {A : Type 0} (m : Exec Db A) → Within F m → Within (Turns P) (in_db m)
  unfolding in_db
  in_db-Turns m within = record { moves = λ w. within.moves w.db }

  pub tick-Turns : Within (Turns P) tick
  unfolding tick
  tick-Turns = record { moves = λ w j r e kind. (r, e, kind) }

  pub now-Turns : Within (Turns P) (now u)
  unfolding now in_db Db.now
  now-Turns = record { moves = λ w j r e kind. (r, e, kind) }

  pub find_router_swap_result-Turns :
      (c t : String) (i : ℕ) → Within F (find_router_swap_result u.env c t i)
  unfolding find_router_swap_result find_result
  find_router_swap_result-Turns c t i = record { moves = λ db j r e kind. (r, e, kind) }

  pub find_router_swap-Turns : (c t : String) (i : ℕ) → Within F (find_router_swap u.env c t i)
  unfolding find_router_swap find_swap
  find_router_swap-Turns c t i = record { moves = λ db j r e kind. (r, e, kind) }

  pub update_result-Turns :
      (k : String) (f : MgoSwapResult → MgoSwapResult)
      → ((r : MgoSwapResult) → P (f r) → P r)
      → Within F (update_result u.env k f)
  update_result-Turns k f old = record {
    moves = λ db. elim (update_result-effect u.env k f db) [
      | inl same ↦ NoneNew-of_Same P _ _ same
      | inr changed ↦ NoneNew-of_Changed P k f _ _ old changed
    ];
  }

  check-Turns : (c t : String) (i n : ℕ) → Within F (check_router_swap_result_update u.env c t i n)
  unfolding check_router_swap_result_update
  check-Turns c t i n =
      Within-bind F _ _ (find_router_swap_result-Turns c t i) (λ r. search (Within-if, Within-pure))

  pub update_router_swap_result-Turns :
      (c t : String) (i : ℕ) (items : SwapResultUpdateItems)
      → ((r : MgoSwapResult) → P (with_items items r) → P r)
      → Within F (update_router_swap_result u.env c t i items)
  unfolding update_router_swap_result
  update_router_swap_result-Turns c t i items old =
      Within-bind F _ _
        (Within-if F (not (items.swap_nonce == 0) || items.status == Status.match_tx_not_stable) _ _
          (λ _. check-Turns c t i items.swap_nonce) (λ _. Within-pure F (ok tt)))
        (λ n. update_result-Turns (get_router_swap_key c t i) (with_items items) old)

-- The writes of the jobs give a result no status but the one that they name.
module _ (u : Setup) (bad : SwapStatus) where
  abbrev pub Has : MgoSwapResult → Type 0
  Has r = r.status ≡ bad

  abbrev T : Frame World
  T = Turns Has

  module _ (c t : String) (i : ℕ) where
    status-Turns :
        (status : SwapStatus) (timestamp : ℕ)
        → status ≢ bad
        → Within T (in_db (update_router_swap_result_status u.env c t i status timestamp ""))
    unfolding update_router_swap_result_status
    status-Turns status timestamp other =
        in_db-Turns u Has _ (update_result-Turns u Has _ _ (λ r e. absurd (ground (arith, other))))

    pub mark_swap_result_failed-Turns :
        Status.match_tx_failed ≢ bad → Within T (mark_swap_result_failed u c t i)
    unfolding mark_swap_result_failed
    mark_swap_result_failed-Turns other =
        Within-bind T _ _ (now-Turns u Has) (λ n. search (status-Turns, other))

    pub mark_swap_result_stable-Turns :
        Status.match_tx_stable ≢ bad → Within T (mark_swap_result_stable u c t i)
    unfolding mark_swap_result_stable
    mark_swap_result_stable-Turns other =
        Within-bind T _ _ (now-Turns u Has) (λ n. search (status-Turns, other))

    pub mark_swap_result_unstable-Turns :
        Status.match_tx_not_stable ≢ bad → Within T (mark_swap_result_unstable u c t i)
    unfolding mark_swap_result_unstable
    mark_swap_result_unstable-Turns other =
        Within-bind T _ _ (now-Turns u Has) (λ n. search (status-Turns, other))

    -- Updates without a status
    items-Turns :
        (items : SwapResultUpdateItems)
        → items.status ≡ Status.keep_status
        → Within T (in_db (update_router_swap_result u.env c t i items))
    items-Turns items keeps =
        in_db-Turns u Has _
          (update_router_swap_result-Turns u Has c t i items (λ r e. ground (arith, e)))

    pub update_swap_tx-Turns : (swap_tx : String) → Within T (update_swap_tx u c t i swap_tx)
    unfolding update_swap_tx
    update_swap_tx-Turns swap_tx = Within-bind T _ _ (now-Turns u Has) (λ n. items-Turns _ refl)

    pub update_swap_timestamp-Turns : Within T (update_swap_timestamp u c t i)
    unfolding update_swap_timestamp
    update_swap_timestamp-Turns = Within-bind T _ _ (now-Turns u Has) (λ n. items-Turns _ refl)

    pub update_router_swap_result_of-Turns :
        (mtx : MatchTx) → mtx.swap_height ≢ 0 → Within T (update_router_swap_result_of u c t i mtx)
    unfolding update_router_swap_result_of
    update_router_swap_result_of-Turns mtx mined =
        Within-bind T _ _ (now-Turns u Has)
          (λ n. items-Turns (items_of mtx n) (ground (arith, mined)))

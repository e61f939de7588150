-- ===== src/Worker/Stable/Settles.antt =====
-- When processRouterSwapStable settles a result as stable, and when as failed.
use check_tx_server.Common.{
  ℕ, String, Bool, Bool-cases, Option-cases, true, false, Option, none, some, List, [], ◌∷◌, str_eq,
  ◌≡◌, ◌≢◌, ◌≤◌, ltb, ap, ◌==◌, not, ◌&&◌, if◌then◌else◌, ◌⊎◌, inl, inr, arith,
}
use check_tx_server.Exec.{ok, ◌>>=◌}
use check_tx_server.Exec.Within.{Frame, Within, Within-pure, Within-bind, Within-if, Within-drop}
use check_tx_server.Status
use check_tx_server.Status.{SwapStatus}
use check_tx_server.Tables.{MgoSwapResult}
use check_tx_server.Tokens.{TxStatus, is_swap_tx_on_chain_and_failed}
use check_tx_server.Db.Laws.{NoneNew}
use check_tx_server.Worker.{World, Setup, Bridge, NonceSetter, get_bridge_by_chain_id}
use check_tx_server.Worker.Stable.{
  get_swap_tx_status, search_old, process_router_swap_stable, check_if_swap_nonce_has_passed,
  followed, unseen, first_seen, confirmed_deep, passed_by_setter, passed_by, passed_interval,
  mark_passed, nonce_error, sent_error, Located,
}
use check_tx_server.Worker.Stable.Search.{AnswerFor, get_swap_tx_status-finds}
use check_tx_server.Worker.Turns.{
  Turns, Has, tick-Turns, now-Turns, in_db-Turns, find_router_swap_result-Turns,
  mark_swap_result_failed-Turns, update_swap_tx-Turns, update_router_swap_result_of-Turns,
}

module _ (u : Setup) (P : MgoSwapResult → Type 0) (bridge : Bridge) where
  search_old-Turns :
      (swap : MgoSwapResult) (first : Option TxStatus) (olds : List String)
      → Within (Turns P) (search_old bridge swap first olds)
  unfolding search_old
  search_old-Turns swap first [] = Within-pure (Turns P) _
  search_old-Turns swap first (old ∷ olds) =
      Within-if (Turns P) (str_eq swap.swap_tx old) _ _ (λ _. search_old-Turns swap first olds)
        (λ _.
          Within-bind (Turns P) _ _ (tick-Turns u P)
            (λ n. search (Within-if, Within-pure, search_old-Turns swap first olds)))

  pub get_swap_tx_status-Turns :
      (swap : MgoSwapResult) → Within (Turns P) (get_swap_tx_status bridge swap)
  unfolding get_swap_tx_status
  get_swap_tx_status-Turns swap =
      Within-bind (Turns P) _ _ (tick-Turns u P)
        (λ n. search (Within-if, Within-pure, search_old-Turns))

module _ (u : Setup) (bad : SwapStatus) (other : Status.match_tx_failed ≢ bad) where
  abbrev T : Frame World
  T = Turns (Has u bad)

  mark_passed-Turns : (res : MgoSwapResult) → Within T (mark_passed u res)
  unfolding mark_passed
  mark_passed-Turns res =
      Within-bind T _ _ (in_db-Turns u _ _ (find_router_swap_result-Turns u _ _ _ _))
        (λ old. search (Within-if, Within-pure, Within-drop, mark_swap_result_failed-Turns, other))

  nonce_error-Turns : (is_replace : Bool) (n m : ℕ) → Within T (nonce_error u is_replace n m)
  unfolding nonce_error
  nonce_error-Turns is_replace n m = search (Within-if, Within-pure)

  sent_error-Turns : (is_replace : Bool) → Within T (sent_error is_replace)
  unfolding sent_error
  sent_error-Turns is_replace = search (Within-if, Within-pure)

  marked-Turns :
      (res : MgoSwapResult) (is_replace : Bool) (n m : ℕ)
      → Within T (mark_passed u res >>= (λ _. nonce_error u is_replace n m))
  marked-Turns res is_replace n m =
      Within-bind T _ _ (mark_passed-Turns res) (λ _. nonce_error-Turns is_replace n m)

  passed_interval-Turns :
      (bridge : Bridge) (res : MgoSwapResult) (is_replace : Bool) (nonce : ℕ)
      (status : Option TxStatus)
      → Within T (passed_interval u bridge res is_replace nonce status)
  unfolding passed_interval
  passed_interval-Turns bridge res is_replace nonce (some s) = marked-Turns res is_replace _ _
  passed_interval-Turns bridge res is_replace nonce none =
      Within-bind T _ _ (get_swap_tx_status-Turns u _ bridge res)
        (λ out. search (Within-if, Within-pure, sent_error-Turns, marked-Turns))

  passed_by-Turns :
      (bridge : Bridge) (res : MgoSwapResult) (is_replace : Bool) (setter : NonceSetter)
      → Within T (passed_by u bridge res is_replace setter)
  unfolding passed_by
  passed_by-Turns bridge res is_replace setter = Within-bind T _ _ (tick-Turns u _) (λ n.
      Within-bind T _ _ (Within-pure T _) (λ nonce.
        Within-bind T _ _ (get_swap_tx_status-Turns u _ bridge res) (λ out. search (
          Within-if, Within-pure, sent_error-Turns, Within-bind, now-Turns, passed_interval-Turns,
          nonce_error-Turns,
        ))))

  by_setter-Turns :
      (bridge : Bridge) (res : MgoSwapResult) (is_replace : Bool) (setter : Option NonceSetter)
      → Within T (passed_by_setter u bridge res is_replace setter)
  unfolding passed_by_setter
  by_setter-Turns bridge res is_replace none = Within-pure T _
  by_setter-Turns bridge res is_replace (some setter) = passed_by-Turns bridge res is_replace setter

  pub check_if_swap_nonce_has_passed-Turns :
      (bridge : Bridge) (res : MgoSwapResult) (is_replace : Bool)
      → Within T (check_if_swap_nonce_has_passed u bridge res is_replace)
  unfolding check_if_swap_nonce_has_passed
  check_if_swap_nonce_has_passed-Turns bridge res is_replace =
      by_setter-Turns bridge res is_replace bridge.nonce_setter

-- The chain reported a transaction of the swap as final, and as it is told by `failed`.
abbrev pub Final : Setup → MgoSwapResult → Bool → Type 0
Final u swap failed =
    (bridge : Bridge) × (s : TxStatus) × (found : MgoSwapResult) × (get_bridge_by_chain_id u
        swap.to_chain_id
      ≡ some bridge)
    × AnswerFor bridge swap (swap.swap_tx ∷ swap.old_swap_txs) (some s, found)
    × (swap.swap_height ≢ 0)
    × (s.block_height ≢ 0)
    × (bridge.confirmations ≤ s.confirmations)
    × (is_swap_tx_on_chain_and_failed (some s) ≡ failed)

module _ (u : Setup) (swap : MgoSwapResult) where
  abbrev StableT : Frame World
  StableT = Turns (Has u Status.match_tx_stable)

  unseen-Turns : (bridge : Bridge) (found : MgoSwapResult) → Within StableT (unseen u bridge found)
  unfolding unseen
  unseen-Turns bridge found = search (
    Within-if,
    Within-pure,
    check_if_swap_nonce_has_passed-Turns u Status.match_tx_stable (omega arith),
  )

  module _ (bridge : Bridge) (s : TxStatus) (found : MgoSwapResult) where
    -- The transaction is known to be mined, is deep enough, and fails as `failed` tells.
    abbrev settled : Bool → Bool
    settled failed =
        not (s.block_height == 0)
        && not (found.swap_height == 0)
        && not (ltb s.confirmations bridge.confirmations)
        && (if failed
            then is_swap_tx_on_chain_and_failed (some s)
            else not (is_swap_tx_on_chain_and_failed (some s)))

    confirmed_deep-Turns :
        (old : String)
        → is_swap_tx_on_chain_and_failed (some s) ≡ true
        → Within StableT (confirmed_deep u found old s)
    unfolding confirmed_deep
    confirmed_deep-Turns old failed =
        Within-bind StableT _ _
          (Within-if StableT (not (str_eq found.swap_tx old)) _ _
            (λ _. Within-drop StableT _ (update_swap_tx-Turns u _ _ _ _ _))
            (λ _. Within-pure StableT (ok tt)))
          (λ _.
            Within-if StableT (is_swap_tx_on_chain_and_failed (some s)) _ _
              (λ _. mark_swap_result_failed-Turns u _ _ _ _ (omega arith))
              (λ fine. absurd (ground (arith, failed))))

    first_seen-Turns :
        (old : String) → s.block_height ≢ 0 → Within StableT (first_seen u found old s)
    unfolding first_seen
    first_seen-Turns old mined = update_router_swap_result_of-Turns u _ _ _ _ _ mined

    followed-Turns :
        (old : String)
        → settled false ≡ false
        → Within StableT (followed u bridge old (some s, found))
    unfolding followed
    followed-Turns old unsettled =
        Within-if StableT (s.block_height == 0) _ _ (λ _. unseen-Turns bridge found)
          (λ mined.
            Within-if StableT (not (found.swap_height == 0)) _ _
              (λ known.
                Within-if StableT (ltb s.confirmations bridge.confirmations) _ _
                  (λ _. Within-pure StableT _)
                  (λ deep. confirmed_deep-Turns old (ground (arith, unsettled))))
              (λ _. first_seen-Turns old (ground (arith, mined))))

  followed-settles :
      (bridge : Bridge) (old : String) (out : Located bridge) (w : World)
      → AnswerFor bridge swap (swap.swap_tx ∷ swap.old_swap_txs) out
      → get_bridge_by_chain_id u swap.to_chain_id ≡ some bridge
      → StableT.Moves w (followed u bridge old out w).1 ⊎ Final u swap false
  unfolding followed
  followed-settles bridge old (none, found) w answer at = inl ((unseen-Turns bridge found).moves w)
  followed-settles bridge old (some s, found) w answer at =
      elim (Bool-cases (settled bridge s found false)) [
        | inr unsettled ↦ inl ((followed-Turns bridge s found old unsettled).moves w)
        | inl final ↦
            let same = ap (λ r. r.swap_height) answer.3 in
            inr (
              bridge,
              s,
              found,
              at,
              answer,
              ground (arith, same),
              ground arith,
              ground arith,
              ground arith,
            )
      ]

  no_bridge :
      (w : World)
      → get_bridge_by_chain_id u swap.to_chain_id ≡ none
      → (process_router_swap_stable u swap w).1 ≡ w
  unfolding process_router_swap_stable
  no_bridge w e = ground (arith, e)

  on_bridge :
      (bridge : Bridge) (out : Located bridge) (w : World)
      → get_bridge_by_chain_id u swap.to_chain_id ≡ some bridge
      → (get_swap_tx_status bridge swap w).0 ≡ ok out
      → (process_router_swap_stable u swap w).1
        ≡ (followed u bridge swap.swap_tx out (get_swap_tx_status bridge swap w).1).1
  unfolding process_router_swap_stable
  on_bridge bridge out w at e = ground (arith, at, e)

  -- After processRouterSwapStable every result with the status MatchTxStable had it before, unless the
  -- chain has answered that a transaction of the swap, the latest or an old one, is mined and did not
  -- fail, with as many confirmations as the bridge asks for, and the result already had its height.
  pub process_router_swap_stable-Final :
      (w : World)
      → NoneNew
          (Has u Status.match_tx_stable)
          w.db.results
          (process_router_swap_stable u swap w).1.db.results
        ⊎ Final u swap false
  process_router_swap_stable-Final w =
      elim (Option-cases (get_bridge_by_chain_id u swap.to_chain_id)) [
        | inl e ↦ inl (rw (no_bridge w e) (StableT.still w))
        | inr (bridge, at) ↦
            let (out, e, answer) = get_swap_tx_status-finds bridge swap w in
            elim (followed-settles bridge swap.swap_tx out (get_swap_tx_status bridge swap w).1
              answer at) [
                | inr final ↦ inr final
                | inl moved ↦ inl (
                    rw (on_bridge bridge out w at e) (
                      StableT.and_then w (get_swap_tx_status bridge swap w).1
                        (followed u bridge swap.swap_tx out (get_swap_tx_status bridge swap w).1).1
                        ((get_swap_tx_status-Turns u _ bridge swap).moves w) moved))
              ]
      ]

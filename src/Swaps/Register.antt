-- ===== src/Swaps/Register.antt =====
-- Registering a swap: AddRouterSwap.
use check_tx_server.Common.{
  ℕ, suc, ◌+◌, ◌*◌, ◌/◌, String, ◌≡◌, refl, ap, ◌∙◌, inl, inr, Bool-cases, none, some, str_eq,
  eq_iff, lookup, arith, ◌==◌, ltb,
}
use check_tx_server.Exec.{Result, ok, err, lift, proceed, ◌>>◌}
use check_tx_server.Status
use check_tx_server.Tables.{MgoSwap}
use check_tx_server.Mongo.{Reply, found, no_documents, duplicate_key, broken, Put}
use check_tx_server.Db.{
  Db, Env, get_router_swap_key, now_milli, now, insert_swap, find_swap, update_swap, mgo_error,
}
use check_tx_server.Db.Laws.{update_swap-effect}
use check_tx_server.Swaps.{add_router_swap, refresh, refresh_at}

-- What a second registration may change in a swap: nothing but the timestamp.
abbrev pub SameSwap : MgoSwap → MgoSwap → Type 0
SameSwap s s' = s' ≡ record s { timestamp = s'.timestamp }

abbrev pub Kept : Db → Db → Type 0
Kept db db' =
    (j : String) (s : MgoSwap)
    → lookup j db.swaps ≡ some s
    → (s' : MgoSwap) × (lookup j db'.swaps ≡ some s') × SameSwap s s'

then_lift : (p : Result (Unit {0}) × Db) (r : Result (Unit {0})) → (proceed (λ _. lift r) p).1 ≡ p.1
then_lift (ok t, db) r = refl
then_lift (err e, db) r = refl

module _ (env : Env) where
  update_time-Kept :
      (k : String) (time : ℕ) (db : Db)
      → Kept db (update_swap env k (λ s. record s { timestamp = time }) db).1
  update_time-Kept k time db j s e =
      elim (update_swap-effect env k (λ s. record s { timestamp = time }) db) [
        | inl same ↦ (s, ground (arith, same j), refl)
        | inr changed ↦ elim (Bool-cases (str_eq k j)) [
          | inl this ↦ (record s { timestamp = time }, ground (arith, changed j), refl)
          | inr other ↦ (s, ground (arith, changed j), refl)
        ]
      ]

  refresh_at-Kept : (k : String) (r : Result MgoSwap) (db : Db) → Kept db (refresh_at env k r db).1
  unfolding refresh_at now
  refresh_at-Kept k (err x) db j s e = (s, e, refl)
  refresh_at-Kept k (ok swap) db j s e =
      let (s', at, same) = update_time-Kept k (env.milli db.ticks / 1000) (now env db).1 j s e in
      elim (Bool-cases (swap.status == Status.tx_not_swapped)) [
        | inr other ↦ (s, ground arith, refl)
        | inl waiting ↦
            elim (Bool-cases (ltb (swap.timestamp + 3 * 24 * 3600) (env.milli db.ticks / 1000))) [
              | inr recent ↦ (s, ground arith, refl)
              | inl old ↦ (s', ground arith, same)
            ]
      ]

  insert-Kept : (x : MgoSwap) (db : Db) → Kept db (insert_swap env x db).1
  unfolding insert_swap
  insert-Kept x db j s e = elim (env.swaps_driver.insert_effect db.ticks x.key x db.swaps) [
    | inl same ↦ (s, ground (arith, same j), refl)
    | inr (free, put) ↦ (s, ground (arith, put j, eq_iff x.key j), refl)
  ]

  refresh-Kept : (k : String) (r : Reply (Unit {0})) (db : Db) → Kept db (refresh env k r db).1
  unfolding refresh find_swap
  refresh-Kept k duplicate_key db j s e = refresh_at-Kept k _ _ j s e
  refresh-Kept k (found t) db j s e = (s, e, refl)
  refresh-Kept k no_documents db j s e = (s, e, refl)
  refresh-Kept k (broken m) db j s e = (s, e, refl)

  -- Registering a swap, whether it succeeds or fails, keeps every swap that is registered, with all but
  -- its timestamp.
  pub add_router_swap-keeps : (ms : MgoSwap) (db : Db) → Kept db (add_router_swap env ms db).1
  unfolding add_router_swap now_milli insert_swap
  add_router_swap-keeps ms db j s e =
      let x = record ms {
        key = get_router_swap_key ms.from_chain_id ms.tx_id ms.log_index;
        init_time = env.milli db.ticks;
      } in
      let timed = record db { ticks = suc db.ticks } in
      let (s', at', same') = insert-Kept x timed j s e in
      let reply = (env.swaps_driver.insert_one timed.ticks x.key x db.swaps).0 in
      let (s'', at'', same'') = refresh-Kept x.key reply (insert_swap env x timed).1 j s' at' in
      (
        s'',
        ap (λ d. lookup j d.swaps)
              (then_lift (refresh env x.key reply (insert_swap env x timed).1) (mgo_error reply))
            ∙ at'',
        same'' ∙ ap {A = MgoSwap} {B = MgoSwap} (λ y. record y { timestamp = s''.timestamp }) same',
      )

  finish :
      (k : String) (reply : Reply (Unit {0})) (db : Db)
      → ((refresh env k reply >> lift (mgo_error reply)) db).0 ≡ ok tt
      → (reply ≡ found tt)
        × (((refresh env k reply >> lift (mgo_error reply)) db).1.swaps ≡ db.swaps)
  unfolding refresh
  finish k (found t) db h = (refl, refl)
  finish k no_documents db h = absurd (ground arith)
  finish k (broken m) db h = absurd (ground arith)
  finish k duplicate_key db h = absurd (ground arith)

  -- A registration that returns found no swap under the key, and put the swap there.
  pub add_router_swap-ok :
      (ms : MgoSwap) (db : Db)
      → let key = get_router_swap_key ms.from_chain_id ms.tx_id ms.log_index in
        (add_router_swap env ms db).0 ≡ ok tt
        → (lookup key db.swaps ≡ none)
          × Put key
              (record ms { key = key; init_time = env.milli db.ticks })
              db.swaps
              (add_router_swap env ms db).1.swaps
  unfolding add_router_swap now_milli insert_swap
  add_router_swap-ok ms db h =
      let x = record ms {
        key = get_router_swap_key ms.from_chain_id ms.tx_id ms.log_index;
        init_time = env.milli db.ticks;
      } in
      let (done, same) =
        finish x.key (env.swaps_driver.insert_one (suc db.ticks) x.key x db.swaps).0
          (insert_swap env x (record db { ticks = suc db.ticks })).1 h in
      let (free, put) = env.swaps_driver.insert_done (suc db.ticks) x.key x db.swaps done in
      (free, λ j. ap (λ c. lookup j c) same ∙ put j)

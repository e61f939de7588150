-- ===== src/Results/Run.antt =====
-- Runs of the operations on results, in any order, follow the steps of a result.
use check_tx_server.Common.{
  String, ◌≡◌, ◌≢◌, refl, ap, ◌∙◌, sym, ◌⊎◌, inl, inr, Bool-cases, true, false, ◌==◌, Option, none,
  some, lookup, List, [], ◌∷◌, All, any, str_eq, eq_iff, arith,
}
use check_tx_server.Status
use check_tx_server.Tables.{MgoSwapResult}
use check_tx_server.Db.{Db, Env}
use check_tx_server.Db.Laws.{OnlyResult}
use check_tx_server.Results.{
  allocate_router_swap_nonce, update_router_swap_result, update_router_swap_result_status,
  update_router_old_swap_txs,
}
use check_tx_server.Results.Calls.{
  Call, allocate, update, set_status, add_old_tx, key_of, Effect, Step, Step-key, sets_back,
}
use check_tx_server.Results.Steps.{
  StepAt, Steps, update_router_swap_result_status-Steps, update_router_swap_result-Steps,
  update_router_old_swap_txs-Steps, allocate_router_swap_nonce-Steps,
}

-- The steps of the result under `j`, one for each call
abbrev pub Reach : List Call → String → MgoSwapResult → MgoSwapResult → Type 0
Reach [] j r r' = r' ≡ r
Reach (call ∷ calls) j r r' = (m : MgoSwapResult) × Step call j r m × Reach calls j m r'

abbrev pub ReachAt : List Call → String → Option MgoSwapResult → Option MgoSwapResult → Type 0
ReachAt calls j none none = Unit {0}
ReachAt calls j none (some r') = ⊥
ReachAt calls j (some r) none = ⊥
ReachAt calls j (some r) (some r') = Reach calls j r r'

ReachAt-here : (j : String) (o : Option MgoSwapResult) → ReachAt [] j o o
ReachAt-here j none = tt
ReachAt-here j (some r) = refl

ReachAt-onward :
    (call : Call) (calls : List Call) (j : String) (o o' o'' : Option MgoSwapResult)
    → StepAt call j o o'
    → ReachAt calls j o' o''
    → ReachAt (call ∷ calls) j o o''
ReachAt-onward call calls j none none none step more = tt
ReachAt-onward call calls j none none (some r'') step more = absurd more
ReachAt-onward call calls j none (some r') o'' step more = absurd step
ReachAt-onward call calls j (some r) none o'' step more = absurd step
ReachAt-onward call calls j (some r) (some r') none step more = absurd more
ReachAt-onward call calls j (some r) (some r') (some r'') step more = (r', step, more)

module _ (env : Env) where
  -- The database after a call, whatever it returns
  unfoldable pub perform : Call → Db → Db
  perform (allocate args nonce recycle) db =
      (allocate_router_swap_nonce env args nonce recycle db).1
  perform (update c t i items) db = (update_router_swap_result env c t i items db).1
  perform (set_status c t i status timestamp memo) db =
      (update_router_swap_result_status env c t i status timestamp memo db).1
  perform (add_old_tx c t i swap_tx) db = (update_router_old_swap_txs env c t i swap_tx db).1

  unfoldable pub run : List Call → Db → Db
  run [] db = db
  run (call ∷ calls) db = run calls (perform call db)

  -- No result but the one under the key of the call answers its query.
  abbrev pub Alone : Db → Call → Type 0
  Alone db call = OnlyResult env (key_of call) db

  perform-Steps :
      (call : Call) (db : Db) → Alone db call → Steps call db.results (perform call db).results
  unfolding perform
  perform-Steps (allocate args nonce recycle) db only =
      allocate_router_swap_nonce-Steps env args nonce recycle db only
  perform-Steps (update c t i items) db only =
      update_router_swap_result-Steps env c t i db only items
  perform-Steps (set_status c t i status timestamp memo) db only =
      update_router_swap_result_status-Steps env c t i status timestamp memo db
  perform-Steps (add_old_tx c t i swap_tx) db only =
      update_router_old_swap_txs-Steps env c t i db only swap_tx

  -- Steps bring no other answer to a query.
  key-before :
      (call : Call) (j : String) (o : Option MgoSwapResult) (x : MgoSwapResult)
      → StepAt call j o (some x)
      → (r : MgoSwapResult) × (o ≡ some r) × (x.key ≡ r.key)
  key-before call j none x step = absurd step
  key-before call j (some r) x step = (r, refl, Step-key call j r x step)

  OnlyResult-Steps :
      (call : Call) (k : String) (c d : Db)
      → Steps call c.results d.results
      → OnlyResult env k c
      → OnlyResult env k d
  OnlyResult-Steps call k c d steps only j x at_j answers =
      let (r, at, same) = key-before call j (lookup j c.results) x (rw at_j at (steps j)) in
      only j r at (rw⁻¹ same answers)

  All-Alone :
      (call : Call) (calls : List Call) (c d : Db)
      → Steps call c.results d.results
      → All (Alone c) calls
      → All (Alone d) calls
  All-Alone call [] c d steps only = tt
  All-Alone call (next ∷ calls) c d steps (one, others) =
      (OnlyResult-Steps call (key_of next) c d steps one, All-Alone call calls c d steps others)

  -- However AllocateRouterSwapNonce, UpdateRouterSwapResult, UpdateRouterSwapResultStatus and
  -- UpdateRouterOldSwapTxs follow each other, on whatever results, returning or failing, no result appears
  -- and none goes, and each call leaves a result as it is, or has its key and does to it what the call may
  -- do: an allocation gives its nonce, and an update writes a nonce or the status MatchTxNotStable, only
  -- where the result has neither a nonce nor a transaction. At the start, no result but the one under its
  -- key may answer the query of a call.
  pub run-Reach :
      (calls : List Call) (db : Db)
      → All (Alone db) calls
      → (j : String) → ReachAt calls j (lookup j db.results) (lookup j (run calls db).results)
  unfolding run
  run-Reach [] db only j = ReachAt-here j (lookup j db.results)
  run-Reach (call ∷ calls) db (one, others) j =
      let steps = perform-Steps call db one in
      ReachAt-onward call calls j (lookup j db.results) (lookup j (perform call db).results) _
        (steps j)
        (run-Reach calls (perform call db) (All-Alone call calls db (perform call db) steps others)
          j)

Effect-nonce :
    (call : Call) (r m : MgoSwapResult)
    → Effect call r m
    → r.swap_nonce ≢ 0
    → (m.swap_nonce ≡ r.swap_nonce) ⊎ (sets_back (key_of call) call ≡ true)
Effect-nonce (allocate args nonce recycle) r m ((zero_nonce, _), _) used = absurd (used zero_nonce)
Effect-nonce (update c t i items) r m (inr (zero_nonce, _), _) used = absurd (used zero_nonce)
Effect-nonce (update c t i items) r m (inl free, e) used =
    inl (ap (λ x. x.swap_nonce) e ∙ ground (arith, free))
Effect-nonce (set_status c t i status timestamp memo) r m e used =
    elim (Bool-cases (status == Status.reswapping)) [
      | inl again ↦
          let k = key_of (set_status c t i status timestamp memo) in
          let same : str_eq k k ≡ true = (eq_iff k k).1 refl in inr (rw same again)
      | inr other ↦ inl (ap (λ x. x.swap_nonce) e ∙ ground (arith, other))
    ]
Effect-nonce (add_old_tx c t i swap_tx) r m (_, (_, e)) used = inl (ap (λ x. x.swap_nonce) e)

Step-nonce :
    (call : Call) (j : String) (r m : MgoSwapResult)
    → Step call j r m
    → r.swap_nonce ≢ 0
    → (m.swap_nonce ≡ r.swap_nonce) ⊎ (sets_back j call ≡ true)
Step-nonce call j r m (inl same) used = inl (ap (λ x. x.swap_nonce) same)
Step-nonce call j r m (inr (is, effect)) used = rw is at (Effect-nonce call r m effect used)

Reach-nonce :
    (calls : List Call) (j : String) (r r' : MgoSwapResult)
    → Reach calls j r r'
    → r.swap_nonce ≢ 0
    → any (sets_back j) calls ≡ false
    → r'.swap_nonce ≡ r.swap_nonce
Reach-nonce [] j r r' same used none_set = ap (λ x. x.swap_nonce) same
Reach-nonce (call ∷ calls) j r r' (m, step, more) used none_set =
    elim (Step-nonce call j r m step used) [
      | inr set ↦ absurd (ground (arith, set, none_set))
      | inl kept ↦
          Reach-nonce calls j m r' more (λ z. used (sym kept ∙ z)) (ground (arith, none_set)) ∙ kept
    ]

after-some :
    (calls : List Call) (j : String) (r : MgoSwapResult) (o : Option MgoSwapResult)
    → ReachAt calls j (some r) o
    → (r' : MgoSwapResult) × (o ≡ some r') × Reach calls j r r'
after-some calls j r none reach = absurd reach
after-some calls j r (some r') reach = (r', refl, reach)

module _ (env : Env) where
  -- In such a run, in which no call for a result sets the status Reswapping, the result keeps the nonce
  -- that it has.
  pub run-keeps_nonce :
      (calls : List Call) (db : Db) (j : String) (r : MgoSwapResult)
      → All (Alone env db) calls
      → lookup j db.results ≡ some r
      → r.swap_nonce ≢ 0
      → any (sets_back j) calls ≡ false
      → (r' : MgoSwapResult) × (lookup j (run env calls db).results ≡ some r')
        × (r'.swap_nonce ≡ r.swap_nonce)
  run-keeps_nonce calls db j r only at used none_set =
      let (r', at', reach) = after-some calls j r _ (rw at at (run-Reach env calls db only j)) in
      (r', at', Reach-nonce calls j r r' reach used none_set)

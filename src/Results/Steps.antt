-- ===== src/Results/Steps.antt =====
-- The life of a result as steps: every operation of mongodb/api.go on results follows them.
use check_tx_server.Common.{
  ℕ, ◌/◌, String, ◌≡◌, refl, sym, subst, inl, inr, Bool, Bool-cases, Option, none, some, true,
  false, str_eq, eq_iff, lookup, arith, decimal, equal_fold, ◌==◌, ◌&&◌, ◌||◌,
}
use mathlib.Core.Option
use check_tx_server.Errors.{GoError}
use check_tx_server.Exec.{Result, ok, err}
use check_tx_server.Exec.Inversion.{Result-cases}
use check_tx_server.Status.{SwapStatus}
use check_tx_server.Tables.{MgoSwapResult, SwapResultUpdateItems}
use check_tx_server.Tokens.{BuildTxArgs}
use check_tx_server.Mongo.{Collection}
use check_tx_server.Db.{
  Db, Env, get_router_swap_key, find_router_swap_result, find_result, update_result, update_swap,
  now,
}
use check_tx_server.Db.Laws.{OnlyResult, find_router_swap_result-ok, update_result-effect}
use check_tx_server.Results.Calls.{
  Call, allocate, update, set_status, add_old_tx, key_of, Unused, given, pays, Effect, Step,
}
use check_tx_server.Results.{
  allocate_router_swap_nonce, update_router_swap_result, update_router_swap_result_status,
  update_router_old_swap_txs, with_result_status, with_items, with_old_swap_tx, has_old_tx,
}

-- The steps of all documents: none appears, and none goes.
abbrev pub StepAt : Call → String → Option MgoSwapResult → Option MgoSwapResult → Type 0
StepAt call j none none = Unit {0}
StepAt call j none (some r') = ⊥
StepAt call j (some r) none = ⊥
StepAt call j (some r) (some r') = Step call j r r'

abbrev pub Steps : Call → Collection MgoSwapResult → Collection MgoSwapResult → Type 0
Steps call c d = (j : String) → StepAt call j (lookup j c) (lookup j d)

StepAt-same : (call : Call) (j : String) (o : Option MgoSwapResult) → StepAt call j o o
StepAt-same call j none = tt
StepAt-same call j (some r) = inl refl

StepAt-map :
    (call : Call) (j : String) (f : MgoSwapResult → MgoSwapResult) (o : Option MgoSwapResult)
    → key_of call ≡ j
    → ((r : MgoSwapResult) → o ≡ some r → Effect call r (f r))
    → StepAt call j o (Option.map f o)
StepAt-map call j f none is step = tt
StepAt-map call j f (some r) is step = inr (is, step r refl)

Steps-same : (call : Call) (c d : Collection MgoSwapResult) → d ≡ c → Steps call c d
Steps-same call c d same j = rw same (StepAt-same call j (lookup j c))

module _ (env : Env) where
  update-Steps :
      (call : Call) (f : MgoSwapResult → MgoSwapResult) (db : Db)
      → ((r : MgoSwapResult) → lookup (key_of call) db.results ≡ some r → Effect call r (f r))
      → Steps call db.results (update_result env (key_of call) f db).1.results
  update-Steps call f db step j = elim (update_result-effect env (key_of call) f db) [
    | inl same ↦ rw (same j) (StepAt-same call j (lookup j db.results))
    | inr changed ↦ elim (Bool-cases (str_eq (key_of call) j)) [
      | inr other ↦ rw (changed j) (rw other (StepAt-same call j (lookup j db.results)))
      | inl at_k ↦
          let is : key_of call ≡ j = (eq_iff (key_of call) j).0 at_k in
          rw (changed j)
            (rw at_k (StepAt-map call j f (lookup j db.results) is (λ r e. step r (rw is e))))
    ]
  ]

  pub update_router_swap_result_status-Steps :
      (c t : String) (i : ℕ) (status : SwapStatus) (timestamp : ℕ) (memo : String) (db : Db)
      → Steps
          (set_status c t i status timestamp memo)
          db.results
          (update_router_swap_result_status env c t i status timestamp memo db).1.results
  unfolding update_router_swap_result_status
  update_router_swap_result_status-Steps c t i status timestamp memo db =
      update-Steps (set_status c t i status timestamp memo)
        (with_result_status status timestamp memo) db (λ r e. refl)

  -- A check that passes found the result under the key without nonce and transaction.
  module _ (c t : String) (i : ℕ) (db : Db)
      (only : OnlyResult env (get_router_swap_key c t i) db) where
    abbrev key : String
    key = get_router_swap_key c t i

    abbrev find : Result MgoSwapResult × Db
    find = find_router_swap_result env c t i db

    abbrev time : ℕ
    time = env.milli find.1.ticks / 1000

    abbrev timed : Db
    timed = (now env find.1).1

    find-results : find.1.results ≡ db.results
    unfolding find_router_swap_result find_result
    find-results = refl

    found-is : (r r' : MgoSwapResult) → find.0 ≡ ok r → lookup key db.results ≡ some r' → r' ≡ r
    found-is r r' e at =
        let at' = find_router_swap_result-ok env c t i db r only e in ground (arith, at, at')

    found-Unused :
        (r r' : MgoSwapResult)
        → find.0 ≡ ok r
        → (r.swap_nonce == 0 && str_eq r.swap_tx "") ≡ true
        → lookup key db.results ≡ some r'
        → Unused r'
    found-Unused r r' e unused at =
        rw (found-is r r' e at)
          (ground (arith, unused), (eq_iff r.swap_tx "").0 (ground (arith, unused)))

    module _ (items : SwapResultUpdateItems) where
      abbrev checked : Bool
      checked = pays items

      abbrev after : Db
      after = (update_router_swap_result env c t i items db).1

      after-free :
          checked ≡ false → after.results ≡ (update_result env key (with_items items) db).1.results
      unfolding update_router_swap_result
      after-free free = ground (arith, free)

      after-err : (x : GoError) → checked ≡ true → find.0 ≡ err x → after.results ≡ db.results
      unfolding update_router_swap_result
      after-err x check e = ground (arith, check, e, find-results)

      after-used :
          (r : MgoSwapResult)
          → checked ≡ true
          → find.0 ≡ ok r
          → (r.swap_nonce == 0 && str_eq r.swap_tx "") ≡ false
          → after.results ≡ db.results
      unfolding update_router_swap_result
      after-used r check e used = ground (arith, check, e, used, find-results)

      after-give :
          (r : MgoSwapResult)
          → checked ≡ true
          → find.0 ≡ ok r
          → (r.swap_nonce == 0 && str_eq r.swap_tx "") ≡ true
          → after.results ≡ (update_result env key (with_items items) find.1).1.results
      unfolding update_router_swap_result
      after-give r check e unused = ground (arith, check, e, unused)

      abbrev updating : Call
      updating = update c t i items

      pub update_router_swap_result-Steps :
          Steps updating db.results (update_router_swap_result env c t i items db).1.results
      unfolding find_router_swap_result find_result
      update_router_swap_result-Steps = elim (Bool-cases checked) [
        | inr free ↦
            rw (after-free free)
              (update-Steps updating (with_items items) db (λ r e. (inl free, refl)))
        | inl check ↦ elim (Result-cases find.0) [
          | inr (x, e) ↦ Steps-same updating db.results after.results (after-err x check e)
          | inl (r, e) ↦ elim (Bool-cases (r.swap_nonce == 0 && str_eq r.swap_tx "")) [
            | inr used ↦ Steps-same updating db.results after.results (after-used r check e used)
            | inl unused ↦ rw (after-give r check e unused) (
                update-Steps updating (with_items items) find.1
                  (λ r' at. (inr (found-Unused r r' e unused at), refl)))
          ]
        ]
      ]

    module _ (swap_tx : String) where
      abbrev added : Db
      added = (update_router_old_swap_txs env c t i swap_tx db).1

      added-new :
          (r : MgoSwapResult)
          → str_eq swap_tx "" ≡ false
          → find.0 ≡ ok r
          → (equal_fold swap_tx r.swap_tx || has_old_tx swap_tx r.old_swap_txs) ≡ false
          → added.results
            ≡ (update_result env key (with_old_swap_tx r swap_tx time) timed).1.results
      unfolding update_router_old_swap_txs now
      added-new r some_tx e new = ground (arith, some_tx, e, new)

      abbrev adding : Call
      adding = add_old_tx c t i swap_tx

      -- What was read is what is under the key.
      added-Effect :
          (r r' : MgoSwapResult)
          → find.0 ≡ ok r
          → (equal_fold swap_tx r.swap_tx || has_old_tx swap_tx r.old_swap_txs) ≡ false
          → lookup key db.results ≡ some r'
          → Effect adding r' (with_old_swap_tx r swap_tx time r')
      added-Effect r r' e new at =
          subst (λ x. Effect adding x (with_old_swap_tx r swap_tx time x))
            (sym (found-is r r' e at)) (new, (time, refl))

      pub update_router_old_swap_txs-Steps :
          Steps adding db.results (update_router_old_swap_txs env c t i swap_tx db).1.results
      unfolding update_router_old_swap_txs find_router_swap_result find_result now
      update_router_old_swap_txs-Steps = elim (Bool-cases (str_eq swap_tx "")) [
        | inl nil ↦ Steps-same adding db.results added.results (ground (arith, nil))
        | inr some_tx ↦ elim (Result-cases find.0) [
          | inr (x, e) ↦ Steps-same adding db.results added.results (ground (arith, some_tx, e))
          | inl (r, e) ↦
              elim (Bool-cases
                (equal_fold swap_tx r.swap_tx || has_old_tx swap_tx r.old_swap_txs)) [
                  | inl known ↦
                      Steps-same adding db.results added.results (ground (arith, some_tx, e, known))
                  | inr new ↦ rw (added-new r some_tx e new) (
                      update-Steps adding (with_old_swap_tx r swap_tx time) timed
                        (λ r' at. added-Effect r r' e new at))
                ]
        ]
      ]

  module _ (args : BuildTxArgs) (nonce : ℕ) (recycle : Bool) (db : Db)
      (only : OnlyResult env
        (get_router_swap_key (decimal args.from_chain_id) args.swap_id args.log_index)
        db) where
    abbrev at_time : ℕ
    at_time = time (decimal args.from_chain_id) args.swap_id args.log_index db only

    abbrev allocating : Call
    allocating = allocate args nonce recycle

    abbrev reading : Result MgoSwapResult × Db
    reading =
        find_router_swap_result env (decimal args.from_chain_id) args.swap_id args.log_index db

    abbrev allocated : Db
    allocated = (allocate_router_swap_nonce env args nonce recycle db).1

    abbrev wrote : Result (Unit {0}) × Db
    wrote =
        update_result env
          (get_router_swap_key (decimal args.from_chain_id) args.swap_id args.log_index)
          (given args nonce at_time) (now env reading.1).1

    allocated-give :
        (r : MgoSwapResult)
        → (recycle && nonce == 0) ≡ false
        → reading.0 ≡ ok r
        → (r.swap_nonce == 0 && str_eq r.swap_tx "") ≡ true
        → allocated.results ≡ wrote.1.results
    unfolding allocate_router_swap_nonce now update_swap
    allocated-give r fresh e unused = elim (Result-cases wrote.0) [
      | inl (t, done) ↦ ground (arith, fresh, e, unused, done)
      | inr (x, fails) ↦ ground (arith, fresh, e, unused, fails)
    ]

    pub allocate_router_swap_nonce-Steps :
        Steps allocating db.results (allocate_router_swap_nonce env args nonce recycle db).1.results
    unfolding allocate_router_swap_nonce find_router_swap_result find_result now
    allocate_router_swap_nonce-Steps = elim (Bool-cases (recycle && nonce == 0)) [
      | inl spent ↦ Steps-same allocating db.results allocated.results (ground (arith, spent))
      | inr fresh ↦ elim (Result-cases reading.0) [
        | inr (x, e) ↦ Steps-same allocating db.results allocated.results (ground (arith, fresh, e))
        | inl (r, e) ↦ elim (Bool-cases (r.swap_nonce == 0 && str_eq r.swap_tx "")) [
          | inr used ↦
              Steps-same allocating db.results allocated.results (ground (arith, fresh, e, used))
          | inl unused ↦ rw (allocated-give r fresh e unused) (
              update-Steps allocating (given args nonce at_time) (now env reading.1).1
                (λ r' at. (found-Unused _ _ _ db only r r' e unused at, (at_time, refl))))
        ]
      ]
    ]

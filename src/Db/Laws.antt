-- ===== src/Db/Laws.antt =====
-- What one call of the database does, in terms of the documents before and after it.
use check_tx_server.Common.{
  ℕ, String, ◌≢◌, Option-cases, Bool-cases, sym, ◌≡◌, ◌⊎◌, inl, inr, true, false, some, str_eq,
  eq_iff, lookup, arith,
}
use check_tx_server.Exec.{ok}
use check_tx_server.Tables.{MgoSwap, MgoSwapResult}
use check_tx_server.Status.{SwapStatus}
use check_tx_server.Mongo.{
  Reply, found, no_documents, duplicate_key, broken, Collection, Same, Changed, Put,
}
use check_tx_server.Db.{
  Db, Env, get_router_swap_key, mgo_error, find_swap, find_result, update_swap, update_result,
  find_router_swap, find_router_swap_result,
}

pub mgo_error-ok {ℓ} : {A : Type ℓ} (r : Reply A) {a : A} → mgo_error r ≡ ok a → r ≡ found a
mgo_error-ok (found a) h = cc
mgo_error-ok no_documents h = cc
mgo_error-ok duplicate_key h = cc
mgo_error-ok (broken m) h = cc

module _ {D : Type 0} (k : String) (f : D → D) (c d : Collection D) (h : Changed k f c d) where
  pub lookup-changed : (x : D) → lookup k c ≡ some x → lookup k d ≡ some (f x)
  lookup-changed x e = ground (arith, h k, eq_iff k k)

  pub lookup-changed_ne : (j : String) → str_eq k j ≡ false → lookup j d ≡ lookup j c
  lookup-changed_ne j e = ground (arith, h j)

-- No swap, or no result, but the one under the key itself answers the query for that key.
abbrev pub OnlySwap : Env → String → Db → Type 0
OnlySwap env k db =
    (j : String) (x : MgoSwap) → lookup j db.swaps ≡ some x → env.regex k x.key ≡ true → j ≡ k

abbrev pub OnlyResult : Env → String → Db → Type 0
OnlyResult env k db =
    (j : String) (x : MgoSwapResult)
    → lookup j db.results ≡ some x
    → env.regex k x.key ≡ true
    → j ≡ k

module _ (env : Env) where
  pub find_router_swap-ok :
      (c t : String) (i : ℕ) (db : Db) (x : MgoSwap)
      → OnlySwap env (get_router_swap_key c t i) db
      → (find_router_swap env c t i db).0 ≡ ok x
      → lookup (get_router_swap_key c t i) db.swaps ≡ some x
  unfolding find_router_swap find_swap
  find_router_swap-ok c t i db x only h =
      let (j, at_j, passes) =
        env.swaps_driver.find_found db.ticks _ db.swaps x (mgo_error-ok _ h) in
      rw (only j x at_j passes) at at_j

  pub find_router_swap_result-ok :
      (c t : String) (i : ℕ) (db : Db) (x : MgoSwapResult)
      → OnlyResult env (get_router_swap_key c t i) db
      → (find_router_swap_result env c t i db).0 ≡ ok x
      → lookup (get_router_swap_key c t i) db.results ≡ some x
  unfolding find_router_swap_result find_result
  find_router_swap_result-ok c t i db x only h =
      let (j, at_j, passes) =
        env.results_driver.find_found db.ticks _ db.results x (mgo_error-ok _ h) in
      rw (only j x at_j passes) at at_j

  pub update_swap-ok :
      (k : String) (f : MgoSwap → MgoSwap) (db : Db)
      → (update_swap env k f db).0 ≡ ok tt
      → Changed k f db.swaps (update_swap env k f db).1.swaps
  unfolding update_swap
  update_swap-ok k f db h = env.swaps_driver.update_done db.ticks k f db.swaps (mgo_error-ok _ h)

  pub update_result-ok :
      (k : String) (f : MgoSwapResult → MgoSwapResult) (db : Db)
      → (update_result env k f db).0 ≡ ok tt
      → Changed k f db.results (update_result env k f db).1.results
  unfolding update_result
  update_result-ok k f db h =
      env.results_driver.update_done db.ticks k f db.results (mgo_error-ok _ h)

  pub update_swap-effect :
      (k : String) (f : MgoSwap → MgoSwap) (db : Db)
      → let d = (update_swap env k f db).1.swaps in Same db.swaps d ⊎ Changed k f db.swaps d
  unfolding update_swap
  update_swap-effect k f db = env.swaps_driver.update_effect db.ticks k f db.swaps

  pub update_result-effect :
      (k : String) (f : MgoSwapResult → MgoSwapResult) (db : Db)
      → let d = (update_result env k f db).1.results in Same db.results d ⊎ Changed k f db.results d
  unfolding update_result
  update_result-effect k f db = env.results_driver.update_effect db.ticks k f db.results

  -- An update that does not give the status `bad` makes no swap have it.
  pub update_swap-status :
      (bad : SwapStatus) (k : String) (f : MgoSwap → MgoSwap) (db : Db)
      → ((s : MgoSwap) → (f s).status ≢ bad)
      → (j : String) (s : MgoSwap) → lookup j (update_swap env k f db).1.swaps ≡ some s
      → s.status ≡ bad
      → lookup j db.swaps ≡ some s
  update_swap-status bad k f db never j s e is_bad = elim (update_swap-effect k f db) [
    | inl same ↦ ground (arith, same j)
    | inr changed ↦ elim (Option-cases (lookup j db.swaps)) [
      | inl free ↦ ground (arith, changed j)
      | inr (x, at_j) ↦ ground (arith, changed j, never x)
    ]
  ]

-- A result of the kind `P` was of it before.
abbrev pub NoneNew :
    (MgoSwapResult → Type 0) → Collection MgoSwapResult → Collection MgoSwapResult → Type 0
NoneNew P c d =
    (j : String) (r : MgoSwapResult)
    → lookup j d ≡ some r
    → P r
    → (r' : MgoSwapResult) × (lookup j c ≡ some r') × P r'

module _ (P : MgoSwapResult → Type 0) where
  pub NoneNew-of_Same : (c d : Collection MgoSwapResult) → Same c d → NoneNew P c d
  NoneNew-of_Same c d same j r e kind = (r, rw (sym (same j)) e, kind)

  pub NoneNew-of_Changed :
      (k : String) (f : MgoSwapResult → MgoSwapResult) (c d : Collection MgoSwapResult)
      → ((r : MgoSwapResult) → P (f r) → P r)
      → Changed k f c d
      → NoneNew P c d
  NoneNew-of_Changed k f c d old changed j r e kind = elim (Bool-cases (str_eq k j)) [
    | inr other ↦ (r, ground (arith, changed j), kind)
    | inl same ↦ elim (Option-cases (lookup j c)) [
      | inl free ↦ absurd (ground (arith, changed j))
      | inr (x, at_j) ↦
          let is : f x ≡ r = ground (arith, changed j) in (x, at_j, old x (rw is kind))
    ]
  ]

pub Put-of_Changed :
    {D : Type 0} (k : String) (f : D → D) (c d : Collection D) (x : D)
    → lookup k c ≡ some x
    → Changed k f c d
    → Put k (f x) c d
Put-of_Changed k f c d x e h j = ground (arith, h j, eq_iff k j)

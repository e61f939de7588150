-- ===== src/Db.antt =====
-- The database of package mongodb (collRouterSwap and collRouterSwapResult), its calls of the driver
-- with mgoError (mongodb/errors.go) around them, and the clock.
pub mod Laws
use check_tx_server.Common.{ℕ, suc, ◌/◌, String, Bool, [], ◌∷◌, to_lower, concat, decimal}
use check_tx_server.Errors.{mgo, item_not_found, item_is_dup, failure}
use check_tx_server.Exec.{Result, ok, err, Exec}
use check_tx_server.Tables.{MgoSwap, MgoSwapResult}
use check_tx_server.Mongo.{Reply, found, no_documents, duplicate_key, broken, Collection, Driver}

-- `ticks` counts the calls that leave the program, so that their answers may vary with time.
pub record Db : Type 0 where
  pub ticks : ℕ
  pub swaps : Collection MgoSwap
  pub results : Collection MgoSwapResult

-- What package mongodb calls: the clock (milliseconds), the test of a case-insensitive $regex query,
-- the pattern first, and the driver on each collection.
pub record Env : Type 0 where
  pub milli : ℕ → ℕ
  pub regex : String → String → Bool
  pub swaps_driver : Driver MgoSwap
  pub results_driver : Driver MgoSwapResult

abbrev pub get_router_swap_key : String → String → ℕ → String
get_router_swap_key from_chain_id tx_id log_index =
    to_lower (concat (from_chain_id ∷ ":" ∷ tx_id ∷ ":" ∷ decimal log_index ∷ []))

-- mgoError, at the error of a driver's answer
abbrev pub mgo_error {ℓ} : {A : Type ℓ} → Reply A → Result A
mgo_error (found a) = ok a
mgo_error no_documents = err (mgo item_not_found)
mgo_error duplicate_key = err (mgo item_is_dup)
mgo_error (broken m) = err (mgo (failure m))

module _ (env : Env) where
  unfoldable pub now_milli : Exec Db ℕ
  now_milli db = (ok (env.milli db.ticks), record db { ticks = suc db.ticks })

  -- time.Now().Unix()
  unfoldable pub now : Exec Db ℕ
  now db = (ok (env.milli db.ticks / 1000), record db { ticks = suc db.ticks })

  unfoldable pub find_swap : (MgoSwap → Bool) → Exec Db MgoSwap
  find_swap query db = (
    mgo_error (env.swaps_driver.find_one db.ticks query db.swaps),
    record db { ticks = suc db.ticks },
  )

  unfoldable pub find_result : (MgoSwapResult → Bool) → Exec Db MgoSwapResult
  find_result query db = (
    mgo_error (env.results_driver.find_one db.ticks query db.results),
    record db { ticks = suc db.ticks },
  )

  -- InsertOne, with the driver's own answer
  unfoldable pub insert_swap : MgoSwap → Exec Db (Reply (Unit {0}))
  insert_swap x db =
      let (r, c) = env.swaps_driver.insert_one db.ticks x.key x db.swaps in
      (ok r, record db { ticks = suc db.ticks; swaps = c })

  unfoldable pub insert_result : MgoSwapResult → Exec Db (Reply (Unit {0}))
  insert_result x db =
      let (r, c) = env.results_driver.insert_one db.ticks x.key x db.results in
      (ok r, record db { ticks = suc db.ticks; results = c })

  -- UpdateByID with $set: `f` sets the fields
  unfoldable pub update_swap : String → (MgoSwap → MgoSwap) → Exec Db (Unit {0})
  update_swap k f db =
      let (r, c) = env.swaps_driver.update_by_id db.ticks k f db.swaps in
      (mgo_error r, record db { ticks = suc db.ticks; swaps = c })

  unfoldable pub update_result : String → (MgoSwapResult → MgoSwapResult) → Exec Db (Unit {0})
  update_result k f db =
      let (r, c) = env.results_driver.update_by_id db.ticks k f db.results in
      (mgo_error r, record db { ticks = suc db.ticks; results = c })

  -- The queries on `_id` of FindRouterSwap and FindRouterSwapResult
  unfoldable pub find_router_swap : String → String → ℕ → Exec Db MgoSwap
  find_router_swap from_chain_id tx_id log_index =
      let key = get_router_swap_key from_chain_id tx_id log_index in
      find_swap (λ swap. env.regex key swap.key)

  unfoldable pub find_router_swap_result : String → String → ℕ → Exec Db MgoSwapResult
  find_router_swap_result from_chain_id tx_id log_index =
      let key = get_router_swap_key from_chain_id tx_id log_index in
      find_result (λ result. env.regex key result.key)

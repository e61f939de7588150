-- ===== src/Worker/Stable/Passed.antt =====
-- When checkIfSwapNonceHasPassed writes to the database.
use check_tx_server.Common.{
  ℕ, String, Bool, false, Option, some, List, [], ◌∷◌, ◌≡◌, ◌<◌, refl, arith,
}
use check_tx_server.Exec.{Result, ok}
use check_tx_server.Tables.{MgoSwapResult}
use check_tx_server.Tokens.{TxStatus}
use check_tx_server.Worker.{World, Setup, Bridge, NonceSetter, tick}
use check_tx_server.Worker.Stable.{get_swap_tx_status, search_old, has_height, Located}
use check_tx_server.Worker.Stable.Search.{AnswerFor}

-- The chain knows no mined transaction of the swap, but has gone past its nonce, which is not 0.
abbrev pub Passed : Bridge → MgoSwapResult → Type 0
Passed bridge res =
    (setter : NonceSetter) × (n nonce : ℕ) × (out : Located bridge) × (bridge.nonce_setter
      ≡ some setter)
    × (setter.get_pool_nonce n res.mpc "latest" ≡ ok nonce)
    × AnswerFor bridge res (res.swap_tx ∷ res.old_swap_txs) out
    × (has_height out.0 ≡ false)
    × (0 < res.swap_nonce)
    × (res.swap_nonce < nonce)

module _ (bridge : Bridge) where
  search_old-Db :
      (swap : MgoSwapResult) (first : Option TxStatus) (olds : List String) (w : World)
      → (search_old bridge swap first olds w).1.db.results ≡ w.db.results
  unfolding search_old tick
  search_old-Db swap first [] w = refl
  search_old-Db swap first (old ∷ olds) w =
      ground (arith, search_old-Db swap first olds w, search_old-Db swap first olds (tick w).1)

  pub get_swap_tx_status-Db :
      (swap : MgoSwapResult) (w : World)
      → (get_swap_tx_status bridge swap w).1.db.results ≡ w.db.results
  unfolding get_swap_tx_status tick
  get_swap_tx_status-Db swap w = ground (
    arith,
    search_old-Db swap (bridge.get_transaction_status w.db.ticks swap.swap_tx).0 swap.old_swap_txs
        (tick w).1,
  )

module _ (u : Setup) (bridge : Bridge) (res : MgoSwapResult) (is_replace : Bool) where
  module _ (setter : NonceSetter) (w : World) where
    abbrev pub asked : Result ℕ
    asked = setter.get_pool_nonce w.db.ticks res.mpc "latest"

    abbrev pub located : Result (Located bridge) × World
    located = get_swap_tx_status bridge res (tick w).1

-- ===== src/Worker/Failed/Revives.antt =====
-- When checkFailedRouterSwap takes up a result again.
use check_tx_server.Common.{ℕ, ◌≤◌, ◌≡◌, ◌⊎◌, some, true, false, ◌∷◌}
use check_tx_server.Exec.{ok}
use check_tx_server.Tables.{MgoSwapResult}
use check_tx_server.Tokens.{is_swap_tx_on_chain_and_failed}
use check_tx_server.Worker.{Bridge, NonceSetter}
use check_tx_server.Worker.Stable.{has_height, Located}
use check_tx_server.Worker.Stable.Search.{AnswerFor}

-- The transaction of the swap may still be, or is, mined: the chain answers that it is, and did not
-- fail, or that the sender's nonce is not above that of the swap.
abbrev pub Alive : Bridge → MgoSwapResult → Type 0
Alive bridge swap =
    (out : Located bridge) × AnswerFor bridge swap (swap.swap_tx ∷ swap.old_swap_txs) out
    × (is_swap_tx_on_chain_and_failed out.0 ≡ false)
    × ((has_height out.0 ≡ true)
        ⊎ ((setter : NonceSetter) × (n nonce : ℕ) × (bridge.nonce_setter ≡ some setter)
            × (setter.get_pool_nonce n swap.mpc "latest" ≡ ok nonce)
            × (nonce ≤ swap.swap_nonce)))

-- ===== src/Worker/Replace/Checks.antt =====
-- What is known of a result whose transaction is sent again.
use check_tx_server.Common.{String, Bool, true, none, some, ◌≡◌, ◌≢◌, ◌⊎◌}
use check_tx_server.Exec.{ok}
use check_tx_server.Status
use check_tx_server.Tables.{MgoSwapResult}
use check_tx_server.Tokens.{BuildTxArgs, get_tx_nonce}
use check_tx_server.Db.{Db}
use check_tx_server.Worker.{Setup, Bridge, NonceSetter}
use check_tx_server.Worker.Stable.Open.{Open}

-- The result may get another transaction.
abbrev pub Replaceable : Bridge → MgoSwapResult → Bool → Type 0
Replaceable bridge res is_manual =
    (res.status ≡ Status.match_tx_not_stable)
    × ((is_manual ≡ true) ⊎ ((res.swap_nonce ≢ 0) × (res.swap_height ≡ 0)))
    × ((bridge.nonce_setter ≡ none)
        ⊎ ((setter : NonceSetter) × (bridge.nonce_setter ≡ some setter) × Open bridge res setter))

module _ (u : Setup) (res : MgoSwapResult) where
  -- A replacement that is prepared
  abbrev pub Built : Bridge → String → BuildTxArgs → Type 0
  Built bridge raw_tx built =
      (db : Db) × (args : BuildTxArgs) × ((bridge.build_raw_transaction args db).0
        ≡ ok (raw_tx, built))
      × (args.from ≡ res.mpc)
      × (get_tx_nonce args ≡ res.swap_nonce)

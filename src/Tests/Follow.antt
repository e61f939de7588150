-- ===== src/Tests/Follow.antt =====
-- The theorems on following, replacing and reviving a transaction, at a bridge that knows one.
use check_tx_server.Common.{◌≡◌, ◌⊎◌, false, none, some, [], ◌∷◌}
use check_tx_server.Exec.{ok}
use check_tx_server.Status
use check_tx_server.Tables.{MgoSwapResult}
use check_tx_server.Tokens.{TxStatus, Receipt, BuildTxArgs}
use check_tx_server.Db.{Db}
use check_tx_server.Db.Laws.{NoneNew}
use check_tx_server.Worker.{World, Setup, Bridge, NonceSetter}
use check_tx_server.Worker.Turns.{Has}
use check_tx_server.Worker.Stable.{Located, get_swap_tx_status, process_router_swap_stable}
use check_tx_server.Worker.Stable.Search.{AnswerFor, get_swap_tx_status-finds}
use check_tx_server.Worker.Stable.Settles.{Final, process_router_swap_stable-Final}
use check_tx_server.Worker.Stable.Passed.{Passed}
use check_tx_server.Worker.Replace.{replace_args}
use check_tx_server.Db
use check_tx_server.Worker.BigValue.{process_pass_big_val_router_swap}
use check_tx_server.Worker.BigValue.Passes.{Due, process_pass_big_val_router_swap-Due}
use check_tx_server.Tokens.Payload.{no_info}
use check_tx_server.Tests.Fixtures.{fresh, swap, key, one_swap}
use check_tx_server.Tests.Jobs.{setup, world, bridge}

abbrev mined : TxStatus
mined = record {
  sender = "0xmpc";
  block_hash = "0xblock";
  receipt = Receipt.absent;
  confirmations = 20;
  block_height = 90;
  block_time = 0;
}

abbrev nonces : NonceSetter
nonces = record { get_pool_nonce = λ n account height. ok 7 }

abbrev deep : Bridge
deep = record bridge {
  get_transaction_status = λ n t. (some mined, none);
  nonce_setter = some nonces;
}

abbrev following : Setup
following = record setup { bridges = ("56", deep) ∷ [] }

abbrev quiet : Bridge
quiet = record bridge { nonce_setter = some nonces }

abbrev replacing : Setup
replacing = record setup { bridges = ("56", quiet) ∷ [] }

abbrev sent : MgoSwapResult
sent = record fresh {
  status = Status.match_tx_not_stable;
  swap_tx = "0xhash";
  swap_nonce = 7;
  swap_height = 90;
  mpc = "0xmpc";
}

abbrev sent_world : MgoSwapResult → World
sent_world r = world (record { ticks = 0; swaps = (key, swap) ∷ []; results = (key, r) ∷ [] })

process_router_swap_stable_example :
    NoneNew
      (Has following Status.match_tx_stable)
      (sent_world sent).db.results
      (process_router_swap_stable following sent (sent_world sent)).1.db.results
    ⊎ Final following sent false
process_router_swap_stable_example =
    process_router_swap_stable-Final following sent (sent_world sent)

get_swap_tx_status_example :
    (out : Located deep) × ((get_swap_tx_status deep sent (sent_world sent)).0 ≡ ok out)
    × AnswerFor deep sent ("0xhash" ∷ []) out
unfolding fresh
get_swap_tx_status_example = get_swap_tx_status-finds deep sent (sent_world sent)

process_pass_big_val_router_swap_example :
    ((process_pass_big_val_router_swap setup
        (record swap { status = Status.tx_with_big_value })
        (world one_swap)).1.db.swaps
      ≡ one_swap.swaps)
    ⊎ Due setup (record swap { status = Status.tx_with_big_value }) (world one_swap)
process_pass_big_val_router_swap_example =
    process_pass_big_val_router_swap-Due setup (record swap { status = Status.tx_with_big_value })
      (world one_swap)

abbrev unmined : MgoSwapResult
unmined = record sent { swap_height = 0 }

abbrev rebuilt : BuildTxArgs
rebuilt = replace_args replacing unmined swap no_info none 1 1 1

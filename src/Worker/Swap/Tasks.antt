-- ===== src/Worker/Swap/Tasks.antt =====
-- The channels of the waiting tasks, which dispatchSwapTask fills.
use check_tx_server.Common.{
  ◌≤◌, String, ◌≡◌, Bool-cases, Option-cases, some, List, [], ◌∷◌, ◌++◌, length, length-append,
  arith, decimal, lookup, lookup-set_entry, inl, inr, ltb,
}
use check_tx_server.Tokens.{BuildTxArgs, is_valid_type}
use check_tx_server.Worker.{World}
use check_tx_server.Worker.Swap.{dispatch_swap_task, push_task, swap_chan_size}

-- No channel holds more tasks than it has room for.
abbrev pub Bounded : World → Type 0
Bounded w =
    (chain : String) (waiting : List BuildTxArgs)
    → lookup chain w.swap_tasks ≡ some waiting
    → length waiting ≤ swap_chan_size

-- Dispatching a task, whether it is accepted or refused, keeps every channel within its room.
pub dispatch_swap_task-Bounded :
    (args : BuildTxArgs) (w : World) → Bounded w → Bounded (dispatch_swap_task args w).1
unfolding dispatch_swap_task push_task
dispatch_swap_task-Bounded args w h chain waiting e =
    let chan = decimal args.to_chain_id in
    elim (Bool-cases (is_valid_type args.swap_type)) [
      | inr unknown ↦ h chain waiting (ground arith)
      | inl valid ↦ elim (Option-cases (lookup chan w.swap_tasks)) [
        | inl no_channel ↦ h chain waiting (ground arith)
        | inr (tasks, at) ↦ elim (Bool-cases (ltb (length tasks) swap_chan_size)) [
          | inr full ↦ h chain waiting (ground arith)
          | inl room ↦ ground (
            arith,
            lookup-set_entry chan chain (tasks ++ (args ∷ [])) w.swap_tasks,
            length-append tasks (args ∷ []),
            h chain waiting,
          )
        ]
      ]
    ]

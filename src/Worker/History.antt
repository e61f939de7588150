-- ===== src/Worker/History.antt =====
-- worker/swap.go: the ring of the swaps that were sent, and the set of those in work.
pub mod Ring
use check_tx_server.Common.{
  ℕ, zero, suc, String, leb, ◌==◌, Bool, true, false, ◌&&◌, Option, none, some, List, [], ◌∷◌, ◌++◌,
  length, any, str_eq, without, if◌then◌else◌,
}
use check_tx_server.Errors.{worker, already_swapped}
use check_tx_server.Exec.{Result, ok, err, Exec, pure, fail, gets, modify, ◌>>=◌, ◌>>◌}
use check_tx_server.Worker.{World, Setup, SwapHistory}
use mathlib.Core.List.{reverse}

abbrev pub swap_ring_max_size : ℕ
swap_ring_max_size = 1000

abbrev pub max_cached_swap_tasks : ℕ
max_cached_swap_tasks = 1000

abbrev drop_first : List SwapHistory → List SwapHistory
drop_first [] = []
drop_first (h ∷ hs) = hs

-- addSwapHistory on the ring, the oldest entry first: a full ring loses that one.
unfoldable pub add_entry : SwapHistory → List SwapHistory → List SwapHistory
add_entry item ring =
    if length ring == swap_ring_max_size
    then drop_first ring ++ (item ∷ [])
    else ring ++ (item ∷ [])

unfoldable pub add_swap_history : String → String → ℕ → String → Exec World (Unit {0})
unfolding add_entry
add_swap_history chain_id tx_id log_index match_tx = modify (λ w. record w {
  swap_ring =
      add_entry
        (record { chain_id = chain_id; tx_id = tx_id; log_index = log_index; match_tx = match_tx })
        w.swap_ring;
})

-- The walk by Prev from the ring's first entry: that one, then the others from the latest on.
walk : List SwapHistory → List SwapHistory
walk [] = []
walk (h ∷ hs) = h ∷ reverse hs

first_of_swap : String → String → ℕ → List SwapHistory → Option SwapHistory
first_of_swap chain_id tx_id log_index [] = none
first_of_swap chain_id tx_id log_index (h ∷ hs) =
    if str_eq h.tx_id tx_id && str_eq h.chain_id chain_id && h.log_index == log_index
    then some h
    else first_of_swap chain_id tx_id log_index hs

unfoldable pub get_swap_history : String → String → ℕ → List SwapHistory → Option SwapHistory
unfolding walk first_of_swap
get_swap_history chain_id tx_id log_index ring = first_of_swap chain_id tx_id log_index (walk ring)

abbrev pub remove_swap_task : String → World → World
remove_swap_task key w = record w { cached_swap_tasks = without key w.cached_swap_tasks }

-- checkAndUpdateProcessSwapTaskCache
unfoldable pub check_and_update_process_swap_task_cache : Setup → String → Exec World (Unit {0})
check_and_update_process_swap_task_cache u key = do
  tasks ← gets (λ w. w.cached_swap_tasks)
  if any (str_eq key) tasks
      then fail (worker already_swapped)
      else modify (λ w. record w {
        cached_swap_tasks =
            key
            ∷ (if leb max_cached_swap_tasks (length w.cached_swap_tasks)
                then u.evict w.db.ticks w.cached_swap_tasks
                else w.cached_swap_tasks);
      })

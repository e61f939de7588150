-- ===== src/Results/Calls.antt =====
-- The calls of mongodb/api.go that update a result, and what each may do to one.
use check_tx_server.Common.{
  ℕ, String, ◌≡◌, ap, ◌⊎◌, inl, inr, Bool, Bool-cases, false, not, ◌==◌, ◌&&◌, ◌||◌, str_eq,
  equal_fold, arith, decimal,
}
use check_tx_server.Status
use check_tx_server.Status.{SwapStatus}
use check_tx_server.Tables.{MgoSwapResult, SwapResultUpdateItems}
use check_tx_server.Tokens.{BuildTxArgs}
use check_tx_server.Db.{get_router_swap_key}
use check_tx_server.Results.{with_result_status, with_items, with_old_swap_tx, has_old_tx, some_or}

-- A call, with its arguments
pub data Call : Type 0 where
  allocate : BuildTxArgs → ℕ → Bool → Call
  update : String → String → ℕ → SwapResultUpdateItems → Call
  set_status : String → String → ℕ → SwapStatus → ℕ → String → Call
  add_old_tx : String → String → ℕ → String → Call

abbrev pub key_of : Call → String
key_of (allocate args nonce recycle) =
    get_router_swap_key (decimal args.from_chain_id) args.swap_id args.log_index
key_of (update c t i items) = get_router_swap_key c t i
key_of (set_status c t i status timestamp memo) = get_router_swap_key c t i
key_of (add_old_tx c t i swap_tx) = get_router_swap_key c t i

-- A result that nothing was paid out for
abbrev pub Unused : MgoSwapResult → Type 0
Unused r = (r.swap_nonce ≡ 0) × (r.swap_tx ≡ "")

-- What is given by an allocation at `time`
abbrev pub given : BuildTxArgs → ℕ → ℕ → MgoSwapResult → MgoSwapResult
given args nonce time r = record r {
  mpc = args.from;
  status = Status.match_tx_not_stable;
  swap_nonce = nonce;
  timestamp = time;
  swap_value = some_or args.swap_value r.swap_value;
}

-- The items of a payout: a nonce, or the status MatchTxNotStable
abbrev pub pays : SwapResultUpdateItems → Bool
pays items = not (items.swap_nonce == 0) || items.status == Status.match_tx_not_stable

-- What a call may make of a result: an allocation gives its nonce to an unused one, an update writes its
-- items, those of a payout to an unused one only, a status is written to any, and another transaction to
-- one that does not have it yet.
abbrev pub Effect : Call → MgoSwapResult → MgoSwapResult → Type 0
Effect (allocate args nonce recycle) r r' = Unused r × ((time : ℕ) × (r' ≡ given args nonce time r))
Effect (update c t i items) r r' = ((pays items ≡ false) ⊎ Unused r) × (r' ≡ with_items items r)
Effect (set_status c t i status timestamp memo) r r' =
    r' ≡ with_result_status status timestamp memo r
Effect (add_old_tx c t i swap_tx) r r' =
    ((equal_fold swap_tx r.swap_tx || has_old_tx swap_tx r.old_swap_txs) ≡ false)
    × ((time : ℕ) × (r' ≡ with_old_swap_tx r swap_tx time r))

-- What becomes of the result under `j`
abbrev pub Step : Call → String → MgoSwapResult → MgoSwapResult → Type 0
Step call j r r' = (r' ≡ r) ⊎ ((key_of call ≡ j) × Effect call r r')

Effect-key : (call : Call) (r r' : MgoSwapResult) → Effect call r r' → r'.key ≡ r.key
Effect-key (allocate args nonce recycle) r r' (_, (_, e)) = ap (λ x. x.key) e
Effect-key (update c t i items) r r' (_, e) = ap (λ x. x.key) e
Effect-key (set_status c t i status timestamp memo) r r' e =
    elim (Bool-cases (status == Status.reswapping)) [
      | inl again ↦ ground (arith, again, ap (λ x. x.key) e)
      | inr other ↦ ground (arith, other, ap (λ x. x.key) e)
    ]
Effect-key (add_old_tx c t i swap_tx) r r' (_, (_, e)) = ap (λ x. x.key) e

pub Step-key : (call : Call) (j : String) (r r' : MgoSwapResult) → Step call j r r' → r'.key ≡ r.key
Step-key call j r r' (inl same) = ap (λ x. x.key) same
Step-key call j r r' (inr (_, effect)) = Effect-key call r r' effect

-- Only this sets a result back to be swapped again.
abbrev pub sets_back : String → Call → Bool
sets_back j (set_status c t i status timestamp memo) =
    str_eq (get_router_swap_key c t i) j && status == Status.reswapping
sets_back j (allocate args nonce recycle) = false
sets_back j (update c t i items) = false
sets_back j (add_old_tx c t i swap_tx) = false

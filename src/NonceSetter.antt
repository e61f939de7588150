-- ===== src/NonceSetter.antt =====
-- tokens/base/noncesetter.go: the nonces of the senders of one chain.
pub mod Counter
pub mod Issue
pub mod Recycled
pub mod Start
use check_tx_server.Common.{
  ℕ, zero, suc, ◌+◌, String, Bool, true, false, ltb, ◌==◌, ◌||◌, Option, none, some, List, [], ◌∷◌,
  lookup, set_entry, to_lower, if◌then◌else◌,
}
use check_tx_server.Errors.{GoError, plain}
use check_tx_server.Exec.{Result, ok, err, Exec, pure, fail, attempt, gets, modify, ◌>>=◌, ◌>>◌}
use check_tx_server.Tokens.{BuildTxArgs}
use check_tx_server.Db
use check_tx_server.Db.{Db, Env}
use check_tx_server.Results.{allocate_router_swap_nonce}

abbrev pub retry_rpc_count : ℕ
retry_rpc_count = 3

-- seconds
abbrev pub recycle_ack_interval : ℕ
recycle_ack_interval = 300

pub record RecycleNonceRecord : Type 0 where
  pub nonce : ℕ
  pub timestamp : ℕ

-- NonceSetterBase, beside the database; the keys are senders in lower case
pub record Nonces : Type 0 where
  pub db : Db
  pub swap_nonce : List (String × ℕ)
  pub recycle_nonce : List (String × RecycleNonceRecord)

abbrev in_nonces : {A : Type 0} → Exec Db A → Exec Nonces A
in_nonces m s = let (r, d) = m s.db in (r, record s { db = d })

abbrev nonce_or_zero : Option ℕ → ℕ
nonce_or_zero none = 0
nonce_or_zero (some n) = n

unfoldable pub get_swap_nonce : String → Nonces → ℕ
get_swap_nonce address s = nonce_or_zero (lookup (to_lower address) s.swap_nonce)

abbrev the_higher : Option ℕ → ℕ → ℕ
the_higher none value = value
the_higher (some n) value = if ltb value n then n else value

unfoldable pub adjust_nonce : String → ℕ → Nonces → ℕ
adjust_nonce address value s = the_higher (lookup (to_lower address) s.swap_nonce) value

-- b.swapNonce[account] = &nonce
abbrev with_nonce : String → ℕ → Nonces → Nonces
with_nonce account nonce s = record s { swap_nonce = set_entry account nonce s.swap_nonce }

abbrev raised : Option ℕ → ℕ → ℕ
raised none value = value
raised (some n) value = if ltb n value then value else n

unfoldable pub set_nonce : String → ℕ → Nonces → Nonces
set_nonce address value s =
    let account = to_lower address in
    with_nonce account (raised (lookup account s.swap_nonce) value) s

-- The rounds of InitSwapNonce, with those left; `get_pool_nonce` is the bridge's, and its first
-- argument counts the calls made before.
module _ (get_pool_nonce : ℕ → String → String → Result ℕ) where
  pending_or : String → ℕ → ℕ → Exec Nonces ℕ
  pending_or account nonce zero s = (ok nonce, s)
  pending_or account nonce (suc rounds) s =
      let s' = record s { db = record (s.db) { ticks = suc s.db.ticks } } in
      let next = pending_or account nonce rounds s' in
      elim (get_pool_nonce s.db.ticks account "pending") [
        | ok pending ↦ (ok (if ltb nonce pending then pending else nonce), s')
        | err e ↦ next
      ]

  unfoldable pub init_swap_nonce : String → ℕ → Exec Nonces (Unit {0})
  unfolding pending_or
  init_swap_nonce address nonce = do
    let account = to_lower address
    found ← pending_or account nonce retry_rpc_count
    modify (with_nonce account found)

module _ (env : Env) where
  recycle_not_acked : GoError
  recycle_not_acked = plain "recycle timestamp does not pass ack interval"

  from_record : BuildTxArgs → ℕ → Option RecycleNonceRecord → Exec Nonces ℕ
  unfolding recycle_not_acked
  from_record args lifetime none = fail recycle_not_acked
  from_record args lifetime (some rec) = do
    now ← in_nonces (Db.now env)
    if ltb now (rec.timestamp + lifetime) then fail recycle_not_acked else (do
      (nonce, left) ← in_nonces (allocate_router_swap_nonce env args rec.nonce true)
      modify (λ s. record s {
        recycle_nonce =
            set_entry (to_lower args.from) (record rec { nonce = left }) s.recycle_nonce;
      })
      pure nonce)

  unfoldable pub try_allocate_recycle_nonce : BuildTxArgs → ℕ → Exec Nonces ℕ
  unfolding from_record
  try_allocate_recycle_nonce args lifetime s =
      from_record args lifetime (lookup (to_lower args.from) s.recycle_nonce) s

  -- The nonce of the counter
  from_counter : BuildTxArgs → Exec Nonces ℕ
  from_counter args = do
    let account = to_lower args.from
    counter ← gets (get_swap_nonce args.from)
    modify (with_nonce account counter)
    (nonce, next) ← in_nonces (allocate_router_swap_nonce env args counter false)
    modify (with_nonce account next)
    pure nonce

  or_counter : BuildTxArgs → Result ℕ → Exec Nonces ℕ
  unfolding from_counter
  or_counter args (ok nonce) = pure nonce
  or_counter args (err e) = from_counter args

  unfoldable pub allocate_nonce : BuildTxArgs → Exec Nonces ℕ
  unfolding or_counter
  allocate_nonce args = do
    recycled ← attempt (try_allocate_recycle_nonce args recycle_ack_interval)
    or_counter args recycled

  -- The record is made, or replaced.
  replaces : ℕ → Option RecycleNonceRecord → Bool
  replaces nonce none = true
  replaces nonce (some rec) = rec.nonce == 0 || ltb nonce rec.nonce

  unfoldable pub recycle_swap_nonce : String → ℕ → Exec Nonces (Unit {0})
  unfolding replaces
  recycle_swap_nonce sender nonce = do
    rec ← gets (λ s. lookup (to_lower sender) s.recycle_nonce)
    if replaces nonce rec
        then (do
          now ← in_nonces (Db.now env)
          modify (λ s. record s {
            recycle_nonce =
                set_entry (to_lower sender) (record { nonce = nonce; timestamp = now })
                  s.recycle_nonce;
          }))
        else pure tt

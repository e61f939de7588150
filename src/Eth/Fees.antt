-- ===== src/Eth/Fees.antt =====
-- The fees of a transaction (tokens/eth/buildtx.go), with the settings of params/config.go for the chain
-- of the bridge. Percentages are so small that 100 and one of them fit an int64.
use check_tx_server.Common.{
  ℕ, zero, suc, ◌+◌, ◌-◌, ◌*◌, ◌/◌, ◌%◌, ◌^◌, String, ltb, ◌==◌, Bool, false, ◌&&◌, Option, none,
  some, is_some, [], ◌∷◌, concat, decimal, if◌then◌else◌,
}
use check_tx_server.Errors.{TokenError, token, plain}
use check_tx_server.Exec.{Result, ok, err, Exec, pure, fail, gets, modify, lift, ◌>>=◌, ◌>>◌}
use check_tx_server.Tokens.{BuildTxArgs, get_replace_num}
use check_tx_server.NonceSetter.{Nonces}

pub record DynamicFeeTxConfig : Type 0 where
  pub plus_gas_tip_cap_percent : ℕ
  pub plus_gas_fee_cap_percent : ℕ
  pub max_gas_tip_cap : Option ℕ
  pub max_gas_fee_cap : Option ℕ

-- RouterServerConfig, at the chain of the bridge
pub record ServerConfig : Type 0 where
  pub plus_gas_price_percentage : ℕ
  pub replace_plus_gas_price_percent : ℕ
  pub max_plus_gas_price_percentage : ℕ
  pub max_gas_price_fluct_percent : ℕ
  pub default_gas_limit : Option ℕ
  pub dynamic_fee_tx : Option DynamicFeeTxConfig

-- `server` is none on a node without a server configuration.
pub record FeeParams : Type 0 where
  pub is_test_mode : Bool
  pub is_dynamic_fee_tx_enabled : Bool
  pub is_parallel_swap_enabled : Bool
  pub is_auto_swap_nonce_enabled : Bool
  pub server : Option ServerConfig
  pub fixed_gas_price : Option ℕ
  pub max_gas_price : Option ℕ
  pub min_reserve_fee : Option ℕ

-- The calls of the chain's nodes, at the number of calls made before
pub record Calls : Type 0 where
  pub suggest_price : ℕ → Result ℕ
  pub suggest_gas_tip_cap : ℕ → Result ℕ
  pub get_base_fee : ℕ → Result ℕ
  pub estimate_gas : ℕ → BuildTxArgs → Result ℕ
  pub get_balance : ℕ → String → Result ℕ
  pub get_pool_nonce : ℕ → String → String → Result ℕ

-- The variable latestGasPrice, which the bridges of all chains share, beside the nonces of the bridge
pub record Building : Type 0 where
  pub nonces : Nonces
  pub latest_gas_price : Option ℕ

unfoldable pub call_tick : Exec Building ℕ
call_tick s = (
  ok s.nonces.db.ticks,
  record s {
    nonces = record (s.nonces) { db = record (s.nonces.db) { ticks = suc s.nonces.db.ticks } };
  },
)

-- At most `more` calls after one that failed; the last error counts.
unfoldable pub retrying : {A : Type 0} → (ℕ → Result A) → ℕ → Exec Building A
unfolding call_tick
retrying call zero = do t ← call_tick; lift (call t)
retrying call (suc more) = do
  t ← call_tick
  elim (call t) [ ok a ↦ pure a | err e ↦ retrying call more ]

-- retryRPCCount is 3.
abbrev pub retries : ℕ
retries = 2

-- price * (100 + percent) / 100, with an addition of 0 left out
abbrev pub percent_added : ℕ → ℕ → ℕ
percent_added percent price = if ltb 0 percent then price * (100 + percent) / 100 else price

abbrev pub capped : Option ℕ → ℕ → ℕ
capped none price = price
capped (some most) price = if ltb most price then most else price

-- The percentage for a replacement comes on top, in 64 bits.
unfoldable pub add_percent : ServerConfig → ℕ → ℕ → ℕ
add_percent c base replace_num =
    let sum =
      if ltb 0 replace_num
      then (base + (replace_num * c.replace_plus_gas_price_percent) % 2 ^ 64) % 2 ^ 64
      else base in
    if ltb c.max_plus_gas_price_percentage sum then c.max_plus_gas_price_percentage else sum

-- The lowest price that may follow the latest one
abbrev pub lowest : ℕ → Option ℕ → ℕ
lowest percent none = 0
lowest percent (some latest) = latest - latest * percent / 100

module _ (p : FeeParams) (calls : Calls) where
  abbrev pub plus_percent : ServerConfig → ℕ
  plus_percent c = if is_some p.fixed_gas_price then 0 else c.plus_gas_price_percentage

  abbrev pub adjusted : ServerConfig → ℕ → ℕ → Option ℕ → ℕ
  adjusted c replace_num price latest =
      let new_price = percent_added (add_percent c (plus_percent c) replace_num) price in
      if ltb 0 c.max_gas_price_fluct_percent
        && ltb new_price (lowest c.max_gas_price_fluct_percent latest)
      then lowest c.max_gas_price_fluct_percent latest
      else new_price

  abbrev pub noted_price : ServerConfig → ℕ → ℕ → Building → Building
  noted_price c replace_num price s =
      if ltb 0 c.max_gas_price_fluct_percent && replace_num == 0
      then record s { latest_gas_price = some price }
      else s

  abbrev pub adjusted_by : Option ServerConfig → ℕ → ℕ → Exec Building ℕ
  adjusted_by none replace_num price = fail (plain "no router server config")
  adjusted_by (some c) replace_num price = do
    new_price ← gets (λ s. adjusted c replace_num price s.latest_gas_price)
    modify (noted_price c replace_num new_price)
    pure new_price

  unfoldable pub adjust_swap_gas_price : BuildTxArgs → ℕ → Exec Building ℕ
  unfolding add_percent get_replace_num
  adjust_swap_gas_price args price = adjusted_by p.server (get_replace_num args) price

  abbrev pub is_above : Option ℕ → ℕ → Bool
  is_above none price = false
  is_above (some most) price = ltb most price

  -- From a price that is fixed, or suggested
  abbrev pub priced : BuildTxArgs → ℕ → Exec Building ℕ
  priced args price = if p.is_test_mode then pure price else do
    new_price ← adjust_swap_gas_price args price
    if is_above p.max_gas_price new_price
        then fail
            (plain (concat ("gas price " ∷ decimal new_price ∷ " exceeded maximum limit" ∷ [])))
        else pure new_price

  abbrev pub priced_from : BuildTxArgs → Option ℕ → Exec Building ℕ
  priced_from args none = do price ← retrying calls.suggest_price retries; priced args price
  priced_from args (some price) =
      if get_replace_num args == 0 then pure price else priced args price

  unfoldable pub get_gas_price : BuildTxArgs → Exec Building ℕ
  unfolding adjust_swap_gas_price retrying get_replace_num decimal
  get_gas_price args = priced_from args p.fixed_gas_price

  abbrev pub dynamic_of : Option ServerConfig → Option (ServerConfig × DynamicFeeTxConfig)
  dynamic_of none = none
  dynamic_of (some c) = elim c.dynamic_fee_tx [ none ↦ none | some d ↦ some (c, d) ]

  -- The configurations that the caps of a fee need
  abbrev pub dynamic_fee : Result (ServerConfig × DynamicFeeTxConfig)
  dynamic_fee = elim (dynamic_of (if p.is_dynamic_fee_tx_enabled then p.server else none)) [
    | none ↦ err (token TokenError.miss_dynamic_fee_config)
    | some cd ↦ ok cd
  ]

  unfoldable pub get_gas_tip_cap : BuildTxArgs → Exec Building ℕ
  unfolding retrying add_percent get_replace_num
  get_gas_tip_cap args = do
    (c, d) ← lift dynamic_fee
    tip ← retrying calls.suggest_gas_tip_cap retries
    pure (
        capped d.max_gas_tip_cap
          (percent_added (add_percent c d.plus_gas_tip_cap_percent (get_replace_num args)) tip))

  unfoldable pub get_gas_fee_cap : ℕ → Exec Building ℕ
  unfolding retrying
  get_gas_fee_cap tip = do
    (c, d) ← lift dynamic_fee
    base_fee ← retrying calls.get_base_fee retries
    pure
        (capped d.max_gas_fee_cap ((tip + base_fee * 2) * (100 + d.plus_gas_fee_cap_percent) / 100))

  abbrev pub default_limit : Option ServerConfig → ℕ
  default_limit none = 90000
  default_limit (some c) = elim c.default_gas_limit [ none ↦ 90000 | some limit ↦ limit ]

  unfoldable pub get_default_gas_limit : ℕ
  get_default_gas_limit = default_limit p.server

  -- Three tenths more than what was estimated, in 64 bits, and the default limit at least
  unfoldable pub gas_limit_of : ℕ → ℕ
  unfolding get_default_gas_limit
  gas_limit_of estimated =
      let more = (estimated + (estimated * 30 % 2 ^ 64) / 100) % 2 ^ 64 in
      if ltb more get_default_gas_limit then get_default_gas_limit else more

  -- With the router's configuration loaded; by default a tenth of an ether
  unfoldable pub get_min_reserve_fee : ℕ
  get_min_reserve_fee = elim p.min_reserve_fee [ none ↦ 10 ^ 17 | some fee ↦ fee ]

-- ===== src/Worker/Accept/Judge/Paid.antt =====
-- What the transaction does that the node agrees to sign, where both chains are of tokens/eth.
use check_tx_server.Common.{
  ℕ, String, ◌^◌, ◌<◌, ◌≡◌, Bool, true, false, some, is_some, ◌&&◌, str_eq, ltb, List, [], ◌∷◌,
}
use check_tx_server.Exec.{Result, ok, err}
use check_tx_server.Db.{Db, Env}
use check_tx_server.Tokens.{SwapTxInfo, BuildTxArgs}
use check_tx_server.Tokens.Payload.{Erc20Info}
use check_tx_server.Worker.{Bridge}
use check_tx_server.Worker.Accept.Judge.Rebuilt.{Rebuilt}
use check_tx_server.Eth.{ChainBridge, Net}
use check_tx_server.Eth.Fees.{FeeParams, Calls, Building}
use check_tx_server.Eth.Raw.{RawTx, build_raw_transaction}
use check_tx_server.Eth.Verify.Sound.{Sound}

-- The transaction as the jobs hold it, and the database afterwards
abbrev pub as_text :
    (RawTx → String) → Result (RawTx × BuildTxArgs) × Building → Result (String × BuildTxArgs) × Db
as_text text (ok (tx, built), s) = (ok (text tx, built), s.nonces.db)
as_text text (err e, s) = (err e, s.nonces.db)

-- `state` beside the database of the jobs
abbrev pub with_db : Building → Db → Building
with_db state db = record state { nonces = record (state.nonces) { db = db } }

-- Of a swap that calls no other contract and takes no path, with a value and a source of a usual size
pub record Direct (swap : SwapTxInfo) (e : Erc20Info) : Type 0 where
  pub value : ℕ
  pub no_proxy : e.call_proxy ≡ ""
  pub no_path : e.path ≡ []
  pub given : swap.value ≡ some value
  pub fits : swap.from_chain_id < 2 ^ 256

abbrev takes_no_path : List String → Bool
takes_no_path [] = true
takes_no_path (x ∷ xs) = false

abbrev pub pays_plainly : SwapTxInfo → Erc20Info → Bool
pays_plainly swap e =
    str_eq e.call_proxy ""
    && takes_no_path e.path
    && is_some swap.value
    && ltb swap.from_chain_id (2 ^ 256)

module _ (env : Env) (n : Net) (there : ChainBridge) (p : FeeParams) (calls : Calls)
    (nft any_call : BuildTxArgs → Result BuildTxArgs) (text : RawTx → String)
    (state : Building) where
  -- A destination of tokens/eth
  abbrev pub builds_on_eth : Bridge → Bridge
  builds_on_eth bridge = record bridge {
    build_raw_transaction = λ args db.
        as_text text
          (build_raw_transaction env n there p calls nft any_call args (with_db state db));
  }

-- ===== src/Worker/Accept/Records/Clear.antt =====
-- What CheckAcceptRecord has looked at where it returns no error.
use check_tx_server.Common.{
  ℕ, String, ◌≡◌, refl, ap, ◌∙◌, ◌⊎◌, inl, inr, Bool, false, Option, Option-cases, Bool-cases, none,
  some, List, [], ◌∷◌, All, arith, decimal, if◌then◌else◌,
}
use check_tx_server.Errors.{worker, already_swapped}
use check_tx_server.Exec.{ok, fail, gets}
use check_tx_server.Exec.Inversion.{bind-ok}
use check_tx_server.Exec.Within.{Frame, Within, Within-pure, Within-if, Within-bind}
use check_tx_server.Tokens.{TxStatus, BuildTxArgs}
use check_tx_server.Worker.{Bridge, get_bridge_by_chain_id}
use check_tx_server.Worker.Accept.{Node, Acceptor, tick, in_db, now}
use check_tx_server.Worker.Accept.Records.{
  after, get_swap_key_prefix, settled, pooled, on_chain, has_swapped, checked_record, any_swapped,
  check_records, check_accept_record,
}

-- What leaves the answers, and the records
abbrev pub quiet : Frame Acceptor
quiet = record {
  Moves = λ s t. (t.answers ≡ s.answers) × (t.records ≡ s.records);
  still = λ s. (refl, refl);
  and_then = λ s t v a b. (b.0 ∙ a.0, b.1 ∙ a.1);
}

pub Quiet-tick : Within quiet tick
unfolding tick
Quiet-tick = record { moves = λ s. (refl, refl) }

module _ (n : Node) (args : BuildTxArgs) (now_time : ℕ) where
  -- The old transaction is on the chain as one that failed, or it is in the pool as one that may be
  -- replaced, or the bridge finds it nowhere.
  abbrev pub Open : Bridge → String → ℕ → Option TxStatus → Type 0
  Open b old_tx saved (some s) = settled n s.receipt ≡ false
  Open b old_tx saved none =
      (t : ℕ) × (pooled n args saved now_time (b.get_transaction t old_tx) ≡ false)

  abbrev pub Clear : Option Bridge → String × ℕ → Type 0
  Clear bridge (k, saved) =
      (after (get_swap_key_prefix args) k ≡ none)
      ⊎ ((old_tx : String) × (b : Bridge) × (t : ℕ) × (after (get_swap_key_prefix args) k
            ≡ some old_tx)
          × (bridge ≡ some b)
          × Open b old_tx saved (on_chain n (b.get_transaction_status t old_tx)))

  has_swapped-Open :
      (b : Bridge) (old_tx : String) (saved : ℕ) (o : Option TxStatus) (w : Acceptor)
      → (has_swapped n b args old_tx saved now_time o w).0 ≡ ok false
      → Open b old_tx saved o
  unfolding has_swapped tick
  has_swapped-Open b old_tx saved none w h = (w.db.ticks, ground (arith, h))
  has_swapped-Open b old_tx saved (some s) w h = ground (arith, h)

  checked_record-Clear :
      (bridge : Option Bridge) (k old_tx : String) (saved : ℕ) (w : Acceptor)
      → after (get_swap_key_prefix args) k ≡ some old_tx
      → (checked_record n bridge args now_time old_tx saved w).0 ≡ ok false
      → Clear bridge (k, saved)
  unfolding checked_record tick
  checked_record-Clear none k old_tx saved w at h = absurd (ground (arith, h))
  checked_record-Clear (some b) k old_tx saved w at h = inr (
    old_tx,
    b,
    w.db.ticks,
    at,
    refl,
    has_swapped-Open b old_tx saved (on_chain n (b.get_transaction_status w.db.ticks old_tx)) _ h,
  )

  any_swapped-Clear :
      (bridge : Option Bridge) (rs : List (String × ℕ)) (w : Acceptor)
      → (any_swapped n bridge args now_time rs w).0 ≡ ok tt
      → All (Clear bridge) rs
  unfolding any_swapped
  any_swapped-Clear bridge [] w h = tt
  any_swapped-Clear bridge ((k, saved) ∷ rs) w h =
      elim (Option-cases (after (get_swap_key_prefix args) k)) [
        | inl other ↦ (inl other, any_swapped-Clear bridge rs w (rw (other, any_swapped) at h))
        | inr (old_tx, at) ↦
            let others = any_swapped n bridge args now_time rs in
            let next = λ (b : Bool). if b then fail (worker already_swapped) else others in
            let (swapped, e, h') =
              bind-ok next (checked_record n bridge args now_time old_tx saved) w tt
                (rw (at, any_swapped) at h) in
            elim (Bool-cases swapped) [
              | inl yes_it ↦ absurd (ground (arith, yes_it, h'))
              | inr open_it ↦ (
                checked_record-Clear bridge k old_tx saved w at (e ∙ ap ok open_it),
                any_swapped-Clear bridge rs _ (rw open_it at h'),
              )
            ]
      ]

  has_swapped-Quiet :
      (b : Bridge) (old_tx : String) (saved : ℕ) (o : Option TxStatus)
      → Within quiet (has_swapped n b args old_tx saved now_time o)
  unfolding has_swapped
  has_swapped-Quiet b old_tx saved none =
      Within-bind quiet _ tick Quiet-tick (λ t. Within-pure quiet _)
  has_swapped-Quiet b old_tx saved (some s) = Within-pure quiet _

  checked_record-Quiet :
      (bridge : Option Bridge) (old_tx : String) (saved : ℕ)
      → Within quiet (checked_record n bridge args now_time old_tx saved)
  unfolding checked_record
  checked_record-Quiet none old_tx saved = Within-pure quiet _
  checked_record-Quiet (some b) old_tx saved =
      Within-bind quiet _ tick Quiet-tick
        (λ t. has_swapped-Quiet b old_tx saved (on_chain n (b.get_transaction_status t old_tx)))

  any_swapped-Quiet :
      (bridge : Option Bridge) (rs : List (String × ℕ))
      → Within quiet (any_swapped n bridge args now_time rs)
  unfolding any_swapped
  any_swapped-Quiet bridge [] = Within-pure quiet _
  any_swapped-Quiet bridge ((k, saved) ∷ rs) =
      elim (Option-cases (after (get_swap_key_prefix args) k)) [
        | inl other ↦ rw (other, any_swapped) (any_swapped-Quiet bridge rs)
        | inr (old_tx, at) ↦
            rw (at, any_swapped)
              (Within-bind quiet _ (checked_record n bridge args now_time old_tx saved)
                (checked_record-Quiet bridge old_tx saved)
                (λ swapped.
                  Within-if quiet swapped _ _ (λ _. Within-pure quiet _)
                    (λ _. any_swapped-Quiet bridge rs)))
      ]

module _ (n : Node) (args : BuildTxArgs) where
  Quiet-now : Within quiet (now n)
  unfolding now in_db
  Quiet-now = record { moves = λ s. (refl, refl) }

  check_records-Quiet : (rs : Option (List (String × ℕ))) → Within quiet (check_records n args rs)
  unfolding check_records
  check_records-Quiet none = Within-pure quiet _
  check_records-Quiet (some rs) =
      Within-bind quiet _ (now n) Quiet-now (λ now_time. any_swapped-Quiet n args now_time _ rs)

  pub check_accept_record-Quiet : Within quiet (check_accept_record n args)
  unfolding check_accept_record
  check_accept_record-Quiet =
      Within-bind quiet _ (gets (λ w. w.records)) (record { moves = λ s. (refl, refl) })
        check_records-Quiet

  -- Every record of the swap is of a transaction that failed, may be replaced, or is nowhere.
  abbrev pub AllClear : Option (List (String × ℕ)) → Type 0
  AllClear none = Unit {0}
  AllClear (some rs) =
      (now_time : ℕ) × All
        (Clear n args now_time (get_bridge_by_chain_id n.setup (decimal args.to_chain_id))) rs

  check_records-AllClear :
      (rs : Option (List (String × ℕ))) (w : Acceptor)
      → (check_records n args rs w).0 ≡ ok tt
      → AllClear rs
  unfolding check_records
  check_records-AllClear none w h = tt
  check_records-AllClear (some rs) w h =
      let bridge = get_bridge_by_chain_id n.setup (decimal args.to_chain_id) in
      let (now_time, _, h') = bind-ok (λ t. any_swapped n bridge args t rs) (now n) w tt h in
      (now_time, any_swapped-Clear n args now_time bridge rs _ h')

  pub check_accept_record-AllClear :
      (w : Acceptor) → (check_accept_record n args w).0 ≡ ok tt → AllClear w.records
  unfolding check_accept_record
  check_accept_record-AllClear w h = check_records-AllClear w.records w h

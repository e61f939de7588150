-- ===== src/Eth/Received/Found.antt =====
-- What a search that finds an amount has found.
use check_tx_server.Common.{
  ℕ, String, ◌≡◌, ◌≢◌, refl, ap, sym, ◌∙◌, ◌⊎◌, inl, inr, Bool, Bool-cases, true, false, Option,
  Option-cases, none, some, List, [], ◌∷◌, ◌++◌, All, arith, equal_fold,
}
use check_tx_server.Exec.{Result, ok}
use check_tx_server.Abi.Bytes.{Bytes}
use check_tx_server.Eth.{Log, same_bytes, hex_to_address, lower_hex, is_zero}
use check_tx_server.Eth.Received.{
  Verdict, stop, go_on, skip, crash, Transfer, transfer_of, received, is_removed, judge_transfer,
  at_router, judge, by_verdict, seen_before, search, mint_before, after_burn,
}

pub same_bytes-eq : (as' bs : Bytes) → same_bytes as' bs ≡ true → as' ≡ bs
same_bytes-eq [] [] h = refl
same_bytes-eq [] (b ∷ bs) h = absurd (ground (arith, h))
same_bytes-eq (a ∷ as') [] h = absurd (ground (arith, h))
same_bytes-eq (a ∷ as') (b ∷ bs) h = ground (arith, h, same_bytes-eq as' bs)

module _ (router underlying swap_from : String) (token_addr : Bytes) where
  -- A Transfer log that pays for the swap: of the underlying token, burnt by the sender, or sent to the
  -- token by the sender or the router; or of the token itself, burnt by the sender
  abbrev pub Pays : Bytes → Transfer → Type 0
  Pays address t =
      ((same_bytes address (hex_to_address underlying) ≡ true)
        × (((is_zero t.to ≡ true) × (equal_fold (lower_hex t.from) swap_from ≡ true))
            ⊎ ((same_bytes t.to token_addr ≡ true)
                × ((equal_fold (lower_hex t.from) swap_from ≡ true)
                    ⊎ (equal_fold (lower_hex t.from) router ≡ true)))))
      ⊎ ((same_bytes address token_addr ≡ true)
          × (is_zero t.to ≡ true)
          × (equal_fold (lower_hex t.from) swap_from ≡ true))

  judge_transfer-Pays :
      (address : Bytes) (before : Option Log) (t : Transfer) (amount : ℕ)
      → judge_transfer router underlying swap_from token_addr address before t ≡ stop (some amount)
      → Pays address t × (amount ≡ received t.content)
  unfolding judge_transfer
  judge_transfer-Pays address before t amount h = ground (arith, h)

  abbrev pub NotRouter : Log → Type 0
  NotRouter l = equal_fold (lower_hex l.address) router ≡ false

  -- A log that pays, behind logs that are none of the router's
  abbrev pub Found : List Log → ℕ → Type 0
  Found logs amount =
      (pre : List Log) × (l : Log) × (post : List Log) × (t : Transfer) × (logs ≡ pre ++ l ∷ post)
      × All NotRouter pre
      × NotRouter l
      × (is_removed l.removed ≡ false)
      × (transfer_of l.topics l.log_data ≡ some t)
      × Pays l.address t
      × (amount ≡ received t.content)

  abbrev Judged : Log → ℕ → Type 0
  Judged l amount =
      (t : Transfer) × NotRouter l
      × (is_removed l.removed ≡ false)
      × (transfer_of l.topics l.log_data ≡ some t)
      × Pays l.address t
      × (amount ≡ received t.content)

  abbrev pub verdict : Log → Option Log → Verdict
  verdict l before = judge router underlying swap_from token_addr l before

  -- A log of the router ends the search, without an amount.
  data Halts : Verdict → Type 0 where
    with_none : Halts (stop none)
    with_panic : Halts crash

  at_router-Halts :
      (topics : List Bytes) → Halts (at_router router underlying swap_from token_addr topics)
  at_router-Halts [] = with_panic
  at_router-Halts (t0 ∷ ts) = with_none

  judge-cases :
      (l : Log) (before : Option Log)
      → Halts (verdict l before)
        ⊎ (NotRouter l
            × ((verdict l before ≡ go_on)
                ⊎ ((t : Transfer) × (is_removed l.removed ≡ false)
                    × (transfer_of l.topics l.log_data ≡ some t)
                    × (verdict l before
                        ≡ judge_transfer router underlying swap_from token_addr l.address before
                            t))))
  unfolding judge
  judge-cases l before = elim (Bool-cases (equal_fold (lower_hex l.address) router)) [
    | inl own ↦ inl (rw own (at_router-Halts l.topics))
    | inr other ↦ inr (
      other,
      elim (Bool-cases (is_removed l.removed)) [
        | inl gone ↦ inl (rw other (rw gone refl))
        | inr kept ↦ elim (Option-cases (transfer_of l.topics l.log_data)) [
          | inl none_of ↦ inl (rw other (rw kept (rw none_of refl)))
          | inr (t, is) ↦ inr (t, kept, is, rw other (rw kept (rw is refl)))
        ]
      ],
    )
  ]

  Halts-stop : (v : Verdict) (amount : ℕ) → Halts v → v ≢ stop (some amount)
  Halts-stop v amount with_none h = ground (arith, h)
  Halts-stop v amount with_panic h = ground (arith, h)

  Halts-go_on : (v : Verdict) → Halts v → v ≢ go_on
  Halts-go_on v with_none h = ground (arith, h)
  Halts-go_on v with_panic h = ground (arith, h)

  Halts-skip : (v : Verdict) → Halts v → v ≢ skip
  Halts-skip v with_none h = ground (arith, h)
  Halts-skip v with_panic h = ground (arith, h)

  judge-Judged :
      (l : Log) (before : Option Log) (amount : ℕ)
      → verdict l before ≡ stop (some amount)
      → Judged l amount
  judge-Judged l before amount h = elim (judge-cases l before) [
    | inl halts ↦ absurd (Halts-stop _ amount halts h)
    | inr (other, inl goes_on) ↦ absurd (ground (arith, goes_on, h))
    | inr (other, inr (t, kept, is, same)) ↦
        let (pays, amounts) = judge_transfer-Pays l.address before t amount (sym same ∙ h) in
        (t, other, kept, is, pays, amounts)
  ]

  -- What the search goes past is none of the router's.
  judge-go_on : (l : Log) (before : Option Log) → verdict l before ≡ go_on → NotRouter l
  judge-go_on l before h = elim (judge-cases l before) [
    | inl halts ↦ absurd (Halts-go_on _ halts h)
    | inr (other, _) ↦ other
  ]

  after_burn-skip :
      (m : Option Bool) (amount : ℕ)
      → after_burn router underlying swap_from token_addr m amount ≡ skip
      → m ≡ some true
  after_burn-skip none amount h = absurd (ground (arith, h))
  after_burn-skip (some true) amount h = refl
  after_burn-skip (some false) amount h = absurd (ground (arith, h))

  mint_before-token :
      (before : Option Log)
      → mint_before router underlying swap_from token_addr before ≡ some true
      → (p : Log) × (before ≡ some p) × (same_bytes p.address token_addr ≡ true)
  mint_before-token none h = absurd (ground (arith, h))
  mint_before-token (some p) h = elim (Bool-cases (same_bytes p.address token_addr)) [
    | inl own ↦ (p, refl, own)
    | inr other ↦ absurd (ground (arith, other, h))
  ]

  judge_transfer-skip :
      (address : Bytes) (before : Option Log) (t : Transfer)
      → judge_transfer router underlying swap_from token_addr address before t ≡ skip
      → mint_before router underlying swap_from token_addr before ≡ some true
  unfolding judge_transfer
  judge_transfer-skip address before t h =
      after_burn-skip (mint_before router underlying swap_from token_addr before)
        (received t.content) (ground (arith, h))

  judge-skip :
      (l : Log) (before : Option Log)
      → verdict l before ≡ skip
      → NotRouter l × (p : Log) × (before ≡ some p) × (same_bytes p.address token_addr ≡ true)
  judge-skip l before h = elim (judge-cases l before) [
    | inl halts ↦ absurd (Halts-skip _ halts h)
    | inr (other, inl goes_on) ↦ absurd (ground (arith, goes_on, h))
    | inr (other, inr (t, kept, is, same)) ↦
        let (p, at, own) =
          mint_before-token before (judge_transfer-skip l.address before t (sym same ∙ h)) in
        (other, p, at, own)
  ]

  verdict-choice :
      (v : Verdict) (next next_but_one : Result (Option ℕ)) (amount : ℕ)
      → by_verdict router underlying swap_from token_addr v next next_but_one ≡ ok (some amount)
      → (v ≡ stop (some amount))
        ⊎ (((v ≡ go_on) × (next ≡ ok (some amount)))
            ⊎ ((v ≡ skip) × (next_but_one ≡ ok (some amount))))
  verdict-choice (stop o) next next_but_one amount h = inl (ground (arith, h))
  verdict-choice go_on next next_but_one amount h = inr (inl (refl, h))
  verdict-choice skip next next_but_one amount h = inr (inr (refl, h))
  verdict-choice crash next next_but_one amount h = absurd (ground (arith, h))

  Found-here : (l : Log) (post : List Log) (amount : ℕ) → Judged l amount → Found (l ∷ post) amount
  Found-here l post amount (t, other, kept, is, pays, amounts) =
      ([], l, post, t, refl, tt, other, kept, is, pays, amounts)

  Found-behind :
      (l : Log) (logs : List Log) (amount : ℕ)
      → NotRouter l
      → Found logs amount
      → Found (l ∷ logs) amount
  Found-behind l logs amount other (pre, m, post, t, same, others, last, kept, is, pays, amounts) =
      (l ∷ pre, m, post, t, ap (λ ls. l ∷ ls) same, (other, others), last, kept, is, pays, amounts)

  module _ (token_apart : equal_fold (lower_hex token_addr) router ≡ false) where
    token-NotRouter : (p : Log) → same_bytes p.address token_addr ≡ true → NotRouter p
    token-NotRouter p own = rw (same_bytes-eq p.address token_addr own) token_apart

    seen_before-is :
        (p : Log) (rest : List Log) (q : Log)
        → seen_before router underlying swap_from token_addr p rest ≡ some q
        → p ≡ q
    seen_before-is p [] q h = absurd (ground (arith, h))
    seen_before-is p (r ∷ rest) q h = ground (arith, h)

    pub search-Found :
        (logs : List Log) (amount : ℕ)
        → search router underlying swap_from token_addr logs ≡ ok (some amount)
        → Found logs amount
    unfolding search
    search-Found [] amount h = absurd (ground (arith, h))
    search-Found (l ∷ []) amount h =
        elim (verdict-choice (verdict l none) (ok none) (ok none) amount h) [
          | inl is ↦ Found-here l [] amount (judge-Judged l none amount is)
          | inr (inl (_, never)) ↦ absurd (ground (arith, never))
          | inr (inr (_, never)) ↦ absurd (ground (arith, never))
        ]
    search-Found (l ∷ p ∷ rest) amount h =
        let before = seen_before router underlying swap_from token_addr p rest in
        let further = search-Found (p ∷ rest) amount in
        let beyond = search-Found rest amount in
        elim (verdict-choice (verdict l before)
          (search router underlying swap_from token_addr (p ∷ rest))
          (search router underlying swap_from token_addr rest) amount h) [
            | inl is ↦ Found-here l (p ∷ rest) amount (judge-Judged l before amount is)
            | inr (inl (goes_on, h')) ↦
                Found-behind l (p ∷ rest) amount (judge-go_on l before goes_on) (further h')
            | inr (inr (skips, h')) ↦
                let (other, q, at, own) = judge-skip l before skips in
                Found-behind l (p ∷ rest) amount other (
                  Found-behind p rest amount
                    (token-NotRouter p (rw (seen_before-is p rest q at) own)) (beyond h'))
          ]

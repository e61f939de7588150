-- ===== src/Worker/History/Ring.antt =====
-- The ring of the sent swaps: a swap is found once it was added.
use check_tx_server.Common.{
  ℕ, String, ◌≡◌, refl, ◌∙◌, Bool, true, ◌&&◌, ◌||◌, is_some, List, [], ◌∷◌, ◌++◌, any, arith,
  str_eq, eq_iff, ◌==◌,
}
use check_tx_server.Worker.{SwapHistory}
use check_tx_server.Worker.History.{add_entry, drop_first, walk, first_of_swap, get_swap_history}
use mathlib.Core.List.{reverse, reverse_aux}

module _ (c t : String) (i : ℕ) where
  abbrev is_of : SwapHistory → Bool
  is_of h = str_eq h.tx_id t && str_eq h.chain_id c && h.log_index == i

  first-any : (hs : List SwapHistory) → is_some (first_of_swap c t i hs) ≡ any is_of hs
  unfolding first_of_swap
  first-any [] = refl
  first-any (h ∷ hs) = ground (arith, first-any hs)

  any-append : (xs ys : List SwapHistory) → any is_of (xs ++ ys) ≡ (any is_of xs || any is_of ys)
  any-append [] ys = refl
  any-append (x ∷ xs) ys = ground (arith, any-append xs ys)

  any-reverse_aux :
      (hs acc : List SwapHistory) → any is_of (reverse_aux hs acc) ≡ (any is_of hs || any is_of acc)
  any-reverse_aux [] acc = refl
  any-reverse_aux (h ∷ hs) acc = ground (arith, any-reverse_aux hs (h ∷ acc))

  any-reverse : (hs : List SwapHistory) → any is_of (reverse hs) ≡ any is_of hs
  any-reverse hs = any-reverse_aux hs [] ∙ ground arith

  any-walk : (hs : List SwapHistory) → any is_of (walk hs) ≡ any is_of hs
  unfolding walk
  any-walk [] = refl
  any-walk (h ∷ hs) = rw (any-reverse hs) refl

  -- A swap is found in the ring exactly where an entry for it is there.
  pub get_swap_history_lem :
      (ring : List SwapHistory) → is_some (get_swap_history c t i ring) ≡ any is_of ring
  unfolding get_swap_history
  get_swap_history_lem ring = first-any (walk ring) ∙ any-walk ring

  -- A swap that was just added is found, also where the ring was full.
  pub get_swap_history-add_entry :
      (m : String) (ring : List SwapHistory)
      → is_some (
          get_swap_history c t i
            (add_entry (record { chain_id = c; tx_id = t; log_index = i; match_tx = m }) ring))
        ≡ true
  unfolding add_entry
  get_swap_history-add_entry m ring =
      let item : SwapHistory = record { chain_id = c; tx_id = t; log_index = i; match_tx = m } in
      let is : is_of item ≡ true = ground (arith, eq_iff t t, eq_iff c c) in
      get_swap_history_lem (add_entry item ring)
      ∙ ground (arith, any-append ring (item ∷ []), any-append (drop_first ring) (item ∷ []))

-- ===== src/Mongo/InMemory.antt =====
-- A driver that keeps its documents in memory and never fails: the laws of `Driver` can be met.
use check_tx_server.Common.{
  String, ◌≡◌, refl, ◌⊎◌, inl, inr, Bool, true, false, Option, none, some, [], ◌∷◌, str_eq, eq_iff,
  lookup, if◌then◌else◌, arith, is_some,
}
use check_tx_server.Mongo.{
  Reply, found, no_documents, duplicate_key, Collection, Put, Changed, Same, Driver,
}

module _ {D : Type 0} where
  pick : (D → Bool) → Option D → Reply D → Reply D
  pick q none r = r
  pick q (some x) r = if q x then found x else r

  -- The first of the entries whose document in `c` passes the test.
  pub first : (D → Bool) → Collection D → Collection D → Reply D
  first q c [] = no_documents
  first q c ((k, _) ∷ entries) = pick q (lookup k c) (first q c entries)

  pub insert : String → D → Collection D → Reply (Unit {0}) × Collection D
  insert k x c = if is_some (lookup k c) then (duplicate_key, c) else (found tt, (k, x) ∷ c)

  pub change : String → (D → D) → Collection D → Collection D
  change k f [] = []
  change k f ((j, x) ∷ c) = (j, if str_eq k j then f x else x) ∷ change k f c

  pick_found :
      (q : D → Bool) (o : Option D) (r : Reply D) (x : D)
      → pick q o r ≡ found x
      → ((o ≡ some x) × (q x ≡ true)) ⊎ (r ≡ found x)
  unfolding pick
  pick_found q none r x h = inr h
  pick_found q (some y) r x h = ground arith

  pub first_found :
      (q : D → Bool) (c entries : Collection D) (x : D)
      → first q c entries ≡ found x
      → (k : String) × (lookup k c ≡ some x) × (q x ≡ true)
  unfolding first
  first_found q c [] x h = cc
  first_found q c ((k, y) ∷ entries) x h =
      elim (pick_found q (lookup k c) (first q c entries) x h) [
        | inl (at_k, passes) ↦ (k, at_k, passes)
        | inr later ↦ first_found q c entries x later
      ]

  pub first_none :
      (q : D → Bool) (c entries : Collection D) (k : String) (x y : D)
      → first q c entries ≡ no_documents
      → lookup k entries ≡ some y
      → lookup k c ≡ some x
      → q x ≡ false
  unfolding first pick lookup
  first_none q c [] k x y h m l = cc
  first_none q c ((j, z) ∷ entries) k x y h m l =
      ground (arith, eq_iff j k, first_none q c entries k x y)

  pub lookup-change : (k : String) (f : D → D) (c : Collection D) → Changed k f c (change k f c)
  unfolding change lookup
  lookup-change k f [] j = ground arith
  lookup-change k f ((i, x) ∷ c) j =
      ground (arith, lookup-change k f c j, eq_iff k i, eq_iff i j, eq_iff k j)

  insert-Put : (k : String) (x : D) (c : Collection D) → Put k x c ((k, x) ∷ c)
  unfolding lookup
  insert-Put k x c j = refl

  insert_cases :
      (k : String) (x : D) (c : Collection D)
      → ((insert k x c ≡ (duplicate_key, c))
          ⊎ ((lookup k c ≡ none) × (insert k x c ≡ (found tt, (k, x) ∷ c))))
  unfolding insert
  insert_cases k x c = ground arith

  pub insert_effect :
      (k : String) (x : D) (c : Collection D)
      → Same c (insert k x c).1 ⊎ ((lookup k c ≡ none) × Put k x c (insert k x c).1)
  insert_effect k x c = elim (insert_cases k x c) [
    | inl e ↦ rw e (inl (λ j. refl))
    | inr (free, e) ↦ rw e (inr (free, insert-Put k x c))
  ]

  pub insert_done :
      (k : String) (x : D) (c : Collection D)
      → (insert k x c).0 ≡ found tt
      → (lookup k c ≡ none) × Put k x c (insert k x c).1
  insert_done k x c h = elim (insert_cases k x c) [
    | inl e ↦ absurd (clash (rw e at h))
    | inr (free, e) ↦ rw e (free, insert-Put k x c)
  ]
    where
      clash : ◌≡◌ {A = Reply (Unit {0})} duplicate_key (found tt) → ⊥
      clash p = cc

  pub insert_dup :
      (k : String) (x : D) (c : Collection D)
      → (insert k x c).0 ≡ duplicate_key
      → Same c (insert k x c).1
  insert_dup k x c h = elim (insert_cases k x c) [
    | inl e ↦ rw e (λ j. refl)
    | inr (free, e) ↦ absurd (clash (rw e at h))
  ]
    where
      clash : ◌≡◌ {A = Reply (Unit {0})} (found tt) duplicate_key → ⊥
      clash p = cc

unfoldable pub in_memory : {D : Type 0} → Driver D
unfolding first pick insert change
in_memory = record {
  find_one = λ n q c. first q c c;
  insert_one = λ n. insert;
  update_by_id = λ n k f c. (found tt, change k f c);
  find_found = λ n q c x h. first_found q c c x h;
  find_none = λ n q c k x h l. first_none q c c k x x h l l;
  insert_effect = λ n. insert_effect;
  insert_done = λ n. insert_done;
  insert_dup = λ n. insert_dup;
  update_effect = λ n k f c. inr (lookup-change k f c);
  update_done = λ n k f c h. lookup-change k f c;
}

-- ===== src/Mongo.antt =====
-- The MongoDB driver, which the source only calls: its operations are the fields of a record, beside
-- what its documentation says of them. A collection is what it holds: a document for each `_id`.
pub mod InMemory
use check_tx_server.Common.{
  ℕ, String, ◌≡◌, ◌⊎◌, Bool, true, false, Option, none, some, List, ◌∷◌, str_eq, lookup,
  if◌then◌else◌,
}
use mathlib.Core.Option

-- The answer of a call: a value, mongo.ErrNoDocuments, a duplicate key, or any other error.
pub data Reply {ℓ} (A : Type ℓ) : Type ℓ where
  found : A → Reply A
  no_documents : Reply A
  duplicate_key : Reply A
  broken : String → Reply A

abbrev pub Collection : Type 0 → Type 0
Collection D = List (String × D)

module _ {D : Type 0} where
  -- `d` holds the documents of `c`, and `x` under `k`.
  abbrev pub Put : String → D → Collection D → Collection D → Type 0
  Put k x c d = (j : String) → lookup j d ≡ (if str_eq k j then some x else lookup j c)

  -- `d` holds the documents of `c`, the one under `k`, if there is any, changed by `f`.
  abbrev pub Changed : String → (D → D) → Collection D → Collection D → Type 0
  Changed k f c d =
      (j : String) → lookup j d ≡ (if str_eq k j then Option.map f (lookup j c) else lookup j c)

  abbrev pub Same : Collection D → Collection D → Type 0
  Same c d = (j : String) → lookup j d ≡ lookup j c

-- The first argument of a call is the number of calls made before it: the answers may vary with time.
-- A call that fails may have taken effect or not, but an insert under a used `_id` never does.
pub record Driver (D : Type 0) : Type 0 where
  pub find_one : ℕ → (D → Bool) → Collection D → Reply D
  pub insert_one : ℕ → String → D → Collection D → Reply (Unit {0}) × Collection D
  pub update_by_id : ℕ → String → (D → D) → Collection D → Reply (Unit {0}) × Collection D
  pub find_found :
      (n : ℕ) (q : D → Bool) (c : Collection D) (x : D)
      → find_one n q c ≡ found x
      → (k : String) × (lookup k c ≡ some x) × (q x ≡ true)
  pub find_none :
      (n : ℕ) (q : D → Bool) (c : Collection D) (k : String) (x : D)
      → find_one n q c ≡ no_documents
      → lookup k c ≡ some x
      → q x ≡ false
  pub insert_effect :
      (n : ℕ) (k : String) (x : D) (c : Collection D)
      → Same c (insert_one n k x c).1 ⊎ ((lookup k c ≡ none) × Put k x c (insert_one n k x c).1)
  pub insert_done :
      (n : ℕ) (k : String) (x : D) (c : Collection D)
      → (insert_one n k x c).0 ≡ found tt
      → (lookup k c ≡ none) × Put k x c (insert_one n k x c).1
  pub insert_dup :
      (n : ℕ) (k : String) (x : D) (c : Collection D)
      → (insert_one n k x c).0 ≡ duplicate_key
      → Same c (insert_one n k x c).1
  pub update_effect :
      (n : ℕ) (k : String) (f : D → D) (c : Collection D)
      → Same c (update_by_id n k f c).1 ⊎ Changed k f c (update_by_id n k f c).1
  pub update_done :
      (n : ℕ) (k : String) (f : D → D) (c : Collection D)
      → (update_by_id n k f c).0 ≡ found tt
      → Changed k f c (update_by_id n k f c).1

-- ===== src/Store/Table.antt =====
-- SQL tables as lists of rows in the order of insertion, with the row's `id` column as the key.
pub mod Keys
use grafted_keys.Prelude.{
  ℕ, ◌≡◌, Bool, false, not, ◌&&◌, ◌||◌, Option, none, some, List, [], ◌∷◌, ltb, ◌==◌, if◌then◌else◌,
  Text, same, select,
}

unfoldable pub mem_text : Text → List Text → Bool
mem_text k [] = false
mem_text k (j ∷ js) = same j k || mem_text k js

module _ {A : Type 0} where
  -- `ORDER BY sort, created_at`: rows with equal columns stay in the order of insertion.
  insert_by : (A → ℕ × ℕ) → A → List A → List A
  insert_by f a [] = a ∷ []
  insert_by f a (b ∷ rows) =
      let later = b ∷ insert_by f a rows in
      if ltb (f a).0 (f b).0 || ((f a).0 == (f b).0 && not (ltb (f b).1 (f a).1))
      then a ∷ b ∷ rows
      else later

  unfoldable pub order_by : (A → ℕ × ℕ) → List A → List A
  unfolding insert_by
  order_by f [] = []
  order_by f (a ∷ rows) = insert_by f a (order_by f rows)

module _ {A : Type 0} (key : A → Text) where
  unfoldable pub contains_key : Text → List A → Bool
  contains_key k [] = false
  contains_key k (a ∷ rows) = same (key a) k || contains_key k rows

  -- `SELECT … WHERE id = ?`
  unfoldable pub find : Text → List A → Option A
  find k [] = none
  find k (a ∷ rows) = if same (key a) k then some a else find k rows

  -- `UPDATE … WHERE id = ?`
  unfoldable pub update : Text → (A → A) → List A → List A
  update k f [] = []
  update k f (a ∷ rows) = (if same (key a) k then f a else a) ∷ update k f rows

  -- The keys of the rows that pass a test.
  unfoldable pub keys_where : (A → Bool) → List A → List Text
  keys_where p [] = []
  keys_where p (a ∷ rows) = let rest = keys_where p rows in if p a then key a ∷ rest else rest

  -- `PRIMARY KEY`
  abbrev pub UniqueKeys : List A → Type 0
  UniqueKeys [] = Unit {0}
  UniqueKeys (a ∷ rows) = (contains_key (key a) rows ≡ false) × UniqueKeys rows

-- `DELETE FROM … WHERE p`
abbrev pub reject {ℓ} : {A : Type ℓ} → (A → Bool) → List A → List A
reject p = select (λ a. not (p a))

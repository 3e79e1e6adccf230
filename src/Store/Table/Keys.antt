-- ===== src/Store/Table/Keys.antt =====
-- Keys of tables: what insertion, update and deletion do to them, and to references to them.
use grafted_keys.Prelude.{
  ◌≡◌, refl, ◌∙◌, Bool, true, false, ◌||◌, List, [], ◌∷◌, ◌++◌, arith, if◌then◌else◌, Text, same,
  select, All, Bool-cases, inl, inr,
}
use grafted_keys.Store.Table.{mem_text, contains_key, update, keys_where, UniqueKeys, reject}

module _ {A : Type 0} where
  pub All-append {κ} :
      (P : A → Type κ) (xs : List A) (a : A) → All P xs → P a → All P (xs ++ a ∷ [])
  All-append P [] a h p = (p, tt)
  All-append P (x ∷ xs) a (q, h) p = (q, All-append P xs a h p)

  pub All-map {κ ι} :
      (P : A → Type κ) (Q : A → Type ι) (xs : List A) → ((a : A) → P a → Q a) → All P xs → All Q xs
  All-map P Q [] f h = tt
  All-map P Q (x ∷ xs) f (p, h) = (f x p, All-map P Q xs f h)

  -- What holds of the rows, and follows for those that pass the test.
  pub All-select {κ ι} :
      (P : A → Type κ) (Q : A → Type ι) (q : A → Bool) (xs : List A)
      → ((a : A) → P a → q a ≡ true → Q a)
      → All P xs
      → All Q (select q xs)
  unfolding select
  All-select P Q q [] f h = tt
  All-select P Q q (x ∷ xs) f (p, h) = elim (Bool-cases (q x)) [
    | inl e ↦ rw e (f x p e, All-select P Q q xs f h)
    | inr e ↦ rw e (All-select P Q q xs f h)
  ]

module _ {A : Type 0} (key : A → Text) where
  pub contains_key-append :
      (k : Text) (rows : List A) (a : A)
      → contains_key key k (rows ++ a ∷ []) ≡ (contains_key key k rows || same (key a) k)
  unfolding contains_key
  contains_key-append k [] a = ground arith
  contains_key-append k (r ∷ rows) a = ground (arith, contains_key-append k rows a)

  pub UniqueKeys-append :
      (rows : List A) (a : A)
      → UniqueKeys key rows
      → contains_key key (key a) rows ≡ false
      → UniqueKeys key (rows ++ a ∷ [])
  unfolding contains_key
  UniqueKeys-append [] a u e = (refl, tt)
  UniqueKeys-append (r ∷ rows) a (f, u) e = (
    ground (arith, contains_key-append (key r) rows a),
    UniqueKeys-append rows a u (ground arith),
  )

  pub contains_key-update :
      (k id : Text) (f : A → A) (rows : List A)
      → ((a : A) → key (f a) ≡ key a)
      → contains_key key k (update key id f rows) ≡ contains_key key k rows
  unfolding contains_key update
  contains_key-update k id f [] h = refl
  contains_key-update k id f (r ∷ rows) h = ground (arith, h r, contains_key-update k id f rows h)

  pub UniqueKeys-update :
      (id : Text) (f : A → A) (rows : List A)
      → ((a : A) → key (f a) ≡ key a)
      → UniqueKeys key rows
      → UniqueKeys key (update key id f rows)
  unfolding update
  UniqueKeys-update id f [] h u = tt
  UniqueKeys-update id f (r ∷ rows) h (e, u) =
      (updated_key ∙ contains_key-update (key r) id f rows h ∙ e, UniqueKeys-update id f rows h u)
    where
      updated_key :
          contains_key key (key (if same (key r) id then f r else r)) (update key id f rows)
          ≡ contains_key key (key r) (update key id f rows)
      updated_key = ground (arith, h r)

  contains_key-select_none :
      (k : Text) (q : A → Bool) (rows : List A)
      → contains_key key k rows ≡ false
      → contains_key key k (select q rows) ≡ false
  unfolding contains_key select
  contains_key-select_none k q [] h = refl
  contains_key-select_none k q (r ∷ rows) h = ground (arith, contains_key-select_none k q rows)

  pub UniqueKeys-select :
      (q : A → Bool) (rows : List A) → UniqueKeys key rows → UniqueKeys key (select q rows)
  unfolding select
  UniqueKeys-select q [] u = tt
  UniqueKeys-select q (r ∷ rows) (e, u) =
      ground (arith, contains_key-select_none (key r) q rows e, UniqueKeys-select q rows u)

  -- A key that is there and is not among those of the deleted rows stays.
  pub contains_key-reject :
      (k : Text) (p : A → Bool) (rows : List A)
      → contains_key key k rows ≡ true
      → mem_text k (keys_where key p rows) ≡ false
      → contains_key key k (reject p rows) ≡ true
  unfolding contains_key select keys_where mem_text
  contains_key-reject k p [] h m = cc
  contains_key-reject k p (r ∷ rows) h m = ground (arith, contains_key-reject k p rows)

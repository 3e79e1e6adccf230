-- ===== src/Store/Rekey/Recs.antt =====
-- The ciphertexts that the reading loops of internal/store/rekey.go collect.
use grafted_keys.Prelude.{
  ◌≡◌, refl, ◌∙◌, sym, ap, true, false, ◌&&◌, Option, none, some, List, [], ◌∷◌, ◌++◌, map, arith,
  Bytes, Text, same, All, text_dec, Bool-cases, inl, inr,
}
use mathlib.Core.List.{Memᴰ, append-nil, append_assoc}
use grafted_keys.Store.Table.{UniqueKeys, contains_key}
use grafted_keys.Store.Table.Keys.{All-map}
use grafted_keys.Store.Schema.{Db, VaultRow}
use grafted_keys.Store.Integrity.{IsWellFormed}
use grafted_keys.Store.Ensures.{
  Ensures, Ensures-bind, Ensures-pure, Ensures-with, Ensures-query, Ensures-query_row,
}
use grafted_keys.Store.Rekey.{
  Column, projects_name, environments_name, folders_name, secrets_name, secrets_value,
  secrets_notes, attachments_name, attachments_data, vault_totp, Rec, column_recs, totp_recs,
  vault_recs, encrypted_columns, read_columns, read_totp,
}
use grafted_keys.Store.Rekey.Cells.{same_column, cell, blob_at, Placed}

-- Two ciphertexts stand in different places.
abbrev pub Apart : Rec → Rec → Type 0
Apart (c, id, _) (d, k, _) = (same_column c d && same k id) ≡ false

abbrev pub Distinct : List Rec → Type 0
Distinct [] = Unit {0}
Distinct (r ∷ recs) = All (Apart r) recs × Distinct recs

abbrev pub IsPlaced : Rec → Type 0
IsPlaced (c, id, _) = Placed c id

abbrev InColumn : Column → Rec → Type 0
InColumn c (d, _, _) = d ≡ c

-- The result of `read_columns`.
unfoldable pub all_recs : List Column → Db → List Rec
all_recs [] db = []
all_recs (c ∷ cs) db = column_recs c db ++ all_recs cs db

All-append_lists : (P : Rec → Type 0) (xs ys : List Rec) → All P xs → All P ys → All P (xs ++ ys)
All-append_lists P [] ys h k = k
All-append_lists P (x ∷ xs) ys (p, h) k = (p, All-append_lists P xs ys h k)

Distinct-append :
    (xs ys : List Rec)
    → Distinct xs
    → Distinct ys
    → All (λ r. All (Apart r) ys) xs
    → Distinct (xs ++ ys)
Distinct-append [] ys h k a = k
Distinct-append (x ∷ xs) ys (p, h) k (q, a) =
    (All-append_lists (Apart x) xs ys p q, Distinct-append xs ys h k a)

module _ {A : Type 0} (c : Column) (key : A → Text) (content : A → Bytes) where
  fresh-Apart :
      (id : Text) (b : Bytes) (rows : List A)
      → contains_key key id rows ≡ false
      → All (Apart (c, id, b)) (map (λ r. (c, key r, content r)) rows)
  unfolding contains_key
  fresh-Apart id b [] h = tt
  fresh-Apart id b (r ∷ rows) h = (ground arith, fresh-Apart id b rows (ground arith))

  UniqueKeys-Distinct :
      (rows : List A) → UniqueKeys key rows → Distinct (map (λ r. (c, key r, content r)) rows)
  UniqueKeys-Distinct [] h = tt
  UniqueKeys-Distinct (r ∷ rows) (e, u) =
      (fresh-Apart (key r) (content r) rows e, UniqueKeys-Distinct rows u)

  map-Column : (rows : List A) → All (InColumn c) (map (λ r. (c, key r, content r)) rows)
  map-Column [] = tt
  map-Column (r ∷ rows) = (refl, map-Column rows)

totp_recs-Column : (v : Option VaultRow) → All (InColumn vault_totp) (vault_recs v)
totp_recs-Column v = ground arith

totp_recs-Distinct : (v : Option VaultRow) → Distinct (vault_recs v)
totp_recs-Distinct v = ground arith

totp_recs-Placed : (v : Option VaultRow) → All IsPlaced (vault_recs v)
totp_recs-Placed v = ground arith

column_recs-Column : (c : Column) (db : Db) → All (InColumn c) (column_recs c db)
unfolding column_recs
column_recs-Column projects_name db = map-Column _ _ _ db.projects
column_recs-Column environments_name db = map-Column _ _ _ db.environments
column_recs-Column folders_name db = map-Column _ _ _ db.folders
column_recs-Column secrets_name db = map-Column _ _ _ db.secrets
column_recs-Column secrets_value db = map-Column _ _ _ db.secrets
column_recs-Column secrets_notes db = map-Column _ _ _ db.secrets
column_recs-Column attachments_name db = map-Column _ _ _ db.attachments
column_recs-Column attachments_data db = map-Column _ _ _ db.attachments
column_recs-Column vault_totp db = totp_recs-Column db.vault

column_recs-Distinct : (c : Column) (db : Db) → IsWellFormed db → Distinct (column_recs c db)
unfolding column_recs
column_recs-Distinct projects_name db h = UniqueKeys-Distinct _ _ _ db.projects h.projects_unique
column_recs-Distinct environments_name db h =
    UniqueKeys-Distinct _ _ _ db.environments h.environments_unique
column_recs-Distinct folders_name db h = UniqueKeys-Distinct _ _ _ db.folders h.folders_unique
column_recs-Distinct secrets_name db h = UniqueKeys-Distinct _ _ _ db.secrets h.secrets_unique
column_recs-Distinct secrets_value db h = UniqueKeys-Distinct _ _ _ db.secrets h.secrets_unique
column_recs-Distinct secrets_notes db h = UniqueKeys-Distinct _ _ _ db.secrets h.secrets_unique
column_recs-Distinct attachments_name db h =
    UniqueKeys-Distinct _ _ _ db.attachments h.attachments_unique
column_recs-Distinct attachments_data db h =
    UniqueKeys-Distinct _ _ _ db.attachments h.attachments_unique
column_recs-Distinct vault_totp db h = totp_recs-Distinct db.vault

map-IsPlaced :
    (c : Column) (recs : List Rec)
    → ((id : Text) → Placed c id)
    → All (InColumn c) recs
    → All IsPlaced recs
map-IsPlaced c [] h k = tt
map-IsPlaced c ((d, id, b) ∷ recs) h (e, k) = (rw e (h id), map-IsPlaced c recs h k)

column_recs-IsPlaced : (c : Column) (db : Db) → All IsPlaced (column_recs c db)
unfolding column_recs
column_recs-IsPlaced projects_name db =
    map-IsPlaced projects_name _ (λ id. tt) (map-Column _ _ _ db.projects)
column_recs-IsPlaced environments_name db =
    map-IsPlaced environments_name _ (λ id. tt) (map-Column _ _ _ db.environments)
column_recs-IsPlaced folders_name db =
    map-IsPlaced folders_name _ (λ id. tt) (map-Column _ _ _ db.folders)
column_recs-IsPlaced secrets_name db =
    map-IsPlaced secrets_name _ (λ id. tt) (map-Column _ _ _ db.secrets)
column_recs-IsPlaced secrets_value db =
    map-IsPlaced secrets_value _ (λ id. tt) (map-Column _ _ _ db.secrets)
column_recs-IsPlaced secrets_notes db =
    map-IsPlaced secrets_notes _ (λ id. tt) (map-Column _ _ _ db.secrets)
column_recs-IsPlaced attachments_name db =
    map-IsPlaced attachments_name _ (λ id. tt) (map-Column _ _ _ db.attachments)
column_recs-IsPlaced attachments_data db =
    map-IsPlaced attachments_data _ (λ id. tt) (map-Column _ _ _ db.attachments)
column_recs-IsPlaced vault_totp db = totp_recs-Placed db.vault

-- Ciphertexts of different columns stand apart.
columns-Apart :
    (c d : Column) (r : Rec) (recs : List Rec)
    → same_column c d ≡ false
    → InColumn c r
    → All (InColumn d) recs
    → All (Apart r) recs
columns-Apart c d (c', id, b) [] h p k = tt
columns-Apart c d (c', id, b) ((d', j, x) ∷ recs) h p (q, k) =
    (rw (p, q) (rw h refl), columns-Apart c d (c', id, b) recs h p k)

all_recs-Apart :
    (c : Column) (r : Rec) (cs : List Column) (db : Db)
    → All (λ d. same_column c d ≡ false) cs
    → InColumn c r
    → All (Apart r) (all_recs cs db)
unfolding all_recs
all_recs-Apart c r [] db h p = tt
all_recs-Apart c r (d ∷ cs) db (e, h) p =
    All-append_lists (Apart r) (column_recs d db) (all_recs cs db)
      (columns-Apart c d r (column_recs d db) e p (column_recs-Column d db))
      (all_recs-Apart c r cs db h p)

abbrev pub DistinctColumns : List Column → Type 0
DistinctColumns [] = Unit {0}
DistinctColumns (c ∷ cs) = All (λ d. same_column c d ≡ false) cs × DistinctColumns cs

pub all_recs-Distinct :
    (cs : List Column) (db : Db) → DistinctColumns cs → IsWellFormed db → Distinct (all_recs cs db)
unfolding all_recs
all_recs-Distinct [] db u h = tt
all_recs-Distinct (c ∷ cs) db (e, u) h =
    Distinct-append (column_recs c db) (all_recs cs db) (column_recs-Distinct c db h)
      (all_recs-Distinct cs db u h)
      (All-map (InColumn c) (λ r. All (Apart r) (all_recs cs db)) (column_recs c db)
        (λ r q. all_recs-Apart c r cs db e q) (column_recs-Column c db))

pub all_recs-IsPlaced : (cs : List Column) (db : Db) → All IsPlaced (all_recs cs db)
unfolding all_recs
all_recs-IsPlaced [] db = tt
all_recs-IsPlaced (c ∷ cs) db =
    All-append_lists IsPlaced (column_recs c db) (all_recs cs db) (column_recs-IsPlaced c db)
      (all_recs-IsPlaced cs db)

-- A ciphertext that is in the store is collected.
blob_at-Mem :
    (c : Column) (id : Text) (b : Bytes) (recs : List Rec)
    → All (InColumn c) recs
    → blob_at id recs ≡ some b
    → Memᴰ (c, id, b) recs
unfolding blob_at
blob_at-Mem c id b [] h e = absurd (ground arith)
blob_at-Mem c id b ((d, k, x) ∷ recs) (p, h) e = elim (text_dec k id) [
  | yes q ↦ Memᴰ.head (ground (arith, p, q, e))
  | no q ↦ Memᴰ.tail (blob_at-Mem c id b recs h (ground (arith, q, e)))
]

Mem-append_left : (r : Rec) (xs ys : List Rec) → Memᴰ r xs → Memᴰ r (xs ++ ys)
Mem-append_left r [] ys m = elim m [ ]
Mem-append_left r (x ∷ xs) ys (Memᴰ.head e) = Memᴰ.head e
Mem-append_left r (x ∷ xs) ys (Memᴰ.tail m) = Memᴰ.tail (Mem-append_left r xs ys m)

Mem-append_right : (r : Rec) (xs ys : List Rec) → Memᴰ r ys → Memᴰ r (xs ++ ys)
Mem-append_right r [] ys m = m
Mem-append_right r (x ∷ xs) ys m = Memᴰ.tail (Mem-append_right r xs ys m)

pub all_recs-Mem :
    (c : Column) (cs : List Column) (id : Text) (b : Bytes) (db : Db)
    → Memᴰ c cs
    → cell c id db ≡ some b
    → Memᴰ (c, id, b) (all_recs cs db)
unfolding all_recs cell
all_recs-Mem c [] id b db m h = elim m [ ]
all_recs-Mem c (d ∷ cs) id b db (Memᴰ.head e) h =
    Mem-append_left _ (column_recs d db) (all_recs cs db)
      (rw (← e) (blob_at-Mem c id b (column_recs c db) (column_recs-Column c db) h))
all_recs-Mem c (d ∷ cs) id b db (Memᴰ.tail m) h =
    Mem-append_right _ (column_recs d db) (all_recs cs db) (all_recs-Mem c cs id b db m h)

-- Where there is no ciphertext, none is collected.
blob_at-Apart :
    (c : Column) (id : Text) (recs : List Rec)
    → All (InColumn c) recs
    → blob_at id recs ≡ none
    → All (Apart (c, id, [])) recs
unfolding blob_at
blob_at-Apart c id [] h e = tt
blob_at-Apart c id ((d, k, x) ∷ recs) (p, h) e =
    (ground (arith, p), blob_at-Apart c id recs h (ground arith))

column_code_injective : (c d : Column) → same_column c d ≡ true → c ≡ d
column_code_injective c d h = ground arith

pub all_recs-none :
    (c : Column) (cs : List Column) (id : Text) (db : Db)
    → cell c id db ≡ none
    → All (Apart (c, id, [])) (all_recs cs db)
unfolding all_recs cell
all_recs-none c [] id db e = tt
all_recs-none c (d ∷ cs) id db e =
    All-append_lists _ (column_recs d db) (all_recs cs db)
      (elim (Bool-cases (same_column c d)) [
        | inl q ↦
            rw (← column_code_injective c d q)
              (blob_at-Apart c id (column_recs c db) (column_recs-Column c db) e)
        | inr q ↦ columns-Apart c d (c, id, []) (column_recs d db) q refl (column_recs-Column d db)
      ])
      (all_recs-none c cs id db e)

-- The columns that `RekeyTx` reads, in its order.
abbrev pub all_columns : List Column
all_columns = encrypted_columns ++ vault_totp ∷ []

pub all_columns-Mem : (c : Column) → Memᴰ c all_columns
all_columns-Mem projects_name = Memᴰ.head refl
all_columns-Mem environments_name = Memᴰ.tail (Memᴰ.head refl)
all_columns-Mem folders_name = Memᴰ.tail (Memᴰ.tail (Memᴰ.head refl))
all_columns-Mem secrets_name = Memᴰ.tail (Memᴰ.tail (Memᴰ.tail (Memᴰ.head refl)))
all_columns-Mem secrets_value = Memᴰ.tail (Memᴰ.tail (Memᴰ.tail (Memᴰ.tail (Memᴰ.head refl))))
all_columns-Mem secrets_notes =
    Memᴰ.tail (Memᴰ.tail (Memᴰ.tail (Memᴰ.tail (Memᴰ.tail (Memᴰ.head refl)))))
all_columns-Mem attachments_name =
    Memᴰ.tail (Memᴰ.tail (Memᴰ.tail (Memᴰ.tail (Memᴰ.tail (Memᴰ.tail (Memᴰ.head refl))))))
all_columns-Mem attachments_data =
    Memᴰ.tail
      (Memᴰ.tail (Memᴰ.tail (Memᴰ.tail (Memᴰ.tail (Memᴰ.tail (Memᴰ.tail (Memᴰ.head refl)))))))
all_columns-Mem vault_totp = Memᴰ.tail (
    Memᴰ.tail
      (Memᴰ.tail (Memᴰ.tail (Memᴰ.tail (Memᴰ.tail (Memᴰ.tail (Memᴰ.tail (Memᴰ.head refl))))))))

pub all_recs_totp :
    (cs : List Column) (db : Db)
    → all_recs (cs ++ vault_totp ∷ []) db ≡ all_recs cs db ++ vault_recs db.vault
unfolding all_recs column_recs
all_recs_totp [] db = append-nil (vault_recs db.vault)
all_recs_totp (c ∷ cs) db =
    ap (column_recs c db ++◌) (all_recs_totp cs db)
    ∙ sym (append_assoc (column_recs c db) (all_recs cs db) (vault_recs db.vault))

pub read_columns_inversion :
    (cs : List Column) (db : Db)
    → Ensures (λ x. x ≡ db) (read_columns cs) (λ recs x. (x ≡ db) × (recs ≡ all_recs cs db))
unfolding read_columns all_recs
read_columns_inversion [] db = Ensures-pure [] _ λ x e. (e, refl)
read_columns_inversion (c ∷ cs) db =
    Ensures-bind _ _ (λ here x. (x ≡ db) × (here ≡ column_recs c db)) _
      (Ensures-query (column_recs c) db)
      λ here.
        Ensures-bind (read_columns cs) _
          (λ rest x. ((x ≡ db) × (rest ≡ all_recs cs db)) × (here ≡ column_recs c db)) _
          (Ensures-with (read_columns_inversion cs db) λ rest x p q. (p, q))
          λ rest. Ensures-pure _ _ λ x ((p, q), r). (p, rw (q, r) refl)

totp_found :
    (o : Option VaultRow) (recs : List Rec)
    → (elim o [ none ↦ none | some v ↦ some (totp_recs v.totp_enc) ]) ≡ some recs
    → recs ≡ vault_recs o
totp_found o recs h = ground arith

pub read_totp_inversion :
    (db : Db) → Ensures (λ x. x ≡ db) read_totp (λ recs x. (x ≡ db) × (recs ≡ vault_recs db.vault))
unfolding read_totp
read_totp_inversion db = record {
  at = λ w recs k r.
      let (e, q) =
        (Ensures-query_row {P = λ x. x ≡ db}
            (λ x. elim x.vault [ none ↦ none | some v ↦ some (totp_recs v.totp_enc) ])).at
          w recs k r in
      (e, totp_found (read_totp w).1.db.vault recs q ∙ ap (λ (x : Db). vault_recs x.vault) e);
}

-- ===== src/Store/Rekey/Contents.antt =====
-- What `RekeyTx` of internal/store/rekey.go leaves in each cell.
use grafted_keys.Prelude.{
  ◌≡◌, ◌∙◌, sym, ap, true, Option, none, some, List, [], ◌++◌, arith, Bytes, Text,
}
use grafted_keys.Store.Schema.{Db, VaultRow}
use grafted_keys.Store.VaultRow.{set_wrap, update_row, update_vault_wrap}
use grafted_keys.Store.Integrity.{IsWellFormed}
use grafted_keys.Store.Ensures.{
  Ensures, Ensures-bind, Ensures-execute, Ensures-transaction, Ensures-with,
}
use grafted_keys.Store.Rekey.{
  Column, Rec, Transform, encrypted_columns, read_columns, read_totp, write_recs, rekey_body,
  rekey_tx, vault_recs,
}
use grafted_keys.Store.Rekey.Cells.{cell}
use grafted_keys.Store.Rekey.Recs.{
  all_recs, all_columns, DistinctColumns, all_columns-Mem, all_recs-Distinct, all_recs-IsPlaced,
  all_recs-Mem, all_recs-none, all_recs_totp, read_columns_inversion, read_totp_inversion,
}
use grafted_keys.Store.Rekey.Loop.{Relates, write_recs-cell, write_recs_away, Replaced}

cell-update_row :
    (c : Column) (id : Text) (row : VaultRow) (db : Db)
    → cell c id (update_row (set_wrap row) db) ≡ cell c id db
unfolding cell
cell-update_row c id row db = ground arith

collected :
    (recs totp : List Rec) (db : Db)
    → recs ≡ all_recs encrypted_columns db
    → totp ≡ vault_recs db.vault
    → recs ++ totp ≡ all_recs all_columns db
collected recs totp db r q = rw (r, q) (sym (all_recs_totp encrypted_columns db))

all_columns-Distinct : DistinctColumns all_columns
all_columns-Distinct = search

module _ (R : Column → Text → Bytes → Bytes → Type 0) (t : Transform) (h : Relates R t) where
  same_loop :
      (c : Column) (id : Text) (db : Db) (Q : Option Bytes → Type 0) (recs : List Rec)
      → recs ≡ all_recs all_columns db
      → Ensures (λ x. x ≡ db) (write_recs t (all_recs all_columns db)) (λ _ x. Q (cell c id x))
      → Ensures (λ x. x ≡ db) (write_recs t recs) (λ _ x. Q (cell c id x))
  same_loop c id db Q recs e g = rw e g

  -- What the writing loop ensures of a cell, the transaction does.
  rekey_tx-cell :
      (c : Column) (id : Text) (db : Db) (row : VaultRow) (Q : Option Bytes → Type 0)
      → Ensures (λ x. x ≡ db) (write_recs t (all_recs all_columns db)) (λ _ x. Q (cell c id x))
      → Ensures (λ x. x ≡ db) (rekey_tx t row) (λ _ x. Q (cell c id x))
  unfolding rekey_tx rekey_body update_vault_wrap
  rekey_tx-cell c id db row Q g = Ensures-transaction (rekey_body t row) _ (
      Ensures-bind (read_columns encrypted_columns) _ _ _
        (read_columns_inversion encrypted_columns db)
        λ recs.
          Ensures-bind read_totp _
            (λ totp x.
              ((x ≡ db) × (totp ≡ vault_recs db.vault)) × (recs ≡ all_recs encrypted_columns db))
            _ (Ensures-with (read_totp_inversion db) λ _ _ p q. (p, q))
            λ totp.
              Ensures-bind (write_recs t (recs ++ totp)) _ (λ _ x. Q (cell c id x)) _
                (record {
                  at = λ w u ((e, q), r) k.
                      (same_loop c id db Q (recs ++ totp) (collected recs totp db r q) g).at w u e
                        k;
                })
                λ _.
                  Ensures-execute (λ _. true) (λ w. update_row (set_wrap row) w.db) _
                    λ w q _. rw (cell-update_row c id row w.db) q)

  -- A ciphertext is replaced by one that is related to it.
  pub rekey_tx_replaces :
      (c : Column) (id : Text) (b : Bytes) (db : Db) (row : VaultRow)
      → IsWellFormed db
      → cell c id db ≡ some b
      → Ensures (λ x. x ≡ db) (rekey_tx t row) (λ _ x. Replaced R t h c id b x)
  rekey_tx_replaces c id b db row u e =
      rekey_tx-cell c id db row (λ o. (nb : Bytes) × (o ≡ some nb) × R c id b nb)
        (record {
          at = λ w v k r.
              (write_recs-cell R t h c id b (all_recs all_columns db)
                  (all_recs-IsPlaced all_columns db)
                  (all_recs-Distinct all_columns db all_columns-Distinct u)
                  (all_recs-Mem c all_columns id b db (all_columns-Mem c) e)).at
                w v (ap (cell c id) k ∙ e) r;
        })

  -- Where there is no ciphertext there is none afterwards.
  pub rekey_tx_spares :
      (c : Column) (id : Text) (db : Db) (row : VaultRow)
      → cell c id db ≡ none
      → Ensures (λ x. x ≡ db) (rekey_tx t row) (λ _ x. cell c id x ≡ none)
  rekey_tx_spares c id db row e =
      rekey_tx-cell c id db row (λ o. o ≡ none)
        (record {
          at = λ w v k r.
              (write_recs_away R t h c id [] none (all_recs all_columns db)
                  (all_recs-IsPlaced all_columns db) (all_recs-none c all_columns id db e)).at
                w v (ap (cell c id) k ∙ e) r;
        })

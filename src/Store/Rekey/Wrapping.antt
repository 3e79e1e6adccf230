-- ===== src/Store/Rekey/Wrapping.antt =====
-- The new wrap that `RekeyTx` of internal/store/rekey.go leaves in the vault row.
use grafted_keys.Prelude.{◌≡◌, refl, true, some, List, [], ◌∷◌, ◌++◌, Bytes, Text}
use grafted_keys.Store.Schema.{Db, VaultRow}
use grafted_keys.Store.VaultRow.{set_wrap, update_row, update_vault_wrap}
use grafted_keys.Store.Atomic.{Quiet, quiet_rules, Quiet-query, Quiet-bind, Quiet-pure}
use grafted_keys.Store.Ensures.{
  Ensures, Ensures-bind, Ensures-read, Ensures-execute, Ensures-pure, Ensures-transaction,
}
use grafted_keys.Store.Rekey.{
  Column, projects_name, environments_name, folders_name, secrets_name, secrets_value,
  secrets_notes, attachments_name, attachments_data, vault_totp, Transform, read_columns, read_totp,
  write_column, write_recs, rekey_body, rekey_tx, Rec, encrypted_columns,
}

abbrev pub HasRow : Db → Type 0
HasRow db = (v : VaultRow) × (db.vault ≡ some v)

Quiet-read_columns : (cs : List Column) → Quiet (read_columns cs)
unfolding read_columns
Quiet-read_columns [] = Quiet-pure []
Quiet-read_columns (c ∷ cs) =
    Quiet-bind _ _ (Quiet-query _)
      λ here. Quiet-bind (read_columns cs) _ (Quiet-read_columns cs) λ rest. Quiet-pure _

Quiet-read_totp : Quiet read_totp
unfolding read_totp
Quiet-read_totp = search quiet_rules

write_column-HasRow :
    (c : Column) (id : Text) (b : Bytes) (db : Db) → HasRow db → HasRow (write_column c id b db)
unfolding write_column
write_column-HasRow projects_name id b db h = h
write_column-HasRow environments_name id b db h = h
write_column-HasRow folders_name id b db h = h
write_column-HasRow secrets_name id b db h = h
write_column-HasRow secrets_value id b db h = h
write_column-HasRow secrets_notes id b db h = h
write_column-HasRow attachments_name id b db h = h
write_column-HasRow attachments_data id b db h = h
write_column-HasRow vault_totp id b db (v, e) = rw e (_, refl)

module _ (transform : Transform)
    (quiet : (c : Column) (id : Text) (b : Bytes) → Quiet (transform c id b)) where
  write_recs-HasRow : (recs : List Rec) → Ensures HasRow (write_recs transform recs) (λ _. HasRow)
  unfolding write_recs
  write_recs-HasRow [] = Ensures-pure tt _ λ db h. h
  write_recs-HasRow ((c, id, blob) ∷ recs) =
      Ensures-read (transform c id blob) _ _ (quiet c id blob) λ nb.
        Ensures-bind _ _ (λ _. HasRow) _
          (Ensures-execute (λ _. true) (λ w. write_column c id nb w.db) _
            λ w h t. write_column-HasRow c id nb w.db h)
          λ _. write_recs-HasRow recs

  -- A vault with a row ends with the new wrap in it.
  pub rekey_tx_wraps :
      (row : VaultRow)
      → Ensures HasRow
          (rekey_tx transform row)
          (λ _ db. (v : VaultRow) × (db.vault ≡ some (set_wrap row v)))
  unfolding rekey_tx rekey_body update_vault_wrap
  rekey_tx_wraps row = Ensures-transaction (rekey_body transform row) _ (
      Ensures-read (read_columns encrypted_columns) _ _ (Quiet-read_columns encrypted_columns)
        λ recs. Ensures-read read_totp _ _ Quiet-read_totp λ totp.
          Ensures-bind (write_recs transform (recs ++ totp)) _ (λ _. HasRow) _
            (write_recs-HasRow (recs ++ totp))
            λ _.
              Ensures-execute (λ _. true) (λ w. update_row (set_wrap row) w.db) _
                λ w (v, e) t. (v, rw e refl))

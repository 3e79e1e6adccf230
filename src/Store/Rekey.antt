-- ===== src/Store/Rekey.antt =====
-- internal/store/rekey.go: every ciphertext rewritten in one transaction.
pub mod Wrapping
pub mod Cells
pub mod Recs
pub mod Loop
pub mod Contents
use grafted_keys.Prelude.{true, Option, none, some, List, [], ◌∷◌, ◌++◌, map, Bytes, Text, codes}
use grafted_keys.Exec.{Exec, pure, ◌>>=◌, ◌>>◌}
use grafted_keys.Store.Table.{update}
use grafted_keys.Store.Schema.{VaultRow, Db, World, query, query_row, execute}
use grafted_keys.Store.Content.{
  project_key, environment_key, folder_key, secret_key, attachment_key,
}
use grafted_keys.Store.Transaction.{transaction}
use grafted_keys.Store.VaultRow.{update_row, update_vault_wrap}

-- The ciphertext columns, each with its table.
pub data Column : Type 0 where
  projects_name environments_name folders_name : Column
  secrets_name secrets_value secrets_notes : Column
  attachments_name attachments_data : Column
  vault_totp : Column

abbrev pub encrypted_columns : List Column
encrypted_columns =
    projects_name ∷ environments_name ∷ folders_name ∷ secrets_name ∷ secrets_value ∷ secrets_notes
    ∷ attachments_name ∷ attachments_data ∷ []

-- A ciphertext with its place.
abbrev pub Rec : Type 0
Rec = Column × Text × Bytes

abbrev totp_recs : Option Bytes → List Rec
totp_recs none = []
totp_recs (some []) = []
totp_recs (some (b ∷ bs)) = (vault_totp, codes "1", b ∷ bs) ∷ []

abbrev pub vault_recs : Option VaultRow → List Rec
vault_recs none = []
vault_recs (some v) = totp_recs v.totp_enc

-- `SELECT id, col FROM table`, and the TOTP secret unless it is empty.
unfoldable pub column_recs : Column → Db → List Rec
column_recs projects_name db = map (λ r. (projects_name, project_key r, r.name_enc)) db.projects
column_recs environments_name db =
    map (λ r. (environments_name, environment_key r, r.name_enc)) db.environments
column_recs folders_name db = map (λ r. (folders_name, folder_key r, r.name_enc)) db.folders
column_recs secrets_name db = map (λ r. (secrets_name, secret_key r, r.name_enc)) db.secrets
column_recs secrets_value db = map (λ r. (secrets_value, secret_key r, r.value_enc)) db.secrets
column_recs secrets_notes db = map (λ r. (secrets_notes, secret_key r, r.notes_enc)) db.secrets
column_recs attachments_name db =
    map (λ r. (attachments_name, attachment_key r, r.name_enc)) db.attachments
column_recs attachments_data db =
    map (λ r. (attachments_data, attachment_key r, r.data_enc)) db.attachments
column_recs vault_totp db = vault_recs db.vault

-- `UPDATE table SET col = ? WHERE id = ?`
unfoldable pub write_column : Column → Text → Bytes → Db → Db
write_column projects_name id b db = record db {
  projects = update project_key id (λ r. record r { name_enc = b }) db.projects;
}
write_column environments_name id b db = record db {
  environments =
      update environment_key id
        (λ r. record r { environment = record r.environment { name_enc = b } }) db.environments;
}
write_column folders_name id b db = record db {
  folders =
      update folder_key id (λ r. record r { folder = record r.folder { name_enc = b } }) db.folders;
}
write_column secrets_name id b db = record db {
  secrets = update secret_key id (λ r. record r { name_enc = b }) db.secrets;
}
write_column secrets_value id b db = record db {
  secrets = update secret_key id (λ r. record r { value_enc = b }) db.secrets;
}
write_column secrets_notes id b db = record db {
  secrets = update secret_key id (λ r. record r { notes_enc = b }) db.secrets;
}
write_column attachments_name id b db = record db {
  attachments =
      update attachment_key id (λ r. record r { attachment = record r.attachment { name_enc = b } })
        db.attachments;
}
write_column attachments_data id b db = record db {
  attachments =
      update attachment_key id (λ r. record r { attachment = record r.attachment { data_enc = b } })
        db.attachments;
}
write_column vault_totp id b db = update_row (λ v. record v { totp_enc = some b }) db

abbrev pub Transform : Type 0
Transform = Column → Text → Bytes → Exec World Bytes

-- The two reading loops.
unfoldable pub read_columns : List Column → Exec World (List Rec)
unfolding query column_recs
read_columns [] = pure []
read_columns (c ∷ cs) = do here ← query (column_recs c); rest ← read_columns cs; pure (here ++ rest)

-- `SELECT totp_enc FROM vault WHERE id = 1`, which needs the row.
unfoldable pub read_totp : Exec World (List Rec)
unfolding query_row
read_totp = query_row λ db. elim db.vault [ none ↦ none | some v ↦ some (totp_recs v.totp_enc) ]

-- The writing loop.
unfoldable pub write_recs : Transform → List Rec → Exec World (Unit {0})
unfolding execute write_column
write_recs transform [] = pure tt
write_recs transform ((c, id, blob) ∷ recs) = do
  nb ← transform c id blob
  execute (λ _. true) (λ w. write_column c id nb w.db)
  write_recs transform recs

unfoldable pub rekey_body : Transform → VaultRow → Exec World (Unit {0})
unfolding read_columns read_totp write_recs update_vault_wrap
rekey_body transform v = do
  recs ← read_columns encrypted_columns
  totp ← read_totp
  write_recs transform (recs ++ totp)
  update_vault_wrap v

unfoldable pub rekey_tx : Transform → VaultRow → Exec World (Unit {0})
unfolding transaction rekey_body
rekey_tx transform v = transaction (rekey_body transform v)

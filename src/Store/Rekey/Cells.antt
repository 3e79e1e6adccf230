-- ===== src/Store/Rekey/Cells.antt =====
-- The ciphertext in one column of one row, and what `UPDATE table SET col = ? WHERE id = ?` of
-- internal/store/rekey.go does to it.
use grafted_keys.Prelude.{
  ℕ, ◌≡◌, refl, Bool, true, false, ◌&&◌, Option, none, some, List, [], ◌∷◌, map, arith,
  if◌then◌else◌, ◌==◌, Bytes, Text, same, ltb, length, codes,
}
use grafted_keys.Store.Table.{update}
use grafted_keys.Store.Schema.{Db}
use grafted_keys.Store.Content.{
  project_key, environment_key, folder_key, secret_key, attachment_key,
}
use grafted_keys.Store.Rekey.{
  Column, projects_name, environments_name, folders_name, secrets_name, secrets_value,
  secrets_notes, attachments_name, attachments_data, vault_totp, Rec, column_recs, write_column,
}

-- A number for each column.
abbrev pub column_code : Column → ℕ
column_code projects_name = 0
column_code environments_name = 1
column_code folders_name = 2
column_code secrets_name = 3
column_code secrets_value = 4
column_code secrets_notes = 5
column_code attachments_name = 6
column_code attachments_data = 7
column_code vault_totp = 8

abbrev pub same_column : Column → Column → Bool
same_column c d = column_code c == column_code d

unfoldable pub blob_at : Text → List Rec → Option Bytes
blob_at id [] = none
blob_at id ((c, k, b) ∷ recs) = if same k id then some b else blob_at id recs

unfoldable pub cell : Column → Text → Db → Option Bytes
unfolding blob_at column_recs
cell c id db = blob_at id (column_recs c db)

abbrev pub overwrite : Option Bytes → Bytes → Option Bytes
overwrite none b = none
overwrite (some x) b = some b

module _ {A : Type 0} (c : Column) (key : A → Text) (content : A → Bytes) where
  blob_at-update :
      (id k : Text) (b : Bytes) (f : A → A) (rows : List A)
      → ((r : A) → key (f r) ≡ key r)
      → ((r : A) → content (f r) ≡ b)
      → blob_at id (map (λ r. (c, key r, content r)) (update key k f rows)) ≡ (
          if same k id
          then overwrite (blob_at id (map (λ r. (c, key r, content r)) rows)) b
          else blob_at id (map (λ r. (c, key r, content r)) rows))
  unfolding blob_at update
  blob_at-update id k b f [] h g = ground arith
  blob_at-update id k b f (r ∷ rows) h g =
      ground (arith, h r, g r, blob_at-update id k b f rows h g)

  blob_at-update_other :
      (id k : Text) (f : A → A) (rows : List A)
      → ((r : A) → key (f r) ≡ key r)
      → ((r : A) → content (f r) ≡ content r)
      → blob_at id (map (λ r. (c, key r, content r)) (update key k f rows))
        ≡ blob_at id (map (λ r. (c, key r, content r)) rows)
  unfolding blob_at update
  blob_at-update_other id k f [] h g = refl
  blob_at-update_other id k f (r ∷ rows) h g =
      ground (arith, h r, g r, blob_at-update_other id k f rows h g)

-- The second factor stands in the row "1".
abbrev pub Placed : Column → Text → Type 0
Placed vault_totp id = id ≡ codes "1"
Placed _ id = Unit {0}

pub cell-write_column_self :
    (c : Column) (id : Text) (b x : Bytes) (db : Db)
    → Placed c id
    → ltb 0 (length b) ≡ true
    → cell c id db ≡ some x
    → cell c id (write_column c id b db) ≡ some b
unfolding cell write_column blob_at
cell-write_column_self projects_name id b x db p n h = ground (
  arith,
  blob_at-update projects_name project_key (λ r. r.name_enc) id id b
      (λ r. record r { name_enc = b }) db.projects (λ r. refl) (λ r. refl),
)
cell-write_column_self environments_name id b x db p n h = ground (
  arith,
  blob_at-update environments_name environment_key (λ r. r.name_enc) id id b
      (λ r. record r { environment = record r.environment { name_enc = b } }) db.environments
      (λ r. refl) (λ r. refl),
)
cell-write_column_self folders_name id b x db p n h = ground (
  arith,
  blob_at-update folders_name folder_key (λ r. r.name_enc) id id b
      (λ r. record r { folder = record r.folder { name_enc = b } }) db.folders (λ r. refl)
      (λ r. refl),
)
cell-write_column_self secrets_name id b x db p n h = ground (
  arith,
  blob_at-update secrets_name secret_key (λ r. r.name_enc) id id b (λ r. record r { name_enc = b })
      db.secrets (λ r. refl) (λ r. refl),
)
cell-write_column_self secrets_value id b x db p n h = ground (
  arith,
  blob_at-update secrets_value secret_key (λ r. r.value_enc) id id b
      (λ r. record r { value_enc = b }) db.secrets (λ r. refl) (λ r. refl),
)
cell-write_column_self secrets_notes id b x db p n h = ground (
  arith,
  blob_at-update secrets_notes secret_key (λ r. r.notes_enc) id id b
      (λ r. record r { notes_enc = b }) db.secrets (λ r. refl) (λ r. refl),
)
cell-write_column_self attachments_name id b x db p n h = ground (
  arith,
  blob_at-update attachments_name attachment_key (λ r. r.name_enc) id id b
      (λ r. record r { attachment = record r.attachment { name_enc = b } }) db.attachments
      (λ r. refl) (λ r. refl),
)
cell-write_column_self attachments_data id b x db p n h = ground (
  arith,
  blob_at-update attachments_data attachment_key (λ r. r.data_enc) id id b
      (λ r. record r { attachment = record r.attachment { data_enc = b } }) db.attachments
      (λ r. refl) (λ r. refl),
)
cell-write_column_self vault_totp id b x db p n h = ground (arith, p)

cell-write_totp_other :
    (c : Column) (id : Text) (b : Bytes) (db : Db)
    → (same_column c vault_totp && same (codes "1") id) ≡ false
    → cell c id (write_column vault_totp (codes "1") b db) ≡ cell c id db
unfolding cell write_column blob_at
cell-write_totp_other c id b db h = ground arith

pub cell-write_column_other :
    (c d : Column) (id k : Text) (b : Bytes) (db : Db)
    → Placed d k
    → (same_column c d && same k id) ≡ false
    → cell c id (write_column d k b db) ≡ cell c id db
unfolding cell write_column blob_at
cell-write_column_other c projects_name id k b db p h = ground (
  arith,
  blob_at-update projects_name project_key (λ r. r.name_enc) id k b (λ r. record r { name_enc = b })
      db.projects (λ r. refl) (λ r. refl),
)
cell-write_column_other c environments_name id k b db p h = ground (
  arith,
  blob_at-update environments_name environment_key (λ r. r.name_enc) id k b
      (λ r. record r { environment = record r.environment { name_enc = b } }) db.environments
      (λ r. refl) (λ r. refl),
)
cell-write_column_other c folders_name id k b db p h = ground (
  arith,
  blob_at-update folders_name folder_key (λ r. r.name_enc) id k b
      (λ r. record r { folder = record r.folder { name_enc = b } }) db.folders (λ r. refl)
      (λ r. refl),
)
cell-write_column_other c secrets_name id k b db p h = ground (
  arith,
  blob_at-update secrets_name secret_key (λ r. r.name_enc) id k b (λ r. record r { name_enc = b })
      db.secrets (λ r. refl) (λ r. refl),
  blob_at-update_other secrets_value secret_key (λ r. r.value_enc) id k
      (λ r. record r { name_enc = b }) db.secrets (λ r. refl) (λ r. refl),
  blob_at-update_other secrets_notes secret_key (λ r. r.notes_enc) id k
      (λ r. record r { name_enc = b }) db.secrets (λ r. refl) (λ r. refl),
)
cell-write_column_other c secrets_value id k b db p h = ground (
  arith,
  blob_at-update_other secrets_name secret_key (λ r. r.name_enc) id k
      (λ r. record r { value_enc = b }) db.secrets (λ r. refl) (λ r. refl),
  blob_at-update secrets_value secret_key (λ r. r.value_enc) id k b
      (λ r. record r { value_enc = b }) db.secrets (λ r. refl) (λ r. refl),
  blob_at-update_other secrets_notes secret_key (λ r. r.notes_enc) id k
      (λ r. record r { value_enc = b }) db.secrets (λ r. refl) (λ r. refl),
)
cell-write_column_other c secrets_notes id k b db p h = ground (
  arith,
  blob_at-update_other secrets_name secret_key (λ r. r.name_enc) id k
      (λ r. record r { notes_enc = b }) db.secrets (λ r. refl) (λ r. refl),
  blob_at-update_other secrets_value secret_key (λ r. r.value_enc) id k
      (λ r. record r { notes_enc = b }) db.secrets (λ r. refl) (λ r. refl),
  blob_at-update secrets_notes secret_key (λ r. r.notes_enc) id k b
      (λ r. record r { notes_enc = b }) db.secrets (λ r. refl) (λ r. refl),
)
cell-write_column_other c attachments_name id k b db p h = ground (
  arith,
  blob_at-update attachments_name attachment_key (λ r. r.name_enc) id k b
      (λ r. record r { attachment = record r.attachment { name_enc = b } }) db.attachments
      (λ r. refl) (λ r. refl),
  blob_at-update_other attachments_data attachment_key (λ r. r.data_enc) id k
      (λ r. record r { attachment = record r.attachment { name_enc = b } }) db.attachments
      (λ r. refl) (λ r. refl),
)
cell-write_column_other c attachments_data id k b db p h = ground (
  arith,
  blob_at-update_other attachments_name attachment_key (λ r. r.name_enc) id k
      (λ r. record r { attachment = record r.attachment { data_enc = b } }) db.attachments
      (λ r. refl) (λ r. refl),
  blob_at-update attachments_data attachment_key (λ r. r.data_enc) id k b
      (λ r. record r { attachment = record r.attachment { data_enc = b } }) db.attachments
      (λ r. refl) (λ r. refl),
)
cell-write_column_other c vault_totp id k b db p h = cell-write_totp_other c id b db (rw p at h)

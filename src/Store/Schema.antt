-- ===== src/Store/Schema.antt =====
-- The tables that the migrations of internal/store/store.go create, and the Go structs of
-- internal/store/model.go and internal/store/vault_row.go. Every migration has run.
use grafted_keys.Prelude.{
  ℕ, Bool, true, false, Option, none, some, List, [], ◌∷◌, Bytes, Text, Dict, if◌then◌else◌,
}
use grafted_keys.Exec.{Result, Exec, ok, err, driver_failed, not_found, constraint_failed}

pub record Project : Type 0 where
  pub id : Text
  pub name_enc : Bytes
  pub sort : ℕ
  pub created_at : ℕ
  pub updated_at : ℕ

pub record Environment : Type 0 where
  pub id : Text
  pub project_id : Text
  pub name_enc : Bytes
  pub sort : ℕ

pub record Folder : Type 0 where
  pub id : Text
  pub environment_id : Text
  pub name_enc : Bytes
  pub sort : ℕ

-- One of `folder_id` and `environment_id` is set; the other is "".
pub record Secret : Type 0 where
  pub id : Text
  pub folder_id : Text
  pub environment_id : Text
  pub name_enc : Bytes
  pub value_enc : Bytes
  pub notes_enc : Bytes
  pub sort : ℕ
  pub updated_at : ℕ

pub record Attachment : Type 0 where
  pub id : Text
  pub secret_id : Text
  pub name_enc : Bytes
  pub data_enc : Bytes
  pub size : ℕ
  pub created_at : ℕ

-- Rows: a struct, and the columns that it lacks.
pub record EnvironmentRow : Type 0 where
  pub environment : Environment
  pub open environment use *
  pub created_at : ℕ
  pub updated_at : ℕ

pub record FolderRow : Type 0 where
  pub folder : Folder
  pub open folder use *
  pub created_at : ℕ
  pub updated_at : ℕ

-- The parents are NULL or a text.
pub record SecretRow : Type 0 where
  pub id : Text
  pub folder_id : Option Text
  pub environment_id : Option Text
  pub name_enc : Bytes
  pub value_enc : Bytes
  pub notes_enc : Bytes
  pub sort : ℕ
  pub created_at : ℕ
  pub updated_at : ℕ

pub record AttachmentRow : Type 0 where
  pub attachment : Attachment
  pub open attachment use *
  pub sort : ℕ

pub record VaultRow : Type 0 where
  pub epoch : ℕ
  pub argon_time : ℕ
  pub argon_mem : ℕ
  pub argon_par : ℕ
  pub salt : Bytes
  pub wrapped_dek : Bytes
  pub totp_enc : Option Bytes
  pub totp_last : ℕ

-- `CHECK (id = 1)` leaves room for one vault row.
pub record Db : Type 0 where
  pub vault : Option VaultRow
  pub projects : List Project
  pub environments : List EnvironmentRow
  pub folders : List FolderRow
  pub secrets : List SecretRow
  pub attachments : List AttachmentRow
  pub app_settings : Dict Text

-- The database with what the outside world will answer: the Unix time, whether the driver fails
-- the next statements (none of them when the list has ended), and the bytes of the random source.
pub record World : Type 0 where
  pub db : Db
  pub now : ℕ
  pub faults : List Bool
  pub entropy : Bytes

abbrev pub next_fault : List Bool → Bool × List Bool
next_fault [] = (false, [])
next_fault (f ∷ fs) = (f, fs)

abbrev finish : {A : Type 0} → World → Result (A × Db) → Result A × World
finish w (ok (a, db)) = (ok a, record w { db = db })
finish w (err e) = (err e, w)

-- One statement: the driver fails it, or it runs, and has no effect if it violates a constraint.
unfoldable pub statement : {A : Type 0} → (World → Result (A × Db)) → Exec World A
statement f w =
    let (fault, rest) = next_fault w.faults in
    if fault
    then (err driver_failed, record w { faults = rest })
    else finish (record w { faults = rest }) (f w)

-- `Query`, and `QueryRow` with `sql.ErrNoRows` as `ErrNotFound`.
unfoldable pub query : {A : Type 0} → (Db → A) → Exec World A
unfolding statement
query f = statement (λ w. ok (f w.db, w.db))

abbrev pub found : {A : Type 0} → Db → Option A → Result (A × Db)
found db none = err not_found
found db (some a) = ok (a, db)

unfoldable pub query_row : {A : Type 0} → (Db → Option A) → Exec World A
unfolding statement
query_row f = statement (λ w. found w.db (f w.db))

-- `Exec` of a statement that the constraints may refuse.
abbrev pub checked : Bool → Db → Result (Unit {0} × Db)
checked true db = ok (tt, db)
checked false db = err constraint_failed

unfoldable pub execute : (World → Bool) → (World → Db) → Exec World (Unit {0})
unfolding statement
execute allowed f = statement (λ w. checked (allowed w) (f w))

-- `exec1` of internal/store/model.go: the statement, and `ErrNotFound` if it affects no row.
abbrev pub affected : Bool → Db → Result (Unit {0} × Db)
affected true db = ok (tt, db)
affected false db = err not_found

unfoldable pub exec1 : (Db → Bool) → (World → Db) → Exec World (Unit {0})
unfolding statement
exec1 matches f = statement (λ w. affected (matches w.db) (f w))

-- ===== src/Store/Integrity.antt =====
-- The integrity of the database: primary keys and foreign keys, kept by every write of
-- internal/store/model.go.
pub mod Deletion
mod Rows
pub mod Writes
use grafted_keys.Prelude.{
  ℕ, ◌≡◌, refl, Bool, true, false, Option, none, some, List, [], ◌∷◌, arith, if◌then◌else◌, All,
  Text, Bool-cases, inl, inr,
}
use grafted_keys.Exec.{Exec, Result, ok, err}
use grafted_keys.Store.Table.{contains_key, UniqueKeys}
use grafted_keys.Store.Schema.{Db, World, next_fault, statement, query, query_row, execute, exec1}
use grafted_keys.Store.Content.{
  project_key, environment_key, folder_key, secret_key, attachment_key,
}
use grafted_keys.Store.Secrets.{parent_exists}

-- Identifiers are unique in each table, every parent exists, and a secret has exactly one.
pub record IsWellFormed (db : Db) : Type 0 where
  pub projects_unique : UniqueKeys project_key db.projects
  pub environments_unique : UniqueKeys environment_key db.environments
  pub folders_unique : UniqueKeys folder_key db.folders
  pub secrets_unique : UniqueKeys secret_key db.secrets
  pub attachments_unique : UniqueKeys attachment_key db.attachments
  pub environments_in :
      All (λ e. contains_key project_key e.project_id db.projects ≡ true) db.environments
  pub folders_in :
      All (λ f. contains_key environment_key f.environment_id db.environments ≡ true) db.folders
  pub secrets_in : All (λ s. parent_exists db s.folder_id s.environment_id ≡ true) db.secrets
  pub attachments_in :
      All (λ a. contains_key secret_key a.secret_id db.secrets ≡ true) db.attachments

-- An operation that keeps the integrity, whether it succeeds or fails.
abbrev pub Keeps : {A : Type 0} → Exec World A → Type 0
Keeps m = (w : World) → IsWellFormed w.db → IsWellFormed (m w).1.db

pub Keeps-query : {A : Type 0} (f : Db → A) → Keeps (query f)
unfolding query
Keeps-query f w h = ground arith

pub Keeps-execute :
    (allowed : World → Bool) (f : World → Db)
    → ((w : World) → IsWellFormed w.db → allowed w ≡ true → IsWellFormed (f w))
    → Keeps (execute allowed f)
unfolding execute
Keeps-execute allowed f step w h = elim (Bool-cases (next_fault w.faults).0) [
  | inl fault ↦ rw fault h
  | inr runs ↦ elim (Bool-cases (allowed w)) [
    | inl e ↦ rw (runs, e) (step w h e)
    | inr e ↦ rw (runs, e) h
  ]
]

pub Keeps-exec1 :
    (matches : Db → Bool) (f : World → Db)
    → ((w : World) → IsWellFormed w.db → matches w.db ≡ true → IsWellFormed (f w))
    → Keeps (exec1 matches f)
unfolding exec1
Keeps-exec1 matches f step w h = elim (Bool-cases (next_fault w.faults).0) [
  | inl fault ↦ rw fault h
  | inr runs ↦ elim (Bool-cases (matches w.db)) [
    | inl e ↦ rw (runs, e) (step w h e)
    | inr e ↦ rw (runs, e) h
  ]
]

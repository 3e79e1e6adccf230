-- ===== src/Store/Secrets.antt =====
-- The secrets, their attachments, the joins and the counts of internal/store/model.go.
use grafted_keys.Prelude.{
  ℕ, Bool, false, not, ◌&&◌, Option, none, some, List, [], ◌∷◌, ◌++◌, map, Bytes, Text, same,
  select, length,
}
use grafted_keys.Exec.{Exec}
use grafted_keys.Store.Table.{order_by, contains_key, find, update, reject}
use grafted_keys.Store.Schema.{
  Secret, SecretRow, Attachment, Project, EnvironmentRow, FolderRow, Db, World, query, query_row,
  execute, exec1,
}
use grafted_keys.Store.Content.{
  project_key, environment_key, folder_key, secret_key, attachment_key, delete_secrets,
}

-- "" becomes NULL, and NULL is read as "".
unfoldable pub null_str : Text → Option Text
null_str [] = none
null_str (c ∷ s) = some (c ∷ s)

abbrev pub string_of : Option Text → Text
string_of none = []
string_of (some s) = s

-- The CHECK that exactly one parent is set, and the foreign key of the one that is.
unfoldable pub parent_exists : Db → Option Text → Option Text → Bool
parent_exists db (some f) none = contains_key folder_key f db.folders
parent_exists db none (some e) = contains_key environment_key e db.environments
parent_exists db _ _ = false

unfoldable pub create_secret : Secret → Exec World (Unit {0})
unfolding execute
create_secret s =
    execute
      (λ w.
        not (contains_key secret_key s.id w.db.secrets)
        && parent_exists w.db (null_str s.folder_id) (null_str s.environment_id))
      λ w. record w.db {
        secrets =
            w.db.secrets
            ++ record {
              id = s.id;
              folder_id = null_str s.folder_id;
              environment_id = null_str s.environment_id;
              name_enc = s.name_enc;
              value_enc = s.value_enc;
              notes_enc = s.notes_enc;
              sort = 0;
              created_at = w.now;
              updated_at = w.now;
            }
              ∷ [];
      }

-- One row of `scanSecrets`.
abbrev pub scan_secret : SecretRow → Secret
scan_secret r = record {
  id = r.id;
  folder_id = string_of r.folder_id;
  environment_id = string_of r.environment_id;
  name_enc = r.name_enc;
  value_enc = r.value_enc;
  notes_enc = r.notes_enc;
  sort = r.sort;
  updated_at = r.updated_at;
}

abbrev pub is_parent : Text → Option Text → Bool
is_parent id none = false
is_parent id (some p) = same p id

abbrev secret_order : List SecretRow → List SecretRow
secret_order = order_by (λ s. (s.sort, s.created_at))

unfoldable pub list_secrets : Text → Exec World (List Secret)
unfolding query
list_secrets folder_id =
    query λ db.
      map scan_secret (secret_order (select (λ s. is_parent folder_id s.folder_id) db.secrets))

unfoldable pub list_env_secrets : Text → Exec World (List Secret)
unfolding query
list_env_secrets env_id = query λ db.
    map scan_secret (secret_order (select (λ s. is_parent env_id s.environment_id) db.secrets))

unfoldable pub get_secret : Text → Exec World Secret
unfolding query_row
get_secret id =
    query_row
      λ db. elim (find secret_key id db.secrets) [ none ↦ none | some r ↦ some (scan_secret r) ]

unfoldable pub update_secret : Secret → Exec World (Unit {0})
unfolding exec1
update_secret s =
    exec1 (λ db. contains_key secret_key s.id db.secrets)
      λ w. record w.db {
        secrets =
            update secret_key s.id
              (λ r. record r {
                name_enc = s.name_enc;
                value_enc = s.value_enc;
                notes_enc = s.notes_enc;
                updated_at = w.now;
              })
              w.db.secrets;
      }

unfoldable pub delete_secret : Text → Exec World (Unit {0})
unfolding exec1 delete_secrets
delete_secret id =
    exec1 (λ db. contains_key secret_key id db.secrets) λ w. delete_secrets (λ s. same s.id id) w.db

-- ---- joins ----

-- `LEFT JOIN folders f ON f.id = s.folder_id`; the primary key leaves at most one match.
unfoldable pub folder_of : Db → SecretRow → Option FolderRow
folder_of db s = elim s.folder_id [ none ↦ none | some f ↦ find folder_key f db.folders ]

-- `COALESCE(f.environment_id, s.environment_id)`
abbrev pub coalesce : Option FolderRow → Option Text → Option Text
coalesce none e = e
coalesce (some f) e = some f.environment_id

unfoldable pub environment_id_of : Db → SecretRow → Option Text
unfolding folder_of
environment_id_of db s = coalesce (folder_of db s) s.environment_id

-- `JOIN environments e ON e.id = …`
unfoldable pub environment_of : Db → SecretRow → Option EnvironmentRow
unfolding environment_id_of
environment_of db s = elim (environment_id_of db s) [
  | none ↦ none
  | some e ↦ find environment_key e db.environments
]

pub record SecretWithPath : Type 0 where
  pub id : Text
  pub name_enc : Bytes
  pub notes_enc : Bytes
  pub project_id : Text
  pub project_name : Bytes
  pub env_id : Text
  pub env_name : Bytes
  pub folder_id : Text
  pub folder_name : Bytes

-- A row of the join, with the columns that it is ordered by.
abbrev Joined : Type 0
Joined = (ℕ × ℕ × ℕ) × SecretWithPath

abbrev folder_name_of : Option FolderRow → Bytes
folder_name_of none = []
folder_name_of (some f) = f.name_enc

join_project : SecretRow → Option FolderRow → EnvironmentRow → Option Project → List Joined
join_project s f e none = []
join_project s f e (some p) =
    (
      (p.sort, e.sort, s.sort),
      record {
        id = s.id;
        name_enc = s.name_enc;
        notes_enc = s.notes_enc;
        project_id = p.id;
        project_name = p.name_enc;
        env_id = e.id;
        env_name = e.name_enc;
        folder_id = string_of s.folder_id;
        folder_name = folder_name_of f;
      },
    )
    ∷ []

join_environment : Db → SecretRow → Option EnvironmentRow → List Joined
unfolding join_project
join_environment db s none = []
join_environment db s (some e) =
    join_project s (folder_of db s) e (find project_key e.project_id db.projects)

unfoldable pub join_all : Db → List SecretRow → List Joined
unfolding join_environment
join_all db [] = []
join_all db (s ∷ rows) = join_environment db s (environment_of db s) ++ join_all db rows

-- `ORDER BY p.sort, e.sort, s.sort`, as three stable sorts from the last column to the first.
unfoldable pub all_secrets_with_path : Exec World (List SecretWithPath)
unfolding query join_all
all_secrets_with_path = query λ db.
    map (λ r. r.1)
      (order_by (λ r. (r.0.0, 0))
        (order_by (λ r. (r.0.1, 0)) (order_by (λ r. (r.0.2, 0)) (join_all db db.secrets))))

-- ---- attachments ----

unfoldable pub create_attachment : Attachment → Exec World (Unit {0})
unfolding execute
create_attachment a =
    execute
      (λ w.
        not (contains_key attachment_key a.id w.db.attachments)
        && contains_key secret_key a.secret_id w.db.secrets)
      λ w. record w.db {
        attachments =
            w.db.attachments
            ++ record { attachment = record a { created_at = w.now }; sort = 0 } ∷ [];
      }

-- The listing leaves `data_enc` out.
unfoldable pub list_attachments : Text → Exec World (List Attachment)
unfolding query
list_attachments secret_id = query λ db.
    map (λ a. record a.attachment { data_enc = [] })
      (order_by (λ a. (a.sort, a.created_at))
        (select (λ a. same a.secret_id secret_id) db.attachments))

unfoldable pub get_attachment : Text → Exec World Attachment
unfolding query_row
get_attachment id =
    query_row λ db. elim (find attachment_key id db.attachments) [
      | none ↦ none
      | some a ↦ some a.attachment
    ]

unfoldable pub delete_attachment : Text → Exec World (Unit {0})
unfolding exec1
delete_attachment id =
    exec1 (λ db. contains_key attachment_key id db.attachments)
      λ w. record w.db { attachments = reject (λ a. same a.id id) w.db.attachments }

unfoldable pub attachment_secret_id : Text → Exec World Text
unfolding query_row
attachment_secret_id id =
    query_row
      λ db. elim (find attachment_key id db.attachments) [ none ↦ none | some a ↦ some a.secret_id ]

-- ---- counts ----

unfoldable pub count_attachments : Text → Exec World ℕ
unfolding query
count_attachments secret_id =
    query λ db. length (select (λ a. same a.secret_id secret_id) db.attachments)

abbrev in_project_row : Text → Option EnvironmentRow → Bool
in_project_row id none = false
in_project_row id (some e) = same e.project_id id

-- `e.project_id = ?` for a secret of the join.
unfoldable pub in_project : Db → Text → SecretRow → Bool
unfolding environment_of
in_project db id s = in_project_row id (environment_of db s)

unfoldable pub project_counts : Text → Exec World (ℕ × ℕ)
unfolding query in_project
project_counts id = query λ db. (
  length (select (λ e. same e.project_id id) db.environments),
  length (select (in_project db id) db.secrets),
)

unfoldable pub env_counts : Text → Exec World (ℕ × ℕ)
unfolding query environment_id_of
env_counts id = query λ db. (
  length (select (λ f. same f.environment_id id) db.folders),
  length (select (λ s. is_parent id (environment_id_of db s)) db.secrets),
)

unfoldable pub folder_counts : Text → Exec World ℕ
unfolding query
folder_counts id = query λ db. length (select (λ s. is_parent id s.folder_id) db.secrets)

-- ===== src/Store/Content.antt =====
-- The projects, environments and folders of internal/store/model.go. A foreign key with
-- `ON DELETE CASCADE` takes the rows below a deleted row with it.
use grafted_keys.Prelude.{
  Bool, false, not, ◌&&◌, Option, none, some, List, [], ◌∷◌, ◌++◌, map, Bytes, Text, same, select,
}
use grafted_keys.Exec.{Exec}
use grafted_keys.Store.Table.{mem_text, order_by, contains_key, find, update, keys_where, reject}
use grafted_keys.Store.Schema.{
  Project, Environment, Folder, EnvironmentRow, FolderRow, SecretRow, AttachmentRow, Db, World,
  query, query_row, execute, exec1,
}

abbrev pub project_key : Project → Text
project_key r = r.id

abbrev pub environment_key : EnvironmentRow → Text
environment_key r = r.id

abbrev pub folder_key : FolderRow → Text
folder_key r = r.id

abbrev pub secret_key : SecretRow → Text
secret_key r = r.id

abbrev pub attachment_key : AttachmentRow → Text
attachment_key r = r.id

-- A nullable column is among the keys.
abbrev pub refers : Option Text → List Text → Bool
refers none ids = false
refers (some id) ids = mem_text id ids

-- Deletion with its cascade, from the leaves of the tree up. Each takes the rows to delete by a
-- test; the keys of those rows select the rows below them.
unfoldable pub delete_secrets : (SecretRow → Bool) → Db → Db
delete_secrets p db =
    let gone = keys_where secret_key p db.secrets in
    record db {
      secrets = reject p db.secrets;
      attachments = reject (λ a. mem_text a.secret_id gone) db.attachments;
    }

unfoldable pub delete_folders : (FolderRow → Bool) → Db → Db
unfolding delete_secrets
delete_folders p db =
    let gone = keys_where folder_key p db.folders in
    delete_secrets (λ s. refers s.folder_id gone) (record db { folders = reject p db.folders })

unfoldable pub delete_environments : (EnvironmentRow → Bool) → Db → Db
unfolding delete_folders
delete_environments p db =
    let gone = keys_where environment_key p db.environments in
    delete_secrets (λ s. refers s.environment_id gone)
      (delete_folders (λ f. mem_text f.environment_id gone)
        (record db { environments = reject p db.environments }))

unfoldable pub delete_projects : (Project → Bool) → Db → Db
unfolding delete_environments
delete_projects p db =
    let gone = keys_where project_key p db.projects in
    delete_environments (λ e. mem_text e.project_id gone)
      (record db { projects = reject p db.projects })

-- ---- projects ----

unfoldable pub create_project : Text → Bytes → Exec World (Unit {0})
unfolding execute
create_project id name_enc =
    execute (λ w. not (contains_key project_key id w.db.projects))
      λ w. record w.db {
        projects =
            w.db.projects
            ++ record {
              id = id;
              name_enc = name_enc;
              sort = 0;
              created_at = w.now;
              updated_at = w.now;
            }
              ∷ [];
      }

unfoldable pub list_projects : Exec World (List Project)
unfolding query
list_projects = query λ db. order_by (λ p. (p.sort, p.created_at)) db.projects

unfoldable pub get_project : Text → Exec World Project
unfolding query_row
get_project id = query_row λ db. find project_key id db.projects

unfoldable pub update_project : Text → Bytes → Exec World (Unit {0})
unfolding exec1
update_project id name_enc =
    exec1 (λ db. contains_key project_key id db.projects)
      λ w. record w.db {
        projects =
            update project_key id (λ p. record p { name_enc = name_enc; updated_at = w.now })
              w.db.projects;
      }

unfoldable pub delete_project : Text → Exec World (Unit {0})
unfolding exec1 delete_projects
delete_project id =
    exec1 (λ db. contains_key project_key id db.projects)
      λ w. delete_projects (λ p. same p.id id) w.db

-- ---- environments ----

unfoldable pub create_environment : Text → Text → Bytes → Exec World (Unit {0})
unfolding execute
create_environment id project_id name_enc =
    execute
      (λ w.
        not (contains_key environment_key id w.db.environments)
        && contains_key project_key project_id w.db.projects)
      λ w. record w.db {
        environments =
            w.db.environments
            ++ record {
              environment = record {
                id = id;
                project_id = project_id;
                name_enc = name_enc;
                sort = 0;
              };
              created_at = w.now;
              updated_at = w.now;
            }
              ∷ [];
      }

unfoldable pub list_environments : Text → Exec World (List Environment)
unfolding query
list_environments project_id = query λ db.
    map (λ e. e.environment)
      (order_by (λ e. (e.sort, e.created_at))
        (select (λ e. same e.project_id project_id) db.environments))

unfoldable pub get_environment : Text → Exec World Environment
unfolding query_row
get_environment id = query_row λ db. elim (find environment_key id db.environments) [
  | none ↦ none
  | some e ↦ some e.environment
]

unfoldable pub update_environment : Text → Bytes → Exec World (Unit {0})
unfolding exec1
update_environment id name_enc =
    exec1 (λ db. contains_key environment_key id db.environments)
      λ w. record w.db {
        environments =
            update environment_key id
              (λ e. record e {
                environment = record e.environment { name_enc = name_enc };
                updated_at = w.now;
              })
              w.db.environments;
      }

unfoldable pub delete_environment : Text → Exec World (Unit {0})
unfolding exec1 delete_environments
delete_environment id =
    exec1 (λ db. contains_key environment_key id db.environments)
      λ w. delete_environments (λ e. same e.id id) w.db

-- ---- folders ----

unfoldable pub create_folder : Text → Text → Bytes → Exec World (Unit {0})
unfolding execute
create_folder id environment_id name_enc =
    execute
      (λ w.
        not (contains_key folder_key id w.db.folders)
        && contains_key environment_key environment_id w.db.environments)
      λ w. record w.db {
        folders =
            w.db.folders
            ++ record {
              folder = record {
                id = id;
                environment_id = environment_id;
                name_enc = name_enc;
                sort = 0;
              };
              created_at = w.now;
              updated_at = w.now;
            }
              ∷ [];
      }

unfoldable pub list_folders : Text → Exec World (List Folder)
unfolding query
list_folders environment_id = query λ db.
    map (λ f. f.folder)
      (order_by (λ f. (f.sort, f.created_at))
        (select (λ f. same f.environment_id environment_id) db.folders))

unfoldable pub get_folder : Text → Exec World Folder
unfolding query_row
get_folder id =
    query_row λ db. elim (find folder_key id db.folders) [ none ↦ none | some f ↦ some f.folder ]

unfoldable pub update_folder : Text → Bytes → Exec World (Unit {0})
unfolding exec1
update_folder id name_enc =
    exec1 (λ db. contains_key folder_key id db.folders)
      λ w. record w.db {
        folders =
            update folder_key id
              (λ f. record f {
                folder = record f.folder { name_enc = name_enc };
                updated_at = w.now;
              })
              w.db.folders;
      }

unfoldable pub delete_folder : Text → Exec World (Unit {0})
unfolding exec1 delete_folders
delete_folder id =
    exec1 (λ db. contains_key folder_key id db.folders) λ w. delete_folders (λ f. same f.id id) w.db

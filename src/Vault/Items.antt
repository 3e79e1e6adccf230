-- ===== src/Vault/Items.antt =====
-- internal/vault/content.go: projects, environments and folders, with their names sealed under the
-- data key.
use grafted_keys.Prelude.{ℕ, List, [], ◌∷◌, Bytes, Text, codes}
use grafted_keys.Exec.{Exec, Result, ok, err, pure, lift, ◌>>=◌, ◌>>◌}
use grafted_keys.Store.Schema.{World}
use grafted_keys.Store.Schema
use grafted_keys.Store.Content
use grafted_keys.Store.Secrets
use grafted_keys.Crypto.{Primitives, rand_id, seal, open_blob}
use grafted_keys.Vault.Aad.{field_aad}

pub record Project : Type 0 where
  pub id : Text
  pub name : Text

pub record Environment : Type 0 where
  pub id : Text
  pub project_id : Text
  pub name : Text

pub record Folder : Type 0 where
  pub id : Text
  pub environment_id : Text
  pub name : Text

-- The loops over rows, which stop at the first error.
unfoldable pub each : {A B : Type 0} → (A → Result B) → List A → Exec World (List B)
each f [] = pure []
each f (a ∷ rows) = do b ← lift (f a); rest ← each f rows; pure (b ∷ rest)

abbrev pub map_ok : {A B : Type 0} → (A → B) → Result A → Result B
map_ok f (ok a) = ok (f a)
map_ok f (err e) = err e

module _ (p : Primitives) (dek : Bytes) where
  -- `seal` and `sealBytes`
  unfoldable pub seal_field : Text → Text → Text → Text → Exec World Bytes
  unfolding seal
  seal_field pt entity id role = seal p dek pt (field_aad entity id role)

  -- `field` and `openBytes`
  unfoldable pub field : Bytes → Text → Text → Text → Result Text
  unfolding open_blob
  field blob entity id role = open_blob p dek blob (field_aad entity id role)

  -- ---- projects ----

  unfoldable pub open_project : Schema.Project → Result Project
  unfolding field
  open_project r =
      map_ok (λ name. record { id = r.id; name = name })
        (field r.name_enc (codes "project") r.id (codes "name"))

  unfoldable pub projects : Exec World (List Project)
  unfolding each open_project Content.list_projects
  projects = do rows ← Content.list_projects; each open_project rows

  unfoldable pub get_project : Text → Exec World Project
  unfolding open_project Content.get_project
  get_project id = do r ← Content.get_project id; lift (open_project r)

  unfoldable pub create_project : Text → Exec World Text
  unfolding rand_id seal_field Content.create_project
  create_project name = do
    id ← rand_id
    enc ← seal_field name (codes "project") id (codes "name")
    Content.create_project id enc
    pure id

  unfoldable pub rename_project : Text → Text → Exec World (Unit {0})
  unfolding seal_field Content.update_project
  rename_project id name = do
    enc ← seal_field name (codes "project") id (codes "name")
    Content.update_project id enc

  -- ---- environments ----

  unfoldable pub open_environment : Schema.Environment → Result Environment
  unfolding field
  open_environment r =
      map_ok (λ name. record { id = r.id; project_id = r.project_id; name = name })
        (field r.name_enc (codes "environment") r.id (codes "name"))

  unfoldable pub environments : Text → Exec World (List Environment)
  unfolding each open_environment Content.list_environments
  environments project_id = do
    rows ← Content.list_environments project_id
    each open_environment rows

  unfoldable pub get_environment : Text → Exec World Environment
  unfolding open_environment Content.get_environment
  get_environment id = do r ← Content.get_environment id; lift (open_environment r)

  unfoldable pub create_environment : Text → Text → Exec World Text
  unfolding rand_id seal_field Content.create_environment
  create_environment project_id name = do
    id ← rand_id
    enc ← seal_field name (codes "environment") id (codes "name")
    Content.create_environment id project_id enc
    pure id

  unfoldable pub rename_environment : Text → Text → Exec World (Unit {0})
  unfolding seal_field Content.update_environment
  rename_environment id name = do
    enc ← seal_field name (codes "environment") id (codes "name")
    Content.update_environment id enc

  -- ---- folders ----

  unfoldable pub open_folder : Schema.Folder → Result Folder
  unfolding field
  open_folder r =
      map_ok (λ name. record { id = r.id; environment_id = r.environment_id; name = name })
        (field r.name_enc (codes "folder") r.id (codes "name"))

  unfoldable pub folders : Text → Exec World (List Folder)
  unfolding each open_folder Content.list_folders
  folders env_id = do rows ← Content.list_folders env_id; each open_folder rows

  unfoldable pub get_folder : Text → Exec World Folder
  unfolding open_folder Content.get_folder
  get_folder id = do r ← Content.get_folder id; lift (open_folder r)

  unfoldable pub create_folder : Text → Text → Exec World Text
  unfolding rand_id seal_field Content.create_folder
  create_folder env_id name = do
    id ← rand_id
    enc ← seal_field name (codes "folder") id (codes "name")
    Content.create_folder id env_id enc
    pure id

  unfoldable pub rename_folder : Text → Text → Exec World (Unit {0})
  unfolding seal_field Content.update_folder
  rename_folder id name = do
    enc ← seal_field name (codes "folder") id (codes "name")
    Content.update_folder id enc

-- The deletions need no key.
unfoldable pub delete_project : Text → Exec World (Unit {0})
unfolding Content.delete_project
delete_project id = Content.delete_project id

unfoldable pub delete_environment : Text → Exec World (Unit {0})
unfolding Content.delete_environment
delete_environment id = Content.delete_environment id

unfoldable pub delete_folder : Text → Exec World (Unit {0})
unfolding Content.delete_folder
delete_folder id = Content.delete_folder id

-- The counts for the confirmation of a deletion.
unfoldable pub counts_for_project : Text → Exec World (ℕ × ℕ)
unfolding Secrets.project_counts
counts_for_project id = Secrets.project_counts id

unfoldable pub counts_for_env : Text → Exec World (ℕ × ℕ)
unfolding Secrets.env_counts
counts_for_env id = Secrets.env_counts id

unfoldable pub counts_for_folder : Text → Exec World ℕ
unfolding Secrets.folder_counts
counts_for_folder id = Secrets.folder_counts id

-- ===== src/Vault/Reading.antt =====
-- The operations of internal/vault that only read.
use grafted_keys.Prelude.{List, [], ◌∷◌, Text, Bytes, ℕ, suc}
use grafted_keys.Exec.{Result, lift}
use grafted_keys.Store.Atomic.{Quiet, quiet_rules, Quiet-pure, Quiet-lift, Quiet-bind, Quiet-if}
use grafted_keys.Store.Content
use grafted_keys.Store.Secrets as Rows
use grafted_keys.Store.VaultRow.{vault_initialized}
use grafted_keys.Crypto.{Primitives}
use grafted_keys.Vault.Items
use grafted_keys.Vault.Items.{each, Environment, Folder}
use grafted_keys.Vault.Secrets
use grafted_keys.Vault.Search.{
  Letters, tree_folders, tree_envs, tree, find_secrets, search_rows, open_hit,
}

Quiet-each : {A B : Type 0} (f : A → Result B) (l : List A) → Quiet (each f l)
unfolding each
Quiet-each f [] = search quiet_rules
Quiet-each f (x ∷ l) =
    Quiet-bind (lift (f x)) _ (Quiet-lift _)
      λ y. Quiet-bind (each f l) _ (Quiet-each f l) λ ys. Quiet-pure (y ∷ ys)

ruleset reading_rules = (quiet_rules, Quiet-each)

pub Quiet-vault_initialized : Quiet vault_initialized
unfolding vault_initialized
Quiet-vault_initialized = search reading_rules depth 9

module _ (p : Primitives) (dek : Bytes) where
  pub Quiet-projects : Quiet (Items.projects p dek)
  unfolding Items.projects Content.list_projects
  Quiet-projects = search reading_rules depth 9

  pub Quiet-get_project : (id : Text) → Quiet (Items.get_project p dek id)
  unfolding Items.get_project Content.get_project
  Quiet-get_project id = search reading_rules depth 9

  pub Quiet-get_environment : (id : Text) → Quiet (Items.get_environment p dek id)
  unfolding Items.get_environment Content.get_environment
  Quiet-get_environment id = search reading_rules depth 9

  pub Quiet-get_folder : (id : Text) → Quiet (Items.get_folder p dek id)
  unfolding Items.get_folder Content.get_folder
  Quiet-get_folder id = search reading_rules depth 9

  Quiet-folders : (id : Text) → Quiet (Items.folders p dek id)
  unfolding Items.folders Content.list_folders
  Quiet-folders id = search reading_rules depth 9

  Quiet-environments : (id : Text) → Quiet (Items.environments p dek id)
  unfolding Items.environments Content.list_environments
  Quiet-environments id = search reading_rules depth 9

  Quiet-secrets : (id : Text) → Quiet (Secrets.secrets p dek id)
  unfolding Secrets.secrets Rows.list_secrets
  Quiet-secrets id = search reading_rules depth 9

  Quiet-env_secrets : (id : Text) → Quiet (Secrets.env_secrets p dek id)
  unfolding Secrets.env_secrets Rows.list_env_secrets
  Quiet-env_secrets id = search reading_rules depth 9

  Quiet-open_hit : (r : Rows.SecretWithPath) → Quiet (open_hit p dek r)
  unfolding open_hit
  Quiet-open_hit r = search reading_rules depth 16

  Quiet-tree_folders : (fs : List Folder) → Quiet (tree_folders p dek fs)
  unfolding tree_folders
  Quiet-tree_folders [] = search reading_rules
  Quiet-tree_folders (f ∷ fs) =
      Quiet-bind (Secrets.secrets p dek f.id) _ (Quiet-secrets f.id) λ secs.
        Quiet-bind (tree_folders p dek fs) _ (Quiet-tree_folders fs)
          λ rest. Quiet-pure (record { folder = f; secrets = secs } ∷ rest)

  Quiet-tree_envs : (es : List Environment) → Quiet (tree_envs p dek es)
  unfolding tree_envs
  Quiet-tree_envs [] = search reading_rules
  Quiet-tree_envs (e ∷ es) = Quiet-bind (Items.folders p dek e.id) _ (Quiet-folders e.id) λ fs.
      Quiet-bind (tree_folders p dek fs) _ (Quiet-tree_folders fs) λ tfs.
        Quiet-bind (Secrets.env_secrets p dek e.id) _ (Quiet-env_secrets e.id) λ loose.
          Quiet-bind (tree_envs p dek es) _ (Quiet-tree_envs es)
            λ rest. Quiet-pure (record { environment = e; folders = tfs; secrets = loose } ∷ rest)

  pub Quiet-tree : (id : Text) → Quiet (tree p dek id)
  unfolding tree
  Quiet-tree id = search (reading_rules, Quiet-environments, Quiet-tree_envs) depth 9

  Quiet-search_rows :
      (letters : Letters) (q : Text) (hits : ℕ) (rows : List Rows.SecretWithPath)
      → Quiet (search_rows p dek letters q hits rows)
  unfolding search_rows
  Quiet-search_rows letters q hits [] = search reading_rules
  Quiet-search_rows letters q hits (r ∷ rows) =
      Quiet-bind (open_hit p dek r) _ (Quiet-open_hit r) λ opened.
        Quiet-if _ _ _
          (Quiet-if _ _ _ (Quiet-pure _)
            (Quiet-bind _ _ (Quiet-search_rows letters q (suc hits) rows) λ more. Quiet-pure _))
          (Quiet-search_rows letters q hits rows)

  pub Quiet-find_secrets :
      (letters : Letters) (query : Text) → Quiet (find_secrets p dek letters query)
  unfolding find_secrets Rows.all_secrets_with_path
  Quiet-find_secrets letters query = search (reading_rules, Quiet-search_rows) depth 9

  pub Quiet-secret_value : (id : Text) → Quiet (Secrets.secret_value p dek id)
  unfolding Secrets.secret_value Rows.get_secret
  Quiet-secret_value id = search reading_rules depth 9

  pub Quiet-get_secret_full : (id : Text) → Quiet (Secrets.get_secret_full p dek id)
  unfolding Secrets.get_secret_full Rows.get_secret
  Quiet-get_secret_full id = search reading_rules depth 12

  pub Quiet-attachments : (id : Text) → Quiet (Secrets.attachments p dek id)
  unfolding Secrets.attachments Rows.list_attachments
  Quiet-attachments id = search reading_rules depth 9

  pub Quiet-attachment_data : (id : Text) → Quiet (Secrets.attachment_data p dek id)
  unfolding Secrets.attachment_data Rows.get_attachment
  Quiet-attachment_data id = search reading_rules depth 12

pub Quiet-counts_for_project : (id : Text) → Quiet (Items.counts_for_project id)
unfolding Items.counts_for_project Rows.project_counts
Quiet-counts_for_project id = search reading_rules depth 9

-- ===== src/Store/Integrity/Deletion.antt =====
-- The cascades keep the integrity of the database.
use grafted_keys.Prelude.{
  ◌≡◌, refl, Bool, true, false, not, ◌&&◌, Option, none, some, List, arith, All, Text,
}
use grafted_keys.Store.Table.{contains_key, UniqueKeys, mem_text, keys_where, reject}
use grafted_keys.Store.Table.Keys.{All-select, All-map, UniqueKeys-select, contains_key-reject}
use grafted_keys.Store.Schema.{Project, EnvironmentRow, FolderRow, SecretRow, Db}
use grafted_keys.Store.Content.{
  project_key, environment_key, folder_key, secret_key, attachment_key, refers, delete_secrets,
  delete_folders, delete_environments, delete_projects,
}
use grafted_keys.Store.Secrets.{parent_exists}
use grafted_keys.Store.Integrity.{IsWellFormed}

-- References of the children that stay to the parents that stay.
module _ {A B : Type 0} (key : A → Text) (parent : B → Text) (p : A → Bool) (parents : List A) where
  references_stay :
      (children : List B)
      → All (λ c. contains_key key (parent c) parents ≡ true) children
      → All
          (λ c. contains_key key (parent c) (reject p parents) ≡ true)
          (reject (λ c. mem_text (parent c) (keys_where key p parents)) children)
  references_stay children h =
      All-select (λ c. contains_key key (parent c) parents ≡ true) _ _ children
        (λ c e q. contains_key-reject key (parent c) p parents e (ground arith)) h

-- Integrity but for the rows that a cascade has still to delete: only those that pass the test of
-- their table are sure to have a parent.
record IsAlmost (ke : EnvironmentRow → Bool) (kf : FolderRow → Bool) (ks : SecretRow → Bool)
    (db : Db) : Type 0 where
  projects_unique : UniqueKeys project_key db.projects
  environments_unique : UniqueKeys environment_key db.environments
  folders_unique : UniqueKeys folder_key db.folders
  secrets_unique : UniqueKeys secret_key db.secrets
  attachments_unique : UniqueKeys attachment_key db.attachments
  environments_in :
      All
        (λ e. ke e ≡ true → contains_key project_key e.project_id db.projects ≡ true)
        db.environments
  folders_in :
      All
        (λ f. kf f ≡ true → contains_key environment_key f.environment_id db.environments ≡ true)
        db.folders
  secrets_in :
      All (λ s. ks s ≡ true → parent_exists db s.folder_id s.environment_id ≡ true) db.secrets
  attachments_in : All (λ a. contains_key secret_key a.secret_id db.secrets ≡ true) db.attachments

both : (a b : Bool) → a ≡ true → b ≡ true → (a && b) ≡ true
both a b p q = ground arith

module _ (ke : EnvironmentRow → Bool) (kf : FolderRow → Bool) (ks : SecretRow → Bool)
    (db : Db) where
  delete_secrets-Almost :
      (p : SecretRow → Bool)
      → IsAlmost ke kf (λ s. not (p s) && ks s) db
      → IsAlmost ke kf ks (delete_secrets p db)
  unfolding delete_secrets parent_exists
  delete_secrets-Almost p h = record {
    projects_unique = h.projects_unique;
    environments_unique = h.environments_unique;
    folders_unique = h.folders_unique;
    secrets_unique = UniqueKeys-select secret_key _ db.secrets h.secrets_unique;
    attachments_unique = UniqueKeys-select attachment_key _ db.attachments h.attachments_unique;
    environments_in = h.environments_in;
    folders_in = h.folders_in;
    secrets_in = All-select _ _ _ db.secrets (λ s f q k. f (both _ _ q k)) h.secrets_in;
    attachments_in =
        references_stay secret_key (λ a. a.secret_id) p db.secrets db.attachments h.attachments_in;
  }

  folder_parent_stays :
      (p : FolderRow → Bool) (f e : Option Text)
      → parent_exists db f e ≡ true
      → not (refers f (keys_where folder_key p db.folders)) ≡ true
      → parent_exists (record db { folders = reject p db.folders }) f e ≡ true
  unfolding parent_exists
  folder_parent_stays p (some f) none h q =
      contains_key-reject folder_key f p db.folders h (ground arith)
  folder_parent_stays p none (some e) h q = h
  folder_parent_stays p none none h q = cc
  folder_parent_stays p (some f) (some e) h q = cc

  environment_parent_stays :
      (p : EnvironmentRow → Bool) (f e : Option Text)
      → parent_exists db f e ≡ true
      → not (refers e (keys_where environment_key p db.environments)) ≡ true
      → parent_exists (record db { environments = reject p db.environments }) f e ≡ true
  unfolding parent_exists
  environment_parent_stays p (some f) none h q = h
  environment_parent_stays p none (some e) h q =
      contains_key-reject environment_key e p db.environments h (ground arith)
  environment_parent_stays p none none h q = cc
  environment_parent_stays p (some f) (some e) h q = cc

not-false : (a : Bool) → not a ≡ true → a ≡ false
not-false a p = ground arith

left : (a b : Bool) → (a && b) ≡ true → a ≡ true
left a b p = ground arith

right : (a b : Bool) → (a && b) ≡ true → b ≡ true
right a b p = ground arith

module _ (ke : EnvironmentRow → Bool) (kf : FolderRow → Bool) (ks : SecretRow → Bool)
    (db : Db) where
  delete_folders-Almost :
      (p : FolderRow → Bool)
      → IsAlmost ke (λ f. not (p f) && kf f) ks db
      → IsAlmost ke kf ks (delete_folders p db)
  unfolding delete_folders
  delete_folders-Almost p h = delete_secrets-Almost ke kf ks _ _ record {
    projects_unique = h.projects_unique;
    environments_unique = h.environments_unique;
    folders_unique = UniqueKeys-select folder_key _ db.folders h.folders_unique;
    secrets_unique = h.secrets_unique;
    attachments_unique = h.attachments_unique;
    environments_in = h.environments_in;
    folders_in = All-select _ _ _ db.folders (λ f g q k. g (both _ _ q k)) h.folders_in;
    secrets_in =
        All-map _ _ db.secrets
          (λ s g k.
            folder_parent_stays ke kf ks db p s.folder_id s.environment_id (g (right _ _ k))
              (left _ _ k))
          h.secrets_in;
    attachments_in = h.attachments_in;
  }

module _ (ke : EnvironmentRow → Bool) (kf : FolderRow → Bool) (ks : SecretRow → Bool)
    (db : Db) where
  delete_environments-Almost :
      (p : EnvironmentRow → Bool)
      → IsAlmost (λ e. not (p e) && ke e) kf ks db
      → IsAlmost ke kf ks (delete_environments p db)
  unfolding delete_environments
  delete_environments-Almost p h = delete_secrets-Almost ke kf ks _ _ (
      delete_folders-Almost ke kf _ _ _ record {
        projects_unique = h.projects_unique;
        environments_unique =
            UniqueKeys-select environment_key _ db.environments h.environments_unique;
        folders_unique = h.folders_unique;
        secrets_unique = h.secrets_unique;
        attachments_unique = h.attachments_unique;
        environments_in =
            All-select _ _ _ db.environments (λ e g q k. g (both _ _ q k)) h.environments_in;
        folders_in =
            All-map _ _ db.folders
              (λ f g k.
                contains_key-reject environment_key f.environment_id p db.environments
                  (g (right _ _ k)) (not-false _ (left _ _ k)))
              h.folders_in;
        secrets_in =
            All-map _ _ db.secrets
              (λ s g k.
                environment_parent_stays ke kf ks db p s.folder_id s.environment_id
                  (g (right _ _ k)) (left _ _ k))
              h.secrets_in;
        attachments_in = h.attachments_in;
      })

abbrev every {ℓ} : {A : Type ℓ} → A → Bool
every a = true

module _ (db : Db) where
  -- A database that is whole, but for the rows that a deletion takes.
  almost :
      (ke : EnvironmentRow → Bool) (kf : FolderRow → Bool) (ks : SecretRow → Bool)
      → IsWellFormed db
      → IsAlmost ke kf ks db
  almost ke kf ks h = record {
    projects_unique = h.projects_unique;
    environments_unique = h.environments_unique;
    folders_unique = h.folders_unique;
    secrets_unique = h.secrets_unique;
    attachments_unique = h.attachments_unique;
    environments_in = All-map _ _ db.environments (λ e g _. g) h.environments_in;
    folders_in = All-map _ _ db.folders (λ f g _. g) h.folders_in;
    secrets_in = All-map _ _ db.secrets (λ s g _. g) h.secrets_in;
    attachments_in = h.attachments_in;
  }

  whole : IsAlmost every every every db → IsWellFormed db
  whole h = record {
    projects_unique = h.projects_unique;
    environments_unique = h.environments_unique;
    folders_unique = h.folders_unique;
    secrets_unique = h.secrets_unique;
    attachments_unique = h.attachments_unique;
    environments_in = All-map _ _ db.environments (λ e g. g refl) h.environments_in;
    folders_in = All-map _ _ db.folders (λ f g. g refl) h.folders_in;
    secrets_in = All-map _ _ db.secrets (λ s g. g refl) h.secrets_in;
    attachments_in = h.attachments_in;
  }

module _ (db : Db) (h : IsWellFormed db) where
  pub delete_secrets-IsWellFormed : (p : SecretRow → Bool) → IsWellFormed (delete_secrets p db)
  delete_secrets-IsWellFormed p =
      whole _ (delete_secrets-Almost every every every db p (almost db _ _ _ h))

  pub delete_folders-IsWellFormed : (p : FolderRow → Bool) → IsWellFormed (delete_folders p db)
  delete_folders-IsWellFormed p =
      whole _ (delete_folders-Almost every every every db p (almost db _ _ _ h))

  pub delete_environments-IsWellFormed :
      (p : EnvironmentRow → Bool) → IsWellFormed (delete_environments p db)
  delete_environments-IsWellFormed p =
      whole _ (delete_environments-Almost every every every db p (almost db _ _ _ h))

  pub delete_projects-IsWellFormed : (p : Project → Bool) → IsWellFormed (delete_projects p db)
  unfolding delete_projects parent_exists
  delete_projects-IsWellFormed p = whole _ (
      delete_environments-Almost every every every _ _ record {
        projects_unique = UniqueKeys-select project_key _ db.projects h.projects_unique;
        environments_unique = h.environments_unique;
        folders_unique = h.folders_unique;
        secrets_unique = h.secrets_unique;
        attachments_unique = h.attachments_unique;
        environments_in =
            All-map _ _ db.environments
              (λ e g k.
                contains_key-reject project_key e.project_id p db.projects g
                  (not-false _ (left _ _ k)))
              h.environments_in;
        folders_in = All-map _ _ db.folders (λ f g _. g) h.folders_in;
        secrets_in = All-map _ _ db.secrets (λ s g _. g) h.secrets_in;
        attachments_in = h.attachments_in;
      })

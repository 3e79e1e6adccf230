-- ===== src/Store/Integrity/Rows.antt =====
-- What inserting and updating a row does to the integrity of the database.
use grafted_keys.Prelude.{
  ◌≡◌, true, false, Option, none, some, List, [], ◌∷◌, ◌++◌, arith, ◌∙◌, Bool-cases, inl, inr, All,
  Text, same,
}
use grafted_keys.Store.Table.{contains_key, update}
use grafted_keys.Store.Table.Keys.{
  All-append, All-map, UniqueKeys-append, UniqueKeys-update, contains_key-append,
  contains_key-update,
}
use grafted_keys.Store.Schema.{Project, EnvironmentRow, FolderRow, SecretRow, AttachmentRow, Db}
use grafted_keys.Store.Content.{
  project_key, environment_key, folder_key, secret_key, attachment_key,
}
use grafted_keys.Store.Secrets.{parent_exists}
use grafted_keys.Store.Integrity.{IsWellFormed}

-- A new row keeps the old keys.
still_there :
    {A : Type 0} (key : A → Text) (k : Text) (rows : List A) (a : A)
    → contains_key key k rows ≡ true
    → contains_key key k (rows ++ a ∷ []) ≡ true
still_there key k rows a h = ground (arith, contains_key-append key k rows a)

-- A change of a row that is not to its key keeps the keys.
keys_stay :
    {A : Type 0} (key : A → Text) (k id : Text) (g : A → A) (rows : List A)
    → ((a : A) → key (g a) ≡ key a)
    → contains_key key k rows ≡ true
    → contains_key key k (update key id g rows) ≡ true
keys_stay key k id g rows e h = contains_key-update key k id g rows e ∙ h

All-update :
    {A : Type 0} (key : A → Text) (P : A → Type 0) (id : Text) (g : A → A) (rows : List A)
    → ((a : A) → P a → P (g a))
    → All P rows
    → All P (update key id g rows)
unfolding update
All-update key P id g [] f h = tt
All-update key P id g (r ∷ rows) f (p, h) = elim (Bool-cases (same (key r) id)) [
  | inl e ↦ rw e (f r p, All-update key P id g rows f h)
  | inr e ↦ rw e (p, All-update key P id g rows f h)
]

-- What a secret's parent needs of two databases.
parents_map :
    (db db' : Db)
    → ((k : Text)
        → contains_key folder_key k db.folders ≡ true
        → contains_key folder_key k db'.folders ≡ true)
    → ((k : Text)
        → contains_key environment_key k db.environments ≡ true
        → contains_key environment_key k db'.environments ≡ true)
    → (f e : Option Text) → parent_exists db f e ≡ true
    → parent_exists db' f e ≡ true
unfolding parent_exists
parents_map db db' hf he (some f) none h = hf f h
parents_map db db' hf he none (some e) h = he e h
parents_map db db' hf he none none h = cc
parents_map db db' hf he (some f) (some e) h = cc

module _ (db : Db) (h : IsWellFormed db) where
  pub add_project-IsWellFormed :
      (r : Project)
      → contains_key project_key (project_key r) db.projects ≡ false
      → IsWellFormed (record db { projects = db.projects ++ r ∷ [] })
  unfolding parent_exists
  add_project-IsWellFormed r e = record {
    projects_unique = UniqueKeys-append project_key db.projects r h.projects_unique e;
    environments_unique = h.environments_unique;
    folders_unique = h.folders_unique;
    secrets_unique = h.secrets_unique;
    attachments_unique = h.attachments_unique;
    environments_in =
        All-map _ _ db.environments (λ x g. still_there project_key x.project_id db.projects r g)
          h.environments_in;
    folders_in = h.folders_in;
    secrets_in = All-map _ _ db.secrets (λ s g. g) h.secrets_in;
    attachments_in = h.attachments_in;
  }

  pub add_environment-IsWellFormed :
      (r : EnvironmentRow)
      → contains_key environment_key (environment_key r) db.environments ≡ false
      → contains_key project_key r.project_id db.projects ≡ true
      → IsWellFormed (record db { environments = db.environments ++ r ∷ [] })
  unfolding parent_exists
  add_environment-IsWellFormed r e p = record {
    projects_unique = h.projects_unique;
    environments_unique =
        UniqueKeys-append environment_key db.environments r h.environments_unique e;
    folders_unique = h.folders_unique;
    secrets_unique = h.secrets_unique;
    attachments_unique = h.attachments_unique;
    environments_in = All-append _ db.environments r h.environments_in p;
    folders_in =
        All-map _ _ db.folders
          (λ x g. still_there environment_key x.environment_id db.environments r g) h.folders_in;
    secrets_in =
        All-map _ _ db.secrets
          (λ s g.
            parents_map db (record db { environments = db.environments ++ r ∷ [] }) (λ k m. m)
              (λ k m. still_there environment_key k db.environments r m) s.folder_id
              s.environment_id g)
          h.secrets_in;
    attachments_in = h.attachments_in;
  }

  pub add_folder-IsWellFormed :
      (r : FolderRow)
      → contains_key folder_key (folder_key r) db.folders ≡ false
      → contains_key environment_key r.environment_id db.environments ≡ true
      → IsWellFormed (record db { folders = db.folders ++ r ∷ [] })
  unfolding parent_exists
  add_folder-IsWellFormed r e p = record {
    projects_unique = h.projects_unique;
    environments_unique = h.environments_unique;
    folders_unique = UniqueKeys-append folder_key db.folders r h.folders_unique e;
    secrets_unique = h.secrets_unique;
    attachments_unique = h.attachments_unique;
    environments_in = h.environments_in;
    folders_in = All-append _ db.folders r h.folders_in p;
    secrets_in =
        All-map _ _ db.secrets
          (λ s g.
            parents_map db (record db { folders = db.folders ++ r ∷ [] })
              (λ k m. still_there folder_key k db.folders r m) (λ k m. m) s.folder_id
              s.environment_id g)
          h.secrets_in;
    attachments_in = h.attachments_in;
  }

  pub add_secret-IsWellFormed :
      (r : SecretRow)
      → contains_key secret_key (secret_key r) db.secrets ≡ false
      → parent_exists db r.folder_id r.environment_id ≡ true
      → IsWellFormed (record db { secrets = db.secrets ++ r ∷ [] })
  unfolding parent_exists
  add_secret-IsWellFormed r e p = record {
    projects_unique = h.projects_unique;
    environments_unique = h.environments_unique;
    folders_unique = h.folders_unique;
    secrets_unique = UniqueKeys-append secret_key db.secrets r h.secrets_unique e;
    attachments_unique = h.attachments_unique;
    environments_in = h.environments_in;
    folders_in = h.folders_in;
    secrets_in = All-append _ db.secrets r (All-map _ _ db.secrets (λ s g. g) h.secrets_in) p;
    attachments_in =
        All-map _ _ db.attachments (λ x g. still_there secret_key x.secret_id db.secrets r g)
          h.attachments_in;
  }

  pub add_attachment-IsWellFormed :
      (r : AttachmentRow)
      → contains_key attachment_key (attachment_key r) db.attachments ≡ false
      → contains_key secret_key r.secret_id db.secrets ≡ true
      → IsWellFormed (record db { attachments = db.attachments ++ r ∷ [] })
  unfolding parent_exists
  add_attachment-IsWellFormed r e p = record {
    projects_unique = h.projects_unique;
    environments_unique = h.environments_unique;
    folders_unique = h.folders_unique;
    secrets_unique = h.secrets_unique;
    attachments_unique = UniqueKeys-append attachment_key db.attachments r h.attachments_unique e;
    environments_in = h.environments_in;
    folders_in = h.folders_in;
    secrets_in = All-map _ _ db.secrets (λ s g. g) h.secrets_in;
    attachments_in = All-append _ db.attachments r h.attachments_in p;
  }

  pub change_project-IsWellFormed :
      (id : Text) (g : Project → Project)
      → ((r : Project) → project_key (g r) ≡ project_key r)
      → IsWellFormed (record db { projects = update project_key id g db.projects })
  unfolding parent_exists
  change_project-IsWellFormed id g e = record {
    projects_unique = UniqueKeys-update project_key id g db.projects e h.projects_unique;
    environments_unique = h.environments_unique;
    folders_unique = h.folders_unique;
    secrets_unique = h.secrets_unique;
    attachments_unique = h.attachments_unique;
    environments_in =
        All-map _ _ db.environments (λ x m. keys_stay project_key x.project_id id g db.projects e m)
          h.environments_in;
    folders_in = h.folders_in;
    secrets_in = All-map _ _ db.secrets (λ s g. g) h.secrets_in;
    attachments_in = h.attachments_in;
  }

  pub change_environment-IsWellFormed :
      (id : Text) (g : EnvironmentRow → EnvironmentRow)
      → ((r : EnvironmentRow) → environment_key (g r) ≡ environment_key r)
      → ((r : EnvironmentRow) → (g r).project_id ≡ r.project_id)
      → IsWellFormed (record db { environments = update environment_key id g db.environments })
  unfolding parent_exists
  change_environment-IsWellFormed id g e p = record {
    projects_unique = h.projects_unique;
    environments_unique =
        UniqueKeys-update environment_key id g db.environments e h.environments_unique;
    folders_unique = h.folders_unique;
    secrets_unique = h.secrets_unique;
    attachments_unique = h.attachments_unique;
    environments_in =
        All-update environment_key _ id g db.environments (λ r m. rw (p r) m) h.environments_in;
    folders_in =
        All-map _ _ db.folders
          (λ x m. keys_stay environment_key x.environment_id id g db.environments e m) h.folders_in;
    secrets_in =
        All-map _ _ db.secrets
          (λ s m.
            parents_map db
              (record db { environments = update environment_key id g db.environments }) (λ k q. q)
              (λ k q. keys_stay environment_key k id g db.environments e q) s.folder_id
              s.environment_id m)
          h.secrets_in;
    attachments_in = h.attachments_in;
  }

  pub change_folder-IsWellFormed :
      (id : Text) (g : FolderRow → FolderRow)
      → ((r : FolderRow) → folder_key (g r) ≡ folder_key r)
      → ((r : FolderRow) → (g r).environment_id ≡ r.environment_id)
      → IsWellFormed (record db { folders = update folder_key id g db.folders })
  unfolding parent_exists
  change_folder-IsWellFormed id g e p = record {
    projects_unique = h.projects_unique;
    environments_unique = h.environments_unique;
    folders_unique = UniqueKeys-update folder_key id g db.folders e h.folders_unique;
    secrets_unique = h.secrets_unique;
    attachments_unique = h.attachments_unique;
    environments_in = h.environments_in;
    folders_in = All-update folder_key _ id g db.folders (λ r m. rw (p r) m) h.folders_in;
    secrets_in =
        All-map _ _ db.secrets
          (λ s m.
            parents_map db (record db { folders = update folder_key id g db.folders })
              (λ k q. keys_stay folder_key k id g db.folders e q) (λ k q. q) s.folder_id
              s.environment_id m)
          h.secrets_in;
    attachments_in = h.attachments_in;
  }

  pub change_secret-IsWellFormed :
      (id : Text) (g : SecretRow → SecretRow)
      → ((r : SecretRow) → secret_key (g r) ≡ secret_key r)
      → ((r : SecretRow)
          → ((g r).folder_id ≡ r.folder_id) × ((g r).environment_id ≡ r.environment_id))
      → IsWellFormed (record db { secrets = update secret_key id g db.secrets })
  unfolding parent_exists
  change_secret-IsWellFormed id g e p = record {
    projects_unique = h.projects_unique;
    environments_unique = h.environments_unique;
    folders_unique = h.folders_unique;
    secrets_unique = UniqueKeys-update secret_key id g db.secrets e h.secrets_unique;
    attachments_unique = h.attachments_unique;
    environments_in = h.environments_in;
    folders_in = h.folders_in;
    secrets_in =
        All-update secret_key _ id g db.secrets (λ r m. rw ((p r).0, (p r).1) m)
          (All-map _ _ db.secrets (λ s m. m) h.secrets_in);
    attachments_in =
        All-map _ _ db.attachments (λ x m. keys_stay secret_key x.secret_id id g db.secrets e m)
          h.attachments_in;
  }

  pub change_attachment-IsWellFormed :
      (id : Text) (g : AttachmentRow → AttachmentRow)
      → ((r : AttachmentRow) → attachment_key (g r) ≡ attachment_key r)
      → ((r : AttachmentRow) → (g r).secret_id ≡ r.secret_id)
      → IsWellFormed (record db { attachments = update attachment_key id g db.attachments })
  unfolding parent_exists
  change_attachment-IsWellFormed id g e p = record {
    projects_unique = h.projects_unique;
    environments_unique = h.environments_unique;
    folders_unique = h.folders_unique;
    secrets_unique = h.secrets_unique;
    attachments_unique =
        UniqueKeys-update attachment_key id g db.attachments e h.attachments_unique;
    environments_in = h.environments_in;
    folders_in = h.folders_in;
    secrets_in = All-map _ _ db.secrets (λ s g. g) h.secrets_in;
    attachments_in =
        All-update attachment_key _ id g db.attachments (λ r m. rw (p r) m) h.attachments_in;
  }

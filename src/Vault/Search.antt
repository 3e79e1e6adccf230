-- ===== src/Vault/Search.antt =====
-- internal/vault/content.go: the tree of a project, the path above a folder, and the search.
pub mod Bounds
pub mod Completeness
use grafted_keys.Prelude.{
  ℕ, suc, Bool, true, false, ◌||◌, List, [], ◌∷◌, Bytes, Text, codes, if◌then◌else◌, leb, ltb, ◌==◌,
  length,
}
use grafted_keys.Exec.{Exec, Result, ok, pure, lift, ◌>>=◌}
use grafted_keys.Store.Schema.{World}
use grafted_keys.Store.Secrets.{SecretWithPath, all_secrets_with_path}
use grafted_keys.Crypto.{Primitives}
use grafted_keys.Vault.Items.{
  Project, Environment, Folder, environments, folders, get_folder, get_environment, get_project,
  field,
}
use grafted_keys.Vault.Secrets.{SecretMeta, secrets, env_secrets}

pub record Crumb : Type 0 where
  pub project : Project
  pub environment : Environment
  pub folder : Folder

pub record TreeFolder : Type 0 where
  pub folder : Folder
  pub secrets : List SecretMeta

pub record TreeEnv : Type 0 where
  pub environment : Environment
  pub folders : List TreeFolder
  pub secrets : List SecretMeta

pub record SearchHit : Type 0 where
  pub secret_id : Text
  pub name : Text
  pub project_id : Text
  pub project_name : Text
  pub env_id : Text
  pub env_name : Text
  pub folder_id : Text
  pub folder_name : Text

-- `strings.ToLower` and `strings.TrimSpace`, which stand on the tables of Unicode.
pub record Letters : Type 0 where
  pub to_lower : Text → Text
  pub trim_space : Text → Text

-- `strings.HasPrefix` and `strings.Contains`
unfoldable pub has_prefix : Text → Text → Bool
has_prefix s [] = true
has_prefix [] (c ∷ cs) = false
has_prefix (d ∷ s) (c ∷ cs) = let rest = has_prefix s cs in if d == c then rest else false

unfoldable pub is_substring : Text → Text → Bool
unfolding has_prefix
is_substring [] needle = has_prefix [] needle
is_substring (d ∷ s) needle = has_prefix (d ∷ s) needle || is_substring s needle

abbrev pub max_hits : ℕ
max_hits = 100

module _ (p : Primitives) (dek : Bytes) where
  unfoldable pub tree_folders : List Folder → Exec World (List TreeFolder)
  unfolding secrets
  tree_folders [] = pure []
  tree_folders (f ∷ fs) = do
    secs ← secrets p dek f.id
    rest ← tree_folders fs
    pure (record { folder = f; secrets = secs } ∷ rest)

  unfoldable pub tree_envs : List Environment → Exec World (List TreeEnv)
  unfolding folders tree_folders env_secrets
  tree_envs [] = pure []
  tree_envs (e ∷ es) = do
    fs ← folders p dek e.id
    tfs ← tree_folders fs
    loose ← env_secrets p dek e.id
    rest ← tree_envs es
    pure (record { environment = e; folders = tfs; secrets = loose } ∷ rest)

  unfoldable pub tree : Text → Exec World (List TreeEnv)
  unfolding environments tree_envs
  tree project_id = do envs ← environments p dek project_id; tree_envs envs

  unfoldable pub breadcrumb : Text → Exec World Crumb
  unfolding get_folder get_environment get_project
  breadcrumb folder_id = do
    f ← get_folder p dek folder_id
    e ← get_environment p dek f.environment_id
    q ← get_project p dek e.project_id
    pure (record { project = q; environment = e; folder = f })

  -- A secret of the environment itself has no folder.
  unfoldable pub open_folder_name : SecretWithPath → Result Text
  unfolding field
  open_folder_name r =
      if ltb 0 (length r.folder_name)
      then field p dek r.folder_name (codes "folder") r.folder_id (codes "name")
      else ok []

  -- What the loop opens of a row: the hit that it may become, and the notes.
  unfoldable pub open_hit : SecretWithPath → Exec World (SearchHit × Text)
  unfolding field open_folder_name
  open_hit r = do
    name ← lift (field p dek r.name_enc (codes "secret") r.id (codes "name"))
    notes ← lift (field p dek r.notes_enc (codes "secret") r.id (codes "notes"))
    proj ← lift (field p dek r.project_name (codes "project") r.project_id (codes "name"))
    env ← lift (field p dek r.env_name (codes "environment") r.env_id (codes "name"))
    folder ← lift (open_folder_name r)
    pure (
      record {
        secret_id = r.id;
        name = name;
        project_id = r.project_id;
        project_name = proj;
        env_id = r.env_id;
        env_name = env;
        folder_id = r.folder_id;
        folder_name = folder;
      },
      notes,
    )

  module _ (letters : Letters) where
    -- `contains`
    unfoldable pub contains : Text → Text → Bool
    unfolding is_substring
    contains haystack needle_lower = is_substring (letters.to_lower haystack) needle_lower

    unfoldable pub hit_matches : Text → SearchHit × Text → Bool
    unfolding contains
    hit_matches q (hit, notes) =
        contains hit.name q
        || (contains notes q
            || (contains hit.folder_name q
                || (contains hit.env_name q || contains hit.project_name q)))

    -- The loop, with the number of hits so far.
    unfoldable pub search_rows : Text → ℕ → List SecretWithPath → Exec World (List SearchHit)
    unfolding open_hit hit_matches
    search_rows q hits [] = pure []
    search_rows q hits (r ∷ rows) = do
      opened ← open_hit r
      if hit_matches q opened
          then (if leb max_hits (suc hits)
              then pure (opened.0 ∷ [])
              else (do more ← search_rows q (suc hits) rows; pure (opened.0 ∷ more)))
          else search_rows q hits rows

    -- `Search`
    unfoldable pub find_secrets : Text → Exec World (List SearchHit)
    unfolding all_secrets_with_path search_rows
    find_secrets query =
        let q = letters.to_lower (letters.trim_space query) in
        if length q == 0 then pure [] else (do rows ← all_secrets_with_path; search_rows q 0 rows)

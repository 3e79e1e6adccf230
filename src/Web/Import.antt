-- ===== src/Web/Import.antt =====
-- internal/web/handlers_import.go: the handlers that import a .env file into an environment or a
-- folder, each behind `needDEK`. What `FormFile` gives is a parameter.
pub mod Fresh
use grafted_keys.Prelude.{
  ◌^◌, ◌++◌, Bool, true, false, not, ◌||◌, List, [], ◌∷◌, if◌then◌else◌, take, Text, Bytes, codes,
  same,
}
use grafted_keys.Exec.{Exec, Result, ok, err, pure, ◌>>=◌}
use grafted_keys.Store.Schema.{World}
use grafted_keys.Crypto.{Primitives}
use grafted_keys.Vault.Secrets
use grafted_keys.Vault.Secrets.{SecretMeta}
use grafted_keys.Web.Server.{
  Library, Request, form_value, Server, Response, attempt, ImportForm, import_form, secret_nodes,
}
use grafted_keys.Web.Middleware.{Gated}
use grafted_keys.Web.Settings.{fail_response}
use grafted_keys.Web.Content.{show}
use grafted_keys.Web.Secrets.{normalize_key, Upload, no_file, read_failed, uploaded}
use grafted_keys.Web.EnvFile.{EnvPair, parse_env}

abbrev pub import_env_form : Gated
import_env_form r sess dek = show (
    import_form (record {
      action = codes "/import";
      target = codes "#secrets-env-" ++ r.path_id;
      parent_field = codes "environment_id";
      parent_id = r.path_id;
      hint = codes "Keys are added as uncategorized secrets in this environment.";
    }))

abbrev pub import_folder_form : Gated
import_folder_form r sess dek = show (
    import_form (record {
      action = codes "/import";
      target = codes "#secrets-folder-" ++ r.path_id;
      parent_field = codes "folder_id";
      parent_id = r.path_id;
      hint = codes "Keys are added as secrets in this folder.";
    }))

-- `existing[name]`, with the names that are set in a list.
unfoldable pub is_known : Text → List Text → Bool
is_known name [] = false
is_known name (other ∷ known) = same name other || is_known name known

-- The names of a listing; an error of the listing is dropped.
abbrev pub names_of : List SecretMeta → List Text
names_of [] = []
names_of (m ∷ metas) = m.name ∷ names_of metas

abbrev pub listed : Result (List SecretMeta) → List SecretMeta
listed (ok metas) = metas
listed (err e) = []

module _ (lib : Library) (p : Primitives) (r : Request) (dek : Bytes) where
  abbrev pub in_environment : Bool
  in_environment = not (same (form_value r (codes "environment_id")) [])

  abbrev pub target_secrets : Exec World (List SecretMeta)
  target_secrets =
      if in_environment
      then Secrets.env_secrets p dek (form_value r (codes "environment_id"))
      else Secrets.secrets p dek (form_value r (codes "folder_id"))

  abbrev pub create_pair : Text → Text → Exec World Text
  create_pair name value =
      if in_environment
      then Secrets.create_env_secret p dek (form_value r (codes "environment_id")) name value []
      else Secrets.create_secret p dek (form_value r (codes "folder_id")) name value []

  -- The new node, if the creation succeeded, before the others.
  abbrev pub with_node : Text → Result Text → List SecretMeta → List SecretMeta
  with_node name (err e) rest = rest
  with_node name (ok id) rest =
      record {
        id = id;
        folder_id = form_value r (codes "folder_id");
        environment_id = form_value r (codes "environment_id");
        name = name;
        has_notes = false;
        updated_at = 0;
      }
      ∷ rest

  abbrev pub skips : List Text → EnvPair → Bool
  skips known q = same (normalize_key lib p q.key) [] || is_known (normalize_key lib p q.key) known

  unfoldable pub import_pairs : List EnvPair → List Text → Exec Server (List SecretMeta)
  unfolding attempt is_known normalize_key
  import_pairs [] known = pure []
  import_pairs (q ∷ qs) known = elim (skips known q) [
    | true ↦ import_pairs qs known
    | false ↦ do
      made ← attempt (create_pair (normalize_key lib p q.key) q.value)
      rest ← import_pairs qs (normalize_key lib p q.key ∷ known)
      pure (with_node (normalize_key lib p q.key) made rest)
  ]

  unfoldable pub import_env : Upload → Exec Server Response
  unfolding attempt import_pairs parse_env
  import_env no_file = pure fail_response
  import_env read_failed = pure fail_response
  import_env (uploaded name content) = do
    metas ← attempt target_secrets
    created ←
        import_pairs (parse_env lib.trim_space (take (2 ^ 20) content)) (names_of (listed metas))
    show (secret_nodes created)

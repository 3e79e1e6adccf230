-- ===== src/Web/Routes.antt =====
-- `routes` of internal/web/server.go: which handler answers which request. The path is given as its
-- segments; the redirections that clean a path are left out. The files that a form brings, a fresh second factor, the answers of the file server and
-- the formats of files are parameters.
pub mod Dispatch
pub mod Reading
pub mod Gating
use grafted_keys.Prelude.{
  Bool, true, false, not, ◌&&◌, ◌||◌, Option, none, some, List, [], ◌∷◌, ◌++◌, if◌then◌else◌, Text,
  Bytes, codes, same,
}
use grafted_keys.Exec.{Exec, pure}
use grafted_keys.Crypto.{Primitives}
use grafted_keys.Backup.{Formats}
use grafted_keys.Auth.Sessions.{Session}
use grafted_keys.Web.Server.{
  Config, Library, Method, method_get, method_head, method_options, method_post, method_delete,
  Request, Server, Response, respond, raw,
}
use grafted_keys.Web.Middleware.{Handler, Gated, need_dek, serve, http_error}
use grafted_keys.Web.Login.{
  get_setup, post_setup, get_unlock, post_unlock, post_unlock_totp, post_lock,
}
use grafted_keys.Web.Content
use grafted_keys.Web.Secrets
use grafted_keys.Web.Secrets.{Upload}
use grafted_keys.Web.Import
use grafted_keys.Web.Settings
use grafted_keys.Web.Backups

-- A literal segment, `{id}` or `{name}`, or all that follows.
pub data Segment : Type 0 where
  literal : Text → Segment
  wildcard rest : Segment

-- What the wildcard stands for, or "" if there is none.
abbrev bound : Segment → Text → Option Text → Option Text
bound (literal t) part found = found
bound wildcard part none = none
bound wildcard part (some v) = some part
bound rest part found = found

unfoldable pub match_path : List Segment → List Text → Option Text
match_path [] [] = some []
match_path [] (part ∷ parts) = none
match_path (rest ∷ pattern) [] = none
match_path (rest ∷ pattern) (part ∷ parts) = some []
match_path (literal t ∷ pattern) [] = none
match_path (literal t ∷ pattern) (part ∷ parts) =
    let found = match_path pattern parts in if same t part then found else none
match_path (wildcard ∷ pattern) [] = none
match_path (wildcard ∷ pattern) (part ∷ parts) =
    let found = match_path pattern parts in if same part [] then none else bound wildcard part found

-- A pattern for GET takes HEAD as well.
abbrev takes : Method → Method → Bool
takes method_get method_get = true
takes method_get method_head = true
takes method_post method_post = true
takes method_delete method_delete = true
takes _ _ = false

-- `mux.HandleFunc`: a handler that needs no key, or one behind `needDEK`.
pub data Entry : Type 0 where
  open_entry : Handler → Entry
  gated_entry : Gated → Entry

pub record Route : Type 0 where
  pub method : Method
  pub pattern : List Segment
  pub entry : Entry

abbrev pub entry_handler : Entry → Handler
entry_handler (open_entry h) = h
entry_handler (gated_entry fn) = need_dek fn

-- `GET /a`, `GET /a/b`, `GET /a/{id}`, and so on.
abbrev path1 : Text → List Segment
path1 a = literal a ∷ []

abbrev path2 : Text → Text → List Segment
path2 a b = literal a ∷ literal b ∷ []

abbrev path3 : Text → Text → Text → List Segment
path3 a b c = literal a ∷ literal b ∷ literal c ∷ []

abbrev item : Text → List Segment
item a = literal a ∷ wildcard ∷ []

abbrev item_of : Text → Text → List Segment
item_of a b = literal a ∷ wildcard ∷ literal b ∷ []

abbrev get_open : List Segment → Handler → Route
get_open pattern h = record { method = method_get; pattern = pattern; entry = open_entry h }

abbrev post_open : List Segment → Handler → Route
post_open pattern h = record { method = method_post; pattern = pattern; entry = open_entry h }

abbrev get_gated : List Segment → Gated → Route
get_gated pattern fn = record { method = method_get; pattern = pattern; entry = gated_entry fn }

abbrev post_gated : List Segment → Gated → Route
post_gated pattern fn = record { method = method_post; pattern = pattern; entry = gated_entry fn }

abbrev delete_gated : List Segment → Gated → Route
delete_gated pattern fn = record {
  method = method_delete;
  pattern = pattern;
  entry = gated_entry fn;
}

-- The parameters of the table.
pub record Wiring : Type 0 where
  pub cfg : Config
  pub lib : Library
  pub primitives : Primitives
  pub formats : Formats
  pub form_file : Request → Text → Upload
  pub new_totp : Option (Text × Text)
  pub static_file : Request → Response

abbrev path2_wild : Text → Text → List Segment
path2_wild a b = literal a ∷ literal b ∷ wildcard ∷ []

abbrev import_file : Library → Primitives → (Request → Text → Upload) → Gated
import_file lib p form_file r sess dek =
    Import.import_env lib p r dek (form_file r (codes "envfile"))

abbrev restore_file : Library → Formats → (Request → Text → Upload) → Gated
restore_file lib fs form_file r = Backups.restore lib fs (form_file r (codes "file")) r

abbrev upload_attachment : Library → Primitives → (Request → Text → Upload) → Gated
upload_attachment lib p form_file r sess dek =
    Secrets.keep_upload lib p r.path_id dek (form_file r (codes "file"))

module _ (w : Wiring) where
  abbrev healthz : Handler
  healthz r sess = pure (respond 200 [] (raw (codes "ok")))

  abbrev static : Handler
  static r sess = pure (w.static_file r)

  abbrev pub open_routes : List Route
  open_routes =
      get_open (literal (codes "static") ∷ rest ∷ []) static
      ∷ get_open (path1 (codes "healthz")) healthz
      ∷ get_open (path1 (codes "setup")) (get_setup w.cfg w.lib w.primitives)
      ∷ post_open (path1 (codes "setup")) (post_setup w.cfg w.lib w.primitives)
      ∷ get_open (path1 (codes "unlock")) (get_unlock w.cfg w.lib w.primitives)
      ∷ post_open (path1 (codes "unlock")) (post_unlock w.cfg w.lib w.primitives)
      ∷ post_open (path2 (codes "unlock") (codes "totp"))
          (post_unlock_totp w.cfg w.lib w.primitives)
      ∷ post_open (path1 (codes "lock")) (post_lock w.cfg w.lib w.primitives)
      ∷ []

  -- The grid of projects, and the nodes of the tree.
  abbrev pub tree_routes : List Route
  tree_routes =
      get_gated [] (Content.home w.lib w.primitives)
      ∷ get_gated (item (codes "projects")) (Content.view_project w.lib w.primitives)
      ∷ get_gated (path1 (codes "search")) (Content.search_secrets w.lib w.primitives)
      ∷ post_gated (path1 (codes "projects")) (Content.create_project w.lib w.primitives)
      ∷ get_gated (item_of (codes "projects") (codes "edit"))
          (Content.edit_project_form w.lib w.primitives)
      ∷ post_gated (item (codes "projects")) (Content.rename_project w.lib w.primitives)
      ∷ delete_gated (item (codes "projects")) (Content.delete_project w.lib w.primitives)
      ∷ get_gated (item_of (codes "projects") (codes "new-env"))
          (Content.new_env_form w.lib w.primitives)
      ∷ post_gated (path1 (codes "environments")) (Content.create_environment w.lib w.primitives)
      ∷ get_gated (item_of (codes "environments") (codes "edit"))
          (Content.edit_environment_form w.lib w.primitives)
      ∷ post_gated (item (codes "environments")) (Content.rename_environment w.lib w.primitives)
      ∷ delete_gated (item (codes "environments")) (Content.delete_environment w.lib w.primitives)
      ∷ get_gated (item_of (codes "environments") (codes "new-folder"))
          (Content.new_folder_form w.lib w.primitives)
      ∷ get_gated (item_of (codes "environments") (codes "new-secret"))
          (Secrets.new_env_secret_form w.lib w.primitives)
      ∷ get_gated (item_of (codes "environments") (codes "import")) Import.import_env_form
      ∷ post_gated (path1 (codes "folders")) (Content.create_folder w.lib w.primitives)
      ∷ get_gated (item_of (codes "folders") (codes "edit"))
          (Content.edit_folder_form w.lib w.primitives)
      ∷ post_gated (item (codes "folders")) (Content.rename_folder w.lib w.primitives)
      ∷ delete_gated (item (codes "folders")) (Content.delete_folder w.lib w.primitives)
      ∷ []

  -- The leaves of the tree, and their files.
  abbrev pub secret_routes : List Route
  secret_routes =
      get_gated (item_of (codes "folders") (codes "new-secret"))
        (Secrets.new_secret_form w.lib w.primitives)
      ∷ get_gated (item_of (codes "folders") (codes "import")) Import.import_folder_form
      ∷ post_gated (path1 (codes "import")) (import_file w.lib w.primitives w.form_file)
      ∷ post_gated (path1 (codes "secrets")) (Secrets.create_secret w.lib w.primitives)
      ∷ get_gated (item_of (codes "secrets") (codes "edit"))
          (Secrets.edit_secret_form w.lib w.primitives)
      ∷ post_gated (item (codes "secrets")) (Secrets.update_secret w.lib w.primitives)
      ∷ delete_gated (item (codes "secrets")) (Secrets.delete_secret w.lib w.primitives)
      ∷ get_gated (item_of (codes "secrets") (codes "detail"))
          (Secrets.show_secret_detail w.lib w.primitives)
      ∷ get_gated (item_of (codes "secrets") (codes "notes"))
          (Secrets.secret_notes w.lib w.primitives)
      ∷ get_gated (item_of (codes "secrets") (codes "reveal"))
          (Secrets.reveal_secret w.lib w.primitives)
      ∷ get_gated (item_of (codes "secrets") (codes "mask"))
          (Secrets.mask_secret w.lib w.primitives)
      ∷ get_gated (item_of (codes "secrets") (codes "copy"))
          (Secrets.copy_secret w.lib w.primitives)
      ∷ post_gated (path2 (codes "notes") (codes "preview"))
          (Secrets.preview_notes w.lib w.primitives)
      ∷ get_gated (item_of (codes "secrets") (codes "attach"))
          (Secrets.show_attach_form w.lib w.primitives)
      ∷ post_gated (item_of (codes "secrets") (codes "attachments"))
          (upload_attachment w.lib w.primitives w.form_file)
      ∷ get_gated (item_of (codes "attachments") (codes "download"))
          (Secrets.download_attachment w.lib w.primitives)
      ∷ delete_gated (item (codes "attachments")) (Secrets.delete_attachment w.lib w.primitives)
      ∷ []

  -- The settings.
  abbrev pub settings_routes : List Route
  settings_routes =
      get_gated (path1 (codes "settings")) (Settings.settings w.cfg w.lib w.primitives)
      ∷ post_gated (path2 (codes "settings") (codes "passphrase"))
          (Settings.passphrase_post w.cfg w.lib w.primitives)
      ∷ post_gated (path2 (codes "settings") (codes "rekey"))
          (Settings.rekey_post w.cfg w.lib w.primitives)
      ∷ post_gated (path3 (codes "settings") (codes "totp") (codes "begin"))
          (Backups.totp_begin w.new_totp)
      ∷ post_gated (path3 (codes "settings") (codes "totp") (codes "confirm"))
          (Settings.totp_confirm w.cfg w.lib w.primitives)
      ∷ post_gated (path3 (codes "settings") (codes "totp") (codes "disable"))
          (Settings.totp_disable w.cfg w.lib w.primitives)
      ∷ post_gated (path2 (codes "settings") (codes "backup")) (Backups.backup_now w.formats)
      ∷ post_gated (path2 (codes "settings") (codes "backup-config"))
          (Settings.save_backup_config w.cfg w.lib w.primitives)
      ∷ post_gated (path2 (codes "settings") (codes "session-config"))
          (Settings.save_session_config w.cfg w.lib w.primitives)
      ∷ get_gated (path2_wild (codes "settings") (codes "backups")) Backups.download_backup
      ∷ post_gated (path2 (codes "settings") (codes "restore"))
          (restore_file w.lib w.formats w.form_file)
      ∷ []

  abbrev pub routes : List Route
  routes = open_routes ++ (tree_routes ++ (secret_routes ++ settings_routes))

-- The handler of the multiplexer, which sets the path value. No two patterns overlap, so the first
-- that matches is the one.
abbrev not_found_page : Handler
not_found_page r sess = pure (http_error 404 (codes "404 page not found"))

abbrev not_allowed_page : Handler
not_allowed_page r sess = pure (http_error 405 (codes "Method Not Allowed"))

-- `missed` says that a pattern for another method has matched.
abbrev dispatched : Route → Option Text → Bool → (Bool → Handler) → Handler
dispatched route none missed next r sess = next missed r sess
dispatched route (some value) missed next r sess =
    if takes route.method r.method
    then entry_handler route.entry (record r { path_id = value }) sess
    else next true r sess

unfoldable pub mux : List Route → List Text → Bool → Handler
unfolding match_path need_dek
mux [] path missed r sess = (if missed then not_allowed_page else not_found_page) r sess
mux (route ∷ routes) path missed r sess =
    dispatched route (match_path route.pattern path) missed (mux routes path) r sess

unfoldable pub handle : Wiring → List Text → Request → Exec Server Response
unfolding mux serve
handle w path = serve w.cfg w.lib (mux (routes w) path false)

-- ===== src/Web/Content.antt =====
-- internal/web/handlers.go and handlers_content.go: the handlers of projects, environments and
-- folders, each behind `needDEK`. A view is what its template is given.
use grafted_keys.Prelude.{◌++◌, List, [], ◌∷◌, if◌then◌else◌, Text, Bytes, codes, same}
use grafted_keys.Exec.{Exec, Result, ok, err, pure, ◌>>=◌, ◌>>◌}
use grafted_keys.Store.Schema.{World}
use grafted_keys.Crypto.{Primitives}
use grafted_keys.Vault.Items
use grafted_keys.Vault.Items.{Project, Environment, Folder}
use grafted_keys.Vault.Search.{Letters, tree, find_secrets}
use grafted_keys.Web.Server.{
  Library, Request, form_value, Server, Response, respond, attempt, NameForm, Fragment, home_cards,
  project_tree, search_results, name_form, node_name, env_node, folder_node, fragment, empty,
}
use grafted_keys.Web.Middleware.{Gated}
use grafted_keys.Web.Settings.{fail_response}

abbrev pub show : Fragment → Exec Server Response
show f = pure (respond 200 [] (fragment f))

abbrev pub no_content : Exec Server Response
no_content = pure (respond 200 [] empty)

abbrev pub or_fail : {A : Type 0} → (A → Exec Server Response) → Result A → Exec Server Response
or_fail f (ok a) = f a
or_fail f (err e) = pure fail_response

-- A call of the vault whose error is answered by `fail`.
abbrev pub answered :
    {A : Type 0} → Exec World A → (A → Exec Server Response) → Exec Server Response
answered m f = attempt m >>= or_fail f

abbrev empty_form : NameForm
empty_form = record {
  title = [];
  action = [];
  target = [];
  swap = [];
  name = [];
  parent_field = [];
  parent_id = [];
}

-- The counts of each card are read, and an error of the reading is dropped.
unfoldable pub count_each : List Project → Exec Server (Unit {0})
unfolding attempt
count_each [] = pure tt
count_each (q ∷ qs) = attempt (Items.counts_for_project q.id) >> count_each qs

module _ (lib : Library) (p : Primitives) where
  abbrev form_name : Request → Text
  form_name r = lib.trim_space (form_value r (codes "name"))

  unfoldable pub render_home : Bytes → Exec Server Response
  unfolding attempt count_each
  render_home dek =
      answered (Items.projects p dek) λ projects. count_each projects >> show (home_cards projects)

  unfoldable pub render_project : Bytes → Text → Exec Server Response
  unfolding attempt
  render_project dek id =
      answered (Items.get_project p dek id)
        λ project. answered (tree p dek id) λ envs. show (project_tree project envs)

  unfoldable pub home : Gated
  unfolding render_home
  home r sess dek = render_home dek

  unfoldable pub view_project : Gated
  unfolding render_project
  view_project r sess dek = render_project dek r.path_id

  abbrev letters : Letters
  letters = record { to_lower = lib.to_lower; trim_space = lib.trim_space }

  unfoldable pub search_secrets : Gated
  unfolding attempt
  search_secrets r sess dek =
      answered (find_secrets p dek letters (form_value r (codes "q")))
        λ hits. show (search_results (form_value r (codes "q")) hits)

  unfoldable pub create_project : Gated
  unfolding attempt render_home
  create_project r sess dek =
      if same (form_name r) []
      then render_home dek
      else answered (Items.create_project p dek (form_name r)) λ id. render_home dek

  unfoldable pub edit_project_form : Gated
  unfolding attempt
  edit_project_form r sess dek = answered (Items.get_project p dek r.path_id) λ q. show (
      name_form (record empty_form {
        title = codes "Rename project";
        action = codes "/projects/" ++ q.id;
        target = codes "#main";
        swap = codes "innerHTML";
        name = q.name;
      }))

  unfoldable pub rename_project : Gated
  unfolding attempt render_home
  rename_project r sess dek =
      answered (Items.rename_project p dek r.path_id (form_name r)) λ _. render_home dek

  unfoldable pub delete_project : Gated
  unfolding attempt
  delete_project r sess dek = answered (Items.delete_project r.path_id) λ _. no_content

  abbrev pub new_env_form : Gated
  new_env_form r sess dek = show (
      name_form (record empty_form {
        title = codes "New environment";
        action = codes "/environments";
        target = codes "#tree";
        swap = codes "beforeend";
        parent_field = codes "project_id";
        parent_id = r.path_id;
      }))

  unfoldable pub create_environment : Gated
  unfolding attempt
  create_environment r sess dek =
      if same (form_name r) []
      then no_content
      else answered
          (Items.create_environment p dek (form_value r (codes "project_id")) (form_name r))
          λ id. show (
            env_node (record {
              id = id;
              project_id = form_value r (codes "project_id");
              name = form_name r;
            }))

  unfoldable pub edit_environment_form : Gated
  unfolding attempt
  edit_environment_form r sess dek = answered (Items.get_environment p dek r.path_id) λ e. show (
      name_form (record empty_form {
        title = codes "Rename environment";
        action = codes "/environments/" ++ e.id;
        target = codes "#name-env-" ++ e.id;
        swap = codes "outerHTML";
        name = e.name;
      }))

  unfoldable pub rename_environment : Gated
  unfolding attempt
  rename_environment r sess dek =
      answered (Items.rename_environment p dek r.path_id (form_name r))
        λ _. show (node_name (codes "env") r.path_id (form_name r))

  unfoldable pub delete_environment : Gated
  unfolding attempt
  delete_environment r sess dek = answered (Items.delete_environment r.path_id) λ _. no_content

  abbrev pub new_folder_form : Gated
  new_folder_form r sess dek = show (
      name_form (record empty_form {
        title = codes "New folder";
        action = codes "/folders";
        target = codes "#folders-env-" ++ r.path_id;
        swap = codes "beforeend";
        parent_field = codes "environment_id";
        parent_id = r.path_id;
      }))

  unfoldable pub create_folder : Gated
  unfolding attempt
  create_folder r sess dek =
      if same (form_name r) []
      then no_content
      else answered
          (Items.create_folder p dek (form_value r (codes "environment_id")) (form_name r))
          λ id. show (
            folder_node (record {
              id = id;
              environment_id = form_value r (codes "environment_id");
              name = form_name r;
            }))

  unfoldable pub edit_folder_form : Gated
  unfolding attempt
  edit_folder_form r sess dek = answered (Items.get_folder p dek r.path_id) λ f. show (
      name_form (record empty_form {
        title = codes "Rename folder";
        action = codes "/folders/" ++ f.id;
        target = codes "#name-folder-" ++ f.id;
        swap = codes "outerHTML";
        name = f.name;
      }))

  unfoldable pub rename_folder : Gated
  unfolding attempt
  rename_folder r sess dek =
      answered (Items.rename_folder p dek r.path_id (form_name r))
        λ _. show (node_name (codes "folder") r.path_id (form_name r))

  unfoldable pub delete_folder : Gated
  unfolding attempt
  delete_folder r sess dek = answered (Items.delete_folder r.path_id) λ _. no_content

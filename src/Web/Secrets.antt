-- ===== src/Web/Secrets.antt =====
-- internal/web/handlers_secret.go and handlers_attach.go: the handlers of secrets and of their
-- attachments, each behind `needDEK`. What `FormFile` and the bounded reading of the upload give is a
-- parameter; the headers of a download other than its disposition are left out.
pub mod Editing
use grafted_keys.Prelude.{
  ℕ, ◌*◌, ◌^◌, ◌++◌, Bool, false, not, ◌||◌, none, some, List, [], ◌∷◌, if◌then◌else◌, ltb, ◌==◌,
  length, Text, Bytes, codes, same,
}
use grafted_keys.Exec.{Exec, Result, ok, err, pure, ◌>>=◌}
use grafted_keys.Crypto.{Primitives}
use grafted_keys.Vault.Secrets
use grafted_keys.Vault.Secrets.{SecretFull, AttachmentMeta, AttachmentData}
use grafted_keys.Web.Server.{
  Library, Request, form_value, Server, Response, respond, attempt, SecretForm, SecretDetail,
  secret_form, secret_node, secret_detail, notes_full, secret_value_control, notes_preview,
  attach_form, attach_list, raw, download,
}
use grafted_keys.Web.Middleware.{Gated, http_error}
use grafted_keys.Web.Settings.{fail_response}
use grafted_keys.Web.Content.{show, no_content, answered}
use grafted_keys.Web.FileName.{sanitize_filename}
use grafted_keys.Web.Disposition.{content_disposition}

-- `\s`
abbrev is_space : ℕ → Bool
is_space c = c == 9 || c == 10 || c == 12 || c == 13 || c == 32

-- `ReplaceAllString` of `\s+` by "_", where `run` says that the byte before was a space.
abbrev underscore : Bool → ℕ → Text
underscore run c = if is_space c then (if run then [] else b'_' ∷ []) else c ∷ []

unfoldable pub collapse : Bool → Text → Text
collapse run [] = []
collapse run (c ∷ cs) = underscore run c ++ collapse (is_space c) cs

abbrev is_set : Text → Bool
is_set t = not (same t [])

abbrev new_form : SecretForm
new_form = record {
  action = codes "/secrets";
  target = [];
  swap = codes "beforeend";
  parent_field = [];
  parent_id = [];
  id = [];
  name = [];
  value = [];
  notes = [];
}

abbrev pub max_attachment_bytes : ℕ
max_attachment_bytes = 5 * 2 ^ 20

abbrev pub attachments_or_none : Result (List AttachmentMeta) → List AttachmentMeta
attachments_or_none (ok atts) = atts
attachments_or_none (err e) = []

-- The upload: its name and its bytes, or whether the form or the reading failed.
pub data Upload : Type 0 where
  no_file read_failed : Upload
  uploaded : Text → Bytes → Upload

module _ (lib : Library) (p : Primitives) where
  unfoldable pub normalize_key : Text → Text
  unfolding collapse
  normalize_key t = lib.to_upper (collapse false (lib.trim_space t))

  abbrev pub key_name : Request → Text
  key_name r = normalize_key (form_value r (codes "name"))

  abbrev pub new_secret_form : Gated
  new_secret_form r sess dek = show (
      secret_form (record new_form {
        target = codes "#secrets-folder-" ++ r.path_id;
        parent_field = codes "folder_id";
        parent_id = r.path_id;
      }))

  abbrev pub new_env_secret_form : Gated
  new_env_secret_form r sess dek = show (
      secret_form (record new_form {
        target = codes "#secrets-env-" ++ r.path_id;
        parent_field = codes "environment_id";
        parent_id = r.path_id;
      }))

  abbrev pub secret_added : Request → Text → Exec Server Response
  secret_added r id = show (
      secret_node (record {
        id = id;
        folder_id = form_value r (codes "folder_id");
        environment_id = form_value r (codes "environment_id");
        name = key_name r;
        has_notes = is_set (form_value r (codes "notes"));
        updated_at = 0;
      }))

  unfoldable pub create_secret : Gated
  unfolding normalize_key attempt
  create_secret r sess dek =
      if same (key_name r) []
      then no_content
      else if not (same (form_value r (codes "environment_id")) [])
      then answered
          (Secrets.create_env_secret p dek (form_value r (codes "environment_id")) (key_name r)
            (form_value r (codes "value")) (form_value r (codes "notes")))
          (secret_added r)
      else answered
          (Secrets.create_secret p dek (form_value r (codes "folder_id")) (key_name r)
            (form_value r (codes "value")) (form_value r (codes "notes")))
          (secret_added r)

  abbrev pub edit_view : SecretFull → SecretForm
  edit_view full = record {
    action = codes "/secrets/" ++ full.id;
    target = codes "#detail-" ++ full.id;
    swap = codes "innerHTML";
    parent_field = [];
    parent_id = [];
    id = full.id;
    name = full.name;
    value = full.value;
    notes = full.notes;
  }

  unfoldable pub edit_secret_form : Gated
  unfolding attempt
  edit_secret_form r sess dek =
      answered (Secrets.get_secret_full p dek r.path_id) λ full. show (secret_form (edit_view full))

  abbrev detail : Text → Text → Text → List AttachmentMeta → SecretDetail
  detail id name notes atts = record {
    id = id;
    name = name;
    has_notes = is_set notes;
    notes = notes;
    attachments = atts;
  }

  -- An error of the list of attachments is dropped.
  unfoldable pub update_secret : Gated
  unfolding normalize_key attempt
  update_secret r sess dek =
      answered
        (Secrets.update_secret p dek r.path_id (key_name r) (form_value r (codes "value"))
          (form_value r (codes "notes")))
        λ _. do
          atts ← attempt (Secrets.attachments p dek r.path_id)
          show (
              secret_detail (
                detail r.path_id (key_name r) (form_value r (codes "notes"))
                  (attachments_or_none atts)))

  unfoldable pub delete_secret : Gated
  unfolding attempt
  delete_secret r sess dek = answered (Secrets.delete_secret r.path_id) λ _. no_content

  unfoldable pub show_secret_detail : Gated
  unfolding attempt
  show_secret_detail r sess dek = answered (Secrets.get_secret_full p dek r.path_id) λ full.
      answered (Secrets.attachments p dek full.id)
        λ atts. show (secret_detail (detail full.id full.name full.notes atts))

  unfoldable pub secret_notes : Gated
  unfolding attempt
  secret_notes r sess dek =
      answered (Secrets.get_secret_full p dek r.path_id)
        λ full. show (notes_full full.name full.notes)

  unfoldable pub reveal_secret : Gated
  unfolding attempt
  reveal_secret r sess dek =
      answered (Secrets.secret_value p dek r.path_id)
        λ value. show (secret_value_control r.path_id (some value))

  abbrev pub mask_secret : Gated
  mask_secret r sess dek = show (secret_value_control r.path_id none)

  unfoldable pub copy_secret : Gated
  unfolding attempt
  copy_secret r sess dek =
      answered (Secrets.secret_value p dek r.path_id) λ value. pure (respond 200 [] (raw value))

  abbrev pub preview_notes : Gated
  preview_notes r sess dek = show (notes_preview (form_value r (codes "notes")))

  -- ---- attachments ----

  unfoldable pub render_attach_list : Bytes → Text → Exec Server Response
  unfolding attempt
  render_attach_list dek id =
      answered (Secrets.attachments p dek id) λ atts. show (attach_list id atts)

  abbrev pub show_attach_form : Gated
  show_attach_form r sess dek = show (attach_form r.path_id 5)

  abbrev pub keep_upload : Text → Bytes → Upload → Exec Server Response
  keep_upload id dek no_file = render_attach_list dek id
  keep_upload id dek read_failed = pure fail_response
  keep_upload id dek (uploaded name content) =
      if length content == 0 || ltb max_attachment_bytes (length content)
      then render_attach_list dek id
      else answered
          (Secrets.add_attachment p dek id (sanitize_filename lib.trim_space name) content)
          λ _. render_attach_list dek id

  abbrev pub sent_file : Result AttachmentData → Exec Server Response
  sent_file (ok att) =
      pure (respond 200 [] (download (content_disposition lib.trim_space att.name) att.data_))
  sent_file (err e) = pure (http_error 404 (codes "404 page not found"))

  unfoldable pub download_attachment : Gated
  unfolding attempt content_disposition
  download_attachment r sess dek = attempt (Secrets.attachment_data p dek r.path_id) >>= sent_file

  unfoldable pub delete_attachment : Gated
  unfolding attempt render_attach_list
  delete_attachment r sess dek =
      answered (Secrets.attachment_secret r.path_id)
        λ id. answered (Secrets.delete_attachment r.path_id) λ _. render_attach_list dek id

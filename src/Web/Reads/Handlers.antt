-- ===== src/Web/Reads/Handlers.antt =====
-- Each handler of internal/web that answers a GET only reads.
use grafted_keys.Prelude.{
  codes, not, false, refl, inl, inr, Bool-cases, Option-cases, lookup, Text, Bytes, List, [], ◌∷◌,
  Option, none, some,
}
use grafted_keys.Exec.{Exec, Result, ok, err, pure}
use grafted_keys.Store.Schema.{World, next_fault}
use grafted_keys.Store.Atomic.{Quiet}
use grafted_keys.Crypto.{Primitives}
use grafted_keys.Auth.Sessions.{Session, unlocked}
use grafted_keys.Vault.Items.{Project}
use grafted_keys.Vault.Items
use grafted_keys.Vault.Secrets.{AttachmentData}
use grafted_keys.Backup.{File, plain, folder, io}
use grafted_keys.Vault.Reading.{
  Quiet-vault_initialized, Quiet-projects, Quiet-get_project, Quiet-get_environment,
  Quiet-get_folder, Quiet-tree, Quiet-find_secrets, Quiet-secret_value, Quiet-get_secret_full,
  Quiet-attachments, Quiet-attachment_data, Quiet-counts_for_project,
}
use grafted_keys.Web.Server.{
  Config, Library, Request, Server, Response, see_other, attempt, session_key,
}
use grafted_keys.Web.Settings.{settings, render_settings}
use grafted_keys.Web.Settings.Rendering.{Quiet-totp_enabled}
use grafted_keys.Web.Middleware.{is_true, Gated, need_dek, to_login, gate}
use grafted_keys.Web.Login.{get_setup, get_unlock, preauth, unlock_page, passphrase}
use grafted_keys.Web.Content
use grafted_keys.Web.Content.{answered, or_fail, count_each}
use grafted_keys.Web.Secrets
use grafted_keys.Web.Backups.{
  download_backup, open_backup, stat_open, streamed, stat_then, open_then,
}
use grafted_keys.Web.Reads.{
  Peeks, Reads, Reads-pure, Reads-bind, Reads-attempt, Reads-attempt_disk, Reads-new_session,
  Reads-if, unchanged,
}

Reads-answered :
    {A : Type 0} (m : Exec World A) (f : A → Exec Server Response)
    → Quiet m
    → ((a : A) → Reads (f a))
    → Reads (answered m f)
Reads-answered {A} m f q k = Reads-bind (attempt m) _ (Reads-attempt m q) reply
  where
    reply : (x : Result A) → Reads (or_fail f x)
    reply (ok a) = k a
    reply (err e) = Reads-pure _

Reads-count_each : (projects : List Project) → Reads (count_each projects)
unfolding count_each
Reads-count_each [] = Reads-pure tt
Reads-count_each (q ∷ qs) =
    Reads-bind (attempt (Items.counts_for_project q.id)) _
      (Reads-attempt _ (Quiet-counts_for_project q.id)) λ _. Reads-count_each qs

module _ (lib : Library) (p : Primitives) (r : Request) (sess : Session) (dek : Bytes) where
  pub Reads-home : Reads (Content.home lib p r sess dek)
  unfolding Content.home Content.render_home
  Reads-home =
      Reads-answered (Items.projects p dek) _ (Quiet-projects p dek)
        λ projects. Reads-bind (count_each projects) _ (Reads-count_each projects) λ _. Reads-pure _

  ruleset content_rules = (
    Reads-pure, Reads-answered, Quiet-projects, Quiet-get_project, Quiet-get_environment,
    Quiet-get_folder, Quiet-tree, Quiet-find_secrets, Quiet-secret_value, Quiet-get_secret_full,
    Quiet-attachments,
  )

  pub Reads-view_project : Reads (Content.view_project lib p r sess dek)
  unfolding Content.view_project Content.render_project
  Reads-view_project = search content_rules depth 9

  pub Reads-search_secrets : Reads (Content.search_secrets lib p r sess dek)
  unfolding Content.search_secrets
  Reads-search_secrets = search content_rules depth 9

  pub Reads-edit_project_form : Reads (Content.edit_project_form lib p r sess dek)
  unfolding Content.edit_project_form
  Reads-edit_project_form = search content_rules depth 9

  pub Reads-edit_environment_form : Reads (Content.edit_environment_form lib p r sess dek)
  unfolding Content.edit_environment_form
  Reads-edit_environment_form = search content_rules depth 9

  pub Reads-edit_folder_form : Reads (Content.edit_folder_form lib p r sess dek)
  unfolding Content.edit_folder_form
  Reads-edit_folder_form = search content_rules depth 9

  pub Reads-edit_secret_form : Reads (Secrets.edit_secret_form lib p r sess dek)
  unfolding Secrets.edit_secret_form
  Reads-edit_secret_form = search content_rules depth 9

  pub Reads-show_secret_detail : Reads (Secrets.show_secret_detail lib p r sess dek)
  unfolding Secrets.show_secret_detail
  Reads-show_secret_detail = search content_rules depth 9

  pub Reads-secret_notes : Reads (Secrets.secret_notes lib p r sess dek)
  unfolding Secrets.secret_notes
  Reads-secret_notes = search content_rules depth 9

  pub Reads-reveal_secret : Reads (Secrets.reveal_secret lib p r sess dek)
  unfolding Secrets.reveal_secret
  Reads-reveal_secret = search content_rules depth 9

  pub Reads-copy_secret : Reads (Secrets.copy_secret lib p r sess dek)
  unfolding Secrets.copy_secret
  Reads-copy_secret = search content_rules depth 9

  pub Reads-download_attachment : Reads (Secrets.download_attachment lib p r sess dek)
  unfolding Secrets.download_attachment
  Reads-download_attachment =
      Reads-bind _ _ (Reads-attempt _ (Quiet-attachment_data p dek r.path_id)) sent
    where
      sent : (x : Result AttachmentData) → Reads (Secrets.sent_file lib p x)
      sent (ok att) = Reads-pure _
      sent (err e) = Reads-pure _

pub Reads-settings :
    (cfg : Config) (lib : Library) (p : Primitives) (r : Request) (sess : Session) (dek : Bytes)
    → Reads (settings cfg lib p r sess dek)
unfolding settings render_settings
Reads-settings cfg lib p r sess dek =
    Reads-bind _ _ (Reads-attempt _ Quiet-totp_enabled) λ enabled. record { at = unchanged }

Reads-preauth : (lib : Library) (o : Option Session) → Reads (preauth lib o)
unfolding preauth
Reads-preauth lib none = Reads-bind _ _ (Reads-new_session lib none false) λ sess. Reads-pure _
Reads-preauth lib (some sess) = Reads-pure _

pub Reads-get_setup :
    (cfg : Config) (lib : Library) (p : Primitives) (r : Request) (o : Option Session)
    → Reads (get_setup cfg lib p r o)
unfolding get_setup
Reads-get_setup cfg lib p r o =
    Reads-bind _ _ (Reads-attempt _ Quiet-vault_initialized) λ init.
      Reads-if _ _ _ (Reads-pure _) (Reads-bind _ _ (Reads-preauth lib o) λ pre. Reads-pure _)

pub Reads-get_unlock :
    (cfg : Config) (lib : Library) (p : Primitives) (r : Request) (o : Option Session)
    → Reads (get_unlock cfg lib p r o)
unfolding get_unlock
Reads-get_unlock cfg lib p r o = Reads-bind _ _ (Reads-attempt _ Quiet-vault_initialized) λ init.
    Reads-if (not (is_true init)) (pure (see_other [] (codes "/setup"))) _ (Reads-pure _) (
      Reads-if (unlocked o) (pure (see_other [] (codes "/"))) _ (Reads-pure _) (
        Reads-bind _ _ (Reads-preauth lib o)
          λ pre. Reads-pure (unlock_page 200 pre.1 pre.0 passphrase [])))

pub Reads-to_login : (r : Request) → Reads (to_login r)
unfolding to_login
Reads-to_login r = Reads-bind _ _ (Reads-attempt _ Quiet-vault_initialized) λ init. Reads-pure _

Reads-gate :
    (fn : Gated) (r : Request) (o : Option Session)
    → ((sess : Session) (dek : Bytes) → Reads (fn r sess dek))
    → Reads (gate fn r o)
Reads-gate fn r none k = record { at = λ s. (Reads-to_login r).at s }
Reads-gate fn r (some sess) k = record { at = λ s. (k sess (session_key sess s)).at s }

pub Reads-need_dek :
    (fn : Gated) (r : Request) (o : Option Session)
    → ((sess : Session) (dek : Bytes) → Reads (fn r sess dek))
    → Reads (need_dek fn r o)
unfolding need_dek
Reads-need_dek fn r o k = Reads-if _ _ _ (Reads-gate fn r o k) (Reads-to_login r)

Peeks-open_backup : (name : Text) → Peeks (open_backup name)
unfolding open_backup io
Peeks-open_backup name = record {
  at = λ d. elim (Bool-cases (next_fault d.io_faults).0) [
    | inl f ↦ rw f (refl, refl)
    | inr f ↦ elim (Option-cases (lookup name d.backups)) [
      | inl o ↦ rw (f, o) (refl, refl)
      | inr (g, o) ↦ rw (f, o) (refl, refl)
    ]
  ];
}

Peeks-stat_open : Peeks stat_open
unfolding stat_open io
Peeks-stat_open = record {
  at = λ d. elim (Bool-cases (next_fault d.io_faults).0) [
    | inl f ↦ rw f (refl, refl)
    | inr f ↦ rw f (refl, refl)
  ];
}

Reads-streamed : (name : Text) (f : File) (x : Result (Unit {0})) → Reads (streamed name f x)
Reads-streamed name f (err e) = Reads-pure _
Reads-streamed name folder (ok u) = Reads-pure _
Reads-streamed name (plain b) (ok u) = Reads-pure _

Reads-stat_then : (name : Text) (x : Result File) → Reads (stat_then name x)
Reads-stat_then name (err e) = Reads-pure _
Reads-stat_then name (ok f) =
    Reads-bind _ _ (Reads-attempt_disk _ Peeks-stat_open) (Reads-streamed name f)

Reads-open_then : (o : Option Text) → Reads (open_then o)
Reads-open_then none = Reads-pure _
Reads-open_then (some name) =
    Reads-bind _ _ (Reads-attempt_disk _ (Peeks-open_backup name)) (Reads-stat_then name)

pub Reads-download_backup :
    (r : Request) (sess : Session) (dek : Bytes) → Reads (download_backup r sess dek)
unfolding download_backup
Reads-download_backup r sess dek = Reads-open_then _

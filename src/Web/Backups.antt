-- ===== src/Web/Backups.antt =====
-- The handlers of internal/web/handlers_settings.go that work on backup files, each behind `needDEK`.
-- Texts of errors are left out of the messages. What `FormFile` gives is a parameter. The server has a
-- scheduler, as it has in main.go.
pub mod Names
pub mod Staging
pub mod Choice
use grafted_keys.Prelude.{
  ℕ, ◌*◌, ◌^◌, ◌++◌, Bool, true, false, not, ◌||◌, Option, none, some, List, [], ◌∷◌, if◌then◌else◌,
  take, Text, Bytes, codes, same, Dict, lookup, insert,
}
use grafted_keys.Exec.{Error, Exec, Result, ok, err, pure, not_found, ◌>>=◌, ◌>>◌}
use grafted_keys.Backup.{File, plain, folder, Disk, Formats, io, snapshot, snapshots, sort_names}
use grafted_keys.Backup.Names.{is_backup_name}
use grafted_keys.Boot.{temporary_file, pending_file, remove_file, rename_file, validate_vault_file}
use grafted_keys.Auth.Sessions.{Session}
use grafted_keys.Web.Server.{
  Library, Request, form_value, Server, Response, respond, attempt_host, attempt_disk, download,
  totp_enroll, restore_wait,
}
use grafted_keys.Web.FileName.{file_base}
use grafted_keys.Web.Middleware.{Gated, http_error}
use grafted_keys.Web.Settings.{show_message, show_error, fail_response}
use grafted_keys.Web.Content.{show}
use grafted_keys.Web.Secrets.{Upload, no_file, read_failed, uploaded}

-- `maxRestoreBytes`
abbrev pub max_restore_bytes : ℕ
max_restore_bytes = 256 * 2 ^ 20

-- `safeBackupPath`: the name of a file in the backup directory, or a refusal.
unfoldable pub safe_backup_path : Text → Option Text
unfolding file_base
safe_backup_path name =
    if same name [] || not (same name (file_base name)) || not (is_backup_name name)
    then none
    else some name

-- `os.Open` in the backup directory.
abbrev pub opened_file : Disk → Option File → Result (File × Disk)
opened_file d none = err not_found
opened_file d (some f) = ok (f, d)

unfoldable pub open_backup : Text → Exec Disk File
unfolding io
open_backup name = io λ d. opened_file d (lookup name d.backups)

-- `os.OpenFile` with `O_TRUNC`, and a copy into it.
unfoldable pub write_file : Text → Bytes → Exec Disk (Unit {0})
unfolding io
write_file name content =
    io λ d. ok (tt, record d { data_files = insert name content d.data_files })

abbrev not_found_page : Response
not_found_page = http_error 404 (codes "404 page not found")

-- `Stat` of an open file.
unfoldable pub stat_open : Exec Disk (Unit {0})
unfolding io
stat_open = io λ d. ok (tt, d)

abbrev pub streamed : Text → File → Result (Unit {0}) → Exec Server Response
streamed name f (err e) = pure not_found_page
streamed name folder (ok u) = pure not_found_page
streamed name (plain content) (ok u) =
    pure
      (respond 200 [] (download (codes "attachment; filename=\"" ++ (name ++ codes "\"")) content))

abbrev pub stat_then : Text → Result File → Exec Server Response
stat_then name (err e) = pure not_found_page
stat_then name (ok f) = attempt_disk stat_open >>= streamed name f

abbrev pub open_then : Option Text → Exec Server Response
open_then none = pure not_found_page
open_then (some name) = attempt_disk (open_backup name) >>= stat_then name

unfoldable pub download_backup : Gated
unfolding attempt_disk open_backup stat_open safe_backup_path
download_backup r sess dek = open_then (safe_backup_path r.path_id)

abbrev taken : Session → Result Text → Exec Server Response
taken sess (ok name) = show_message sess (codes "Backup created.")
taken sess (err e) = show_error sess (codes "Backup failed: ")

unfoldable pub backup_now : Formats → Gated
unfolding attempt_host snapshot
backup_now fs r sess dek s = (attempt_host (snapshot fs s.schedule.keep) >>= taken sess) s

-- `crypto.NewTOTPSecret` gives a secret and its address, or fails.
abbrev pub totp_begin : Option (Text × Text) → Gated
totp_begin none r sess dek = pure fail_response
totp_begin (some (secret, uri)) r sess dek = show (totp_enroll secret uri)

-- ---- restore ----

-- What the handler copies from: a content, a file that cannot be read, or a refusal with its message.
pub data Source : Type 0 where
  content : Bytes → Source
  unreadable : Source
  refused : Text → Source

abbrev pub opened : Result File → Source
opened (err e) = refused (codes "The selected backup could not be opened.")
opened (ok folder) = unreadable
opened (ok (plain b)) = content b

abbrev pub existing : Option Text → Exec Server Source
existing none = pure (refused (codes "Choose a valid backup to restore from."))
existing (some name) = do f ← attempt_disk (open_backup name); pure (opened f)

abbrev pub sent : Upload → Source
sent no_file = refused (codes "Choose a backup file to upload.")
sent read_failed = unreadable
sent (uploaded name b) = content b

unfoldable pub restore_source : Request → Upload → Exec Server Source
unfolding attempt_disk open_backup safe_backup_path
restore_source r upload =
    if same (form_value r (codes "source")) (codes "existing")
    then existing (safe_backup_path (form_value r (codes "existing_name")))
    else if same (form_value r (codes "source")) (codes "upload")
    then pure (sent upload)
    else pure (refused (codes "Choose a restore source."))

module _ (fs : Formats) (sess : Session) where
  -- The staging is given up.
  abbrev give_up : Text → Exec Server Response
  give_up message = attempt_disk (remove_file temporary_file) >> show_error sess message

  abbrev pub safety : Result Text → Text
  safety (ok name) = name
  safety (err e) = []

  abbrev pub renamed : Text → Result (Unit {0}) → Exec Server Response
  renamed name (err e) = give_up (codes "Could not finalize the restore staging.")
  renamed name (ok u) =
      λ s. (ok (respond 200 [] (restore_wait sess.csrf name)), record s { restarting = true })

  -- An error of the snapshot is dropped.
  abbrev pub snapshot_then : Exec Server Response
  snapshot_then s =
      (do
        name ← attempt_host (snapshot fs s.schedule.keep)
        moved ← attempt_disk (rename_file temporary_file pending_file)
        renamed (safety name) moved)
        s

  abbrev pub validated : Result (Unit {0}) → Exec Server Response
  validated (err e) = give_up (codes "That file is not a valid Grafted backup.")
  validated (ok u) = snapshot_then

  abbrev pub copied : Result (Unit {0}) → Exec Server Response
  copied (err e) = give_up (codes "Could not read the backup data.")
  copied (ok u) = attempt_disk (validate_vault_file fs temporary_file) >>= validated

  abbrev pub copy_from : Source → Exec Server Response
  copy_from unreadable = give_up (codes "Could not read the backup data.")
  copy_from (refused message) = show_error sess message
  copy_from (content b) =
      attempt_disk (write_file temporary_file (take max_restore_bytes b)) >>= copied

  abbrev pub created : Source → Result (Unit {0}) → Exec Server Response
  created source (err e) = show_error sess (codes "Could not stage the restore.")
  created source (ok u) = copy_from source

  abbrev pub stage : Source → Exec Server Response
  stage (refused message) = show_error sess message
  stage source = attempt_disk (write_file temporary_file []) >>= created source

unfoldable pub restore : Library → Formats → Upload → Gated
unfolding attempt_disk attempt_host restore_source write_file validate_vault_file snapshot
    rename_file remove_file
restore lib fs upload r sess dek =
    if not
      (lib.equal_fold (lib.trim_space (form_value r (codes "confirm"))) (codes "restore backup"))
    then show_error sess (codes "Type \"restore backup\" exactly to confirm.")
    else restore_source r upload >>= stage fs sess

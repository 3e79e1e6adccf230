-- ===== src/Web/Backups/Choice.antt =====
-- What `restoreSource` of internal/web/handlers_settings.go finds, and the whole of `restore`.
use mathlib.Core.Path.{subst}
use grafted_keys.Prelude.{
  ◌≡◌, ◌⊎◌, inl, inr, refl, sym, ap, ◌∙◌, Bool, true, false, not, Bool-cases, Option-cases, Option,
  arith, none, some, if◌then◌else◌, take, Text, Bytes, codes, same, Dict, lookup,
}
use grafted_keys.Exec.{ok_injective, Exec, Result, ok, err, pure, io_failed, not_found}
use grafted_keys.Store.Schema.{next_fault}
use grafted_keys.Backup.{File, plain, folder, Disk, Formats, io}
use grafted_keys.Boot.{apply_pending_restore}
use grafted_keys.Boot.Recovery.{restarted, apply-IsRestored}
use grafted_keys.Boot.Swapping.{IsRestored}
use grafted_keys.Auth.Sessions.{Session}
use grafted_keys.Web.Server.{Library, Request, form_value, Server, Response, attempt_disk}
use grafted_keys.Web.Server.Outcome.{
  Outcome, Runs, Runs-pure, Runs-bind, Runs-if, Runs-attempt_disk, Runs-weaken,
}
use grafted_keys.Web.Secrets.{Upload, no_file, read_failed, uploaded}
use grafted_keys.Web.Settings.{show_error}
use grafted_keys.Web.Backups
use grafted_keys.Web.Backups.{restore, restore_source, safe_backup_path, open_backup, Source}
use grafted_keys.Web.Backups.Staging.{
  IsUntouched, IsReady, IsChosen, is_wait, Ends, Untouched, ChosenSource, stage-Ends,
  show_error-Ends,
}

open_backup-cases :
    (name : Text) (d : Disk)
    → ((open_backup name d).1.data_files ≡ d.data_files)
      × (((f : File) × ((open_backup name d).0 ≡ ok f) × (lookup name d.backups ≡ some f))
          ⊎ ((open_backup name d).0 ≡ err io_failed)
          ⊎ ((open_backup name d).0 ≡ err not_found))
unfolding open_backup io
open_backup-cases name d = elim (Bool-cases (next_fault d.io_faults).0) [
  | inl f ↦ rw f (refl, inr (inl refl))
  | inr f ↦ elim (Option-cases (lookup name d.backups)) [
    | inl o ↦ rw (f, o) (refl, inr (inr refl))
    | inr (g, o) ↦ rw (f, o) (refl, inl (g, refl, refl))
  ]
]

same_eq : (a b : Text) → same a b ≡ true → a ≡ b
same_eq a b h = ground (arith, h)

safe_backup_path_same : (t n : Text) → safe_backup_path t ≡ some n → t ≡ n
unfolding safe_backup_path
safe_backup_path_same t n h = ground (arith, h)

module _ (r : Request) (upload : Upload) (fs : Formats) (files : Dict Bytes) (flag : Bool)
    (backups : Dict File) where
  abbrev Chosen : Bytes → Type 0
  Chosen = IsChosen r upload backups

  -- At the start of the handler.
  Starts : Server → Type 0
  Starts t = IsUntouched files flag t × (t.disk.backups ≡ backups)

  Found : Source → Server → Type 0
  Found source t = IsUntouched files flag t × ChosenSource fs files flag Chosen source

  opened-Chosen :
      (n : Text) (x : Result File)
      → same (form_value r (codes "source")) (codes "existing") ≡ true
      → safe_backup_path (form_value r (codes "existing_name")) ≡ some n
      → ((f : File) → x ≡ ok f → lookup n backups ≡ some f)
      → ChosenSource fs files flag Chosen (Backups.opened x)
  unfolding ChosenSource IsChosen
  opened-Chosen n (err e) c h k = tt
  opened-Chosen n (ok folder) c h k = tt
  opened-Chosen n (ok (plain b)) c h k =
      inr
        (same_eq _ _ c, ap (λ t. lookup t backups) (safe_backup_path_same _ n h) ∙ k (plain b) refl)

  sent-Chosen :
      (u : Upload)
      → same (form_value r (codes "source")) (codes "upload") ≡ true
      → u ≡ upload
      → ChosenSource fs files flag Chosen (Backups.sent u)
  unfolding ChosenSource IsChosen
  sent-Chosen no_file c e = tt
  sent-Chosen read_failed c e = tt
  sent-Chosen (uploaded n b) c e = inl (same_eq _ _ c, (n, sym e))

  open_backup_found :
      (n : Text) (s : Server) (f : File)
      → s.disk.backups ≡ backups
      → (open_backup n s.disk).0 ≡ ok f
      → lookup n backups ≡ some f
  open_backup_found n s f b e = elim (open_backup-cases n s.disk).1 [
    | inl (g, o, k) ↦ sym (ap (lookup n) b) ∙ (k ∙ ap some (ok_injective _ _ (sym o ∙ e)))
    | inr q ↦ absurd (elim q [ inl o ↦ cc | inr o ↦ cc ])
  ]

  existing-Found :
      (o : Option Text)
      → same (form_value r (codes "source")) (codes "existing") ≡ true
      → safe_backup_path (form_value r (codes "existing_name")) ≡ o
      → Runs (IsUntouched files flag) Starts (Backups.existing o) Found
  unfolding Found Starts ChosenSource IsUntouched
  existing-Found none c e = Runs-pure _ Found λ s (h, _). (h, tt)
  existing-Found (some n) c e =
      Runs-bind (attempt_disk (open_backup n)) _ (λ x. Found (Backups.opened x)) Found
        (Runs-attempt_disk _ _ (λ s h q. opened_untouched s h.0)
          λ s x (h, b) q.
            (opened_untouched s h, opened-Chosen n x c e λ f k. open_backup_found n s f b (q ∙ k)))
        λ x. Runs-pure _ Found λ s h. h
    where
      opened_untouched :
          (s : Server)
          → IsUntouched files flag s
          → IsUntouched files flag (record s { disk = (open_backup n s.disk).1 })
      opened_untouched s (h, f) = (λ m a. ap (lookup m) (open_backup-cases n s.disk).0 ∙ h m a, f)

  restore_source-Found : Runs (IsUntouched files flag) Starts (restore_source r upload) Found
  unfolding restore_source Found Starts ChosenSource
  restore_source-Found =
      Runs-if (same (form_value r (codes "source")) (codes "existing")) _ from_form Found
        (λ c. existing-Found _ c refl)
        λ _.
          Runs-if (same (form_value r (codes "source")) (codes "upload")) _ (pure no_source) Found
            (λ c. Runs-pure _ Found λ s (h, _). (h, sent-Chosen upload c refl))
            λ _. Runs-pure no_source Found λ s (h, _). (h, tt)
    where
      no_source : Source
      no_source = Backups.refused (codes "Choose a restore source.")

      from_form : Exec Server Source
      from_form =
          if same (form_value r (codes "source")) (codes "upload")
          then pure (Backups.sent upload)
          else pure no_source

  restore-Ends :
      (lib : Library) (sess : Session) (dek : Bytes)
      → Runs
          (IsUntouched files flag)
          Starts
          (restore lib fs upload r sess dek)
          (Ends fs files flag Chosen)
  unfolding restore Starts Found Untouched
  restore-Ends lib sess dek =
      Runs-if
        (not (
          lib.equal_fold (lib.trim_space (form_value r (codes "confirm")))
            (codes "restore backup")))
        (show_error sess (codes "Type \"restore backup\" exactly to confirm.")) _ _
        (λ _.
          Runs-weaken (IsUntouched files flag) _ _ (λ s (h, _). h)
            (show_error-Ends fs files flag Chosen sess
              (codes "Type \"restore backup\" exactly to confirm.")))
        λ _. Runs-bind (restore_source r upload) _ Found _ restore_source-Found λ source. record {
          at = λ s (h, c). (stage-Ends fs files flag Chosen sess source c).at s h;
        }

module _ (lib : Library) (fs : Formats) (r : Request) (upload : Upload) (sess : Session)
    (dek : Bytes) (s : Server) where
  abbrev after_restore : Server
  after_restore = (restore lib fs upload r sess dek s).1

  restore_cases :
      (res : Response)
      → (restore lib fs upload r sess dek s).0 ≡ ok res
      → Ends fs s.disk.data_files s.restarting (IsChosen r upload s.disk.backups) res after_restore
  unfolding Starts IsUntouched
  restore_cases res h =
      subst
        (λ x.
          Outcome (IsUntouched s.disk.data_files s.restarting)
            (Ends fs s.disk.data_files s.restarting (IsChosen r upload s.disk.backups)) x
            after_restore)
        h
        ((restore-Ends r upload fs s.disk.data_files s.restarting s.disk.backups lib sess dek).at s
          ((λ n a. refl, refl), refl))

  -- A restore that is not answered with the page that waits for the restart asks for none, and changes
  -- no file of the data directory but the temporary one: not the live database, and not a restore
  -- that was staged before.
  pub restore_refused :
      (res : Response)
      → (restore lib fs upload r sess dek s).0 ≡ ok res
      → is_wait res ≡ false
      → IsUntouched s.disk.data_files s.restarting after_restore
  unfolding Ends
  restore_refused res h w = elim (restore_cases res h) [ inl (_, k) ↦ k | inr (k, _) ↦ absurd (cc) ]

  -- A restore that is answered with the page that waits for the restart is what the next start, at which
  -- nothing fails, makes the live database: the first 256 MiB of the upload, if the form says "upload", and of
  -- the file in the backup directory that the form names, if it says "existing".
  pub restore_restores :
      (res : Response)
      → (restore lib fs upload r sess dek s).0 ≡ ok res
      → is_wait res ≡ true
      → (b : Bytes) × IsChosen r upload s.disk.backups b
        × IsRestored
            (take Backups.max_restore_bytes b)
            (apply_pending_restore fs (restarted after_restore.disk)).1.data_files
  unfolding Ends IsReady
  restore_restores res h w = elim (restore_cases res h) [
    | inl (k, _) ↦ absurd (cc)
    | inr (_, (b, c, v, (k, _))) ↦ (b, c, (apply-IsRestored fs _ after_restore.disk k v).1)
  ]

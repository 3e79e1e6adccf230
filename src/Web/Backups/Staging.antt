-- ===== src/Web/Backups/Staging.antt =====
-- What `restore` of internal/web/handlers_settings.go leaves for the next start.
use mathlib.Core.Path.{subst}
use grafted_keys.Prelude.{
  ℕ, ◌≡◌, ◌⊎◌, inl, inr, refl, sym, ap, ◌∙◌, Bool, true, false, Bool-cases, some, [], take, Text,
  Bytes, codes, same, text_dec, Dict, lookup, insert, erase, lookup-insert, lookup-erase, arith,
}
use grafted_keys.Exec.{io_failed, Result, ok, err, ◌>>=◌, ◌>>◌}
use grafted_keys.Store.Schema.{next_fault}
use grafted_keys.Backup.{File, plain, Disk, Formats, io, snapshot}
use grafted_keys.Boot.{
  temporary_file, pending_file, remove_file, rename_file, validate_vault_file, validate_content,
}
use grafted_keys.Boot.Recovery.{validate-cases}
use grafted_keys.Boot.Swapping.{remove_file-cases, rename_file-cases}
use grafted_keys.Auth.Sessions.{Session}
use grafted_keys.Vault.Factor.{totp_enabled}
use grafted_keys.Web.Server.{
  Request, form_value, Server, Response, Body, attempt, attempt_disk, attempt_host, restore_wait,
  host_of, after_host,
}
use grafted_keys.Web.Server.Outcome.{
  Runs, Runs-bind, Runs-attempt, Runs-attempt_disk, Runs-attempt_host, Runs-weaken,
}
use grafted_keys.Web.Settings.{render_settings, show_error}
use grafted_keys.Web.Secrets.{Upload, uploaded}
use grafted_keys.Web.Backups
use grafted_keys.Web.Backups.{write_file}
use grafted_keys.Backup.Calm.{snapshot-Calm}

abbrev is_wait_body : Body → Bool
is_wait_body (restore_wait csrf safety) = true
is_wait_body _ = false

-- The page that waits for the restart.
abbrev pub is_wait : Response → Bool
is_wait res = is_wait_body res.body

-- Of the data directory, a request changes the temporary file at most.
unfoldable pub IsUntouched : Dict Bytes → Bool → Server → Type 0
IsUntouched files restarting t =
    ((n : Text) → same temporary_file n ≡ false → lookup n t.disk.data_files ≡ lookup n files)
    × (t.restarting ≡ restarting)

-- The content is staged, and the other files are as they were, but for the temporary one.
unfoldable pub IsReady : Bytes → Dict Bytes → Server → Type 0
IsReady c files t =
    (lookup pending_file t.disk.data_files ≡ some c)
    × ((n : Text)
        → same temporary_file n ≡ false
        → same pending_file n ≡ false
        → lookup n t.disk.data_files ≡ lookup n files)

-- The backup that the request chose holds the bytes: its upload, or the file that it names.
unfoldable pub IsChosen : Request → Upload → Dict File → Bytes → Type 0
IsChosen r upload backups b =
    ((form_value r (codes "source") ≡ codes "upload") × ((n : Text) × (upload ≡ uploaded n b)))
    ⊎ ((form_value r (codes "source") ≡ codes "existing")
        × (lookup (form_value r (codes "existing_name")) backups ≡ some (plain b)))

module _ (fs : Formats) (files : Dict Bytes) (flag : Bool) (Chosen : Bytes → Type 0) where
  unfoldable pub Ends : Response → Server → Type 0
  Ends res t =
      ((is_wait res ≡ false) × IsUntouched files flag t)
      ⊎ ((is_wait res ≡ true)
          × ((b : Bytes) × Chosen b
              × (validate_content fs (take Backups.max_restore_bytes b) ≡ ok tt)
              × IsReady (take Backups.max_restore_bytes b) files t))

  unfoldable pub Untouched : Server → Type 0
  Untouched = IsUntouched files flag

  -- The temporary file holds the content.
  Holding : Bytes → Server → Type 0
  Holding c t = Untouched t × (lookup temporary_file t.disk.data_files ≡ some c)

  pub show_error-Ends :
      (sess : Session) (message : Text) → Runs Untouched Untouched (show_error sess message) Ends
  unfolding render_settings Untouched IsUntouched Ends
  show_error-Ends sess message =
      Runs-bind (attempt totp_enabled) _ (λ _. Untouched) Ends
        (Runs-attempt totp_enabled _ (λ s h. h) λ s x h e. h)
        λ x. record { at = λ s h. inl (refl, h) }

  remove_temporary :
      (d : Disk) (n : Text)
      → same temporary_file n ≡ false
      → lookup n (remove_file temporary_file d).1.data_files ≡ lookup n d.data_files
  remove_temporary d n h = elim (remove_file-cases temporary_file d) [
    | inl e ↦ ap (lookup n) e
    | inr (o, e) ↦ ap (lookup n) e ∙ ground (arith, lookup-erase temporary_file n d.data_files)
  ]

  give_up-Ends :
      (sess : Session) (message : Text)
      → Runs Untouched Untouched
          (attempt_disk (remove_file temporary_file) >> show_error sess message)
          Ends
  unfolding Untouched IsUntouched
  give_up-Ends sess message =
      Runs-bind (attempt_disk (remove_file temporary_file)) _ (λ _. Untouched) Ends
        (Runs-attempt_disk _ _ (λ s (h, f) _. (λ n k. remove_temporary s.disk n k ∙ h n k, f))
          λ s x (h, f) e. (λ n k. remove_temporary s.disk n k ∙ h n k, f))
        λ _. show_error-Ends sess message

  snapshot-Holding :
      (keep : ℕ) (b : Bytes) (s : Server)
      → Holding b s
      → Holding b (after_host s (snapshot fs keep (host_of s)).1)
  unfolding Holding Untouched IsUntouched
  snapshot-Holding keep b s ((h, f), k) =
      let e = (snapshot-Calm fs keep).at (host_of s) in
      ((λ n d. ap (lookup n) e ∙ h n d, f), ap (lookup temporary_file) e ∙ k)

  -- What the renaming leaves, by its result.
  Moved : Bytes → Result (Unit {0}) → Server → Type 0
  Moved c (ok u) = IsReady c files
  Moved c (err e) = Untouched

  renamed-Ends :
      (sess : Session) (b : Bytes) (name : Text) (x : Result (Unit {0}))
      → Chosen b
      → validate_content fs (take Backups.max_restore_bytes b) ≡ ok tt
      → Runs Untouched
          (Moved (take Backups.max_restore_bytes b) x)
          (Backups.renamed fs sess name x)
          Ends
  unfolding Ends Moved IsReady
  renamed-Ends sess b name (ok u) c v = record { at = λ s h. inr (refl, (b, c, v, h)) }
  renamed-Ends sess b name (err e) c v = give_up-Ends sess _

  IsReady-renamed :
      (c : Bytes) (d : Disk)
      → ((n : Text) → same temporary_file n ≡ false → lookup n d.data_files ≡ lookup n files)
      → lookup temporary_file d.data_files ≡ some c
      → (((rename_file temporary_file pending_file d).0 ≡ ok tt)
          × (lookup pending_file (rename_file temporary_file pending_file d).1.data_files ≡ some c)
          × ((n : Text)
              → same temporary_file n ≡ false
              → same pending_file n ≡ false
              → lookup n (rename_file temporary_file pending_file d).1.data_files ≡ lookup n files))
        ⊎ (((rename_file temporary_file pending_file d).0 ≡ err io_failed)
            × ((rename_file temporary_file pending_file d).1.data_files ≡ d.data_files))
  unfolding text_dec
  IsReady-renamed c d h k = elim (rename_file-cases temporary_file pending_file d c k) [
    | inl r ↦ inr r
    | inr (o, e) ↦ inl (
      o,
      ap (lookup pending_file) e
          ∙ lookup-insert pending_file pending_file c (erase temporary_file d.data_files),
      λ n a b.
          ap (lookup n) e
          ∙ ground (
            arith,
            lookup-insert pending_file n c (erase temporary_file d.data_files),
            lookup-erase temporary_file n d.data_files,
            h n a,
          ),
    )
  ]

  rename-Moved :
      (c : Bytes)
      → Runs Untouched
          (Holding c)
          (attempt_disk (rename_file temporary_file pending_file))
          (Moved c)
  unfolding Holding Untouched IsUntouched IsReady Moved
  rename-Moved c =
      Runs-attempt_disk _ _
        (λ s ((h, f), k) e. elim (IsReady-renamed c s.disk h k) [
          | inl (o, p, q) ↦ absurd (cc)
          | inr (o, d) ↦ absurd (cc)
        ])
        λ s x ((h, f), k) e. elim (IsReady-renamed c s.disk h k) [
          | inl (o, p, q) ↦ subst (λ y. Moved c y (after_rename s)) (sym o ∙ e) (p, q)
          | inr (o, d) ↦
              subst (λ y. Moved c y (after_rename s)) (sym o ∙ e)
                (λ n a. ap (lookup n) d ∙ h n a, f)
        ]
    where
      after_rename : Server → Server
      after_rename s = record s { disk = (rename_file temporary_file pending_file s.disk).1 }

  snapshot_then-Ends :
      (sess : Session) (b : Bytes)
      → Chosen b
      → validate_content fs (take Backups.max_restore_bytes b) ≡ ok tt
      → Runs Untouched
          (Holding (take Backups.max_restore_bytes b))
          (Backups.snapshot_then fs sess)
          Ends
  unfolding Holding
  snapshot_then-Ends sess b c v = record {
    at = λ s k.
        (Runs-bind (attempt_host (snapshot fs s.schedule.keep)) _
            (λ _. Holding (take Backups.max_restore_bytes b)) Ends
            (Runs-attempt_host _ _
              (λ t h. (snapshot-Holding s.schedule.keep (take Backups.max_restore_bytes b) t h).0)
              λ t x h e. snapshot-Holding s.schedule.keep (take Backups.max_restore_bytes b) t h)
            λ x.
              Runs-bind (attempt_disk (rename_file temporary_file pending_file)) _
                (λ y. Moved (take Backups.max_restore_bytes b) y) Ends
                (rename-Moved (take Backups.max_restore_bytes b))
                λ y. renamed-Ends sess b (Backups.safety fs sess x) y c v).at
          s k;
  }

  Checked : Bytes → Result (Unit {0}) → Server → Type 0
  Checked c x t = Holding c t × ((x ≡ validate_content fs c) ⊎ (x ≡ err io_failed))

  validated-Ends :
      (sess : Session) (b : Bytes) (x : Result (Unit {0}))
      → Chosen b
      → Runs Untouched
          (Checked (take Backups.max_restore_bytes b) x)
          (Backups.validated fs sess x)
          Ends
  unfolding Checked Holding
  validated-Ends sess b (err e) c =
      Runs-weaken Untouched _ Ends (λ s ((h, _), _). h) (give_up-Ends sess _)
  validated-Ends sess b (ok u) c = record {
    at = λ s (h, v). elim v [
      | inl e ↦ (snapshot_then-Ends sess b c (sym e)).at s h
      | inr e ↦ absurd (cc)
    ];
  }

  -- A call that leaves the data directory alone.
  still_Holding :
      (c : Bytes) (s : Server) (d : Disk)
      → d.data_files ≡ s.disk.data_files
      → Holding c s
      → Holding c (record s { disk = d })
  unfolding Holding Untouched IsUntouched
  still_Holding c s d e ((h, f), k) =
      ((λ n a. ap (lookup n) e ∙ h n a, f), ap (lookup temporary_file) e ∙ k)

  written_lem :
      (c : Bytes) (d : Disk)
      → (((write_file temporary_file c d).0 ≡ ok tt)
          × ((write_file temporary_file c d).1.data_files ≡ insert temporary_file c d.data_files))
        ⊎ (((write_file temporary_file c d).0 ≡ err io_failed)
            × ((write_file temporary_file c d).1.data_files ≡ d.data_files))
  unfolding write_file io
  written_lem c d = elim (Bool-cases (next_fault d.io_faults).0) [
    | inl f ↦ inr (rw f (refl, refl))
    | inr f ↦ inl (rw f (refl, refl))
  ]

  Written : Bytes → Result (Unit {0}) → Server → Type 0
  Written c (ok u) = Holding c
  Written c (err e) = Untouched

  write_file-Written :
      (c : Bytes)
      → Runs Untouched Untouched (attempt_disk (write_file temporary_file c)) (Written c)
  unfolding Holding Untouched IsUntouched Written text_dec
  write_file-Written c =
      Runs-attempt_disk _ _
        (λ s (h, f) e. elim (written_lem c s.disk) [
          | inl (o, d) ↦ absurd (cc)
          | inr (o, d) ↦ absurd (cc)
        ])
        λ s x (h, f) e. elim (written_lem c s.disk) [
          | inl (o, d) ↦
              subst (λ y. Written c y (after_write s)) (sym o ∙ e)
                (
                  (
                    λ n a.
                        ap (lookup n) d
                        ∙ ground (arith, lookup-insert temporary_file n c s.disk.data_files, h n a),
                    f,
                  ),
                  ap (lookup temporary_file) d
                      ∙ lookup-insert temporary_file temporary_file c s.disk.data_files,
                )
          | inr (o, d) ↦
              subst (λ y. Written c y (after_write s)) (sym o ∙ e)
                (λ n a. ap (lookup n) d ∙ h n a, f)
        ]
    where
      after_write : Server → Server
      after_write s = record s { disk = (write_file temporary_file c s.disk).1 }

  held : {c : Bytes} (s : Server) → Holding c s → lookup temporary_file s.disk.data_files ≡ some c
  unfolding Holding
  held s (h, k) = k

  copied-Ends :
      (sess : Session) (b : Bytes) (x : Result (Unit {0}))
      → Chosen b
      → Runs Untouched
          (Written (take Backups.max_restore_bytes b) x)
          (Backups.copied fs sess x)
          Ends
  unfolding Written Checked Holding
  copied-Ends sess b (err e) c = give_up-Ends sess _
  copied-Ends sess b (ok u) c =
      Runs-bind (attempt_disk (validate_vault_file fs temporary_file)) _
        (Checked (take Backups.max_restore_bytes b)) Ends
        (Runs-attempt_disk _ _
          (λ s h e. (still_Holding (take Backups.max_restore_bytes b) s _ (read s h).0 h).0)
          λ s x h e. (
            still_Holding (take Backups.max_restore_bytes b) s _ (read s h).0 h,
            elim (read s h).1 [ inl k ↦ inl (sym e ∙ k) | inr k ↦ inr (sym e ∙ k) ],
          ))
        λ x. validated-Ends sess b x c
    where
      read :
          (s : Server)
          → Holding (take Backups.max_restore_bytes b) s
          → ((validate_vault_file fs temporary_file s.disk).1.data_files ≡ s.disk.data_files)
            × (((validate_vault_file fs temporary_file s.disk).0
                  ≡ validate_content fs (take Backups.max_restore_bytes b))
                ⊎ ((validate_vault_file fs temporary_file s.disk).0 ≡ err io_failed))
      read s h =
          validate-cases fs temporary_file (take Backups.max_restore_bytes b) s.disk (held s h)

  unfoldable pub ChosenSource : Backups.Source → Type 0
  ChosenSource (Backups.content b) = Chosen b
  ChosenSource Backups.unreadable = Unit
  ChosenSource (Backups.refused m) = Unit

  copy_from-Ends :
      (sess : Session) (source : Backups.Source)
      → ChosenSource source
      → Runs Untouched Untouched (Backups.copy_from fs sess source) Ends
  unfolding ChosenSource
  copy_from-Ends sess (Backups.content b) c =
      Runs-bind _ _ (Written (take Backups.max_restore_bytes b)) Ends
        (write_file-Written (take Backups.max_restore_bytes b)) λ x. copied-Ends sess b x c
  copy_from-Ends sess Backups.unreadable c = give_up-Ends sess _
  copy_from-Ends sess (Backups.refused m) c = show_error-Ends sess m

  created-Ends :
      (sess : Session) (source : Backups.Source) (x : Result (Unit {0}))
      → ChosenSource source
      → Runs Untouched (Written [] x) (Backups.created fs sess source x) Ends
  unfolding Written Holding
  created-Ends sess source (err e) c = show_error-Ends sess _
  created-Ends sess source (ok u) c =
      Runs-weaken Untouched _ Ends (λ s (h, _). h) (copy_from-Ends sess source c)

  staged_from :
      (sess : Session) (source : Backups.Source)
      → ChosenSource source
      → Runs Untouched Untouched
          (attempt_disk (write_file temporary_file []) >>= Backups.created fs sess source)
          Ends
  staged_from sess source c =
      Runs-bind _ _ (Written []) Ends (write_file-Written []) λ x. created-Ends sess source x c

  pub stage-Ends :
      (sess : Session) (source : Backups.Source)
      → ChosenSource source
      → Runs Untouched Untouched (Backups.stage fs sess source) Ends
  unfolding ChosenSource
  stage-Ends sess (Backups.content b) c = staged_from sess (Backups.content b) c
  stage-Ends sess Backups.unreadable c = staged_from sess Backups.unreadable c
  stage-Ends sess (Backups.refused m) c = show_error-Ends sess m

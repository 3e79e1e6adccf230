-- ===== src/Backup/Calm.antt =====
-- The scheduler of internal/backup/backup.go does not touch the data directory.
use grafted_keys.Prelude.{
  ℕ, ◌≡◌, inl, inr, refl, ◌∙◌, Bool-cases, Option, none, some, List, [], ◌∷◌, drop, Text, Bytes,
  Dict, lookup, erase,
}
use grafted_keys.Exec.{Exec, Result, ok, err, pure, ◌>>=◌, continue_keeps}
use grafted_keys.Store.Schema.{World, next_fault, query}
use grafted_keys.Crypto.{rand_id}
use grafted_keys.Backup.{
  host_now, snapshot_name, finished, written, File, plain, folder, Disk, Host, Formats, io, on_disk,
  on_world, make_folder, write_new, prune, prune_after, snapshot, snapshots, sort_names,
  read_backups, remove_each, remove_backup,
}

Stays : {A : Type 0} → Dict Bytes → Result (A × Disk) → Type 0
Stays files (ok (a, d)) = d.data_files ≡ files
Stays files (err e) = Unit

io_same :
    {A : Type 0} (f : Disk → Result (A × Disk)) (d : Disk)
    → ((e : Disk) → Stays e.data_files (f e))
    → (io f d).1.data_files ≡ d.data_files
unfolding io Stays
io_same {A} f d k = elim (Bool-cases (next_fault d.io_faults).0) [
  | inl e ↦ rw e refl
  | inr e ↦ rw e (after (f (record d { io_faults = (next_fault d.io_faults).1 })) (k _))
]
  where
    after :
        (x : Result (A × Disk))
        → Stays d.data_files x
        → (finished (record d { io_faults = (next_fault d.io_faults).1 }) x).1.data_files
          ≡ d.data_files
    after (ok (a, g)) h = h
    after (err e) h = refl

make_folder-same : (d : Disk) → (make_folder d).1.data_files ≡ d.data_files
unfolding make_folder Stays
make_folder-same d = io_same (λ e. ok (tt, e)) d λ e. refl

written-Stays :
    (name : Text) (b : Bytes) (d : Disk) (o : Option File) → Stays d.data_files (written name b d o)
unfolding Stays
written-Stays name b d none = refl
written-Stays name b d (some (plain [])) = refl
written-Stays name b d (some (plain (c ∷ cs))) = tt
written-Stays name b d (some folder) = tt

write_new-same :
    (name : Text) (b : Bytes) (d : Disk) → (write_new name b d).1.data_files ≡ d.data_files
unfolding write_new
write_new-same name b d =
    io_same (λ e. written name b e (lookup name e.backups)) d
      λ e. written-Stays name b e (lookup name e.backups)

remove_each-same :
    (names : List Text) (d : Disk) → (remove_each names d).1.data_files ≡ d.data_files
unfolding remove_each remove_backup Stays
remove_each-same [] d = refl
remove_each-same (n ∷ ns) d =
    continue_keeps (λ t. t.data_files ≡ d.data_files) (remove_backup n d).0 (λ _. remove_each ns)
      (remove_backup n d).1
      (io_same (λ e. ok (tt, record e { backups = erase n e.backups })) d λ e. refl)
      λ _ t k. remove_each-same ns t ∙ k

prune-same : (keep : ℕ) (d : Disk) → (prune keep d).1.data_files ≡ d.data_files
unfolding prune read_backups Stays
prune-same keep d =
    continue_keeps (λ t. t.data_files ≡ d.data_files) (read_backups d).0
      (λ entries. remove_each (drop keep (sort_names (snapshots entries)))) (read_backups d).1
      (io_same (λ e. ok (e.backups, e)) d λ e. refl) λ entries t k. remove_each-same _ t ∙ k

-- Each step of a snapshot leaves the data directory alone.
pub record Calm {A : Type 0} (m : Exec Host A) : Type 0 where
  pub at : (h : Host) → (m h).1.disk.data_files ≡ h.disk.data_files

Calm-bind :
    {A B : Type 0} (m : Exec Host A) (f : A → Exec Host B)
    → Calm m
    → ((a : A) → Calm (f a))
    → Calm (m >>= f)
Calm-bind m f c k = record {
  at = λ h.
      continue_keeps (λ (t : Host). t.disk.data_files ≡ h.disk.data_files) (m h).0 f (m h).1
        (c.at h) λ a t e. (k a).at t ∙ e;
}

Calm-on_world : {A : Type 0} (m : Exec World A) → Calm (on_world m)
Calm-on_world m = record { at = λ h. refl }

Calm-on_disk :
    {A : Type 0} (m : Exec Disk A)
    → ((d : Disk) → (m d).1.data_files ≡ d.data_files)
    → Calm (on_disk m)
Calm-on_disk m k = record { at = λ h. k h.disk }

pub snapshot-Calm : (fs : Formats) (keep : ℕ) → Calm (snapshot fs keep)
unfolding snapshot prune_after
snapshot-Calm fs keep = Calm-bind (on_disk make_folder) _ (Calm-on_disk _ make_folder-same) λ _.
    Calm-bind host_now _ (record { at = λ h. refl })
      λ now. Calm-bind (on_world rand_id) _ (Calm-on_world _) λ id.
        Calm-bind (on_world (query λ db. db)) _ (Calm-on_world _) λ db.
          Calm-bind (on_disk (write_new (snapshot_name (fs.format_time now) id) (fs.image db))) _
            (Calm-on_disk _ (write_new-same _ _))
            λ _.
              Calm-bind (prune_after keep) (λ _. pure (snapshot_name (fs.format_time now) id))
                (record { at = λ h. prune-same keep h.disk }) λ _. record { at = λ h. refl }

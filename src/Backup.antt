-- ===== src/Backup.antt =====
-- internal/backup/backup.go, and the files it works on. A call of package os is one step, which the
-- outside world may fail.
mod Order
pub mod Pruning
pub mod Waiting
pub mod Names
pub mod Calm
mod Tests
use grafted_keys.Prelude.{
  ℕ, ◌++◌, ◌-◌, ◌+◌, ◌*◌, Bool, true, false, not, ◌&&◌, Option, none, some, List, [], ◌∷◌,
  if◌then◌else◌, ltb, leb, ◌==◌, length, drop, take, Text, Bytes, codes, same, Dict, lookup, insert,
  erase, select, ℤ,
}
use grafted_keys.Exec.{
  Error, Exec, Result, ok, err, pure, ◌>>=◌, ◌>>◌, io_failed, constraint_failed,
}
use grafted_keys.Store.Schema.{World, Db, query, next_fault}
use grafted_keys.Crypto.{rand_id}
use grafted_keys.Vault.Search.{has_prefix}

-- A directory entry.
pub data File : Type 0 where
  plain : Bytes → File
  folder : File

-- The entries of the backup directory and the files of the data directory, by name, and whether the
-- next calls fail (none of them when the list has ended).
pub record Disk : Type 0 where
  pub backups : Dict File
  pub data_files : Dict Bytes
  pub io_faults : List Bool

abbrev pub finished : {A : Type 0} → Disk → Result (A × Disk) → Result A × Disk
finished d (ok (a, e)) = (ok a, e)
finished d (err e) = (err e, d)

-- One call.
unfoldable pub io : {A : Type 0} → (Disk → Result (A × Disk)) → Exec Disk A
io f d =
    let (fault, rest) = next_fault d.io_faults in
    if fault
    then (err io_failed, record d { io_faults = rest })
    else finished (record d { io_faults = rest }) (f (record d { io_faults = rest }))

abbrev pub backup_prefix : Text
backup_prefix = codes "grafted-"

abbrev pub backup_suffix : Text
backup_suffix = codes ".db"

-- `strings.HasSuffix`
abbrev has_suffix : Text → Text → Bool
has_suffix t suffix =
    leb (length suffix) (length t) && same (drop (length t - length suffix) t) suffix

abbrev pub is_snapshot : Text → File → Bool
is_snapshot name folder = false
is_snapshot name (plain b) = has_prefix name backup_prefix && has_suffix name backup_suffix

-- The names of the snapshots in a directory.
unfoldable pub snapshots : Dict File → List Text
snapshots [] = []
snapshots ((name, f) ∷ d) =
    let rest = snapshots d in if is_snapshot name f then name ∷ rest else rest

-- `a < b` on Go strings.
unfoldable pub text_lt : Text → Text → Bool
text_lt a [] = false
text_lt [] (y ∷ b) = true
text_lt (x ∷ a) (y ∷ b) =
    let rest = text_lt a b in if ltb x y then true else if x == y then rest else false

-- `sort.Sort(sort.Reverse(…))`
unfoldable pub insert_name : Text → List Text → List Text
insert_name n [] = n ∷ []
insert_name n (m ∷ ms) = let rest = insert_name n ms in if text_lt n m then m ∷ rest else n ∷ m ∷ ms

unfoldable pub sort_names : List Text → List Text
unfolding insert_name
sort_names [] = []
sort_names (n ∷ ns) = insert_name n (sort_names ns)

-- `os.ReadDir` and `os.Remove` in the backup directory.
unfoldable pub read_backups : Exec Disk (Dict File)
unfolding io
read_backups = io λ d. ok (d.backups, d)

unfoldable pub remove_backup : Text → Exec Disk (Unit {0})
unfolding io
remove_backup name = io λ d. ok (tt, record d { backups = erase name d.backups })

unfoldable pub remove_each : List Text → Exec Disk (Unit {0})
unfolding remove_backup
remove_each [] = pure tt
remove_each (n ∷ ns) = remove_backup n >> remove_each ns

unfoldable pub prune : ℕ → Exec Disk (Unit {0})
unfolding read_backups remove_each snapshots sort_names
prune keep = do entries ← read_backups; remove_each (drop keep (sort_names (snapshots entries)))

-- What the operations on files stand on: the time in the name of a snapshot, the file that `VACUUM
-- INTO` writes, and what a file holds, where it can be read: its `user_version` and the number of
-- its vault rows.
pub record Formats : Type 0 where
  pub format_time : ℕ → Text
  pub image : Db → Bytes
  pub user_version : Bytes → Option ℤ
  pub vault_rows : Bytes → Option ℕ

pub record Host : Type 0 where
  pub world : World
  pub disk : Disk

abbrev pub on_world : {A : Type 0} → Exec World A → Exec Host A
on_world m h = ((m h.world).0, record h { world = (m h.world).1 })

abbrev pub on_disk : {A : Type 0} → Exec Disk A → Exec Host A
on_disk m h = ((m h.disk).0, record h { disk = (m h.disk).1 })

-- `os.MkdirAll`, of a directory that is there.
unfoldable pub make_folder : Exec Disk (Unit {0})
unfolding io
make_folder = io λ d. ok (tt, d)

-- `VACUUM INTO` writes no file that is there and has content.
abbrev pub written : Text → Bytes → Disk → Option File → Result (Unit {0} × Disk)
written name content d none = ok (tt, record d { backups = insert name (plain content) d.backups })
written name content d (some (plain [])) =
    ok (tt, record d { backups = insert name (plain content) d.backups })
written name content d (some f) = err constraint_failed

unfoldable pub write_new : Text → Bytes → Exec Disk (Unit {0})
unfolding io
write_new name content = io λ d. written name content d (lookup name d.backups)

abbrev pub snapshot_name : Text → Text → Text
snapshot_name time id = backup_prefix ++ (time ++ (codes "-" ++ (take 6 id ++ backup_suffix)))

-- `time.Now()`
abbrev pub host_now : Exec Host ℕ
host_now h = (ok h.world.now, h)

-- The error of the pruning is logged.
unfoldable pub prune_after : ℕ → Exec Host (Unit {0})
unfolding prune
prune_after keep h = (ok tt, record h { disk = (prune keep h.disk).1 })

-- The result is the name of the file in the backup directory.
unfoldable pub snapshot : Formats → ℕ → Exec Host Text
unfolding make_folder write_new prune_after rand_id query
snapshot fs keep = do
  on_disk make_folder
  now ← host_now
  id ← on_world rand_id
  db ← on_world (query λ db. db)
  on_disk (write_new (snapshot_name (fs.format_time now) id) (fs.image db))
  prune_after keep
  pure (snapshot_name (fs.format_time now) id)

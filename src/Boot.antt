-- ===== src/Boot.antt =====
-- The start of the process in cmd/grafted/main.go: the restore that a former run staged, before the
-- database is opened; and `ValidateVaultFile` of internal/store/store.go, on what a file holds.
pub mod Swapping
pub mod Recovery
pub mod Tests
use grafted_keys.Prelude.{
  ℕ, ◌++◌, Bool, true, false, ◌&&◌, Option, none, some, List, [], ◌∷◌, if◌then◌else◌, ltb, leb,
  ◌==◌, Text, Bytes, codes, Dict, lookup, insert, erase, ℤ, pos, negsuc,
}
use grafted_keys.Exec.{
  Error, Exec, Result, ok, err, pure, raise, ◌>>=◌, ◌>>◌, io_failed, not_exist, not_a_database,
  unsupported_version, no_vault,
}
use grafted_keys.Backup.{Disk, io, Formats}

-- `len(migrations)`
abbrev pub schema_version : ℕ
schema_version = 4

abbrev is_supported : ℤ → Bool
is_supported (pos v) = leb 1 v && leb v schema_version
is_supported (negsuc n) = false

abbrev count_checked : Option ℕ → Result (Unit {0})
count_checked none = err no_vault
count_checked (some n) = if n == 1 then ok tt else err no_vault

abbrev version_checked : Option ℤ → Option ℕ → Result (Unit {0})
version_checked none rows = err not_a_database
version_checked (some v) rows =
    if is_supported v then count_checked rows else err unsupported_version

-- `ValidateVaultFile`, on the content of the file.
unfoldable pub validate_content : Formats → Bytes → Result (Unit {0})
validate_content fs content = version_checked (fs.user_version content) (fs.vault_rows content)

abbrev pub pending_file : Text
pending_file = codes "restore-pending.db"

abbrev pub temporary_file : Text
temporary_file = codes "restore-pending.db.tmp"

abbrev pub live_file : Text
live_file = codes "grafted.db"

-- The write-ahead log and its index.
abbrev pub sidecars : List Text
sidecars = codes "-wal" ∷ codes "-shm" ∷ []

-- ---- package os, in the data directory ----

abbrev here : {A : Type 0} → Disk → Option A → Result (A × Disk)
here d none = err not_exist
here d (some a) = ok (a, d)

unfoldable pub read_file : Text → Exec Disk Bytes
unfolding io
read_file name = io λ d. here d (lookup name d.data_files)

abbrev removed : Text → Disk → Option Bytes → Result (Unit {0} × Disk)
removed name d none = err not_exist
removed name d (some b) = ok (tt, record d { data_files = erase name d.data_files })

unfoldable pub remove_file : Text → Exec Disk (Unit {0})
unfolding io
remove_file name = io λ d. removed name d (lookup name d.data_files)

abbrev renamed : Text → Text → Disk → Option Bytes → Result (Unit {0} × Disk)
renamed old new d none = err not_exist
renamed old new d (some b) =
    ok (tt, record d { data_files = insert new b (erase old d.data_files) })

unfoldable pub rename_file : Text → Text → Exec Disk (Unit {0})
unfolding io
rename_file old new = io λ d. renamed old new d (lookup old d.data_files)

-- The opening and the reading of a file, and the checks.
unfoldable pub validate_vault_file : Formats → Text → Exec Disk (Unit {0})
unfolding read_file validate_content
validate_vault_file fs name = do content ← read_file name; λ d. (validate_content fs content, d)

-- ---- applyPendingRestore ----

-- A call whose error is looked at by `f`.
abbrev pub tried : {A B : Type 0} → Exec Disk A → (Result A → Exec Disk B) → Exec Disk B
tried m f d = f (m d).0 (m d).1

abbrev pub or_absent : Result (Unit {0}) → Exec Disk (Unit {0})
or_absent (ok u) = pure tt
or_absent (err not_exist) = pure tt
or_absent (err e) = raise e

unfoldable pub clear_each : List Text → Exec Disk (Unit {0})
unfolding remove_file
clear_each [] = pure tt
clear_each (suffix ∷ rest) = tried (remove_file (live_file ++ suffix)) or_absent >> clear_each rest

unfoldable pub swap_in : Exec Disk (Unit {0})
unfolding clear_each rename_file
swap_in = clear_each ([] ∷ sidecars) >> rename_file pending_file live_file

-- A staged file that is invalid, or that cannot be read, is removed; an error of that is dropped.
abbrev after_validation : Result (Unit {0}) → Exec Disk (Unit {0})
after_validation (ok u) = swap_in
after_validation (err e) = tried (remove_file pending_file) λ _. pure tt

abbrev after_stat : Formats → Result Bytes → Exec Disk (Unit {0})
after_stat fs (err e) = pure tt
after_stat fs (ok content) = tried (validate_vault_file fs pending_file) after_validation

unfoldable pub apply_pending_restore : Formats → Exec Disk (Unit {0})
unfolding read_file validate_vault_file swap_in
apply_pending_restore fs = tried (read_file pending_file) (after_stat fs)

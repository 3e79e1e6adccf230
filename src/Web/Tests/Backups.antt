-- ===== src/Web/Tests/Backups.antt =====
-- An upload that is staged, a request that does not confirm, and the name of a snapshot.
use grafted_keys.Prelude.{
  ℕ, ◌≡◌, ◌+◌, ◌*◌, ◌^◌, ◌≤◌, ◌<◌, ◌⊎◌, some, get_elem?, arith, refl, [], ◌∷◌, Bytes, codes,
  text_dec, take, lookup, insert,
}
use grafted_keys.Vault.Search.{has_prefix}
use grafted_keys.Web.Settings.{render_settings}
use grafted_keys.Exec.{Result, ok, err}
use grafted_keys.Crypto.{base32, rand_id}
use grafted_keys.Backup.{snapshot_name}
use grafted_keys.Vault.Tests.{dek, start}
use grafted_keys.Boot.{apply_pending_restore}
use grafted_keys.Boot.Recovery.{restarted}
use grafted_keys.Boot.Swapping.{IsRestored}
use grafted_keys.Boot.Tests.{formats}
use grafted_keys.Web.Server.{Request, Response, respond, restore_wait}
use grafted_keys.Web.Secrets.{Upload, uploaded}
use grafted_keys.Web.Backups.{safe_backup_path, restore, max_restore_bytes}
use grafted_keys.Backup.Names.{matches}
use grafted_keys.Web.Sizes.{bytes, units, human_size, human_size_ends}
use grafted_keys.Web.Backups.Names.{safe_backup_path-snapshot_name}
use grafted_keys.Web.Backups.Staging.{IsUntouched, IsChosen}
use grafted_keys.Web.Backups.Choice.{restore_refused, restore_restores}
use grafted_keys.Web.Tests.{library, mine, server, posted}

abbrev upload : Upload
upload = uploaded (codes "old.db") (9 ∷ [])

abbrev confirmed : Request
confirmed =
    posted mine ((codes "confirm", codes "restore backup") ∷ (codes "source", codes "upload") ∷ [])

abbrev unconfirmed : Request
unconfirmed = posted mine ((codes "confirm", codes "yes") ∷ (codes "source", codes "upload") ∷ [])

abbrev wait_page : Response
wait_page = respond 200 [] (
    restore_wait mine.csrf
      (snapshot_name (codes "20250131-235959") (base32 (take 16 server.entropy))))

abbrev page : Result Response → Response
page (ok x) = x
page (err e) = wait_page

abbrev refusal : Response
refusal = page (restore library formats upload unconfirmed mine dek server).0

restore_restores_example :
    (b : Bytes) × IsChosen confirmed upload server.disk.backups b
    × IsRestored
        (take max_restore_bytes b)
        (apply_pending_restore formats (
          restarted (restore library formats upload confirmed mine dek server).1.disk)).1.data_files
unfolding text_dec restore lookup insert has_prefix base32
restore_restores_example =
    restore_restores library formats confirmed upload mine dek server wait_page refl refl

restore_refused_example :
    IsUntouched server.disk.data_files server.restarting
      (restore library formats upload unconfirmed mine dek server).1
unfolding text_dec restore lookup render_settings
restore_refused_example =
    restore_refused library formats unconfirmed upload mine dek server refusal refl refl

safe_backup_path-snapshot_name_example :
    safe_backup_path (snapshot_name (codes "20250131-235959") (base32 (take 16 start.entropy)))
    ≡ some (snapshot_name (codes "20250131-235959") (base32 (take 16 start.entropy)))
unfolding matches rand_id
safe_backup_path-snapshot_name_example =
    safe_backup_path-snapshot_name (codes "20250131-235959") (base32 (take 16 start.entropy)) start
      refl refl

human_size_ends_example :
    ((5000 < 1024) × (human_size 6 5000 ≡ some (bytes 5000)))
    ⊎ ((exp : ℕ) × (letter : ℕ) × (human_size 6 5000 ≡ some (units 5000 (1024 ^ (exp + 1)) letter))
        × (get_elem? (codes "KMGTPE") exp ≡ some letter)
        × (1024 ^ (exp + 1) ≤ 5000)
        × (5000 < 1024 * 1024 ^ (exp + 1)))
human_size_ends_example = human_size_ends 5000 (omega arith)
